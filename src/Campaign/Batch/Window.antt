-- ===== src/Campaign/Batch/Window.antt =====
-- The window of pending rows: each of them is pending, and no two have one id.
use nvelope.Campaign.Domain.{Recipient, is_pending}
use nvelope.Campaign.Recipients.{
  recipient_id_is, of_campaign, insert_by_id, order_by_id, pending_window,
}
use nvelope.Common.{
  List, ℕ, Bool, ◌∷◌, exists_where, ◌≡◌, select_where, drop, take, All, false, Bool-cases, suc, [],
  true, arith, inl, zero, leb, refl, inr, update_where, ap, ◌∙◌, ◌||◌,
}

-- PRIMARY KEY (id)
abbrev pub DistinctIds : List Recipient → Type 0
DistinctIds [] = Unit
DistinctIds (r ∷ rows) = (exists_where (recipient_id_is r.id) rows ≡ false) × DistinctIds rows

module _ (k : ℕ) where
  exists-select :
      (test : Recipient → Bool) (rows : List Recipient)
      → exists_where (recipient_id_is k) rows ≡ false
      → exists_where (recipient_id_is k) (select_where test rows) ≡ false
  exists-select test [] h = refl
  exists-select test (r ∷ rows) h = ground (arith, exists-select test rows, h)

  exists-drop :
      (n : ℕ) (rows : List Recipient)
      → exists_where (recipient_id_is k) rows ≡ false
      → exists_where (recipient_id_is k) (drop n rows) ≡ false
  exists-drop zero rows h = h
  exists-drop (suc n) [] h = refl
  exists-drop (suc n) (r ∷ rows) h = exists-drop n rows (ground (arith, h))

  exists-take :
      (n : ℕ) (rows : List Recipient)
      → exists_where (recipient_id_is k) rows ≡ false
      → exists_where (recipient_id_is k) (take n rows) ≡ false
  exists-take zero rows h = refl
  exists-take (suc n) [] h = refl
  exists-take (suc n) (r ∷ rows) h = ground (arith, exists-take n rows, h)

  exists-insert :
      (r : Recipient) (rows : List Recipient)
      → recipient_id_is k r ≡ false
      → exists_where (recipient_id_is k) rows ≡ false
      → exists_where (recipient_id_is k) (insert_by_id r rows) ≡ false
  exists-insert r [] e h = ground (arith, e)
  exists-insert r (s ∷ rows) e h = ground (arith, exists-insert r rows, e, h)

  exists-order :
      (rows : List Recipient)
      → exists_where (recipient_id_is k) rows ≡ false
      → exists_where (recipient_id_is k) (order_by_id rows) ≡ false
  unfolding order_by_id
  exists-order [] h = refl
  exists-order (r ∷ rows) h =
      exists-insert r (order_by_id rows) (ground (arith, h)) (exists-order rows (ground (arith, h)))

select-DistinctIds :
    (test : Recipient → Bool) (rows : List Recipient)
    → DistinctIds rows
    → DistinctIds (select_where test rows)
select-DistinctIds test [] h = tt
select-DistinctIds test (r ∷ rows) h = elim (Bool-cases (test r)) [
  | inl t ↦ rw t (exists-select r.id test rows h.0, select-DistinctIds test rows h.1)
  | inr f ↦ rw f (select-DistinctIds test rows h.1)
]

drop-DistinctIds : (n : ℕ) (rows : List Recipient) → DistinctIds rows → DistinctIds (drop n rows)
drop-DistinctIds zero rows h = h
drop-DistinctIds (suc n) [] h = tt
drop-DistinctIds (suc n) (r ∷ rows) h = drop-DistinctIds n rows h.1

take-DistinctIds : (n : ℕ) (rows : List Recipient) → DistinctIds rows → DistinctIds (take n rows)
take-DistinctIds zero rows h = tt
take-DistinctIds (suc n) [] h = tt
take-DistinctIds (suc n) (r ∷ rows) h = (exists-take r.id n rows h.0, take-DistinctIds n rows h.1)

insert-DistinctIds :
    (r : Recipient) (rows : List Recipient)
    → exists_where (recipient_id_is r.id) rows ≡ false
    → DistinctIds rows
    → DistinctIds (insert_by_id r rows)
insert-DistinctIds r [] e h = (refl, tt)
insert-DistinctIds r (s ∷ rows) e h = elim (Bool-cases (leb r.id s.id)) [
  | inl t ↦ rw t (e, h)
  | inr f ↦ rw f (
    exists-insert s.id r rows (ground (arith, e)) h.0,
    insert-DistinctIds r rows (ground (arith, e)) h.1,
  )
]

order-DistinctIds : (rows : List Recipient) → DistinctIds rows → DistinctIds (order_by_id rows)
unfolding order_by_id
order-DistinctIds [] h = tt
order-DistinctIds (r ∷ rows) h =
    insert-DistinctIds r (order_by_id rows) (exists-order r.id rows h.0)
      (order-DistinctIds rows h.1)

pub window-DistinctIds :
    (campaign_id offset limit : ℕ) (rows : List Recipient)
    → DistinctIds rows
    → DistinctIds (pending_window campaign_id offset limit rows)
unfolding pending_window
window-DistinctIds c n m rows h = select-DistinctIds is_pending _ (
    take-DistinctIds m _
      (drop-DistinctIds n _ (order-DistinctIds _ (select-DistinctIds (of_campaign c) rows h))))

module _ {ℓ} (P : Recipient → Type ℓ) where
  All-insert :
      (r : Recipient) (rows : List Recipient) → P r → All P rows → All P (insert_by_id r rows)
  All-insert r [] p h = (p, tt)
  All-insert r (s ∷ rows) p h = elim (Bool-cases (leb r.id s.id)) [
    | inl t ↦ rw t (p, h)
    | inr f ↦ rw f (h.0, All-insert r rows p h.1)
  ]

  All-order : (rows : List Recipient) → All P rows → All P (order_by_id rows)
  unfolding order_by_id
  All-order [] h = tt
  All-order (r ∷ rows) h = All-insert r (order_by_id rows) h.0 (All-order rows h.1)

  All-select :
      (test : Recipient → Bool) (rows : List Recipient)
      → All P rows
      → All P (select_where test rows)
  All-select test [] h = tt
  All-select test (r ∷ rows) h = elim (Bool-cases (test r)) [
    | inl t ↦ rw t (h.0, All-select test rows h.1)
    | inr f ↦ rw f (All-select test rows h.1)
  ]

  All-drop : (n : ℕ) (rows : List Recipient) → All P rows → All P (drop n rows)
  All-drop zero rows h = h
  All-drop (suc n) [] h = tt
  All-drop (suc n) (r ∷ rows) h = All-drop n rows h.1

  All-take : (n : ℕ) (rows : List Recipient) → All P rows → All P (take n rows)
  All-take zero rows h = tt
  All-take (suc n) [] h = tt
  All-take (suc n) (r ∷ rows) h = (h.0, All-take n rows h.1)

  -- What holds of the pending rows holds of the window.
  pub All-pending :
      (rows : List Recipient)
      → All (λ r. is_pending r ≡ true → P r) rows
      → All P (select_where is_pending rows)
  All-pending [] h = tt
  All-pending (r ∷ rows) h = elim (Bool-cases (is_pending r)) [
    | inl t ↦ rw t (h.0 t, All-pending rows h.1)
    | inr f ↦ rw f (All-pending rows h.1)
  ]

pub window-All {ℓ} :
    (P : Recipient → Type ℓ) (campaign_id offset limit : ℕ) (rows : List Recipient)
    → All (λ r. is_pending r ≡ true → P r) rows
    → All P (pending_window campaign_id offset limit rows)
unfolding pending_window
window-All P c n m rows h =
    let Q : Recipient → Type _ = λ r. is_pending r ≡ true → P r in
    All-pending P _
      (All-take Q m _ (All-drop Q n _ (All-order Q _ (All-select Q (of_campaign c) rows h))))

mark-exists :
    (k id : ℕ) (f : Recipient → Recipient)
    → ((s : Recipient) → (f s).id ≡ s.id)
    → (rows : List Recipient)
    → exists_where (recipient_id_is k) (update_where (recipient_id_is id) f rows)
      ≡ exists_where (recipient_id_is k) rows
mark-exists k id f same [] = refl
mark-exists k id f same (r ∷ rows) = elim (Bool-cases (recipient_id_is id r)) [
  | inl t ↦ rw t (rw (same r) (ap (λ b. recipient_id_is k r || b) (mark-exists k id f same rows)))
  | inr e ↦ rw e (ap (λ b. recipient_id_is k r || b) (mark-exists k id f same rows))
]

pub mark-DistinctIds :
    (id : ℕ) (f : Recipient → Recipient)
    → ((s : Recipient) → (f s).id ≡ s.id)
    → (rows : List Recipient) → DistinctIds rows
    → DistinctIds (update_where (recipient_id_is id) f rows)
mark-DistinctIds id f same [] h = tt
mark-DistinctIds id f same (r ∷ rows) h = elim (Bool-cases (recipient_id_is id r)) [
  | inl t ↦
      rw t
        (rw (same r) (mark-exists r.id id f same rows ∙ h.0), mark-DistinctIds id f same rows h.1)
  | inr e ↦ rw e (mark-exists r.id id f same rows ∙ h.0, mark-DistinctIds id f same rows h.1)
]
