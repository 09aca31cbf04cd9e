-- ===== src/Campaign/Batch/Deliveries.antt =====
-- What a message changes of the deliveries, and a mark of the rows.
use nvelope.Common.{
  refl, if◌then◌else◌, ◌≡◌, All, ◌≤◌, update_where, Bool-cases, [], arith, ◌==◌, ◌∙◌, inl, inr,
}
use nvelope.Campaign.Domain.{Recipient, is_pending}
use nvelope.Campaign.Recipients.{recipient_id_is}
use nvelope.Campaign.Batch.{
  Messenger, OutboundMessage, Bool, List, ℕ, false, exists_where, ◌∷◌, true,
}

-- Rows that a mark settles, and rows that it leaves.
pub settled {ℓ κ μ} :
    {A : Type ℓ} (P : A → Type κ) (Q : A → Type μ) (test : A → Bool) (f : A → A) (rows : List A)
    → ((a : A) → test a ≡ false → Q a → P a)
    → ((a : A) → P (f a))
    → All Q rows
    → All P (update_where test f rows)
settled P Q test f [] left changed h = tt
settled P Q test f (x ∷ rows) left changed h =
    (head (test x) refl, settled P Q test f rows left changed h.1)
  where
    head : (b : Bool) → test x ≡ b → P (if b then f x else x)
    head true e = changed x
    head false e = left x e h.0

module _ {M : Type 0} (messenger : Messenger M) where
  -- The row's recipient was not mailed.
  abbrev pub IsUnsent : M → Recipient → Type 0
  IsUnsent m r = messenger.delivered m r.id ≡ 0

  -- A message changes nothing for the other recipients.
  pub later-IsUnsent :
      (m : M) (o : OutboundMessage) (rs : List Recipient)
      → exists_where (recipient_id_is o.recipient_id) rs ≡ false
      → All (IsUnsent m) rs
      → All (IsUnsent (messenger.send m o).1) rs
  later-IsUnsent m o [] e h = tt
  later-IsUnsent m o (s ∷ rs) e h = (
    messenger.others_kept m o s.id (ground (arith, e)) ∙ h.0,
    later-IsUnsent m o rs (ground (arith, e)) h.1,
  )

  pub others-IsUnsent :
      (m : M) (o : OutboundMessage) (rows : List Recipient)
      → All (λ r. is_pending r ≡ true → IsUnsent m r) rows
      → All
          (λ s.
            recipient_id_is o.recipient_id s ≡ false
            → is_pending s ≡ true
            → IsUnsent (messenger.send m o).1 s)
          rows
  others-IsUnsent m o [] h = tt
  others-IsUnsent m o (s ∷ rows) h = (
    λ e p. messenger.others_kept m o s.id (ground (arith, e)) ∙ h.0 p,
    others-IsUnsent m o rows h.1,
  )

  pub send-once :
      (m : M) (o : OutboundMessage) (k : ℕ)
      → ((k : ℕ) → messenger.delivered m k ≤ 1)
      → messenger.delivered m o.recipient_id ≡ 0
      → messenger.delivered (messenger.send m o).1 k ≤ 1
  send-once m o k h z = elim (Bool-cases (k == o.recipient_id)) [
    | inl e ↦
        let q : k ≡ o.recipient_id = ground (arith, e) in
        rw q (omega (arith, messenger.one_each m o, z))
    | inr e ↦ omega (arith, messenger.others_kept m o k (ground (arith, e)), h k)
  ]
