-- ===== src/Billing/Backing/Rows.antt =====
-- The tables under the statements: what a search finds, and what an update leaves.
use mathlib.Core.Path.{subst, ap}
use nvelope.Billing.Backing.{Distinct, ◌∷◌, false, billed, paid_for}
use nvelope.Billing.Invoices.{select_earliest, open_for, earlier}
use nvelope.Billing.Invoice.{Invoice, status_paid}
use nvelope.Common.{
  ℕ, ◌≡◌, Bool, List, All, true, select_first, exists_where, some, update_where, ◌<◌, Bool-cases,
  if◌then◌else◌, [], arith, inl, inr, refl, Option, ◌==◌, ==_iff, ◌⊎◌, leb, none,
}
use nvelope.Billing.Invoices

module _ {ℓ κ} {A : Type ℓ} (P : A → Type κ) where
  -- The row that a search finds satisfies the test, and whatever all rows satisfy.
  pub select_first-All :
      (test : A → Bool) (rows : List A) {a : A}
      → All P rows
      → select_first test rows ≡ some a
      → P a × (test a ≡ true)
  select_first-All test [] h e = cc
  select_first-All test (x ∷ rows) {a} h e = elim (Bool-cases (test x)) [
    | inl t ↦ let q : x ≡ a = ground (arith, t) in (subst P q h.0, rw (← q) t)
    | inr t ↦ select_first-All test rows h.1 (rw t at e)
  ]

  -- An update keeps what holds of every row if it keeps it of the rows that it changes.
  pub update_where-All :
      (test : A → Bool) (f : A → A) (rows : List A)
      → ((a : A) → P a → test a ≡ true → P (f a))
      → All P rows
      → All P (update_where test f rows)
  update_where-All test f [] k h = tt
  update_where-All test f (x ∷ rows) k h = (head (test x) refl, update_where-All test f rows k h.1)
    where
      head : (b : Bool) → test x ≡ b → P (if b then f x else x)
      head true e = k x h.0 e
      head false e = h.0

module _ {ℓ κ μ} {A : Type ℓ} (P : A → Type κ) (Q : A → Type μ) where
  pub All-map : (rows : List A) → ((a : A) → P a → Q a) → All P rows → All Q rows
  All-map [] k h = tt
  All-map (x ∷ rows) k h = (k x h.0, All-map rows k h.1)

-- An invoice that a search for a subscription's open invoice finds is stored.
earlier-cases :
    (r : Invoice) (rest : Option Invoice) (b : Bool) {i : Invoice}
    → (if b then earlier r rest else rest) ≡ some i
    → ((r ≡ i) × (b ≡ true)) ⊎ (rest ≡ some i)
earlier-cases r rest false e = inr e
earlier-cases r none true e = inl (ground arith, refl)
earlier-cases r (some j) true e = elim (Bool-cases (leb r.period_start j.period_start)) [
  | inl t ↦ inl (ground (arith, t), refl)
  | inr t ↦ inr (ground (arith, t))
]

pub select_earliest-stored :
    (id : ℕ) (rows : List Invoice) {i : Invoice}
    → select_earliest (open_for id) rows ≡ some i
    → exists_where (billed i id) rows ≡ true
select_earliest-stored id [] e = cc
select_earliest-stored id (r ∷ rows) {i} e =
    elim (earlier-cases r (select_earliest (open_for id) rows) (open_for id r) e) [
      | inl (same, open_r) ↦
          subst (λ x. exists_where (billed x id) (r ∷ rows) ≡ true) same (ground arith)
      | inr later ↦ ground (arith, select_earliest-stored id rows later)
    ]

-- So is one found by any test, under its own subscription.
pub select_first-stored :
    (test : Invoice → Bool) (rows : List Invoice) {i : Invoice}
    → select_first test rows ≡ some i
    → exists_where (billed i i.subscription_id) rows ≡ true
select_first-stored test [] e = cc
select_first-stored test (r ∷ rows) {i} e = elim (Bool-cases (test r)) [
  | inl t ↦
      let same : r ≡ i = ground (arith, t) in
      subst (λ x. exists_where (billed x x.subscription_id) (r ∷ rows) ≡ true) same (ground arith)
  | inr t ↦ ground (arith, select_first-stored test rows (rw t at e))
]

-- A row under an unused id is not changed by an update.
update_where-none :
    (id : ℕ) (f : Invoice → Invoice) (rows : List Invoice)
    → exists_where (Invoices.has_id id) rows ≡ false
    → update_where (Invoices.has_id id) f rows ≡ rows
update_where-none id f [] h = refl
update_where-none id f (r ∷ rows) h = ground (arith, update_where-none id f rows)

-- An update of one invoice's row, whose status stays paid if it was, leaves every paid period.
pub update-paid_for :
    (id s start : ℕ) (u : Invoice) (rows : List Invoice) {old : Invoice}
    → Distinct rows
    → select_first (Invoices.has_id id) rows ≡ some old
    → (status_paid old.status ≡ true → status_paid u.status ≡ true)
    → exists_where (paid_for s start) rows ≡ true
    → exists_where
        (paid_for s start)
        (update_where (Invoices.has_id id) (λ r. Invoices.write_back r u) rows)
      ≡ true
update-paid_for id s start u [] d e k h = h
update-paid_for id s start u (r ∷ rows) {old} d e k h = elim (Bool-cases (r.id == id)) [
  | inl t ↦
      let same : r ≡ old = ground (arith, t) in
      let id_eq : r.id ≡ id = (==_iff _ _).0 t in
      let rest = update_where-none id (λ r'. Invoices.write_back r' u) rows (rw id_eq at d.0) in
      ground (arith, t, rest, ap (λ (i : Invoice). i.status) same, k)
  | inr t ↦ ground (arith, t, update-paid_for id s start u rows d.1 (rw t at e) k)
]

-- Once the row is paid, the period of the invoice that was loaded from it is.
pub update-pays :
    (inv : Invoice) (s : ℕ) (u : Invoice) (rows : List Invoice)
    → status_paid u.status ≡ true
    → exists_where (billed inv s) rows ≡ true
    → exists_where
        (paid_for s inv.period_start)
        (update_where (Invoices.has_id inv.id) (λ r. Invoices.write_back r u) rows)
      ≡ true
update-pays inv s u [] p h = h
update-pays inv s u (r ∷ rows) p h = ground (arith, update-pays inv s u rows p)

-- Updates keep the ids.
pub update-exists_id :
    (id j : ℕ) (u : Invoice) (rows : List Invoice)
    → exists_where
        (Invoices.has_id j)
        (update_where (Invoices.has_id id) (λ r. Invoices.write_back r u) rows)
      ≡ exists_where (Invoices.has_id j) rows
update-exists_id id j u [] = refl
update-exists_id id j u (r ∷ rows) = ground (arith, update-exists_id id j u rows)

pub update-Distinct :
    (id : ℕ) (u : Invoice) (rows : List Invoice)
    → Distinct rows
    → Distinct (update_where (Invoices.has_id id) (λ r. Invoices.write_back r u) rows)
update-Distinct id u [] d = tt
update-Distinct id u (r ∷ rows) d =
    (ground (arith, update-exists_id id r.id u rows), update-Distinct id u rows d.1)

-- A fresh id is not in use.
pub below-unused :
    (n : ℕ) (rows : List Invoice)
    → All (λ i. i.id < n) rows
    → exists_where (Invoices.has_id n) rows ≡ false
below-unused n [] h = refl
below-unused n (r ∷ rows) h = ground (arith, below-unused n rows)

pub select_first-test {ℓ} :
    {A : Type ℓ} (test : A → Bool) (rows : List A) {a : A}
    → select_first test rows ≡ some a
    → test a ≡ true
select_first-test test [] e = cc
select_first-test test (x ∷ rows) {a} e = elim (Bool-cases (test x)) [
  | inl t ↦ let q : x ≡ a = ground (arith, t) in rw (← q) t
  | inr t ↦ select_first-test test rows (rw t at e)
]
