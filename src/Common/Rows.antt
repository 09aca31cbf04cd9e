-- ===== src/Common/Rows.antt =====
-- The queries of Common/Lists after changes of the table.
use nvelope.Common.Tests.{if◌then◌else◌}
use nvelope.Common.{List, ◌≡◌, ◌++◌, some, Bool-cases, ◌∷◌, inl, [], inr, refl, ◌∙◌, not}
use nvelope.Common.Lists.{select_first, update_where, exists_where, select_where, All}
use mathlib.Core.Bool.{Bool, true, false, ◌||◌}

module _ {ℓ} {A : Type ℓ} (test : A → Bool) where
  pub exists-append :
      (xs ys : List A)
      → exists_where test (xs ++ ys) ≡ (exists_where test xs || exists_where test ys)
  exists-append [] ys = refl
  exists-append (x ∷ xs) ys = elim (Bool-cases (test x)) [
    | inl h ↦ rw h refl
    | inr h ↦ rw h (exists-append xs ys)
  ]

  pub select_first-append :
      (xs ys : List A) {x : A}
      → select_first test xs ≡ some x
      → select_first test (xs ++ ys) ≡ some x
  select_first-append [] ys h = absurd (cc h)
  select_first-append (y ∷ xs) ys h = elim (Bool-cases (test y)) [
    | inl e ↦ rw e (rw e at h)
    | inr e ↦ rw e (select_first-append xs ys (rw e at h))
  ]

  pub select_first-snoc :
      (xs : List A) (x : A)
      → exists_where test xs ≡ false
      → test x ≡ true
      → select_first test (xs ++ x ∷ []) ≡ some x
  select_first-snoc [] x h e = rw e refl
  select_first-snoc (y ∷ xs) x h e = elim (Bool-cases (test y)) [
    | inl f ↦ absurd (cc (rw f at h))
    | inr f ↦ rw f (select_first-snoc xs x (rw f at h) e)
  ]

  pub select_first-test : (xs : List A) {x : A} → select_first test xs ≡ some x → test x ≡ true
  select_first-test [] h = absurd (cc h)
  select_first-test (y ∷ xs) h = elim (Bool-cases (test y)) [
    | inl e ↦ cc (e, rw e at h)
    | inr e ↦ select_first-test xs (rw e at h)
  ]

  pub select_first-exists :
      (xs : List A) {x : A} → select_first test xs ≡ some x → exists_where test xs ≡ true
  select_first-exists [] h = absurd (cc h)
  select_first-exists (y ∷ xs) h = elim (Bool-cases (test y)) [
    | inl e ↦ rw e refl
    | inr e ↦ rw e (select_first-exists xs (rw e at h))
  ]

module _ {ℓ} {A : Type ℓ} (test p : A → Bool) (f : A → A) where
  abbrev pub if_chosen : A → A
  if_chosen x = if p x then f x else x

  module _ (kept : (x : A) → test (f x) ≡ test x) where
    pub test-if_chosen : (x : A) → test (if_chosen x) ≡ test x
    test-if_chosen x = elim (Bool-cases (p x)) [ inl e ↦ rw e (kept x) | inr e ↦ rw e refl ]

    -- An update that leaves the test's columns alone.
    pub exists-update :
        (xs : List A) → exists_where test (update_where p f xs) ≡ exists_where test xs
    exists-update [] = refl
    exists-update (x ∷ xs) = cc (test-if_chosen x, exists-update xs)

    pub select_first-update :
        (xs : List A) {x : A}
        → select_first test xs ≡ some x
        → select_first test (update_where p f xs) ≡ some (if_chosen x)
    select_first-update [] h = absurd (cc h)
    select_first-update (y ∷ xs) h = elim (Bool-cases (test y)) [
      | inl e ↦ rw (test-if_chosen y ∙ e) (cc (rw e at h))
      | inr e ↦ rw (test-if_chosen y ∙ e) (select_first-update xs (rw e at h))
    ]

module _ {ℓ} {A : Type ℓ} (p : A → Bool) (f : A → A) (spent : (x : A) → p (f x) ≡ false) where
  -- An update that takes every row that it chooses out of its own condition.
  pub exists-update_self : (xs : List A) → exists_where p (update_where p f xs) ≡ false
  exists-update_self [] = refl
  exists-update_self (x ∷ xs) = elim (Bool-cases (p x)) [
    | inl e ↦ rw e (rw (spent x) (exists-update_self xs))
    | inr e ↦ rw e (rw e (exists-update_self xs))
  ]

module _ {ℓ κ} {A : Type ℓ} (P : A → Type κ) where
  pub All-append : (xs ys : List A) → All P xs → All P ys → All P (xs ++ ys)
  All-append [] ys h k = k
  All-append (x ∷ xs) ys h k = (h.0, All-append xs ys h.1 k)

  pub All-select_where : (test : A → Bool) (xs : List A) → All P xs → All P (select_where test xs)
  All-select_where test [] h = tt
  All-select_where test (x ∷ xs) h = elim (Bool-cases (test x)) [
    | inl e ↦ rw e ((h.0, All-select_where test xs h.1))
    | inr e ↦ rw e (All-select_where test xs h.1)
  ]

  pub All-update :
      (test : A → Bool) (f : A → A) (xs : List A)
      → ((x : A) → P x → P (f x))
      → All P xs
      → All P (update_where test f xs)
  All-update test f [] k h = tt
  All-update test f (x ∷ xs) k h = elim (Bool-cases (test x)) [
    | inl e ↦ rw e ((k x h.0, All-update test f xs k h.1))
    | inr e ↦ rw e ((h.0, All-update test f xs k h.1))
  ]

module _ {ℓ κ μ} {A : Type ℓ} {P : A → Type κ} {Q : A → Type μ} where
  pub All-weaken : (xs : List A) → ((x : A) → P x → Q x) → All P xs → All Q xs
  All-weaken [] k h = tt
  All-weaken (x ∷ xs) k h = (k x h.0, All-weaken xs k h.1)

module _ {ℓ} {A : Type ℓ} (test p : A → Bool) (f : A → A) where
  -- An update that keeps what the test accepts.
  pub exists-update_mono :
      (xs : List A)
      → ((x : A) → test x ≡ true → test (if_chosen test p f x) ≡ true)
      → exists_where test xs ≡ true
      → exists_where test (update_where p f xs) ≡ true
  exists-update_mono [] k h = absurd (cc h)
  exists-update_mono (x ∷ xs) k h = elim (Bool-cases (test x)) [
    | inl e ↦ rw (k x e) refl
    | inr e ↦ or_true _ _ (exists-update_mono xs k (rw e at h))
  ]
    where
      or_true : (a b : Bool) → b ≡ true → (a || b) ≡ true
      or_true true b h = refl
      or_true false b h = h

  -- An update that turns each row that it chooses into one that the test accepts.
  pub exists-update_chosen :
      (xs : List A)
      → ((x : A) → p x ≡ true → test (f x) ≡ true)
      → exists_where p xs ≡ true
      → exists_where test (update_where p f xs) ≡ true
  exists-update_chosen [] k h = absurd (cc h)
  exists-update_chosen (x ∷ xs) k h = elim (Bool-cases (p x)) [
    | inl e ↦ rw e (rw (k x e) refl)
    | inr e ↦ rw e (or_true (test x) _ (exists-update_chosen xs k (rw e at h)))
  ]
    where
      or_true : (a b : Bool) → b ≡ true → (a || b) ≡ true
      or_true true b h = refl
      or_true false b h = h

module _ {ℓ} {A : Type ℓ} (test : A → Bool) where
  pub exists-select_not :
      (xs : List A) → exists_where test (select_where (λ x. not (test x)) xs) ≡ false
  exists-select_not [] = refl
  exists-select_not (x ∷ xs) = elim (Bool-cases (test x)) [
    | inl e ↦ rw e (exists-select_not xs)
    | inr e ↦ rw e (rw e (exists-select_not xs))
  ]

  -- The first row of a selection.
  pub select_where-first :
      (xs : List A) {x : A} {rest : List A}
      → select_where test xs ≡ x ∷ rest
      → select_first test xs ≡ some x
  select_where-first [] h = absurd (cc h)
  select_where-first (y ∷ xs) h = elim (Bool-cases (test y)) [
    | inl e ↦ rw e (cc (rw e at h))
    | inr e ↦ rw e (select_where-first xs (rw e at h))
  ]
