-- ===== src/Common/Action.antt =====
-- A use case as an action on the stored state. It returns a value or an error; what it committed
-- before an error stays committed, so the state comes back beside the error too.
pub mod Keeps
pub mod Triple
use mathlib.Core.Path.{◌≡◌, refl}

pub data Result (E A : Type 0) : Type 0 where
  ok : A → Result E A
  err : E → Result E A

pub ok-injective : {E A : Type 0} {a b : A} → ◌≡◌ {A = Result E A} (ok a) (ok b) → a ≡ b
ok-injective h = cc h

module _ {E A B : Type 0} where
  -- if err != nil { return err }
  abbrev pub and_then : Result E A → (A → Result E B) → Result E B
  and_then (ok a) f = f a
  and_then (err e) f = err e

  -- Inversion of a chain that returned a value.
  pub and_then-eq-ok :
      (r : Result E A) (f : A → Result E B) {b : B}
      → and_then r f ≡ ok b
      → (a : A) × (r ≡ ok a) × (f a ≡ ok b)
  and_then-eq-ok (ok a) f h = (a, refl, h)
  and_then-eq-ok (err e) f h = absurd (cc h)

abbrev pub Action : Type 0 → Type 0 → Type 0 → Type 0
Action S E A = S → Result E A × S

module _ {S E A : Type 0} where
  pub pure : A → Action S E A
  pure a s = (ok a, s)

  pub raise : E → Action S E A
  raise e s = (err e, s)

  pub lift : Result E A → Action S E A
  lift r s = (r, s)

module _ {S E A B : Type 0} where
  abbrev pub continue : Result E A → (A → Action S E B) → Action S E B
  continue (ok a) f s = f a s
  continue (err e) f s = (err e, s)

  infixl 5 ◌>>=◌ ◌>>◌
  -- Opening this opens `pure`, `raise` and `lift` too.
  unfoldable pub ◌>>=◌ : Action S E A → (A → Action S E B) → Action S E B
  unfolding pure raise lift
  ◌>>=◌ first next s = continue (first s).0 next (first s).1

  -- What comes next does not read the value.
  abbrev pub ◌>>◌ : Action S E A → Action S E B → Action S E B
  first >> next = first >>= λ ignored. next

module _ {S E A B : Type 0} where
  continue-eq-ok :
      (r : Result E A) (f : A → Action S E B) (s : S) {b : B}
      → (continue r f s).0 ≡ ok b
      → (a : A) × (r ≡ ok a) × (f a s ≡ continue r f s)
  continue-eq-ok (ok a) f s h = (a, refl, refl)
  continue-eq-ok (err e) f s h = absurd (cc h)

  -- Inversion of a sequence that returned a value.
  pub >>=-eq-ok :
      (first : Action S E A) (next : A → Action S E B) (s : S) {b : B}
      → ((first >>= next) s).0 ≡ ok b
      → (a : A) × ((first s).0 ≡ ok a) × (next a (first s).1 ≡ (first >>= next) s)
  unfolding ◌>>=◌
  >>=-eq-ok first next s h = continue-eq-ok (first s).0 next (first s).1 h
