-- ===== src/Common/Action/Keeps.antt =====
-- Invariants of actions: one rule for each way to build an action.

use nvelope.Common.Action.{Result, ok, err, Action, pure, raise, lift, continue, ◌>>=◌}

-- `m` keeps `P`, whether it returns or raises.
pub record Keeps {S E A : Type 0} (P : S → Type 0) (m : Action S E A) : Type 0 where
  pub at : (s : S) → P s → P (m s).1

module _ {S E A : Type 0} {P : S → Type 0} where
  pub Keeps-pure : (a : A) → Keeps P (pure {E = E} a)
  unfolding pure
  Keeps-pure a = record { at = λ s h. h }

  pub Keeps-raise : (e : E) → Keeps P (raise {A = A} e)
  unfolding raise
  Keeps-raise e = record { at = λ s h. h }

  pub Keeps-lift : (r : Result E A) → Keeps P (lift r)
  unfolding lift
  Keeps-lift r = record { at = λ s h. h }

module _ {S E A B : Type 0} {P : S → Type 0} where
  pub Keeps-continue :
      (r : Result E A) (f : A → Action S E B) (s : S)
      → P s
      → ((a : A) → Keeps P (f a))
      → P (continue r f s).1
  Keeps-continue (ok a) f s h kf = (kf a).at s h
  Keeps-continue (err e) f s h kf = h

  pub Keeps-bind :
      (first : Action S E A) (next : A → Action S E B)
      → Keeps P first
      → ((a : A) → Keeps P (next a))
      → Keeps P (first >>= next)
  unfolding ◌>>=◌
  Keeps-bind first next kept later = record {
    at = λ s h. Keeps-continue (first s).0 next (first s).1 (kept.at s h) later;
  }

-- Where only the state counts, what follows a step that returns a value adds nothing.
pub continue-pure-state {ℓ} :
    {S E A B : Type 0} (P : S → Type ℓ) (b : B) (r : Result E A × S)
    → P r.1
    → P (continue r.0 (λ _. pure b) r.1).1
unfolding pure
continue-pure-state P b (ok a, s) h = h
continue-pure-state P b (err e, s) h = h

pub ruleset keeps_rules = (Keeps-pure, Keeps-raise, Keeps-lift, Keeps-bind)
