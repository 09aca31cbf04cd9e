-- ===== src/Common/Database/Invariants.antt =====
-- Invariants of the tables, through transactions (internal/platform/tenantdb) and the statements in
-- them.
use nvelope.Common.{List, Bool, ◌∷◌, [], true, false, ◌≡◌, refl}
use nvelope.Platform.Apperr.{Failure}
use nvelope.Common.Action.{ok-injective, Action, ok, err, lift, ◌>>=◌, continue}
use nvelope.Common.Action
use nvelope.Common.Action.Keeps.{Keeps}
use nvelope.Common.Database.{
  Db, Query, with_tenant, read, write, time_now, take_fresh, run_transaction, commit,
}

-- An invariant of the tables.
pub record On {T : Type 0} (P : T → Type 0) (w : Db T) : Type 0 where
  pub holds : P w.tables

module _ {T A : Type 0} {P : T → Type 0} where
  commit-On :
      (before : Db T) (r : Action.Result Failure A × Db T)
      → On P before
      → On P r.1
      → On P (commit before r).1
  commit-On before (ok a, after) hb ha = ha
  commit-On before (err e, after) hb ha = hb

  run_transaction-On :
      (faults : List Bool) (m : Query T A) (w : Db T)
      → Keeps (On P) m
      → On P w
      → On P (run_transaction faults m w).1
  run_transaction-On [] m w k h = commit-On w (m w) h (k.at w h)
  run_transaction-On (true ∷ faults) m w k h = record { holds = h.holds }
  run_transaction-On (false ∷ faults) m w k h =
      let w' = record w { faults = faults } in
      let h' : On P w' = record { holds = h.holds } in commit-On w' (m w') h' (k.at w' h')

  pub Keeps-with_tenant : (m : Query T A) → Keeps (On P) m → Keeps (On P) (with_tenant m)
  unfolding with_tenant
  Keeps-with_tenant m k = record { at = λ w h. run_transaction-On w.faults m w k h }

  pub Keeps-read : (f : T → Action.Result Failure A) → Keeps (On P) (read f)
  unfolding read
  Keeps-read f = record { at = λ w h. h }

  pub Keeps-write : (f : T → A × T) → ((t : T) → P t → P (f t).1) → Keeps (On P) (write f)
  unfolding write
  Keeps-write f k = record { at = λ w h. record { holds = k w.tables h.holds } }

module _ {T : Type 0} {P : T → Type 0} where
  pub Keeps-time_now : Keeps (On P) (time_now {T = T})
  unfolding time_now
  Keeps-time_now = record { at = λ w h. h }

  pub Keeps-take_fresh : Keeps (On P) (take_fresh {T = T})
  unfolding take_fresh
  Keeps-take_fresh = record { at = λ w h. record { holds = h.holds } }

module _ {T A B : Type 0} {P : T → Type 0} where
  -- A checked read and the write that follows it.
  pub Keeps-read-write :
      (f : T → Action.Result Failure A) (g : A → T → B × T)
      → ((t : T) (a : A) → P t → f t ≡ ok a → P (g a t).1)
      → Keeps (On P) (read f >>= λ a. write (g a))
  unfolding read write ◌>>=◌
  Keeps-read-write f g k = record { at = λ w h. after w h (f w.tables) refl }
    where
      after :
          (w : Db T)
          → On P w
          → (r : Action.Result Failure A) → f w.tables ≡ r
          → On P (continue r (λ a. write (g a)) w).1
      after w h (ok a) e = record { holds = k w.tables a h.holds e }
      after w h (err e') e = h

module _ {T A B C : Type 0} {P : T → Type 0} where
  -- The same with a computation in between.
  pub Keeps-read-lift-write :
      (f : T → Action.Result Failure A) (h : A → Action.Result Failure B) (g : B → T → C × T)
      → ((t : T) (a : A) (b : B) → P t → f t ≡ ok a → h a ≡ ok b → P (g b t).1)
      → Keeps (On P) (read f >>= λ a. lift (h a) >>= λ b. write (g b))
  unfolding read write ◌>>=◌
  Keeps-read-lift-write f h g k = record { at = λ w p. first w p (f w.tables) refl }
    where
      second :
          (w : Db T) (a : A)
          → On P w
          → f w.tables ≡ ok a
          → (r : Action.Result Failure B) → h a ≡ r
          → On P (continue r (λ b. write (g b)) w).1
      second w a p e (ok b) e' = record { holds = k w.tables a b p.holds e e' }
      second w a p e (err x) e' = p

      first :
          (w : Db T)
          → On P w
          → (r : Action.Result Failure A) → f w.tables ≡ r
          → On P (continue r (λ a. lift (h a) >>= λ b. write (g b)) w).1
      first w p (ok a) e = second w a p e (h a) refl
      first w p (err x) e = p
