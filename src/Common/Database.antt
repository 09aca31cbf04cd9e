-- ===== src/Common/Database.antt =====
-- The stored state of one tenant and the transaction around each statement
-- (internal/platform/tenantdb). Row-level security hides every other tenant's rows, so the tables
-- hold the rows of one tenant. `faults` says of each coming transaction whether the database
-- fails it; `fresh` counts the generated values; `now` is the clock's reading.
pub mod Invariants
pub mod Inversion
pub mod Triples
use nvelope.Common.{ℕ, List, ◌+◌, Bool, ◌∷◌, [], true, false, ◌≡◌, ap, refl, Option, some, none}
use nvelope.Common.Calendar.{Time}
use nvelope.Platform.Apperr.{Failure, plain}
use nvelope.Common.Action.{ok-injective, Action, ok, err, lift, ◌>>=◌, continue}
use nvelope.Common.Action
use nvelope.Common.Action.Keeps.{Keeps}

pub record Db (T : Type 0) : Type 0 where
  pub tables : T
  pub faults : List Bool
  pub fresh : ℕ
  pub now : Time

abbrev pub Query : Type 0 → Type 0 → Type 0
Query T A = Action (Db T) Failure A

unfoldable pub database_down : Failure
database_down = plain "transaction failed"

-- A row that has to be there, and a condition that has to hold.
abbrev pub found : {A : Type 0} → Failure → Option A → Action.Result Failure A
found e none = err e
found e (some a) = ok a

abbrev pub require : Bool → Failure → Action.Result Failure (Unit {0})
require true e = ok tt
require false e = err e

pub found-some : {A : Type 0} (e : Failure) (o : Option A) {a : A} → found e o ≡ ok a → o ≡ some a
found-some e none h = absurd (cc h)
found-some e (some a) h = ap some (ok-injective h)

pub require-ok : (b : Bool) (e : Failure) {u : Unit {0}} → require b e ≡ ok u → b ≡ true
require-ok true e h = refl
require-ok false e h = absurd (cc h)

module _ {T A : Type 0} where
  -- A body that returns an error is rolled back.
  abbrev pub commit : Db T → Action.Result Failure A × Db T → Action.Result Failure A × Db T
  commit before (ok a, after) = (ok a, after)
  commit before (err e, after) = (err e, before)

  abbrev pub run_transaction : List Bool → Query T A → Query T A
  run_transaction [] body w = commit w (body w)
  run_transaction (true ∷ faults) body w = (err database_down, record w { faults = faults })
  run_transaction (false ∷ faults) body w =
      let w' = record w { faults = faults } in commit w' (body w')

  -- tenantdb.WithTenant
  unfoldable pub with_tenant : Query T A → Query T A
  with_tenant body w = run_transaction w.faults body w

  -- A statement that reads the tables.
  unfoldable pub read : (T → Action.Result Failure A) → Query T A
  read f w = (f w.tables, w)

  -- A statement that changes them and returns a value.
  unfoldable pub write : (T → A × T) → Query T A
  write f w = let (a, t) = f w.tables in (ok a, record w { tables = t })

module _ {T : Type 0} where
  -- time.Now()
  unfoldable pub time_now : Query T Time
  time_now w = (ok w.now, w)

  -- The number of the next generated value: a uuid or a random token.
  unfoldable pub take_fresh : Query T ℕ
  take_fresh w = (ok w.fresh, record w { fresh = w.fresh + 1 })
