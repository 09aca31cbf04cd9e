-- ===== src/Audience/Commands/Outcomes.antt =====
-- What ConfirmSubscription (internal/audience/app/command/confirm_subscription.go) may do.
use nvelope.Platform.Apperr.{Failure}
use nvelope.Common.Database.{Db}
use nvelope.Audience.Subscribers.{Pending}
use nvelope.Audience.Commands.{newly_confirmed, already_confirmed, Confirmation}
use nvelope.Audience.Store.{Tables, Env, has_hash}
use nvelope.Common.{String, select_first, ◌≡◌, some}
use nvelope.Common.Action.{ok, err, Result as Outcome}
use nvelope.Audience.Commands.Promote.{Promoted}

-- What a confirmation may do.
pub data Outcomes (env : Env) (hash : String) (w : Db Tables)
    (r : Outcome Failure Confirmation × Db Tables) : Type 0 where
  unknown_token : r.0 ≡ ok already_confirmed → r.1.tables ≡ w.tables → Outcomes env hash w r
  promoted :
      (p : Pending)
      → select_first (has_hash hash) w.tables.pending ≡ some p
      → r.0 ≡ ok newly_confirmed
      → Promoted env p r.1.tables
      → Outcomes env hash w r
  failed : (e : Failure) → r.0 ≡ err e → Outcomes env hash w r
