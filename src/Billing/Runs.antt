-- ===== src/Billing/Runs.antt =====
-- Everything that can happen to a tenant's billing, as a sequence of events: the commands, the
-- jobs of the charge worker (internal/billing/adapters/charge_worker.go), and the world outside
-- moving on between them. An error ends only its own command.
pub mod Once
pub mod Backed
use nvelope.Billing.Charge.{handle}
use nvelope.Billing.Commands.{subscribe, cancel_subscription}
use nvelope.Billing.Store.{World}
use nvelope.Billing.Plan.{Plan}
use nvelope.Billing.Dunning.{DunningPolicy}
use nvelope.Billing.Payment.{Gateway}
use nvelope.Common.Calendar.{Time}
use nvelope.Billing.Commands
use nvelope.Common.{ℕ, List, [], ◌∷◌, Bool}

-- `drift` is what the commands do not control: the clock, the faults to come and the catalog.
pub data Event : Type 0 where
  subscribe_event : ℕ → ℕ → Event
  charge_event : ℕ → Event
  settle_event : ℕ → ℕ → Event
  cancel_event : ℕ → Event
  drift : Time → List Bool → List Plan → Event

module _ {G : Type 0} (gateway : Gateway G) (dunning : DunningPolicy) (tenant_id : ℕ) where
  unfoldable pub step : World G → Event → World G
  step w (subscribe_event actor_id plan_id) =
      (subscribe gateway dunning tenant_id actor_id plan_id w).1
  step w (charge_event subscription_id) = (handle gateway dunning tenant_id subscription_id w).1
  step w (settle_event actor_id invoice_id) =
      (Commands.settle gateway tenant_id actor_id invoice_id w).1
  step w (cancel_event actor_id) = (cancel_subscription actor_id w).1
  step w (drift now faults plans) = record w { now = now; faults = faults; plans = plans }

  unfoldable pub run : World G → List Event → World G
  run w [] = w
  run w (e ∷ es) = run (step w e) es
