-- ===== src/Billing/Runs/Backed.antt =====
-- Over every run, what is settled was charged and what is active was paid for.
use nvelope.Billing.Backing.Commands.{
  subscribe-Triple, handle-Triple, settle_command-Triple, cancel_subscription-Triple,
}
use nvelope.Common.Action.Triple.{Triple-state}
use nvelope.Billing.Backing.{IsBacked}
use nvelope.Billing.Runs.{
  step, run, World, Event, List, subscribe_event, ◌∷◌, charge_event, settle_event, cancel_event,
  drift,
}
use nvelope.Billing.Dunning.{DunningPolicy}
use nvelope.Billing.Payment.{Gateway}
use nvelope.Common.{ℕ, []}

module _ {G : Type 0} (gateway : Gateway G) (dunning : DunningPolicy) (tenant_id : ℕ) where
  step-IsBacked :
      (w : World G) (e : Event) → IsBacked w → IsBacked (step gateway dunning tenant_id w e)
  unfolding step
  step-IsBacked w (subscribe_event a p) h =
      Triple-state _ w (subscribe-Triple gateway dunning tenant_id a p) h (λ r w k. k)
  step-IsBacked w (charge_event id) h =
      Triple-state _ w (handle-Triple gateway dunning tenant_id id) h (λ r w k. k)
  step-IsBacked w (settle_event a i) h =
      Triple-state _ w (settle_command-Triple gateway dunning tenant_id a i) h (λ r w k. k)
  step-IsBacked w (cancel_event a) h =
      Triple-state _ w (cancel_subscription-Triple a) h (λ r w k. k)
  step-IsBacked w (drift now faults plans) h = record {
    paid = h.paid;
    active = h.active;
    distinct = h.distinct;
    below = h.below;
  }

  -- Whichever transactions the database fails, a run keeps this of the stored rows: a paid invoice
  -- has a succeeded attempt, an active subscription has a paid invoice that begins with its current
  -- period, no two invoices have one id, and every invoice's id was generated before.
  pub run-IsBacked :
      (w : World G) (es : List Event) → IsBacked w → IsBacked (run gateway dunning tenant_id w es)
  unfolding run
  run-IsBacked w [] h = h
  run-IsBacked w (e ∷ es) h =
      run-IsBacked (step gateway dunning tenant_id w e) es (step-IsBacked w e h)
