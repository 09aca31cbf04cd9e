-- ===== src/Billing/Runs/Once.antt =====
-- No invoice is charged twice, over every run.
use nvelope.Billing.Charge.Ledger.{one_key}
use nvelope.Billing.Charge.Once.{handle-SettlesOnce, settle_invoice-SettlesOnce}
use nvelope.Billing.Charge.Frame.{frames}
use nvelope.Billing.Subscription.{Subscription}
use nvelope.Billing.Charge.Submit.{SettlesOnce}
use nvelope.Billing.Runs.{
  step, run, [], Bool, Event, List, subscribe_event, ◌∷◌, charge_event, settle_event, cancel_event,
  drift,
}
use nvelope.Common.Action.Keeps.{Keeps, keeps_rules}
use nvelope.Billing.Charge.{ChargeInvoiceResult}
use nvelope.Billing.Plan.{Plan}
use nvelope.Billing.Commands.{
  open_account, snapshot, cancel_subscription, subscribe, after_first_charge, subscribe_published,
  report_settled, cancel_current,
}
use nvelope.Billing.Store.{World}
use nvelope.Billing.Dunning.{DunningPolicy}
use nvelope.Billing.Payment.{Gateway, confirmed-untaken, confirmed-both}
use nvelope.Common.{ℕ, ◌≡◌, Option, false, some, arith, true, none}
use nvelope.Billing.Commands

module _ {G : Type 0} (gateway : Gateway G) (dunning : DunningPolicy) (tenant_id v : ℕ) where
  -- A state with no attempts, in which nothing was taken.
  start-SettlesOnce :
      (w : World G)
      → w.attempts ≡ []
      → ((k : ℕ) → gateway.taken w.gateway (v, k) ≡ false)
      → SettlesOnce gateway v w
  start-SettlesOnce w fresh untouched = rw fresh (record {
    accounted =
        λ n t. absurd (ground (arith, confirmed-untaken gateway w.gateway (v, n) (untouched n)));
    last = λ n s. cc;
    quiet = λ s. absurd (cc s);
  })

  open_account-Keeps : (plan : Plan) → Keeps (SettlesOnce gateway v) (open_account tenant_id plan)
  unfolding open_account
  open_account-Keeps plan = search (keeps_rules, frames) depth 9

  first_charge-Keeps :
      (id : ℕ) (paid : Bool) → Keeps (SettlesOnce gateway v) (after_first_charge gateway id paid)
  unfolding snapshot
  first_charge-Keeps id false = search keeps_rules
  first_charge-Keeps id true = search (keeps_rules, frames)

  subscribe_new-Keeps :
      (actor_id : ℕ) (plan : Plan) (existing : Option Subscription)
      → Keeps
          (SettlesOnce gateway v)
          (Commands.subscribe_new gateway dunning tenant_id actor_id plan existing)
  subscribe_new-Keeps actor_id plan (some s) = search keeps_rules
  subscribe_new-Keeps actor_id plan none =
      search (keeps_rules, frames, open_account-Keeps, handle-SettlesOnce, first_charge-Keeps) depth
        8

  published-Keeps :
      (actor_id : ℕ) (plan : Plan) (published : Bool)
      → Keeps
          (SettlesOnce gateway v)
          (subscribe_published gateway dunning tenant_id actor_id plan published)
  published-Keeps actor_id plan false = search keeps_rules
  published-Keeps actor_id plan true = search (keeps_rules, frames, subscribe_new-Keeps)

  reported-Keeps :
      (res : ChargeInvoiceResult) (paid : Bool)
      → Keeps (SettlesOnce gateway v) (report_settled gateway res paid)
  reported-Keeps res false = search keeps_rules
  reported-Keeps res true = search keeps_rules

  settle-Keeps :
      (actor_id id : ℕ)
      → Keeps (SettlesOnce gateway v) (Commands.settle gateway tenant_id actor_id id)
  unfolding Commands.settle
  settle-Keeps actor_id id =
      search (keeps_rules, frames, settle_invoice-SettlesOnce, reported-Keeps)

  cancel_current-Keeps :
      (actor_id : ℕ) (sub : Option Subscription)
      → Keeps (SettlesOnce gateway v) (cancel_current actor_id sub)
  cancel_current-Keeps actor_id none = search keeps_rules
  cancel_current-Keeps actor_id (some s) = search (keeps_rules, frames)

  cancel-Keeps : (actor_id : ℕ) → Keeps (SettlesOnce gateway v) (cancel_subscription actor_id)
  unfolding cancel_subscription
  cancel-Keeps actor_id = search (keeps_rules, frames, cancel_current-Keeps)

  subscribe-Keeps :
      (actor_id plan_id : ℕ)
      → Keeps (SettlesOnce gateway v) (subscribe gateway dunning tenant_id actor_id plan_id)
  unfolding subscribe
  subscribe-Keeps actor_id plan_id = search (keeps_rules, frames, published-Keeps)

  step-SettlesOnce :
      (w : World G) (e : Event)
      → SettlesOnce gateway v w
      → SettlesOnce gateway v (step gateway dunning tenant_id w e)
  unfolding step
  step-SettlesOnce w (subscribe_event a p) h = (subscribe-Keeps a p).at w h
  step-SettlesOnce w (charge_event id) h =
      (handle-SettlesOnce gateway v dunning tenant_id id).at w h
  step-SettlesOnce w (settle_event a i) h = (settle-Keeps a i).at w h
  step-SettlesOnce w (cancel_event a) h = (cancel-Keeps a).at w h
  step-SettlesOnce w (drift now faults plans) h = h

  run-SettlesOnce :
      (w : World G) (es : List Event)
      → SettlesOnce gateway v w
      → SettlesOnce gateway v (run gateway dunning tenant_id w es)
  unfolding run
  run-SettlesOnce w [] h = h
  run-SettlesOnce w (e ∷ es) h =
      run-SettlesOnce (step gateway dunning tenant_id w e) es (step-SettlesOnce w e h)

  -- From a state with no attempts in which the gateway has taken nothing for the invoice, every
  -- run, whichever transactions fail, leaves at most one idempotency key of the invoice under which
  -- money was taken and whose last call was approved or declined. Of keys whose last call returned a
  -- Go error or ChargeError nothing is said.
  pub charged_once :
      (w : World G) (es : List Event) (n m : ℕ)
      → w.attempts ≡ []
      → ((k : ℕ) → gateway.taken w.gateway (v, k) ≡ false)
      → gateway.taken (run gateway dunning tenant_id w es).gateway (v, n) ≡ true
      → gateway.unanswered (run gateway dunning tenant_id w es).gateway (v, n) ≡ false
      → gateway.taken (run gateway dunning tenant_id w es).gateway (v, m) ≡ true
      → gateway.unanswered (run gateway dunning tenant_id w es).gateway (v, m) ≡ false
      → n ≡ m
  charged_once w es n m fresh untouched taken_n answered_n taken_m answered_m =
      one_key gateway v (run-SettlesOnce w es (start-SettlesOnce w fresh untouched)) n m
        (confirmed-both gateway _ (v, n) taken_n answered_n)
        (confirmed-both gateway _ (v, m) taken_m answered_m)
