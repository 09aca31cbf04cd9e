-- ===== src/Billing/Metering/Sends.antt =====
-- Which sends the rows of usage_pg.go in internal/billing/adapters stand for, after a run of
-- records and roll-ups: those that usage_recorder.go reported as recorded.
use nvelope.Billing.Metering.Reported.{
  is_send, exists-stamped, reported_in, reported, record_usage-sends, record_usage-Effect, mem,
  all-present,
}
use nvelope.Common.Int64.{Int64}
use nvelope.Common.Action.{ok, err}
use nvelope.Common.Calendar.{Time}
use nvelope.Billing.Errors.{Result}
use nvelope.Common.{
  ℕ, Option, Bool, List, exists_where, ◌≡◌, arith, ◌||◌, ◌∷◌, true, some, ◌∙◌, [], none, refl,
  Bool-cases, ap, inr, inl,
}
use nvelope.Billing.Metering.{
  record_usage, rollup, roll_up_usage, roll_up_for, store_counters, usage_in,
}
use nvelope.Billing.Metering.Counters.{same_type_refl}
use nvelope.Billing.Metering.Events.{insert-present, OneRowEach}
use nvelope.Billing.Metering.Metered.{
  usage_in-rows, events_in, MeterEvent, record_event, roll_up_event, elsewhere, meter_step,
  meter_run,
}
use nvelope.Billing.Subscriptions.{current_subscription, get_plan, found_plan}
use nvelope.Billing.Subscription.{Subscription}
use nvelope.Billing.Store.{World}
use nvelope.Billing.Store.Keeps.{with_tenant-Keeps}
use nvelope.Billing.Usage.{UsageEventType, UsageCounter}
use nvelope.Billing.Plan.{BillingPeriod, Plan}
use nvelope.Common.Action.Keeps.{Keeps, keeps_rules}

-- What a roll-up leaves of the rows.
module _ {G : Type 0} (y : UsageEventType) (ref : ℕ) (b : Bool) where
  abbrev Stands : World G → Type 0
  Stands w = exists_where (is_send y ref) w.usage_events ≡ b

  found_plan-Stands : (o : Option Plan) (w : World G) → Stands w → Stands (found_plan o w).1
  found_plan-Stands none w h = h
  found_plan-Stands (some p) w h = h

  get_plan-Stands : (id : ℕ) → Keeps Stands (get_plan id)
  unfolding get_plan
  get_plan-Stands id = with_tenant-Keeps {P = Stands} (λ w fs h. h) _ λ w h. found_plan-Stands _ w h

  current-Stands : Keeps Stands current_subscription
  unfolding current_subscription
  current-Stands = with_tenant-Keeps {P = Stands} (λ w fs h. h) _ λ w h. h

  store-Stands :
      (r : Result (List UsageCounter)) (w : World G) → Stands w → Stands (store_counters r w).1
  store-Stands (err e) w h = h
  store-Stands (ok counters) w h = exists-stamped y ref w.now w.usage_events ∙ h

  rollup-Stands :
      (tenant_id : ℕ) (allowance : Int64) (period : BillingPeriod)
      → Keeps Stands (rollup tenant_id allowance period)
  unfolding rollup
  rollup-Stands t a period =
      with_tenant-Keeps {P = Stands} (λ w fs h. h) _ λ w h. store-Stands _ w h

  roll_up_for-Stands :
      (tenant_id : ℕ) (o : Option Subscription) → Keeps Stands (roll_up_for tenant_id o)
  roll_up_for-Stands t none = search rollup-Stands
  roll_up_for-Stands t (some s) = search (keeps_rules, get_plan-Stands, rollup-Stands)

  roll_up-Stands : (tenant_id : ℕ) → Keeps Stands (roll_up_usage tenant_id)
  unfolding roll_up_usage
  roll_up-Stands t = search (keeps_rules, current-Stands, roll_up_for-Stands)

module _ {G : Type 0} (tenant_id : ℕ) where
  -- The rows after a run are those before it and those of the sends that it reports.
  meter_run-sends :
      (w : World G) (es : List (MeterEvent G)) (y : UsageEventType) (ref : ℕ)
      → exists_where (is_send y ref) (meter_run tenant_id w es).usage_events
        ≡ (exists_where (is_send y ref) w.usage_events || reported_in tenant_id w es y ref)
  unfolding meter_run reported_in meter_step
  meter_run-sends w [] y ref = ground arith
  meter_run-sends w (record_event z refs ∷ es) y ref =
      meter_run-sends (meter_step tenant_id w (record_event z refs)) es y ref
      ∙ ground (arith, record_usage-sends tenant_id w z refs y ref)
  meter_run-sends w (roll_up_event ∷ es) y ref =
      meter_run-sends (meter_step tenant_id w roll_up_event) es y ref
      ∙ ap (λ b. b || reported_in tenant_id (meter_step tenant_id w roll_up_event) es y ref)
          ((roll_up-Stands y ref (exists_where (is_send y ref) w.usage_events) tenant_id).at w refl)
  meter_run-sends w (elsewhere v ∷ es) y ref =
      meter_run-sends (meter_step tenant_id w (elsewhere v)) es y ref

  -- From empty usage tables, after every run of records and roll-ups with any change of the other
  -- state and any failing transactions between them, a send, given by its type and reference, has a
  -- row exactly if a record of the run that names it returned no error while there was a current
  -- subscription; no send has two rows; and the usage that is read for a period is the number of
  -- the rows of that period, no matter which of them are rolled up.
  pub usage_in-counts :
      (w : World G) (es : List (MeterEvent G)) (p : Time)
      → w.usage_events ≡ []
      → w.usage_counters ≡ []
      → ((y : UsageEventType) (ref : ℕ)
          → exists_where (is_send y ref) (meter_run tenant_id w es).usage_events
            ≡ reported_in tenant_id w es y ref)
        × OneRowEach (meter_run tenant_id w es).usage_events
        × (usage_in (meter_run tenant_id w es) p ≡ events_in (meter_run tenant_id w es) p)
  usage_in-counts w es p e c =
      let (counts, once) = usage_in-rows tenant_id w es p e c in
      ((λ y ref. meter_run-sends w es y ref ∙ rw e refl), once, counts)

  -- Once a record returned no error while there was a current subscription, recording the same
  -- references again leaves the rows as they are: after any run in between, at whatever time, in
  -- whatever period and whichever transactions the database fails.
  pub record_usage-again :
      (w : World G) (event_type : UsageEventType) (refs : List ℕ) (es : List (MeterEvent G))
      → reported tenant_id w event_type refs ≡ true
      → (record_usage tenant_id event_type refs
          (meter_run tenant_id (record_usage tenant_id event_type refs w).1 es)).1.usage_events
        ≡ (meter_run tenant_id (record_usage tenant_id event_type refs w).1 es).usage_events
  record_usage-again w y refs es done =
      let first = (record_usage tenant_id y refs w).1 in
      let later = meter_run tenant_id first es in
      let (start, effect) = record_usage-Effect tenant_id later y refs in
      let present = λ (ref : ℕ) (there : mem ref refs ≡ true).
        meter_run-sends first es y ref
        ∙ ground
            (arith, record_usage-sends tenant_id w y refs y ref, done, there, same_type_refl y) in
      effect ∙ elim (Bool-cases (reported tenant_id later y refs)) [
        | inr no' ↦ rw no' refl
        | inl yes' ↦ rw yes' (
            insert-present tenant_id later.usage_events _
              (all-present tenant_id y start later.now refs later.usage_events present))
      ]
