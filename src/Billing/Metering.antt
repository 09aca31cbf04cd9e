-- ===== src/Billing/Metering.antt =====
-- internal/billing/adapters/usage_pg.go, usage_recorder.go and
-- internal/billing/app/command/rollup.go: the stored sends and counters. A sum that does not fit a
-- bigint, or the int64 that it is read into, is an error of the database.
pub mod Counters
pub mod Rollup
pub mod Events
pub mod Metered
pub mod Reported
pub mod Sends
pub mod Usage
use nvelope.Billing.Subscriptions.{current_subscription, get_plan}
use nvelope.Common.{
  ℕ, ◌+◌, Bool, ◌&&◌, ◌==◌, ltb, List, [], ◌∷◌, none, some, if◌then◌else◌, select_first,
  select_where, update_where, exists_where, sum_of, true, false, Option,
}
use nvelope.Common.Int64.{Int64, sign_bit}
use nvelope.Common.Calendar.{Time}
use nvelope.Common.Action.{ok, err, pure, and_then, ◌>>=◌}
use nvelope.Billing.Errors.{Result, infrastructure}
use nvelope.Billing.Plan.{BillingPeriod, advance_from, new_plan}
use nvelope.Billing.Usage.{
  UsageEventType, UsageEvent, UsageCounter, same_type, split_usage, new_usage_event,
}
use nvelope.Billing.Subscription.{Subscription}
use nvelope.Billing.Store.{World, Billing, with_tenant, time_now}

-- A bigint out of range raises an error. No quantity is negative.
abbrev pub bigint : ℕ → Result Int64
bigint n = if ltb n sign_bit then ok n else err infrastructure

-- UNIQUE (tenant_id, event_type, source_ref)
abbrev pub same_send : UsageEvent → UsageEvent → Bool
same_send e row = same_type e.event_type row.event_type && e.source_ref == row.source_ref

-- INSERT … ON CONFLICT … DO NOTHING
unfoldable pub insert_event : ℕ → List UsageEvent → UsageEvent → List UsageEvent
insert_event tenant_id rows e =
    if exists_where (same_send e) rows
    then rows
    else record e { tenant_id = tenant_id; rolled_up_at = none } ∷ rows

unfoldable pub insert_events : ℕ → List UsageEvent → List UsageEvent → List UsageEvent
insert_events tenant_id rows [] = rows
insert_events tenant_id rows (e ∷ events) =
    insert_events tenant_id (insert_event tenant_id rows e) events

-- usageGroup: the sends of one type and period that no counter has yet.
pub record UsageGroup : Type 0 where
  pub period_start : Time
  pub event_type : UsageEventType
  pub sum : ℕ

abbrev pub not_rolled : UsageEvent → Bool
not_rolled e = elim e.rolled_up_at [ none ↦ true | some t ↦ false ]

abbrev pub in_group : UsageEvent → UsageGroup → Bool
in_group e g = g.period_start == e.period_start && same_type g.event_type e.event_type

abbrev pub add_to_group : UsageEvent → List UsageGroup → List UsageGroup
add_to_group e [] =
    record { period_start = e.period_start; event_type = e.event_type; sum = e.quantity } ∷ []
add_to_group e (g ∷ groups) =
    let rest = add_to_group e groups in
    if in_group e g then record g { sum = g.sum + e.quantity } ∷ groups else g ∷ rest

-- SELECT period_start, event_type, sum(quantity) … GROUP BY period_start, event_type
unfoldable pub group_usage : List UsageEvent → List UsageGroup
group_usage [] = []
group_usage (e ∷ events) = add_to_group e (group_usage events)

-- The counter of a group.
abbrev pub counts : UsageGroup → UsageCounter → Bool
counts g c = c.period_start == g.period_start && same_type c.event_type g.event_type

abbrev pub new_counter : ℕ → BillingPeriod → UsageGroup → UsageCounter
unfolding advance_from
new_counter tenant_id period g = record {
  tenant_id = tenant_id;
  period_start = g.period_start;
  period_end = advance_from period g.period_start;
  event_type = g.event_type;
  total_quantity = g.sum;
  included_quantity = 0;
  overage_quantity = 0;
}

-- INSERT … ON CONFLICT … DO UPDATE … RETURNING total_quantity, with the split recomputed from the
-- new total.
abbrev pub recount : Int64 → Int64 → UsageCounter → UsageCounter
unfolding split_usage
recount allowance new_total c =
    let (included, overage) = split_usage new_total allowance in
    record c {
      total_quantity = new_total;
      included_quantity = included;
      overage_quantity = overage;
    }

abbrev pub count_in :
    UsageGroup → Int64 → List UsageCounter → Result Int64 → Result (List UsageCounter)
count_in g allowance counters (err e) = err e
count_in g allowance counters (ok new_total) =
    ok (update_where (counts g) (recount allowance new_total) counters)

abbrev pub roll_found :
    ℕ
    → Int64
    → BillingPeriod
    → List UsageCounter
    → UsageGroup
    → Int64
    → Option UsageCounter
    → Result (List UsageCounter)
unfolding new_counter
roll_found tenant_id allowance period counters g added none =
    count_in g allowance (new_counter tenant_id period g ∷ counters) (bigint added)
roll_found tenant_id allowance period counters g added (some c) =
    count_in g allowance counters (bigint (c.total_quantity + added))

unfoldable pub roll_group :
    ℕ → Int64 → BillingPeriod → List UsageCounter → UsageGroup → Result (List UsageCounter)
unfolding roll_found
roll_group tenant_id allowance period counters g = and_then (bigint g.sum) λ added.
    roll_found tenant_id allowance period counters g added (select_first (counts g) counters)

unfoldable pub roll_groups :
    ℕ → Int64 → BillingPeriod → List UsageGroup → List UsageCounter → Result (List UsageCounter)
unfolding roll_group
roll_groups tenant_id allowance period [] counters = ok counters
roll_groups tenant_id allowance period (g ∷ groups) counters =
    and_then (roll_group tenant_id allowance period counters g)
      (roll_groups tenant_id allowance period groups)

-- UPDATE usage_events SET rolled_up_at = now() WHERE rolled_up_at IS NULL
abbrev pub stamp : Time → UsageEvent → UsageEvent
stamp now e = record e { rolled_up_at = some now }

-- The sends of a period that are rolled up, and those that are not.
abbrev pub waiting_in : Time → UsageEvent → Bool
waiting_in p e = e.period_start == p && not_rolled e

abbrev pub counter_of : Time → UsageCounter → Bool
counter_of p c = c.period_start == p

abbrev pub event_quantity : UsageEvent → ℕ
event_quantity e = e.quantity

abbrev pub counter_total : UsageCounter → ℕ
counter_total c = c.total_quantity

-- The events of UsageRecorder.Record: every send counts for the period of the current subscription.
abbrev pub usage_events_of : ℕ → UsageEventType → Time → Time → List ℕ → List UsageEvent
usage_events_of tenant_id event_type period_start now [] = []
usage_events_of tenant_id event_type period_start now (ref ∷ refs) =
    new_usage_event tenant_id event_type ref period_start now
    ∷ usage_events_of tenant_id event_type period_start now refs

module _ {G : Type 0} where
  -- RecordEvents
  unfoldable pub record_events : ℕ → List UsageEvent → Billing G Unit
  unfolding with_tenant
  record_events tenant_id [] = pure tt
  record_events tenant_id (e ∷ events) =
      with_tenant λ w.
        (ok tt, record w { usage_events = insert_events tenant_id w.usage_events (e ∷ events) })

  abbrev pub store_counters : Result (List UsageCounter) → Billing G Unit
  store_counters (err e) w = (err e, w)
  store_counters (ok counters) w = (
    ok tt,
    record w {
      usage_counters = counters;
      usage_events = update_where not_rolled (stamp w.now) w.usage_events;
    },
  )

  -- Rollup
  unfoldable pub rollup : ℕ → Int64 → BillingPeriod → Billing G Unit
  unfolding with_tenant
  rollup tenant_id allowance period = with_tenant λ w.
      store_counters
        (roll_groups tenant_id allowance period
          (group_usage (select_where not_rolled w.usage_events)) w.usage_counters)
        w

  -- The sums of CurrentUsage.
  unfoldable pub usage_in : World G → Time → ℕ
  usage_in w period_start =
      sum_of counter_total (select_where (counter_of period_start) w.usage_counters)
      + sum_of event_quantity (select_where (waiting_in period_start) w.usage_events)

  -- CurrentUsage
  unfoldable pub current_usage : Time → Billing G Int64
  unfolding with_tenant
  current_usage period_start = with_tenant λ w. (bigint (usage_in w period_start), w)

  abbrev pub record_for : ℕ → UsageEventType → List ℕ → Option Subscription → Billing G Unit
  record_for tenant_id event_type refs none = pure tt
  record_for tenant_id event_type refs (some sub) = do
    now ← time_now
    record_events tenant_id (usage_events_of tenant_id event_type sub.current_period_start now refs)

  -- UsageRecorder.Record
  unfoldable pub record_usage : ℕ → UsageEventType → List ℕ → Billing G Unit
  record_usage tenant_id event_type [] = pure tt
  record_usage tenant_id event_type (ref ∷ refs) = do
    sub ← current_subscription
    record_for tenant_id event_type (ref ∷ refs) sub

  -- RollupUsageHandler.Handle: without a subscription there is no allowance, and the period is a
  -- month.
  abbrev pub roll_up_for : ℕ → Option Subscription → Billing G Unit
  roll_up_for tenant_id none = rollup tenant_id 0 (record { months = 1; days = 0 })
  roll_up_for tenant_id (some sub) = do
    plan ← get_plan sub.plan_id
    rollup tenant_id plan.included_sends plan.billing_period

  unfoldable pub roll_up_usage : ℕ → Billing G Unit
  roll_up_usage tenant_id = do sub ← current_subscription; roll_up_for tenant_id sub
