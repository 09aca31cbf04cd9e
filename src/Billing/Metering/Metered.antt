-- ===== src/Billing/Metering/Metered.antt =====
-- Over every run, the current usage is the number of sends recorded in the period.
use nvelope.Common.{ℕ, List, ◌≡◌, All, length, arith, ◌∙◌, [], refl, sym, none}
use nvelope.Billing.Metering.{
  usage_in, record_events, rollup, record_usage, roll_up_usage, Time, Option, Int64, ◌∷◌, sum_of,
  Result, Subscription, [], select_where, UsageCounter, record_for, roll_up_for, some, roll_groups,
  group_usage, not_rolled, store_counters, err, ok,
}
use nvelope.Billing.Metering.Rollup.{roll_groups-Moves, grouped, counters-summed, Moves}
use nvelope.Billing.Metering.Counters.{Unique, counted_in}
use nvelope.Billing.Metering.Events.{
  rolled_in, OneRowEach, IsUnit, rolled-insert, OneRowEach-insert, IsUnit-insert, rolled-stamp,
  OneRowEach-stamp, IsUnit-stamp, split-sent, sent_in, usage_events_of-IsUnit,
}
use nvelope.Billing.Store.Keeps.{with_tenant-Keeps}
use nvelope.Common.Action.Keeps.{Keeps, keeps_rules}
use nvelope.Billing.Plan.{BillingPeriod, Plan}
use nvelope.Billing.Usage.{UsageEvent, UsageEventType}
use nvelope.Billing.Subscriptions.{get_plan, current_subscription, found_plan}
use nvelope.Billing.Store.{time_now, World}

-- The counters hold what is rolled up, one counter for each period and type, and the events are one
-- row of quantity one for each send.
pub record IsMetered {G : Type 0} (w : World G) : Type 0 where
  pub unique : Unique w.usage_counters
  pub balanced :
      (p : Time) → sum_of (counted_in p) w.usage_counters ≡ sum_of (rolled_in p) w.usage_events
  pub once : OneRowEach w.usage_events
  pub units : All IsUnit w.usage_events

abbrev pub events_in : {G : Type 0} → World G → Time → ℕ
events_in w p = length (select_where (sent_in p) w.usage_events)

module _ {G : Type 0} where
  abbrev P : World G → Type 0
  P = IsMetered

  usage_in-IsMetered : (w : World G) (p : Time) → IsMetered w → usage_in w p ≡ events_in w p
  unfolding usage_in
  usage_in-IsMetered w p h =
      omega (
        arith,
        counters-summed p w.usage_counters,
        h.balanced p,
        split-sent p w.usage_events h.units,
      )

  time_now-Keeps : Keeps P time_now
  time_now-Keeps = record { at = λ w h. h }

  copy :
      (w v : World G)
      → w.usage_events ≡ v.usage_events
      → w.usage_counters ≡ v.usage_counters
      → IsMetered w
      → IsMetered v
  copy w v e c h = record {
    unique = rw (← c) h.unique;
    balanced = λ p. rw (← c) (rw (← e) (h.balanced p));
    once = rw (← e) h.once;
    units = rw (← e) h.units;
  }

  get_plan-Keeps : (id : ℕ) → Keeps P (get_plan id)
  unfolding get_plan
  get_plan-Keeps id =
      with_tenant-Keeps {P = P} (λ w fs h. copy w _ refl refl h) _ λ w h. found _ w h
    where
      found : (o : Option Plan) (w : World G) → P w → P (found_plan o w).1
      found none w h = h
      found (some p) w h = h

  current_subscription-Keeps : Keeps P current_subscription
  unfolding current_subscription
  current_subscription-Keeps = with_tenant-Keeps {P = P} (λ w fs h. copy w _ refl refl h) _ λ w h. h

  record_events-Keeps :
      (tenant_id : ℕ) (events : List UsageEvent)
      → All IsUnit events
      → Keeps P (record_events tenant_id events)
  unfolding record_events
  record_events-Keeps t [] k = search keeps_rules
  record_events-Keeps t (e ∷ events) k =
      with_tenant-Keeps {P = P} (λ w fs h. copy w _ refl refl h) _
        λ w h. record {
          unique = h.unique;
          balanced = λ p. h.balanced p ∙ sym (rolled-insert t p w.usage_events (e ∷ events));
          once = OneRowEach-insert t w.usage_events (e ∷ events) h.once;
          units = IsUnit-insert t w.usage_events (e ∷ events) h.units k;
        }

  rollup-Keeps :
      (tenant_id : ℕ) (allowance : Int64) (period : BillingPeriod)
      → Keeps P (rollup tenant_id allowance period)
  unfolding rollup
  rollup-Keeps t a period =
      with_tenant-Keeps {P = P} (λ w fs h. copy w _ refl refl h) _ λ w h. stored w h _ refl
    where
      stored :
          (w : World G)
          → P w
          → (r : Result (List UsageCounter))
          → roll_groups t a period
              (group_usage (select_where not_rolled w.usage_events))
              w.usage_counters
            ≡ r
          → P (store_counters r w).1
      stored w h (err e) q = h
      stored w h (ok counters) q =
          let m : Moves w.usage_counters counters _ =
            roll_groups-Moves t a period (group_usage (select_where not_rolled w.usage_events))
              w.usage_counters h.unique q in
          record {
            unique = m.0;
            balanced = λ p. omega (
              arith,
              m.1 p,
              h.balanced p,
              grouped p w.usage_events,
              rolled-stamp p w.now w.usage_events,
            );
            once = OneRowEach-stamp w.now w.usage_events h.once;
            units = IsUnit-stamp w.now w.usage_events h.units;
          }

  record_for-Keeps :
      (tenant_id : ℕ) (event_type : UsageEventType) (refs : List ℕ) (o : Option Subscription)
      → Keeps P (record_for tenant_id event_type refs o)
  record_for-Keeps t y refs none = search keeps_rules
  record_for-Keeps t y refs (some s) =
      search (keeps_rules, time_now-Keeps, record_events-Keeps, usage_events_of-IsUnit)

  record_usage-Keeps :
      (tenant_id : ℕ) (event_type : UsageEventType) (refs : List ℕ)
      → Keeps P (record_usage tenant_id event_type refs)
  unfolding record_usage
  record_usage-Keeps t y [] = search keeps_rules
  record_usage-Keeps t y (ref ∷ refs) =
      search (keeps_rules, current_subscription-Keeps, record_for-Keeps)

  roll_up_for-Keeps : (tenant_id : ℕ) (o : Option Subscription) → Keeps P (roll_up_for tenant_id o)
  roll_up_for-Keeps t none = search rollup-Keeps
  roll_up_for-Keeps t (some s) = search (keeps_rules, get_plan-Keeps, rollup-Keeps)

  roll_up_usage-Keeps : (tenant_id : ℕ) → Keeps P (roll_up_usage tenant_id)
  unfolding roll_up_usage
  roll_up_usage-Keeps t = search (keeps_rules, current_subscription-Keeps, roll_up_for-Keeps)

-- What can happen to the usage tables: `elsewhere` is any change of the other state.
pub data MeterEvent (G : Type 0) : Type 0 where
  record_event : UsageEventType → List ℕ → MeterEvent G
  roll_up_event : MeterEvent G
  elsewhere : World G → MeterEvent G

module _ {G : Type 0} (tenant_id : ℕ) where
  unfoldable pub meter_step : World G → MeterEvent G → World G
  meter_step w (record_event event_type refs) = (record_usage tenant_id event_type refs w).1
  meter_step w roll_up_event = (roll_up_usage tenant_id w).1
  meter_step w (elsewhere v) = record v {
    usage_events = w.usage_events;
    usage_counters = w.usage_counters;
  }

  unfoldable pub meter_run : World G → List (MeterEvent G) → World G
  meter_run w [] = w
  meter_run w (e ∷ es) = meter_run (meter_step w e) es

  meter_step-IsMetered : (w : World G) (e : MeterEvent G) → IsMetered w → IsMetered (meter_step w e)
  unfolding meter_step
  meter_step-IsMetered w (record_event y refs) h = (record_usage-Keeps tenant_id y refs).at w h
  meter_step-IsMetered w roll_up_event h = (roll_up_usage-Keeps tenant_id).at w h
  meter_step-IsMetered w (elsewhere v) h = copy w _ refl refl h

  meter_run-IsMetered :
      (w : World G) (es : List (MeterEvent G)) → IsMetered w → IsMetered (meter_run w es)
  unfolding meter_run
  meter_run-IsMetered w [] h = h
  meter_run-IsMetered w (e ∷ es) h =
      meter_run-IsMetered (meter_step w e) es (meter_step-IsMetered w e h)

  -- The usage that is read is the number of the period's rows, and no send has two rows.
  pub usage_in-rows :
      (w : World G) (es : List (MeterEvent G)) (p : Time)
      → w.usage_events ≡ []
      → w.usage_counters ≡ []
      → (usage_in (meter_run w es) p ≡ events_in (meter_run w es) p)
        × OneRowEach (meter_run w es).usage_events
  usage_in-rows w es p e c =
      let start : IsMetered w = record {
        unique = rw c tt;
        balanced = λ p. rw c (rw e);
        once = rw e tt;
        units = rw e tt;
      } in
      let h = meter_run-IsMetered w es start in (usage_in-IsMetered (meter_run w es) p h, h.once)
