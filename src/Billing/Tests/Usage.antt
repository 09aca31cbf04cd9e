-- ===== src/Billing/Tests/Usage.antt =====
-- A tenant whose plan includes a hundred sends, some of them recorded twice.
use nvelope.Common.{refl, ◌≡◌, true, false, none, List, [], ◌∷◌, ◌≤◌, ◌&&◌, ◌+◌, ℕ, exists_where}
use nvelope.Common.Action.{ok, ◌>>=◌}
use nvelope.Billing.Subscriptions.{current_subscription, get_plan}
use nvelope.Billing.Metering.{current_usage, record_events, roll_up_usage, rollup, insert_event}
use nvelope.Billing.Tests.{Till, start_world, basic, arith}
use nvelope.Billing.Store.{World, with_tenant}
use nvelope.Billing.Subscription.{Subscription, active, allows_sending}
use nvelope.Billing.Usage.{campaign_send, UsageEventType}
use nvelope.Billing.Metering.{usage_in, record_usage, insert_events}
use nvelope.Billing.Metering.Events.{OneRowEach}
use nvelope.Billing.Metering.Metered.{
  MeterEvent, meter_run, events_in, record_event, roll_up_event, elsewhere, meter_step,
}
use nvelope.Billing.Metering.Reported.{is_send, reported, reported_in}
use nvelope.Billing.Metering.Sends.{usage_in-counts, record_usage-again}
use nvelope.Billing.Quota.{authorize, QuotaDecision, no_reason, decide, remaining}
use nvelope.Billing.Quota.Decisions.{authorize-decides, record_usage-within, fits}

abbrev current : Subscription
current = record {
  id = 100;
  tenant_id = 1;
  plan_id = 7;
  state = active;
  current_period_start = 10;
  current_period_end = 20;
  cancel_at_period_end = false;
  canceled_at = none;
}

abbrev active_world : World Till
active_world = record (start_world true []) { subscriptions = current ∷ [] }

abbrev sends : List (MeterEvent Till)
sends =
    record_event campaign_send (1 ∷ 2 ∷ 1 ∷ [])
    ∷ roll_up_event
    ∷ elsewhere active_world
    ∷ record_event campaign_send (2 ∷ 3 ∷ [])
    ∷ []

usage_in-counts_example :
    ((y : UsageEventType) (ref : ℕ)
      → exists_where (is_send y ref) (meter_run 1 active_world sends).usage_events
        ≡ reported_in 1 active_world sends y ref)
    × OneRowEach (meter_run 1 active_world sends).usage_events
    × (usage_in (meter_run 1 active_world sends) 10 ≡ events_in (meter_run 1 active_world sends) 10)
usage_in-counts_example = usage_in-counts 1 active_world sends 10 refl refl

-- Every send of the run was reported, and no other.
third_reported : reported_in 1 active_world sends campaign_send 3 ≡ true
unfolding reported_in reported meter_step record_usage current_subscription record_events
    with_tenant ◌>>=◌
third_reported = refl

fourth_not : reported_in 1 active_world sends campaign_send 4 ≡ false
unfolding reported_in reported meter_step record_usage current_subscription record_events
    with_tenant ◌>>=◌ roll_up_usage rollup get_plan insert_events insert_event
fourth_not = refl

-- A batch that is delivered again after a roll-up, later and in the next period.
abbrev next_period : World Till
next_period = record active_world {
  now = 25;
  subscriptions = record current { current_period_start = 20; current_period_end = 30 } ∷ [];
}

abbrev between : List (MeterEvent Till)
between = roll_up_event ∷ elsewhere next_period ∷ []

batch_reported : reported 1 active_world campaign_send (5 ∷ 6 ∷ []) ≡ true
unfolding reported record_usage current_subscription record_events with_tenant ◌>>=◌
batch_reported = refl

record_usage-again_example :
    (record_usage 1 campaign_send (5 ∷ 6 ∷ []) (
      meter_run 1
        (record_usage 1 campaign_send (5 ∷ 6 ∷ []) active_world).1
        between)).1.usage_events
    ≡ (meter_run 1 (record_usage 1 campaign_send (5 ∷ 6 ∷ []) active_world).1 between).usage_events
record_usage-again_example =
    record_usage-again 1 active_world campaign_send (5 ∷ 6 ∷ []) between batch_reported

empty_usage : usage_in active_world 10 ≡ 0
unfolding usage_in
empty_usage = refl

authorize-decides_example :
    (d : QuotaDecision) × (authorize 2 active_world ≡ (ok d, active_world))
    × (d.allowed ≡ (allows_sending current && fits basic (usage_in active_world 10 + 2)))
authorize-decides_example =
    authorize-decides active_world refl current basic 2 refl refl (omega (arith, empty_usage))
      (omega arith)

two_allowed :
    authorize 2 active_world
    ≡ (ok (record { allowed = true; reason = no_reason; remaining_free = 100 }), active_world)
unfolding authorize decide remaining usage_in with_tenant ◌>>=◌ current_subscription get_plan
    current_usage
two_allowed = refl

record_usage-within_example :
    usage_in (record_usage 1 campaign_send (5 ∷ 6 ∷ []) active_world).1 10 ≤ 100
record_usage-within_example =
    record_usage-within active_world refl current basic 2 refl refl (omega (arith, empty_usage))
      (omega arith) 1 campaign_send (5 ∷ 6 ∷ [])
      (record { allowed = true; reason = no_reason; remaining_free = 100 }) refl two_allowed refl
      (omega arith)
