-- ===== src/Billing/Metering/Usage.antt =====
-- What a batch of records adds to a period's usage.
use nvelope.Common.{◌≡◌, length, ◌≤◌, ◌+◌, arith, refl}
use nvelope.Billing.Metering.{
  insert_event, insert_events, waiting_in, event_quantity, usage_in, record_usage, usage_events_of,
  record_events, ℕ, World, Time, List, [], sum_of, select_first, select_where, some, ◌∷◌,
}
use nvelope.Billing.Usage.{UsageEvent, UsageEventType, new_usage_event}
use nvelope.Billing.Subscription.{Subscription}
use nvelope.Billing.Subscriptions.{current_subscription, not_canceled}
use nvelope.Billing.Store.{with_tenant}
use nvelope.Common.Action.{◌>>=◌}

waiting-insert :
    (tenant_id : ℕ) (p : Time) (rows events : List UsageEvent)
    → sum_of event_quantity (select_where (waiting_in p) (insert_events tenant_id rows events))
      ≤ sum_of event_quantity (select_where (waiting_in p) rows) + sum_of event_quantity events
unfolding insert_events insert_event
waiting-insert t p rows [] = omega arith
waiting-insert t p rows (e ∷ events) =
    let rest = waiting-insert t p (insert_event t rows e) events in
    let one : sum_of event_quantity (select_where (waiting_in p) (insert_event t rows e))
        ≤ sum_of event_quantity (select_where (waiting_in p) rows) + e.quantity =
      ground arith in
    omega (arith, rest, one)

quantity-batch :
    (tenant_id : ℕ) (event_type : UsageEventType) (start now : Time) (refs : List ℕ)
    → sum_of event_quantity (usage_events_of tenant_id event_type start now refs) ≡ length refs
unfolding new_usage_event
quantity-batch t y start now [] = refl
quantity-batch t y start now (ref ∷ refs) = omega (arith, quantity-batch t y start now refs)

-- While the database fails no transaction, a batch adds at most one unit for each reference.
pub record_usage-usage :
    {G : Type 0} (w : World G)
    → w.faults ≡ []
    → (tenant_id : ℕ) (event_type : UsageEventType) (refs : List ℕ) (s : Subscription)
    → select_first not_canceled w.subscriptions ≡ some s
    → usage_in (record_usage tenant_id event_type refs w).1 s.current_period_start
      ≤ usage_in w s.current_period_start + length refs
unfolding record_usage record_events current_subscription with_tenant ◌>>=◌ usage_in
record_usage-usage w h t y [] s c = omega arith
record_usage-usage w h t y (ref ∷ refs) s c = rw h (
    rw c (
      omega (
        arith,
        waiting-insert t s.current_period_start w.usage_events
            (usage_events_of t y s.current_period_start w.now (ref ∷ refs)),
        quantity-batch t y s.current_period_start w.now (ref ∷ refs),
      )))
