-- ===== src/Billing/Subscription/Lifecycle.antt =====
-- The subscription's state machine, as the diagram that the methods follow.
use nvelope.Billing.Subscription.{
  activate, SubscriptionState, Subscription, mark_past_due, pending, ok, canceled, suspend, active,
  request_cancellation, past_due, cancel, suspended, Result, some,
}
use nvelope.Common.Calendar.{Time}
use nvelope.Common.{◌≡◌, arith, ◌≢◌, refl}

pub data Method : Type 0 where
  activate_method past_due_method suspend_method request_method : Method
  cancel_method : Time → Method

unfoldable pub call : Method → Subscription → Result Subscription
unfolding activate mark_past_due suspend request_cancellation cancel
call activate_method s = activate s
call past_due_method s = mark_past_due s
call suspend_method s = suspend s
call request_method s = request_cancellation s
call (cancel_method at) s = cancel s at

infix 40 ◌⟶◌
-- The edges of the lifecycle. A request to cancel leaves the state.
pub data ◌⟶◌ : SubscriptionState → SubscriptionState → Type 0 where
  first_charge : pending ⟶ active
  renewal : active ⟶ active
  recovery : past_due ⟶ active
  reinstatement : suspended ⟶ active
  first_failure : pending ⟶ past_due
  lapse : active ⟶ past_due
  retry : past_due ⟶ past_due
  write_off : past_due ⟶ suspended
  ending : {s : SubscriptionState} → s ≢ canceled → s ⟶ canceled

ruleset edges =
    (first_charge, renewal, recovery, reinstatement, first_failure, lapse, retry, write_off, ending)

-- When Activate, MarkPastDue, Suspend, RequestCancellation or Cancel succeeds, it follows an edge of
-- the diagram, and leaves the subscription's identity, its tenant, its plan and its period as they
-- were.
pub call-⟶ :
    (m : Method) (s t : Subscription)
    → call m s ≡ ok t
    → (s.state ⟶ t.state)
      × (t.id ≡ s.id)
      × (t.tenant_id ≡ s.tenant_id)
      × (t.plan_id ≡ s.plan_id)
      × (t.current_period_start ≡ s.current_period_start)
      × (t.current_period_end ≡ s.current_period_end)
unfolding call
call-⟶ activate_method s t e =
    (grind (arith, edges), ground arith, ground arith, ground arith, ground arith, ground arith)
call-⟶ past_due_method s t e =
    (grind (arith, edges), ground arith, ground arith, ground arith, ground arith, ground arith)
call-⟶ suspend_method s t e =
    (grind (arith, edges), ground arith, ground arith, ground arith, ground arith, ground arith)
call-⟶ request_method s t e =
    (grind (arith, edges), ground arith, ground arith, ground arith, ground arith, ground arith)
call-⟶ (cancel_method at) s t e =
    (grind (arith, edges), ground arith, ground arith, ground arith, ground arith, ground arith)

-- Every edge is taken by a method, from every subscription in the edge's first state.
pub ⟶-call :
    {a b : SubscriptionState} (s : Subscription)
    → a ⟶ b
    → s.state ≡ a
    → (m : Method) × (t : Subscription) × (call m s ≡ ok t) × (t.state ≡ b)
unfolding call
⟶-call s first_charge e = (activate_method, record s { state = active }, ground arith, refl)
⟶-call s renewal e = (activate_method, record s { state = active }, ground arith, refl)
⟶-call s recovery e = (activate_method, record s { state = active }, ground arith, refl)
⟶-call s reinstatement e = (activate_method, record s { state = active }, ground arith, refl)
⟶-call s first_failure e = (past_due_method, record s { state = past_due }, ground arith, refl)
⟶-call s lapse e = (past_due_method, record s { state = past_due }, ground arith, refl)
⟶-call s retry e = (past_due_method, record s { state = past_due }, ground arith, refl)
⟶-call s write_off e = (suspend_method, record s { state = suspended }, ground arith, refl)
⟶-call s (ending ne) e =
    (cancel_method 0, record s { state = canceled; canceled_at = some 0 }, ground arith, refl)
