-- ===== src/Billing/Subscription.antt =====
-- internal/billing/domain/subscription.go: the subscription and its lifecycle. A method that
-- mutates the receiver returns the new record; on an error the receiver is left as it was.
pub mod Lifecycle
use nvelope.Common.{ℕ, Bool, true, false, ◌||◌, not, ◌==◌, ltb, if◌then◌else◌, Option, none, some}
use nvelope.Common.Calendar.{Time}
use nvelope.Common.Action.{ok, err}
use nvelope.Billing.Errors.{Result, invalid_plan, invalid_subscription_transition}

pub data SubscriptionState : Type 0 where
  pending active past_due suspended canceled : SubscriptionState

pub record Subscription : Type 0 where
  pub id : ℕ
  pub tenant_id : ℕ
  pub plan_id : ℕ
  pub state : SubscriptionState
  pub current_period_start : Time
  pub current_period_end : Time
  pub cancel_at_period_end : Bool
  pub canceled_at : Option Time

-- The id stays empty until the row is stored.
unfoldable pub new_subscription : ℕ → ℕ → Time → Time → Result Subscription
new_subscription tenant_id plan_id period_start period_end =
    if tenant_id == 0 || plan_id == 0
    then err (invalid_plan "a subscription needs a tenant and a plan")
    else if not (ltb period_start period_end)
    then err (invalid_plan "the billing period end must be after its start")
    else ok (record {
      id = 0;
      tenant_id = tenant_id;
      plan_id = plan_id;
      state = pending;
      current_period_start = period_start;
      current_period_end = period_end;
      cancel_at_period_end = false;
      canceled_at = none;
    })

abbrev pub is_active : SubscriptionState → Bool
is_active active = true
is_active _ = false

abbrev pub is_canceled : SubscriptionState → Bool
is_canceled canceled = true
is_canceled _ = false

abbrev pub state_allows_sending : SubscriptionState → Bool
state_allows_sending active = true
state_allows_sending past_due = true
state_allows_sending _ = false

unfoldable pub allows_sending : Subscription → Bool
allows_sending s = state_allows_sending s.state

-- From pending, past_due or suspended, and once more from active.
unfoldable pub activate : Subscription → Result Subscription
activate s = elim s.state [
  | canceled ↦ err invalid_subscription_transition
  | _ ↦ ok (record s { state = active })
]

unfoldable pub set_period : Subscription → Time → Time → Subscription
set_period s start end = record s { current_period_start = start; current_period_end = end }

unfoldable pub mark_past_due : Subscription → Result Subscription
mark_past_due s = elim s.state [
  | suspended ↦ err invalid_subscription_transition
  | canceled ↦ err invalid_subscription_transition
  | _ ↦ ok (record s { state = past_due })
]

unfoldable pub suspend : Subscription → Result Subscription
suspend s = elim s.state [
  | past_due ↦ ok (record s { state = suspended })
  | _ ↦ err invalid_subscription_transition
]

unfoldable pub request_cancellation : Subscription → Result Subscription
request_cancellation s = elim s.state [
  | active ↦ ok (record s { cancel_at_period_end = true })
  | past_due ↦ ok (record s { cancel_at_period_end = true })
  | _ ↦ err invalid_subscription_transition
]

unfoldable pub cancel : Subscription → Time → Result Subscription
cancel s at = elim s.state [
  | canceled ↦ err invalid_subscription_transition
  | _ ↦ ok (record s { state = canceled; canceled_at = some at })
]
