-- ===== src/Audience/Memberships.antt =====
-- internal/audience/domain/membership.go: the link between a subscriber and a list. A method that
-- mutates the receiver returns the new status; on an error the receiver is left as it was.
pub mod Lifecycle
use nvelope.Platform.Apperr.{Failure, new_incorrect_input}
use nvelope.Audience.Attributes.{Result, validation_failed}
use nvelope.Common.Action.{ok, err}
use nvelope.Common.{if◌then◌else◌, String, Bool, is_empty, true, false, ◌||◌}

-- SubscriptionStatus is a string in the code: `unknown_status` is any other string.
pub data SubscriptionStatus : Type 0 where
  unconfirmed confirmed unsubscribed unknown_status : SubscriptionStatus

pub record Membership : Type 0 where
  pub subscriber_id : String
  pub list_id : String
  pub status : SubscriptionStatus

unfoldable pub new_membership : String → String → String → Result Membership
new_membership tenant_id subscriber_id list_id =
    if is_empty tenant_id || (is_empty subscriber_id || is_empty list_id)
    then err (validation_failed "tenant, subscriber, and list are required")
    else ok (record { subscriber_id = subscriber_id; list_id = list_id; status = unconfirmed })

unfoldable pub invalid_transition : String → Failure
invalid_transition m = new_incorrect_input "invalid_transition" m

unfoldable pub confirm : SubscriptionStatus → Result SubscriptionStatus
confirm unconfirmed = ok confirmed
confirm _ = err (invalid_transition "only an unconfirmed membership can be confirmed")

unfoldable pub unsubscribe : SubscriptionStatus → Result SubscriptionStatus
unsubscribe unsubscribed =
    err (invalid_transition "that subscriber is already unsubscribed from the list")
unsubscribe _ = ok unsubscribed

unfoldable pub resubscribe : SubscriptionStatus → Result SubscriptionStatus
resubscribe unsubscribed = ok confirmed
resubscribe _ = err (invalid_transition "only an unsubscribed membership can be resubscribed")

-- Two values of an unknown status are taken for different texts.
abbrev pub same_status : SubscriptionStatus → SubscriptionStatus → Bool
same_status unconfirmed unconfirmed = true
same_status confirmed confirmed = true
same_status unsubscribed unsubscribed = true
same_status _ _ = false

to_confirmed : SubscriptionStatus → Result SubscriptionStatus
unfolding confirm resubscribe
to_confirmed unsubscribed = resubscribe unsubscribed
to_confirmed status = confirm status

by_target : SubscriptionStatus → SubscriptionStatus → Result SubscriptionStatus
unfolding to_confirmed unsubscribe
by_target confirmed status = to_confirmed status
by_target unsubscribed status = unsubscribe status
by_target unconfirmed status = err (invalid_transition "a membership cannot return to unconfirmed")
by_target unknown_status status = err (validation_failed "unknown subscription status")

-- ChangeStatus of a membership in `status` to `target`.
unfoldable pub change_status : SubscriptionStatus → SubscriptionStatus → Result SubscriptionStatus
unfolding by_target
change_status target status =
    if same_status target status then ok status else by_target target status

unfoldable pub valid_subscription_status : SubscriptionStatus → Bool
valid_subscription_status unknown_status = false
valid_subscription_status _ = true
