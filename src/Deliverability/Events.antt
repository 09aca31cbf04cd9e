-- ===== src/Deliverability/Events.antt =====
-- internal/deliverability/domain: delivery events, staged notifications, suppression entries and
-- the tenant's bounce settings. Times of occurrence and raw payloads, which nothing decides on, are
-- left out.
pub mod Built
use nvelope.Platform.Apperr.{Failure, new_incorrect_input}
use nvelope.Common.Action.{ok, err}
use nvelope.Common.Action
use nvelope.Common.{
  if◌then◌else◌, String, Bool, Option, true, false, not, trim_space, some, is_empty, none, ◌||◌,
}

abbrev pub Result : Type 0 → Type 0
Result A = Action.Result Failure A

-- ErrValidationFailed.WithMessage
unfoldable pub validation_failed : String → Failure
validation_failed m = new_incorrect_input "validation_failed" m

-- EventKind is a string in the code: `unknown_kind` is any other string.
pub data EventKind : Type 0 where
  bounce complaint delivery opening click unknown_kind : EventKind

unfoldable pub valid_kind : EventKind → Bool
valid_kind unknown_kind = false
valid_kind _ = true

pub data SuppressionReason : Type 0 where
  hard_bounce complained manual unknown_reason : SuppressionReason

unfoldable pub valid_reason : SuppressionReason → Bool
valid_reason unknown_reason = false
valid_reason _ = true

pub record Attribution : Type 0 where
  pub campaign_id : String
  pub campaign_recipient_id : String
  pub transactional_message_id : String

pub record DeliveryEvent : Type 0 where
  pub id : String
  pub tenant_id : String
  pub inbound_event_id : String
  pub kind : EventKind
  pub recipient_email : String
  pub attribution : Attribution
  pub provider_message_id : String

-- strings.ToLower, and the pattern of suppression.go.
pub record Mail : Type 0 where
  pub lower : String → String
  pub is_address : String → Bool

abbrev pub same : Bool → Bool → Bool
same true b = b
same false b = not b

unfoldable pub new_delivery_event :
    Mail → String → String → EventKind → String → String → Attribution → Result DeliveryEvent
unfolding valid_kind
new_delivery_event mail tenant_id inbound_event_id kind recipient provider_message_id attr =
    let email = mail.lower (trim_space recipient) in
    if is_empty tenant_id || is_empty inbound_event_id
    then err (validation_failed "a tenant and an inbound event are required")
    else if not (valid_kind kind)
    then err (validation_failed "unknown delivery event kind")
    else if is_empty email
    then err (validation_failed "a recipient email is required")
    else if is_empty provider_message_id
    then err (validation_failed "a provider message id is required")
    else if same (not (is_empty attr.campaign_recipient_id))
        (not (is_empty attr.transactional_message_id))
    then err (
        validation_failed
          "a delivery event must be attributed to exactly one of a campaign recipient or a transactional message")
    else ok (record {
      id = "";
      tenant_id = tenant_id;
      inbound_event_id = inbound_event_id;
      kind = kind;
      recipient_email = email;
      attribution = attr;
      provider_message_id = provider_message_id;
    })

-- SuppressionReason of an event of this kind.
unfoldable pub suppression_reason : EventKind → Option SuppressionReason
suppression_reason bounce = some hard_bounce
suppression_reason complaint = some complained
suppression_reason _ = none

pub record SuppressionEntry : Type 0 where
  pub tenant_id : String
  pub email : String
  pub reason : SuppressionReason
  pub source_event_id : String
  pub note : String

unfoldable pub new_suppression_entry :
    Mail → String → String → SuppressionReason → String → Result SuppressionEntry
unfolding valid_reason
new_suppression_entry mail tenant_id email reason source_event_id =
    let email' = mail.lower (trim_space email) in
    if is_empty tenant_id
    then err (validation_failed "a tenant is required")
    else if not (mail.is_address email')
    then err (validation_failed "a valid email address is required")
    else if not (valid_reason reason)
    then err (validation_failed "unknown suppression reason")
    else ok (record {
      tenant_id = tenant_id;
      email = email';
      reason = reason;
      source_event_id = source_event_id;
      note = "";
    })

unfoldable pub new_manual_suppression : Mail → String → String → String → Result SuppressionEntry
unfolding new_suppression_entry
new_manual_suppression mail tenant_id email note =
    Action.and_then (new_suppression_entry mail tenant_id email manual "")
      λ e. ok (record e { note = trim_space note })

pub record BounceSettings : Type 0 where
  pub suppress_hard_bounce : Bool
  pub suppress_complaint : Bool

abbrev pub default_bounce_settings : BounceSettings
default_bounce_settings = record { suppress_hard_bounce = true; suppress_complaint = true }

-- Whether the settings call for a suppression.
unfoldable pub called_for : BounceSettings → SuppressionReason → Bool
called_for s hard_bounce = s.suppress_hard_bounce
called_for s complained = s.suppress_complaint
called_for s _ = false

pub data InboundStatus : Type 0 where
  pending attributed unattributed failed : InboundStatus

pub record InboundNotification : Type 0 where
  pub id : String
  pub dedupe_key : String
  pub kind : EventKind
  pub provider_message_id : String
  pub recipient_email : String
  pub status : InboundStatus

unfoldable pub new_inbound_notification :
    Mail → String → EventKind → String → String → Result InboundNotification
unfolding valid_kind
new_inbound_notification mail dedupe_key kind provider_message_id recipient =
    let email = mail.lower (trim_space recipient) in
    if is_empty dedupe_key
    then err (validation_failed "a dedupe key is required")
    else if not (valid_kind kind)
    then err (validation_failed "unknown notification kind")
    else if is_empty provider_message_id
    then err (validation_failed "a provider message id is required")
    else if is_empty email
    then err (validation_failed "a recipient email is required")
    else ok (record {
      id = "";
      dedupe_key = dedupe_key;
      kind = kind;
      provider_message_id = provider_message_id;
      recipient_email = email;
      status = pending;
    })

abbrev pub is_processed : InboundStatus → Bool
is_processed attributed = true
is_processed unattributed = true
is_processed _ = false
