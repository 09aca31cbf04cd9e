-- ===== src/Deliverability/Commands.antt =====
-- internal/deliverability/app/command: ingestion and processing of feedback, the suppression list and
-- the bounce settings, with the suppression_applier.go of internal/deliverability/adapters that
-- processing calls. The log of unattributed notifications is left out.
pub mod Recording
pub mod Processing
pub mod Again
pub mod Listing
use nvelope.Common.Action.{◌>>=◌, err, lift, pure, raise, ◌>>◌, ok}
use nvelope.Common.{String, Option, Bool, if◌then◌else◌, some, none}
use nvelope.Deliverability.Events.{
  Result, DeliveryEvent, InboundNotification, SuppressionReason, suppression_reason, Attribution,
  unattributed, is_processed, new_suppression_entry, new_manual_suppression, called_for, attributed,
  new_delivery_event,
}
use nvelope.Deliverability.Store.{
  Env, Deliverability, stage_inbound, load_inbound, tenant_for_message, attribute, record_event,
  mark_inbound, upsert_suppression, remove_entry, get_settings, put_settings, enqueue_feedback,
  record_audit,
}

-- What the parser returns: nothing for an event type that is read past.
unfoldable pub ingest_notification :
    Env → Result (Option InboundNotification) → Deliverability (Unit {0})
ingest_notification env (err e) = raise e
ingest_notification env (ok none) = pure tt
ingest_notification env (ok (some n)) = stage_inbound env n >>= enqueue_feedback

-- SuppressionApplier.Apply once the settings call for a suppression.
unfoldable pub suppress : Env → DeliveryEvent → SuppressionReason → Deliverability (Unit {0})
suppress env e reason = do
  entry ← lift (new_suppression_entry env.mail e.tenant_id e.recipient_email reason e.id)
  upsert_suppression entry

unfoldable pub apply_reason :
    Env → DeliveryEvent → Option SuppressionReason → Deliverability (Unit {0})
apply_reason env e none = pure tt
apply_reason env e (some reason) = do
  settings ← get_settings e.tenant_id
  if called_for settings reason then suppress env e reason else pure tt

unfoldable pub apply : Env → DeliveryEvent → Deliverability (Unit {0})
apply env e = apply_reason env e (suppression_reason e.kind)

-- The recorded event's suppression, and the mark of the notification.
unfoldable pub finish_event : Env → DeliveryEvent → String → Bool → Deliverability (Unit {0})
finish_event env e id recorded =
    (if recorded then apply env e else pure tt) >> mark_inbound id attributed

unfoldable pub record_attributed :
    Env → String → InboundNotification → Option Attribution → Deliverability (Unit {0})
record_attributed env tenant_id n none = mark_inbound n.id unattributed
record_attributed env tenant_id n (some attr) = do
  e ← lift (
      new_delivery_event env.mail tenant_id n.id n.kind n.recipient_email n.provider_message_id
        attr)
  recorded ← record_event env e
  finish_event env e n.id recorded

unfoldable pub process_owned : Env → InboundNotification → Option String → Deliverability (Unit {0})
process_owned env n none = mark_inbound n.id unattributed
process_owned env n (some tenant_id) =
    attribute tenant_id n.provider_message_id >>= record_attributed env tenant_id n

unfoldable pub process_loaded : Env → InboundNotification → Deliverability (Unit {0})
process_loaded env n =
    if is_processed n.status
    then pure tt
    else tenant_for_message n.provider_message_id >>= process_owned env n

-- ProcessFeedback
unfoldable pub process_feedback : Env → String → Deliverability (Unit {0})
process_feedback env id = load_inbound id >>= process_loaded env

unfoldable pub add_suppression : Env → String → String → String → Deliverability (Unit {0})
add_suppression env tenant_id email note = do
  entry ← lift (new_manual_suppression env.mail tenant_id email note)
  upsert_suppression entry
  record_audit tenant_id "suppression.added" entry.email

unfoldable pub remove_suppression : Env → String → String → Deliverability (Unit {0})
remove_suppression env tenant_id email = do
  remove_entry env tenant_id email
  record_audit tenant_id "suppression.removed" email

unfoldable pub update_bounce_settings : String → Bool → Bool → Deliverability (Unit {0})
update_bounce_settings tenant_id hard_bounce complaint = do
  put_settings tenant_id
      (record { suppress_hard_bounce = hard_bounce; suppress_complaint = complaint })
  record_audit tenant_id "bounce_settings.updated" ""
