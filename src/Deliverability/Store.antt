-- ===== src/Deliverability/Store.antt =====
-- internal/deliverability/adapters: the repositories of events, suppressions and settings, and the
-- check before a send. The rows of all tenants stand in one table, and row-level security is written
-- out in each query. A statement outside of a tenant's transaction commits or fails alike.
use nvelope.Common.Action.{ok, ◌>>=◌, pure, err}
use nvelope.Common.{
  String, List, ℕ, Bool, if◌then◌else◌, Option, text_eq, exists_where, select_first, update_where,
  select_where, trim_space, some, ◌++◌, false, ◌&&◌, ◌∷◌, not, none, true, [],
}
use nvelope.Common.Database.{with_tenant, read, write, found, Query, require, take_fresh}
use nvelope.Platform.Apperr.{Failure, new_not_found, plain}
use nvelope.Deliverability.Events.{
  Result, InboundNotification, InboundStatus, DeliveryEvent, SuppressionEntry, BounceSettings,
  Attribution, Mail, default_bounce_settings,
}

pub record CampaignRecipient : Type 0 where
  pub id : String
  pub campaign_id : String
  pub tenant_id : String
  pub provider_message_id : String

pub record TransactionalMessage : Type 0 where
  pub id : String
  pub tenant_id : String
  pub provider_message_id : String

pub record SettingsRow : Type 0 where
  pub tenant_id : String
  pub settings : BounceSettings

pub record AuditEntry : Type 0 where
  pub tenant_id : String
  pub action : String
  pub target : String

pub record Tables : Type 0 where
  pub inbound : List InboundNotification
  pub recipients : List CampaignRecipient
  pub transactional : List TransactionalMessage
  pub events : List DeliveryEvent
  pub suppressions : List SuppressionEntry
  pub settings : List SettingsRow
  pub jobs : List String
  pub audit : List AuditEntry

-- What the code calls and does not implement: the database's uuids and mail addresses.
pub record Env : Type 0 where
  pub uuid : ℕ → String
  pub mail : Mail

abbrev pub Deliverability : Type 0 → Type 0
Deliverability A = Query Tables A

unfoldable pub suppression_not_found : Failure
suppression_not_found = new_not_found "suppression_not_found" "no such suppression entry"

abbrev pub has_dedupe_key : String → InboundNotification → Bool
has_dedupe_key key n = text_eq n.dedupe_key key

abbrev pub notification_is : String → InboundNotification → Bool
notification_is id n = text_eq n.id id

abbrev pub stage_row : String → InboundNotification → Tables → Bool × Tables
stage_row id n t =
    if exists_where (has_dedupe_key n.dedupe_key) t.inbound
    then (false, t)
    else (true, record t { inbound = t.inbound ++ (record n { id = id }) ∷ [] })

abbrev pub id_of : Option InboundNotification → Result String
id_of (some n) = ok n.id
id_of none = err (plain "loading staged notification")

abbrev pub staged_id : String → Tables → Result String
staged_id key t = id_of (select_first (has_dedupe_key key) t.inbound)

-- StageInbound: the insert, and on a conflict the query for the row that stands.
unfoldable pub stage_inbound : Env → InboundNotification → Deliverability String
stage_inbound env n = do
  fresh ← take_fresh
  staged ← with_tenant (write (stage_row (env.uuid fresh) n))
  if staged then pure (env.uuid fresh) else with_tenant (read (staged_id n.dedupe_key))

abbrev pub load_row : String → Tables → Result InboundNotification
load_row id t =
    found (plain "staged notification not found") (select_first (notification_is id) t.inbound)

unfoldable pub load_inbound : String → Deliverability InboundNotification
load_inbound id = with_tenant (read (load_row id))

abbrev pub first_owner : Option CampaignRecipient → Option TransactionalMessage → Option String
first_owner (some r) m = some r.tenant_id
first_owner none (some m) = some m.tenant_id
first_owner none none = none

abbrev pub owner_of : String → Tables → Option String
owner_of message t =
    first_owner (select_first (λ r. text_eq r.provider_message_id message) t.recipients)
      (select_first (λ m. text_eq m.provider_message_id message) t.transactional)

-- TenantForMessage, with the database function that it calls.
unfoldable pub tenant_for_message : String → Deliverability (Option String)
tenant_for_message message = with_tenant (read λ t. ok (owner_of message t))

abbrev pub recipient_sent : String → String → CampaignRecipient → Bool
recipient_sent tenant_id message r =
    text_eq r.tenant_id tenant_id && text_eq r.provider_message_id message

abbrev pub message_sent : String → String → TransactionalMessage → Bool
message_sent tenant_id message m =
    text_eq m.tenant_id tenant_id && text_eq m.provider_message_id message

abbrev pub first_attribution :
    Option CampaignRecipient → Option TransactionalMessage → Option Attribution
first_attribution (some r) m = some (record {
  campaign_id = r.campaign_id;
  campaign_recipient_id = r.id;
  transactional_message_id = "";
})
first_attribution none (some m) =
    some (record { campaign_id = ""; campaign_recipient_id = ""; transactional_message_id = m.id })
first_attribution none none = none

abbrev pub attribution_of : String → String → Tables → Option Attribution
attribution_of tenant_id message t =
    first_attribution (select_first (recipient_sent tenant_id message) t.recipients)
      (select_first (message_sent tenant_id message) t.transactional)

unfoldable pub attribute : String → String → Deliverability (Option Attribution)
attribute tenant_id message = with_tenant (read λ t. ok (attribution_of tenant_id message t))

abbrev pub of_inbound : String → DeliveryEvent → Bool
of_inbound inbound_event_id e = text_eq e.inbound_event_id inbound_event_id

abbrev pub record_row : String → DeliveryEvent → Tables → Bool × Tables
record_row id e t =
    if exists_where (of_inbound e.inbound_event_id) t.events
    then (false, t)
    else (true, record t { events = t.events ++ (record e { id = id }) ∷ [] })

-- RecordEvent: whether a row was written.
unfoldable pub record_event : Env → DeliveryEvent → Deliverability Bool
record_event env e = do fresh ← take_fresh; with_tenant (write (record_row (env.uuid fresh) e))

abbrev pub mark_row : String → InboundStatus → Tables → Unit {0} × Tables
mark_row id status t = (
  tt,
  record t {
    inbound = update_where (notification_is id) (λ n. record n { status = status }) t.inbound;
  },
)

unfoldable pub mark_inbound : String → InboundStatus → Deliverability (Unit {0})
mark_inbound id status = with_tenant (write (mark_row id status))

abbrev pub is_suppressed : String → String → SuppressionEntry → Bool
is_suppressed tenant_id email s = text_eq s.tenant_id tenant_id && text_eq s.email email

abbrev pub suppress_row : SuppressionEntry → Tables → Unit {0} × Tables
suppress_row e t = (
  tt,
  (if exists_where (is_suppressed e.tenant_id e.email) t.suppressions
      then t
      else record t { suppressions = t.suppressions ++ e ∷ [] }),
)

-- Suppressions.Upsert
unfoldable pub upsert_suppression : SuppressionEntry → Deliverability (Unit {0})
upsert_suppression e = with_tenant (write (suppress_row e))

abbrev pub drop_row : String → String → Tables → Unit {0} × Tables
drop_row tenant_id email t = (
  tt,
  record t {
    suppressions = select_where (λ s. not (is_suppressed tenant_id email s)) t.suppressions;
  },
)

abbrev pub listed : String → String → Tables → Result (Unit {0})
listed tenant_id email t =
    require (exists_where (is_suppressed tenant_id email) t.suppressions) suppression_not_found

-- Suppressions.Remove
unfoldable pub remove_entry : Env → String → String → Deliverability (Unit {0})
remove_entry env tenant_id email =
    let email' = env.mail.lower (trim_space email) in
    with_tenant (read (listed tenant_id email') >>= λ there. write (drop_row tenant_id email'))

abbrev pub settings_row : String → SettingsRow → Bool
settings_row tenant_id s = text_eq s.tenant_id tenant_id

abbrev pub settings_or_default : Option SettingsRow → BounceSettings
settings_or_default none = default_bounce_settings
settings_or_default (some s) = s.settings

abbrev pub settings_of : String → Tables → BounceSettings
settings_of tenant_id t = settings_or_default (select_first (settings_row tenant_id) t.settings)

-- Settings.Get
unfoldable pub get_settings : String → Deliverability BounceSettings
get_settings tenant_id = with_tenant (read λ t. ok (settings_of tenant_id t))

abbrev pub put_row : String → BounceSettings → Tables → Unit {0} × Tables
put_row tenant_id s t = (
  tt,
  record t {
    settings =
        if exists_where (settings_row tenant_id) t.settings
        then update_where (settings_row tenant_id) (λ r. record r { settings = s }) t.settings
        else t.settings ++ (record { tenant_id = tenant_id; settings = s }) ∷ [];
  },
)

-- Settings.Put
unfoldable pub put_settings : String → BounceSettings → Deliverability (Unit {0})
put_settings tenant_id s = with_tenant (write (put_row tenant_id s))

-- SuppressionChecker.Suppressed: the suppressed addresses among those asked for.
unfoldable pub suppressed_among :
    Env → String → List String → Deliverability (List SuppressionEntry)
suppressed_among env tenant_id emails = with_tenant (
    read λ t. ok (
      select_where
        (λ s.
          text_eq s.tenant_id tenant_id
          && exists_where (λ e. text_eq (env.mail.lower (trim_space e)) s.email) emails)
        t.suppressions))

unfoldable pub enqueue_feedback : String → Deliverability (Unit {0})
enqueue_feedback id = with_tenant (write λ t. (tt, record t { jobs = t.jobs ++ id ∷ [] }))

-- AuditLog.Record
unfoldable pub record_audit : String → String → String → Deliverability (Unit {0})
record_audit tenant_id action target = with_tenant (
    write λ t. (
      tt,
      record t {
        audit =
            t.audit ++ (record { tenant_id = tenant_id; action = action; target = target }) ∷ [];
      },
    ))
