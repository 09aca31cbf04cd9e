-- ===== src/Billing/Usage.antt =====
-- internal/billing/domain/usage.go: metered sends and the counters that they are rolled up into.
-- The rows' own ids, which nothing reads, are left out.
use nvelope.Common.{ℕ, Bool, true, false, Option, none, if◌then◌else◌}
use nvelope.Common.Int64.{Int64, le64, sub64}
use nvelope.Common.Calendar.{Time}

pub data UsageEventType : Type 0 where
  campaign_send transactional_send : UsageEventType

abbrev pub same_type : UsageEventType → UsageEventType → Bool
same_type campaign_send campaign_send = true
same_type transactional_send transactional_send = true
same_type _ _ = false

-- `source_ref` is the id of a campaign's recipient or of a transactional message.
pub record UsageEvent : Type 0 where
  pub tenant_id : ℕ
  pub event_type : UsageEventType
  pub quantity : Int64
  pub source_ref : ℕ
  pub occurred_at : Time
  pub period_start : Time
  pub rolled_up_at : Option Time

unfoldable pub new_usage_event : ℕ → UsageEventType → ℕ → Time → Time → UsageEvent
new_usage_event tenant_id event_type source_ref period_start occurred_at = record {
  tenant_id = tenant_id;
  event_type = event_type;
  quantity = 1;
  source_ref = source_ref;
  occurred_at = occurred_at;
  period_start = period_start;
  rolled_up_at = none;
}

pub record UsageCounter : Type 0 where
  pub tenant_id : ℕ
  pub period_start : Time
  pub period_end : Time
  pub event_type : UsageEventType
  pub total_quantity : Int64
  pub included_quantity : Int64
  pub overage_quantity : Int64

-- A total's part within the allowance, and the rest.
unfoldable pub split_usage : Int64 → Int64 → Int64 × Int64
unfolding le64 sub64
split_usage total allowance =
    if le64 total allowance then (total, 0) else (allowance, sub64 total allowance)
