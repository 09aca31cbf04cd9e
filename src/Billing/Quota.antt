-- ===== src/Billing/Quota.antt =====
-- internal/billing/adapters/quota_gate.go and the decision of internal/campaign/domain/quota.go:
-- whether the tenant may send.
pub mod Decisions
use nvelope.Billing.Store.{Billing}
use nvelope.Common.{Bool, false, true, if◌then◌else◌, Option, some, none}
use nvelope.Billing.Plan.{meter, unknown, block, OverageMode, Plan}
use nvelope.Billing.Subscription.{
  Subscription, active, past_due, suspended, canceled, pending, SubscriptionState,
}
use nvelope.Billing.Subscriptions.{get_plan, current_subscription}
use nvelope.Billing.Metering.{current_usage}
use nvelope.Common.Action.{◌>>=◌, pure, Action}
use nvelope.Common.Int64.{Int64, add64, sub64, lt64}

-- The reason of an allowed decision is empty.
pub data QuotaReason : Type 0 where
  no_reason quota_exceeded tenant_suspended : QuotaReason

pub record QuotaDecision : Type 0 where
  pub allowed : Bool
  pub reason : QuotaReason
  pub remaining_free : Int64

abbrev pub denied : QuotaReason → QuotaDecision
denied reason = record { allowed = false; reason = reason; remaining_free = 0 }

abbrev pub is_meter : OverageMode → Bool
is_meter meter = true
is_meter block = false
is_meter unknown = false

-- What is left of the allowance.
unfoldable pub remaining : Int64 → Int64 → Int64
unfolding sub64 lt64
remaining included used = let left = sub64 included used in if lt64 left 0 then 0 else left

unfoldable pub decide : Plan → Int64 → Int64 → QuotaDecision
unfolding remaining add64 lt64
decide plan used units =
    if is_meter plan.overage_mode
    then record {
      allowed = true;
      reason = no_reason;
      remaining_free = remaining plan.included_sends used;
    }
    else if lt64 plan.included_sends (add64 used units)
    then record {
      allowed = false;
      reason = quota_exceeded;
      remaining_free = remaining plan.included_sends used;
    }
    else record {
      allowed = true;
      reason = no_reason;
      remaining_free = remaining plan.included_sends used;
    }

module _ {G : Type 0} where
  abbrev pub decide_for : Subscription → Int64 → Billing G QuotaDecision
  decide_for sub units = do
    plan ← get_plan sub.plan_id
    used ← current_usage sub.current_period_start
    pure (decide plan used units)

  abbrev pub authorize_state : SubscriptionState → Subscription → Int64 → Billing G QuotaDecision
  authorize_state suspended sub units = pure (denied tenant_suspended)
  authorize_state active sub units = decide_for sub units
  authorize_state past_due sub units = decide_for sub units
  authorize_state pending sub units = pure (denied quota_exceeded)
  authorize_state canceled sub units = pure (denied quota_exceeded)

  abbrev pub authorize_current : Option Subscription → Int64 → Billing G QuotaDecision
  authorize_current none units = pure (denied quota_exceeded)
  authorize_current (some sub) units = authorize_state sub.state sub units

  -- QuotaGate.Authorize
  unfoldable pub authorize : Int64 → Billing G QuotaDecision
  authorize units = do sub ← current_subscription; authorize_current sub units
