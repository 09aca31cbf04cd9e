-- ===== src/Billing/Quota/Decisions.antt =====
-- When the gate lets a send through, and that a blocked plan's allowance holds.
use nvelope.Common.{refl}
use nvelope.Billing.Metering.Usage.{record_usage-usage}
use nvelope.Billing.Usage.{UsageEventType}
use nvelope.Common.Action.{ok, ◌>>=◌}
use nvelope.Common.Calendar.{Time}
use nvelope.Common.{
  ℕ, ◌≡◌, ◌+◌, [], ◌||◌, ◌<◌, select_first, leb, Bool-cases, inl, ◌==◌, inr, arith, ◌&&◌, List,
  length, ◌≤◌,
}
use nvelope.Billing.Store.{World, with_tenant}
use nvelope.Billing.Quota.{
  authorize, authorize_state, decide_for, decide, QuotaDecision, is_meter, current_subscription,
  get_plan, current_usage, remaining, Plan, Bool, some, Option, ◌>>=◌, false, true,
}
use nvelope.Billing.Metering.{usage_in, current_usage, record_usage}
use nvelope.Billing.Subscriptions.{not_canceled, get_plan, current_subscription}
use nvelope.Billing.Subscription.{
  SubscriptionState, Subscription, active, past_due, pending, suspended, canceled, allows_sending,
  state_allows_sending,
}
use nvelope.Common.Int64.{sign_bit}

abbrev pub fits : Plan → ℕ → Bool
fits plan n = is_meter plan.overage_mode || leb n plan.included_sends

module _ (plan : Plan) (used units : ℕ) (small : used + units < sign_bit)
    (included : plan.included_sends < sign_bit) where
  decide-allowed : (decide plan used units).allowed ≡ fits plan (used + units)
  unfolding decide remaining
  decide-allowed = elim (Bool-cases (is_meter plan.overage_mode)) [
    | inl m ↦ rw m
    | inr m ↦ rw m (ground (arith, small, included))
  ]

module _ {G : Type 0} (w : World G) (no_faults : w.faults ≡ []) where
  usage_read : (p : Time) → usage_in w p < sign_bit → current_usage p w ≡ (ok (usage_in w p), w)
  unfolding current_usage with_tenant
  usage_read p h = ground (arith, no_faults, h)

  plan_read :
      (id : ℕ) (plan : Plan)
      → select_first (λ p. p.id == id) w.plans ≡ some plan
      → get_plan id w ≡ (ok plan, w)
  unfolding get_plan with_tenant
  plan_read id plan h = ground (arith, no_faults, h)

  current_read :
      (o : Option Subscription)
      → select_first not_canceled w.subscriptions ≡ o
      → current_subscription w ≡ (ok o, w)
  unfolding current_subscription with_tenant
  current_read o h = ground (arith, no_faults, h)

  module _ (s : Subscription) (plan : Plan) (units : ℕ)
      (current : select_first not_canceled w.subscriptions ≡ some s)
      (catalog : select_first (λ p. p.id == s.plan_id) w.plans ≡ some plan)
      (small : usage_in w s.current_period_start + units < sign_bit)
      (included : plan.included_sends < sign_bit) where
    abbrev Decided : SubscriptionState → Type 0
    Decided st =
        (d : QuotaDecision) × (authorize_state st s units w ≡ (ok d, w))
        × (d.allowed
            ≡ (state_allows_sending st && fits plan (usage_in w s.current_period_start + units)))

    weighed : decide_for s units w ≡ (ok (decide plan (usage_in w s.current_period_start) units), w)
    unfolding ◌>>=◌
    weighed =
        rw (plan_read s.plan_id plan catalog)
          (rw (usage_read s.current_period_start (omega (arith, small))))

    allowed_for :
        (decide plan (usage_in w s.current_period_start) units).allowed
        ≡ fits plan (usage_in w s.current_period_start + units)
    allowed_for = decide-allowed plan (usage_in w s.current_period_start) units small included

    decided : (st : SubscriptionState) → Decided st
    unfolding ◌>>=◌
    decided active = (_, weighed, allowed_for)
    decided past_due = (_, weighed, allowed_for)
    decided pending = (_, refl, refl)
    decided suspended = (_, refl, refl)
    decided canceled = (_, refl, refl)

    -- While the database fails no transaction, the subscription's plan is in the catalog with an
    -- allowance below 2 ^ 63, and the period's usage and the asked units together stay below 2 ^ 63,
    -- the gate answers without changing the state, and it allows the send exactly when the current
    -- subscription is active or past due, and its plan either meters the excess or still includes
    -- all of the units.
    pub authorize-decides :
        (d : QuotaDecision) × (authorize units w ≡ (ok d, w))
        × (d.allowed ≡ (allows_sending s && fits plan (usage_in w s.current_period_start + units)))
    unfolding authorize ◌>>=◌ allows_sending
    authorize-decides =
        let (d, e, a) = decided s.state in (d, rw (current_read (some s) current) e, a)

    -- While the database fails no transaction, the subscription's plan is in the catalog with an
    -- allowance below 2 ^ 63, and the period's usage and the asked units together stay below 2 ^ 63,
    -- a batch that the gate allowed on a plan that does not meter, and of which no more than the
    -- asked units are recorded, leaves the period's usage within what the plan includes.
    pub record_usage-within :
        (tenant_id : ℕ) (event_type : UsageEventType) (refs : List ℕ) (d : QuotaDecision)
        → is_meter plan.overage_mode ≡ false
        → authorize units w ≡ (ok d, w)
        → d.allowed ≡ true
        → length refs ≤ units
        → usage_in (record_usage tenant_id event_type refs w).1 s.current_period_start
          ≤ plan.included_sends
    record_usage-within t y refs d blocked e a few =
        let (d', e', a') = authorize-decides in
        let q : d ≡ d' = cc in
        let within : usage_in w s.current_period_start + units ≤ plan.included_sends =
          ground (arith, a, a', q, blocked) in
        let grown = record_usage-usage w no_faults t y refs s current in
        omega (arith, grown, within, few)
