-- ===== src/Billing/Charge.antt =====
-- internal/billing/app/command/charge_invoice.go: the one path on which an invoice is charged.
pub mod Ledger
pub mod Submit
pub mod Frame
pub mod Once
pub mod Dunning
pub mod Settlement
use nvelope.Common.{
  ℕ, Bool, true, false, ◌||◌, not, String, append_text, List, [], ◌∷◌, Option, none, some, leb, ltb,
  if◌then◌else◌,
}
use nvelope.Common.Calendar.{Time}
use nvelope.Common.Action.{ok, err, pure, raise, lift, ◌>>=◌, ◌>>◌}
use nvelope.Billing.Errors.{Result, invoice_not_settleable}
use nvelope.Billing.Dunning.{DunningPolicy, next_attempt_at, is_exhausted}
use nvelope.Billing.Plan.{Plan, advance_from}
use nvelope.Billing.Subscription
use nvelope.Billing.Subscription.{
  Subscription, is_active, activate, set_period, mark_past_due, suspend, cancel,
}
use nvelope.Billing.Invoice.{
  Invoice, InvoiceLineItem, subscription_fee, new_line_item, new_invoice, is_paid, is_settleable,
  mark_paid, mark_uncollectible, record_failed_attempt,
}
use nvelope.Billing.Payment.{
  Gateway, ChargeRequest, ChargeReply, is_approved, reference_of, charge_failure_reason,
  new_succeeded_attempt, new_failed_attempt,
}
use nvelope.Billing.Store.{World, Billing, time_now, call_gateway}
use nvelope.Billing.Subscriptions.{get_plan, get_subscription, update_subscription}
use nvelope.Billing.Invoices.{
  add_or_get, get_invoice, update_invoice, update_seeing, open_for_subscription,
  has_succeeded_attempt, add_attempt, next_attempt_number,
}

-- ChargeInvoiceResult; an invoice id of `none` is the empty id.
pub record ChargeInvoiceResult : Type 0 where
  pub invoice_id : Option ℕ
  pub charged : Bool
  pub succeeded : Bool

abbrev pub nothing_due : ChargeInvoiceResult
nothing_due = record { invoice_id = none; charged = false; succeeded = false }

abbrev pub outcome : Invoice → Bool → Bool → ChargeInvoiceResult
outcome i charged succeeded = record {
  invoice_id = some i.id;
  charged = charged;
  succeeded = succeeded;
}

-- The closures that `Update` runs on the loaded row.
unfoldable pub pay_unless_paid : Time → Invoice → Result Invoice
unfolding is_paid mark_paid
pay_unless_paid at i = if is_paid i then ok i else mark_paid i at

unfoldable pub activate_into : Invoice → Subscription → Result Subscription
unfolding activate set_period
activate_into inv s = elim (activate s) [
  | ok t ↦ ok (set_period t inv.period_start inv.period_end)
  | err e ↦ err e
]

unfoldable pub exhausted_by_failure : DunningPolicy → Time → Invoice → Bool
unfolding is_exhausted record_failed_attempt next_attempt_at
exhausted_by_failure dunning now i =
    is_exhausted dunning (record_failed_attempt i (next_attempt_at dunning now)).attempt_count

unfoldable pub fail_once : DunningPolicy → Time → Invoice → Result Invoice
unfolding exhausted_by_failure mark_uncollectible record_failed_attempt
fail_once dunning now i =
    let failed = record_failed_attempt i (next_attempt_at dunning now) in
    if exhausted_by_failure dunning now i then mark_uncollectible failed else ok failed

unfoldable pub fall_behind : Bool → Subscription → Result Subscription
unfolding mark_past_due suspend
fall_behind exhausted s = elim (mark_past_due s) [
  | err e ↦ err e
  | ok t ↦ if exhausted then suspend t else ok t
]

-- Not active, or the period's end is still to come.
abbrev pub not_due : Subscription → Time → Bool
not_due sub now = not (is_active sub.state) || ltb now sub.current_period_end

-- plan.Name() + " subscription"
unfoldable pub fee_of : Plan → String
unfolding append_text
fee_of plan = append_text plan.name " subscription"

module _ {G : Type 0} where
  -- settle: the invoice is paid, and the subscription moved into its period.
  unfoldable pub settle : ℕ → Invoice → Billing G Unit
  settle subscription_id inv = do
    now ← time_now
    update_invoice inv.id (pay_unless_paid now)
    update_subscription subscription_id (activate_into inv)

abbrev pub request : Invoice → ℕ → ℕ → ChargeRequest
request inv tenant_id n = record {
  idempotency_key = (inv.id, n);
  amount = inv.total;
  tenant_id = tenant_id;
  invoice_id = inv.id;
}

module _ {G : Type 0} (gateway : Gateway G) where
  -- The attempt of `reply` is stored.
  unfoldable pub store_attempt : ℕ → Invoice → ℕ → ChargeReply → Billing G Unit
  store_attempt tenant_id inv n reply =
      if is_approved reply
      then add_attempt (new_succeeded_attempt tenant_id inv.id n (reference_of reply))
      else add_attempt (new_failed_attempt tenant_id inv.id n (charge_failure_reason reply))

  -- The charge under the attempt number's key, and the attempt's row.
  unfoldable pub submit_numbered : ℕ → Invoice → ℕ → Billing G Bool
  submit_numbered tenant_id inv n = do
    reply ← call_gateway gateway (request inv tenant_id n)
    store_attempt tenant_id inv n reply
    pure (is_approved reply)

  -- The stretch that `chargeInvoice` and `Settle` share: it returns whether the charge of the
  -- next attempt was approved.
  unfoldable pub submit_charge : ℕ → Invoice → Billing G Bool
  submit_charge tenant_id inv = do n ← next_attempt_number inv.id; submit_numbered tenant_id inv n

  -- Dunning: the failure is counted on the invoice, which is written off once the retries are
  -- exhausted; then the subscription falls behind or is suspended.
  unfoldable pub dun : DunningPolicy → ℕ → Invoice → Billing G Unit
  dun dunning subscription_id inv = do
    now ← time_now
    exhausted ← update_seeing inv.id (exhausted_by_failure dunning now) (fail_once dunning now)
    update_subscription subscription_id (fall_behind exhausted)

  abbrev pub after_charge : DunningPolicy → ℕ → Invoice → Bool → Billing G ChargeInvoiceResult
  after_charge dunning subscription_id inv true = do
    settle subscription_id inv
    pure (outcome inv true true)
  after_charge dunning subscription_id inv false = do
    dun dunning subscription_id inv
    pure (outcome inv true false)

  abbrev pub charge_unless_paid :
      DunningPolicy → ℕ → ℕ → Invoice → Bool → Billing G ChargeInvoiceResult
  charge_unless_paid dunning tenant_id subscription_id inv true = do
    settle subscription_id inv
    pure (outcome inv false true)
  charge_unless_paid dunning tenant_id subscription_id inv false = do
    approved ← submit_charge tenant_id inv
    after_charge dunning subscription_id inv approved

  -- chargeInvoice: an invoice with a succeeded attempt is reconciled, and never charged again.
  unfoldable pub charge_invoice : DunningPolicy → ℕ → ℕ → Invoice → Billing G ChargeInvoiceResult
  charge_invoice dunning tenant_id subscription_id inv = do
    paid ← has_succeeded_attempt inv.id
    charge_unless_paid dunning tenant_id subscription_id inv paid

  -- renewalInvoice: the invoice of the next period, made or loaded.
  unfoldable pub renewal_invoice : ℕ → Subscription → Billing G Invoice
  renewal_invoice tenant_id sub = do
    plan ← get_plan sub.plan_id
    now ← time_now
    let period_start = sub.current_period_end
    let period_end = advance_from plan.billing_period period_start
    let line_item = new_line_item subscription_fee (fee_of plan) 1 plan.price
    inv ← lift (
        new_invoice now tenant_id sub.id period_start period_end plan.price.currency
          (line_item ∷ []))
    add_or_get inv

  -- A cancellation that waits for the period's end ends the subscription in place of a renewal.
  abbrev pub renew_or_cancel :
      DunningPolicy → ℕ → ℕ → Subscription → Time → Bool → Billing G ChargeInvoiceResult
  renew_or_cancel dunning tenant_id subscription_id sub now true = do
    update_subscription subscription_id (λ s. cancel s now)
    pure nothing_due
  renew_or_cancel dunning tenant_id subscription_id sub now false = do
    renewal ← renewal_invoice tenant_id sub
    charge_invoice dunning tenant_id subscription_id renewal

  abbrev pub renew_if_due :
      DunningPolicy → ℕ → ℕ → Subscription → Time → Bool → Billing G ChargeInvoiceResult
  renew_if_due dunning tenant_id subscription_id sub now true = pure nothing_due
  renew_if_due dunning tenant_id subscription_id sub now false =
      renew_or_cancel dunning tenant_id subscription_id sub now sub.cancel_at_period_end

  abbrev pub charge_or_renew :
      DunningPolicy → ℕ → ℕ → Subscription → Option Invoice → Billing G ChargeInvoiceResult
  charge_or_renew dunning tenant_id subscription_id sub (some inv) =
      charge_invoice dunning tenant_id subscription_id inv
  charge_or_renew dunning tenant_id subscription_id sub none = do
    now ← time_now
    renew_if_due dunning tenant_id subscription_id sub now (not_due sub now)

  -- ChargeInvoiceHandler.Handle
  unfoldable pub handle : DunningPolicy → ℕ → ℕ → Billing G ChargeInvoiceResult
  handle dunning tenant_id subscription_id = do
    sub ← get_subscription subscription_id
    due ← open_for_subscription subscription_id
    charge_or_renew dunning tenant_id subscription_id sub due

  abbrev pub after_settle : Invoice → Bool → Billing G ChargeInvoiceResult
  after_settle inv true = do settle inv.subscription_id inv; pure (outcome inv true true)
  after_settle inv false = pure (outcome inv true false)

  abbrev pub settle_unless_paid : ℕ → Invoice → Bool → Billing G ChargeInvoiceResult
  settle_unless_paid tenant_id inv true = do
    settle inv.subscription_id inv
    pure (outcome inv false true)
  settle_unless_paid tenant_id inv false = do
    approved ← submit_charge tenant_id inv
    after_settle inv approved

  abbrev pub settle_if_settleable : ℕ → Invoice → Bool → Billing G ChargeInvoiceResult
  settle_if_settleable tenant_id inv false = raise invoice_not_settleable
  settle_if_settleable tenant_id inv true = do
    paid ← has_succeeded_attempt inv.id
    settle_unless_paid tenant_id inv paid

  -- ChargeInvoiceHandler.Settle: a declined settle stores the attempt and changes nothing else.
  unfoldable pub settle_invoice : ℕ → ℕ → Billing G ChargeInvoiceResult
  unfolding is_settleable
  settle_invoice tenant_id invoice_id = do
    inv ← get_invoice invoice_id
    settle_if_settleable tenant_id inv (is_settleable inv)
