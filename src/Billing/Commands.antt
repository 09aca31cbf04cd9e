-- ===== src/Billing/Commands.antt =====
-- The tenant's commands: internal/billing/app/command/subscribe.go, cancel.go and settle.go.
use nvelope.Common.{ℕ, Bool, true, false, [], ◌∷◌, Option, none, some}
use nvelope.Common.Calendar.{Time}
use nvelope.Common.Action.{pure, raise, lift, ◌>>=◌, ◌>>◌}
use nvelope.Billing.Errors.{
  plan_not_published, subscription_exists, no_subscription, payment_failed,
}
use nvelope.Billing.Dunning.{DunningPolicy}
use nvelope.Billing.Money.{Money}
use nvelope.Billing.Plan.{Plan, is_subscribable, advance_from}
use nvelope.Billing.Subscription.{
  Subscription, SubscriptionState, new_subscription, request_cancellation,
}
use nvelope.Billing.Invoice.{Invoice, InvoiceStatus, subscription_fee, new_line_item, new_invoice}
use nvelope.Billing.Payment.{Gateway}
use nvelope.Billing.Store.{Billing, time_now, record_audit}
use nvelope.Billing.Subscriptions.{
  get_plan, add_subscription, get_subscription, current_subscription, update_subscription,
}
use nvelope.Billing.Invoices.{add_invoice, by_subscription_period}
use nvelope.Billing.Charge
use nvelope.Billing.Charge.{ChargeInvoiceResult, fee_of}

-- SubscribeResult; the invoice's part is missing where no invoice was found.
pub record InvoiceView : Type 0 where
  pub id : ℕ
  pub status : InvoiceStatus
  pub total : Money

pub record SubscribeResult : Type 0 where
  pub subscription_id : ℕ
  pub plan_id : ℕ
  pub state : SubscriptionState
  pub current_period_start : Time
  pub current_period_end : Time
  pub cancel_at_period_end : Bool
  pub invoice : Option InvoiceView

abbrev invoice_view : Option Invoice → Option InvoiceView
invoice_view none = none
invoice_view (some i) = some (record {
  id = i.id;
  status = i.status;
  total = record { minor = i.total.minor; currency = i.currency };
})

abbrev subscribe_result : Subscription → Option Invoice → SubscribeResult
subscribe_result sub inv = record {
  subscription_id = sub.id;
  plan_id = sub.plan_id;
  state = sub.state;
  current_period_start = sub.current_period_start;
  current_period_end = sub.current_period_end;
  cancel_at_period_end = sub.cancel_at_period_end;
  invoice = invoice_view inv;
}

module _ {G : Type 0} where
  unfoldable pub snapshot : ℕ → Billing G SubscribeResult
  snapshot subscription_id = do
    sub ← get_subscription subscription_id
    inv ← by_subscription_period subscription_id sub.current_period_start
    pure (subscribe_result sub inv)

  -- The part of `Subscribe` that stores the pending subscription and its first open invoice.
  unfoldable pub open_account : ℕ → Plan → Billing G ℕ
  open_account tenant_id plan = do
    now ← time_now
    let period_end = advance_from plan.billing_period now
    sub ← lift (new_subscription tenant_id plan.id now period_end)
    id ← add_subscription sub
    let line_item = new_line_item subscription_fee (fee_of plan) 1 plan.price
    inv ← lift (new_invoice now tenant_id id now period_end plan.price.currency (line_item ∷ []))
    add_invoice inv
    pure id

  abbrev pub cancel_current : ℕ → Option Subscription → Billing G Unit
  cancel_current actor_id none = raise no_subscription
  cancel_current actor_id (some sub) = do
    update_subscription sub.id request_cancellation
    record_audit actor_id "subscription.canceled" sub.id

  -- CancelSubscriptionHandler.Handle
  unfoldable pub cancel_subscription : ℕ → Billing G Unit
  cancel_subscription actor_id = do sub ← current_subscription; cancel_current actor_id sub

module _ {G : Type 0} (gateway : Gateway G) where
  abbrev pub after_first_charge : ℕ → Bool → Billing G SubscribeResult
  after_first_charge subscription_id false = raise payment_failed
  after_first_charge subscription_id true = snapshot subscription_id

  abbrev pub subscribe_new :
      DunningPolicy → ℕ → ℕ → Plan → Option Subscription → Billing G SubscribeResult
  subscribe_new dunning tenant_id actor_id plan (some sub) = raise subscription_exists
  subscribe_new dunning tenant_id actor_id plan none = do
    id ← open_account tenant_id plan
    charge ← Charge.handle gateway dunning tenant_id id
    record_audit actor_id "subscription.subscribed" id
    after_first_charge id charge.succeeded

  abbrev pub subscribe_published : DunningPolicy → ℕ → ℕ → Plan → Bool → Billing G SubscribeResult
  subscribe_published dunning tenant_id actor_id plan false = raise plan_not_published
  subscribe_published dunning tenant_id actor_id plan true = do
    existing ← current_subscription
    subscribe_new dunning tenant_id actor_id plan existing

  -- SubscribeHandler.Handle
  unfoldable pub subscribe : DunningPolicy → ℕ → ℕ → ℕ → Billing G SubscribeResult
  unfolding is_subscribable
  subscribe dunning tenant_id actor_id plan_id = do
    plan ← get_plan plan_id
    subscribe_published dunning tenant_id actor_id plan (is_subscribable plan)

  abbrev pub report_settled : ChargeInvoiceResult → Bool → Billing G (Option ℕ)
  report_settled res true = pure res.invoice_id
  report_settled res false = raise payment_failed

  -- SettleInvoiceHandler.Handle; the audit entry is written for a declined charge too.
  unfoldable pub settle : ℕ → ℕ → ℕ → Billing G (Option ℕ)
  settle tenant_id actor_id invoice_id = do
    res ← Charge.settle_invoice gateway tenant_id invoice_id
    record_audit actor_id "invoice.settled" invoice_id
    report_settled res res.succeeded
