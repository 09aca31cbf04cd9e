-- ===== src/Billing/Tests/Lifecycle.antt =====
-- A suspended subscription through the lifecycle, and an invoice of one item.
use nvelope.Billing.Subscription.Lifecycle.{
  call, call-⟶, ⟶-call, ◌⟶◌, Method, activate_method, reinstatement,
}
use nvelope.Billing.Subscription.{Subscription, suspended, active, activate}
use nvelope.Billing.Invoice.{new_invoice, Invoice, subscription_fee, InvoiceLineItem, open_status}
use nvelope.Billing.Invoice.Total.{new_invoice_refused, new_invoice_total, accepted}
use nvelope.Common.{ℕ, ◌≡◌, false, none, refl, [], ◌∷◌, List}
use nvelope.Common.Action.{ok}

abbrev suspended_subscription : Subscription
suspended_subscription = record {
  id = 100;
  tenant_id = 1;
  plan_id = 7;
  state = suspended;
  current_period_start = 10;
  current_period_end = 20;
  cancel_at_period_end = false;
  canceled_at = none;
}

call-⟶_example :
    (suspended ⟶ active)
    × ◌≡◌ {A = ℕ} 100 100
    × ◌≡◌ {A = ℕ} 1 1
    × ◌≡◌ {A = ℕ} 7 7
    × ◌≡◌ {A = ℕ} 10 10
    × ◌≡◌ {A = ℕ} 20 20
call-⟶_example =
    call-⟶ activate_method suspended_subscription (record suspended_subscription { state = active })
      (unfold call activate in refl)

⟶-call_example :
    (m : Method) × (t : Subscription) × (call m suspended_subscription ≡ ok t) × (t.state ≡ active)
⟶-call_example = ⟶-call suspended_subscription reinstatement refl

abbrev one_item : List InvoiceLineItem
one_item =
    record {
      kind = subscription_fee;
      description = "Basic subscription";
      quantity = 1;
      unit_price = record { minor = 900; currency = "RUB" };
      amount = record { minor = 900; currency = "RUB" };
    }
    ∷ []

new_invoice_total_example :
    (i : Invoice) × (new_invoice 5 1 100 10 20 "RUB" one_item ≡ ok i)
    × (i.total ≡ record { minor = 900; currency = "RUB" })
    × (i.line_items ≡ one_item)
    × (i.status ≡ open_status)
    × (i.attempt_count ≡ 0)
new_invoice_total_example = new_invoice_total 5 1 100 10 20 "RUB" one_item refl refl

new_invoice_refused_example : accepted (new_invoice 5 1 100 10 20 "USD" one_item) ≡ false
new_invoice_refused_example = new_invoice_refused 5 1 100 10 20 "USD" one_item refl
