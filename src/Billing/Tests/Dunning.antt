-- ===== src/Billing/Tests/Dunning.antt =====
-- An invoice whose second charge fails, under a policy of two attempts, and which is settled.
use nvelope.Billing.Invoices
use nvelope.Billing.Subscriptions
use nvelope.Common.{refl, some, ◌≡◌, select_first, ◌∷◌}
use nvelope.Common.Action.{ok}
use nvelope.Billing.Invoice.{Invoice, open_status, uncollectible}
use nvelope.Billing.Subscription.{Subscription, active, suspended}
use nvelope.Billing.Store.{World}
use nvelope.Billing.Charge.{dun, settle}
use nvelope.Billing.Invoice.{is_settleable, status_paid}
use nvelope.Billing.Charge.Settlement.{settle-activates}
use nvelope.Billing.Charge.Dunning.{dun-counts}
use nvelope.Billing.Tests.{Till, start_world, policy, till, rub, false, none, [], arith, true, ℕ}

abbrev unpaid : Invoice
unpaid = record {
  id = 101;
  tenant_id = 1;
  subscription_id = 100;
  period_start = 20;
  period_end = 30;
  total = rub 900;
  currency = "RUB";
  status = open_status;
  attempt_count = 1;
  next_attempt_at = some 25;
  issued_at = 20;
  paid_at = none;
  line_items = [];
}

abbrev renewing : Subscription
renewing = record {
  id = 100;
  tenant_id = 1;
  plan_id = 7;
  state = active;
  current_period_start = 10;
  current_period_end = 20;
  cancel_at_period_end = false;
  canceled_at = none;
}

abbrev late : World Till
late = record (start_world false []) { subscriptions = renewing ∷ []; invoices = unpaid ∷ [] }

dun-counts_example :
    ((dun till policy 100 unpaid late).0 ≡ ok tt)
    × ((j : Invoice) × (select_first
            (Invoices.has_id 101)
            (dun till policy 100 unpaid late).1.invoices
          ≡ some j)
        × (j.attempt_count ≡ 2)
        × (j.status ≡ uncollectible)
        × (j.next_attempt_at ≡ none))
    × ((t : Subscription) × (select_first
            (Subscriptions.has_id 100)
            (dun till policy 100 unpaid late).1.subscriptions
          ≡ some t)
        × (t.state ≡ suspended))
dun-counts_example =
    dun-counts till policy 100 unpaid late unpaid renewing refl refl refl refl refl (omega arith)
      (omega arith)

settle-activates_example :
    ((settle 100 unpaid late).0 ≡ ok tt)
    × ((j : Invoice) × (select_first (Invoices.has_id 101) (settle 100 unpaid late).1.invoices
          ≡ some j)
        × (status_paid j.status ≡ true)
        × (j.paid_at ≡ some 64_000_000_000_000_000_000))
    × ((t : Subscription) × (select_first
            (Subscriptions.has_id 100)
            (settle 100 unpaid late).1.subscriptions
          ≡ some t)
        × (t.state ≡ active)
        × ◌≡◌ {A = ℕ} t.current_period_start 20
        × ◌≡◌ {A = ℕ} t.current_period_end 30)
settle-activates_example =
    settle-activates 100 unpaid late unpaid renewing refl refl (unfold is_settleable in refl) refl
      refl
