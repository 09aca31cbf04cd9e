-- ===== src/Billing/Invoices.antt =====
-- internal/billing/adapters/invoices_pg.go: the stored invoices with their line items, and the
-- payment attempts. The rows are one tenant's, so that no statement names the tenant.
use Prim.Native.Nat.{max}
use nvelope.Common.{
  ℕ, ◌+◌, Bool, ◌&&◌, List, [], ◌∷◌, Option, none, some, ◌==◌, leb, if◌then◌else◌, select_first,
  update_where, exists_where, map,
}
use nvelope.Common.Calendar.{Time}
use nvelope.Common.Action.{ok, err}
use nvelope.Billing.Errors.{Result, infrastructure, invoice_not_found}
use nvelope.Billing.Invoice.{Invoice, InvoiceLineItem, status_open}
use nvelope.Billing.Payment.{PaymentAttempt, status_succeeded}
use nvelope.Billing.Store.{Billing, with_tenant}

-- A stored line item has no currency: it is read back in roubles.
abbrev pub in_roubles : InvoiceLineItem → InvoiceLineItem
in_roubles li = record li {
  unit_price = record { minor = li.unit_price.minor; currency = "RUB" };
  amount = record { minor = li.amount.minor; currency = "RUB" };
}

abbrev pub with_line_items : Invoice → Invoice
with_line_items i = record i { line_items = map in_roubles i.line_items }

abbrev pub has_id : ℕ → Invoice → Bool
has_id id i = i.id == id

-- The unique key (subscription_id, period_start).
abbrev pub for_period : ℕ → Time → Invoice → Bool
for_period subscription_id period_start i =
    i.subscription_id == subscription_id && i.period_start == period_start

abbrev pub open_for : ℕ → Invoice → Bool
open_for subscription_id i = i.subscription_id == subscription_id && status_open i.status

-- ORDER BY period_start LIMIT 1, of the rows that the test accepts.
abbrev pub earlier : Invoice → Option Invoice → Option Invoice
earlier i none = some i
earlier i (some j) = if leb i.period_start j.period_start then some i else some j

abbrev pub select_earliest : (Invoice → Bool) → List Invoice → Option Invoice
select_earliest test [] = none
select_earliest test (i ∷ rows) =
    let rest = select_earliest test rows in if test i then earlier i rest else rest

-- The columns that `Update` writes; the total keeps the row's currency.
abbrev pub write_back : Invoice → Invoice → Invoice
write_back row updated = record row {
  total = record { minor = updated.total.minor; currency = row.currency };
  status = updated.status;
  attempt_count = updated.attempt_count;
  next_attempt_at = updated.next_attempt_at;
  paid_at = updated.paid_at;
}

abbrev pub succeeded_for : ℕ → PaymentAttempt → Bool
succeeded_for invoice_id a = a.invoice_id == invoice_id && status_succeeded a.status

abbrev pub numbered : ℕ → ℕ → PaymentAttempt → Bool
numbered invoice_id n a = a.invoice_id == invoice_id && a.attempt_number == n

-- coalesce(max(attempt_number), 0)
abbrev pub max_attempt : ℕ → List PaymentAttempt → ℕ
max_attempt invoice_id [] = 0
max_attempt invoice_id (a ∷ rows) =
    let rest = max_attempt invoice_id rows in
    if a.invoice_id == invoice_id then max a.attempt_number rest else rest

abbrev pub loaded : Option Invoice → Option Invoice
loaded none = none
loaded (some i) = some (with_line_items i)

module _ {G : Type 0} where
  unfoldable pub insert_invoice : Invoice → Billing G Invoice
  insert_invoice i w =
      let stored = record i { id = w.fresh } in
      (ok stored, record w { invoices = stored ∷ w.invoices; fresh = w.fresh + 1 })

  -- A second invoice for the period breaks the unique key.
  unfoldable pub add_invoice : Invoice → Billing G Invoice
  unfolding with_tenant insert_invoice
  add_invoice i = with_tenant λ w.
      if exists_where (for_period i.subscription_id i.period_start) w.invoices
      then (err infrastructure, w)
      else insert_invoice i w

  abbrev pub insert_unless : Invoice → Option Invoice → Billing G Invoice
  unfolding insert_invoice
  insert_unless i (some existing) w = (ok (with_line_items existing), w)
  insert_unless i none w = insert_invoice i w

  -- On a conflict the invoice that is already there is loaded.
  unfoldable pub add_or_get : Invoice → Billing G Invoice
  unfolding with_tenant insert_invoice
  add_or_get i =
      with_tenant λ w.
        insert_unless i (select_first (for_period i.subscription_id i.period_start) w.invoices) w

  abbrev pub found_invoice : Option Invoice → Billing G Invoice
  found_invoice none w = (err invoice_not_found, w)
  found_invoice (some i) w = (ok (with_line_items i), w)

  unfoldable pub get_invoice : ℕ → Billing G Invoice
  unfolding with_tenant
  get_invoice id = with_tenant λ w. found_invoice (select_first (has_id id) w.invoices) w

  abbrev pub save_invoice : {B : Type 0} → ℕ → B → Result Invoice → Billing G B
  save_invoice id b (err e) w = (err e, w)
  save_invoice id b (ok updated) w = (
    ok b,
    record w { invoices = update_where (has_id id) (λ row. write_back row updated) w.invoices },
  )

  -- The row is loaded without its line items.
  abbrev pub change_invoice :
      {B : Type 0} → ℕ → (Invoice → B) → (Invoice → Result Invoice) → Option Invoice → Billing G B
  change_invoice id seen fn none w = (err invoice_not_found, w)
  change_invoice id seen fn (some i) w =
      let row = record i { line_items = [] } in save_invoice id (seen row) (fn row) w

  -- `Update`, with what the closure lets its caller know of the loaded row.
  unfoldable pub update_seeing :
      {B : Type 0} → ℕ → (Invoice → B) → (Invoice → Result Invoice) → Billing G B
  unfolding with_tenant
  update_seeing id seen fn =
      with_tenant λ w. change_invoice id seen fn (select_first (has_id id) w.invoices) w

  unfoldable pub update_invoice : ℕ → (Invoice → Result Invoice) → Billing G Unit
  unfolding update_seeing
  update_invoice id fn = update_seeing id (λ i. tt) fn

  unfoldable pub open_for_subscription : ℕ → Billing G (Option Invoice)
  unfolding with_tenant
  open_for_subscription subscription_id =
      with_tenant λ w. (ok (loaded (select_earliest (open_for subscription_id) w.invoices)), w)

  unfoldable pub by_subscription_period : ℕ → Time → Billing G (Option Invoice)
  unfolding with_tenant
  by_subscription_period subscription_id period_start =
      with_tenant
        λ w. (ok (loaded (select_first (for_period subscription_id period_start) w.invoices)), w)

  unfoldable pub has_succeeded_attempt : ℕ → Billing G Bool
  unfolding with_tenant
  has_succeeded_attempt invoice_id =
      with_tenant λ w. (ok (exists_where (succeeded_for invoice_id) w.attempts), w)

  -- The unique key (invoice_id, attempt_number) refuses a number that is in use.
  unfoldable pub add_attempt : PaymentAttempt → Billing G Unit
  unfolding with_tenant
  add_attempt a = with_tenant λ w.
      if exists_where (numbered a.invoice_id a.attempt_number) w.attempts
      then (err infrastructure, w)
      else (ok tt, record w { attempts = a ∷ w.attempts })

  unfoldable pub next_attempt_number : ℕ → Billing G ℕ
  unfolding with_tenant
  next_attempt_number invoice_id = with_tenant λ w. (ok (max_attempt invoice_id w.attempts + 1), w)
