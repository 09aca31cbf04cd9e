-- ===== src/Billing/Invoice.antt =====
-- internal/billing/domain/invoice.go: the bill for one period, its line items and its settlement.
pub mod Total
use nvelope.Common.{
  ℕ, Bool, true, false, ◌||◌, String, List, [], ◌∷◌, Option, none, some, ◌==◌, if◌then◌else◌,
}
use nvelope.Common.Int64.{Int64, add64}
use nvelope.Common.Calendar.{Time}
use nvelope.Common.Action.{ok, err}
use nvelope.Billing.Errors.{Result, invalid_invoice, invoice_not_settleable}
use nvelope.Billing.Money
use nvelope.Billing.Money.{Money, zero_money}

pub data InvoiceStatus : Type 0 where
  open_status paid uncollectible void : InvoiceStatus

pub data LineItemKind : Type 0 where
  subscription_fee overage : LineItemKind

-- The item's own id and its tenant are those of the stored row, and no code reads them.
pub record InvoiceLineItem : Type 0 where
  pub kind : LineItemKind
  pub description : String
  pub quantity : Int64
  pub unit_price : Money
  pub amount : Money

unfoldable pub new_line_item : LineItemKind → String → Int64 → Money → InvoiceLineItem
unfolding Money.mul
new_line_item kind description quantity unit_price = record {
  kind = kind;
  description = description;
  quantity = quantity;
  unit_price = unit_price;
  amount = Money.mul unit_price quantity;
}

pub record Invoice : Type 0 where
  pub id : ℕ
  pub tenant_id : ℕ
  pub subscription_id : ℕ
  pub period_start : Time
  pub period_end : Time
  pub total : Money
  pub currency : String
  pub status : InvoiceStatus
  pub attempt_count : Int64
  pub next_attempt_at : Option Time
  pub issued_at : Time
  pub paid_at : Option Time
  pub line_items : List InvoiceLineItem

-- The summing loop of `NewInvoice`; a refused addition is reported as a bad invoice.
unfoldable pub sum_items : Money → List InvoiceLineItem → Result Money
unfolding Money.add
sum_items total [] = ok total
sum_items total (li ∷ items) = elim (Money.add total li.amount) [
  | ok sum ↦ sum_items sum items
  | err e ↦ err (invalid_invoice "invoice line items must share the invoice currency")
]

abbrev pub is_nil : {A : Type 0} → List A → Bool
is_nil [] = true
is_nil (x ∷ xs) = false

-- `now` is the clock's reading.
unfoldable pub new_invoice :
    Time → ℕ → ℕ → Time → Time → String → List InvoiceLineItem → Result Invoice
unfolding sum_items
new_invoice now tenant_id subscription_id period_start period_end currency items =
    if tenant_id == 0 || subscription_id == 0
    then err (invalid_invoice "an invoice needs a tenant and a subscription")
    else if is_nil items
    then err (invalid_invoice "an invoice needs at least one line item")
    else elim (sum_items (zero_money currency) items) [
      | err e ↦ err e
      | ok total ↦ ok (record {
        id = 0;
        tenant_id = tenant_id;
        subscription_id = subscription_id;
        period_start = period_start;
        period_end = period_end;
        total = total;
        currency = currency;
        status = open_status;
        attempt_count = 0;
        next_attempt_at = none;
        issued_at = now;
        paid_at = none;
        line_items = items;
      })
    ]

abbrev pub status_open : InvoiceStatus → Bool
status_open open_status = true
status_open _ = false

abbrev pub status_paid : InvoiceStatus → Bool
status_paid paid = true
status_paid _ = false

unfoldable pub is_open : Invoice → Bool
is_open i = status_open i.status

unfoldable pub is_paid : Invoice → Bool
is_paid i = status_paid i.status

unfoldable pub is_settleable : Invoice → Bool
is_settleable i = elim i.status [ open_status ↦ true | uncollectible ↦ true | _ ↦ false ]

unfoldable pub mark_paid : Invoice → Time → Result Invoice
unfolding is_settleable
mark_paid i at =
    if is_settleable i
    then ok
        (record i { status = paid; paid_at = some at; attempt_count = 0; next_attempt_at = none })
    else err invoice_not_settleable

unfoldable pub mark_uncollectible : Invoice → Result Invoice
unfolding is_open
mark_uncollectible i =
    if is_open i
    then ok (record i { status = uncollectible; next_attempt_at = none })
    else err invoice_not_settleable

unfoldable pub record_failed_attempt : Invoice → Time → Invoice
unfolding add64
record_failed_attempt i next_attempt_at = record i {
  attempt_count = add64 i.attempt_count 1;
  next_attempt_at = some next_attempt_at;
}
