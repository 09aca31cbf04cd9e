-- ===== src/Billing/Invoice/Total.antt =====
-- The invoice's total, and when an invoice is refused.
use nvelope.Billing.Money
use nvelope.Common.Int64.{add64, modulus}
use nvelope.Billing.Invoice.{
  String, InvoiceLineItem, Result, add64, sum_items, new_invoice, Bool, Time, ok, Int64, List, true,
  ◌∷◌, err, false, is_nil, Invoice, open_status, zero_money, Money, invalid_invoice,
}
use nvelope.Common.{
  if◌then◌else◌, ℕ, ◌≡◌, refl, not, text_eq, ◌<◌, ◌==◌, [], ◌||◌, ◌+◌, sum_of, exists_where, ◌%◌,
  arith, ◌∙◌, ap,
}

-- An item is in another currency.
abbrev pub foreign : String → InvoiceLineItem → Bool
foreign currency li = not (text_eq currency li.amount.currency)

abbrev pub item_minor : InvoiceLineItem → ℕ
item_minor li = li.amount.minor

abbrev pub accepted : {A : Type 0} → Result A → Bool
accepted (ok a) = true
accepted (err e) = false

-- The running sum, modulo 2 ^ 64.
abbrev sum_wrapped : Int64 → List InvoiceLineItem → Int64
unfolding add64
sum_wrapped acc [] = acc
sum_wrapped acc (li ∷ items) = sum_wrapped (add64 acc li.amount.minor) items

-- The loop adds up, and refuses a foreign item.
sum_items_lem :
    (total : Money) (items : List InvoiceLineItem)
    → sum_items total items ≡ (
        if exists_where (foreign total.currency) items
        then err (invalid_invoice "invoice line items must share the invoice currency")
        else ok (record { minor = sum_wrapped total.minor items; currency = total.currency }))
unfolding sum_items Money.add add64
sum_items_lem total [] = refl
sum_items_lem total (li ∷ items) = ground (
  arith,
  sum_items_lem
      (record { minor = (total.minor + li.amount.minor) % modulus; currency = total.currency })
      items,
)

sum_wrapped-eq :
    (acc : Int64) (items : List InvoiceLineItem)
    → acc < modulus
    → sum_wrapped acc items ≡ (acc + sum_of item_minor items) % modulus
unfolding add64
sum_wrapped-eq acc [] h = omega arith
sum_wrapped-eq acc (li ∷ items) h =
    omega (arith, sum_wrapped-eq (add64 acc li.amount.minor) items (omega arith))

-- When an invoice is accepted, and what it then is.
accepted_when :
    (now : Time) (tenant_id subscription_id : ℕ) (start end' : Time) (currency : String)
    (items : List InvoiceLineItem)
    → (accepted (new_invoice now tenant_id subscription_id start end' currency items)
        ≡ not (
            (tenant_id == 0 || subscription_id == 0)
            || (is_nil items || exists_where (foreign currency) items)))
      × ((i : Invoice)
          → new_invoice now tenant_id subscription_id start end' currency items ≡ ok i
          → (i.total ≡ record { minor = sum_of item_minor items % modulus; currency = currency })
            × (i.line_items ≡ items)
            × (i.status ≡ open_status)
            × (i.attempt_count ≡ 0))
unfolding new_invoice
accepted_when now t s a b currency items =
    let total = sum_items_lem (zero_money currency) items in
    (ground (arith, total), λ i e. ground (arith, total, sum_wrapped-eq 0 items (omega arith)))

-- An invoice for a tenant and a subscription with at least one line item, all of them in the
-- invoice's currency, is accepted; it is open and not yet attempted, keeps its items, and its total
-- is the sum of their amounts in that currency, modulo 2 ^ 64.
pub new_invoice_total :
    (now : Time) (tenant_id subscription_id : ℕ) (start end' : Time) (currency : String)
    (items : List InvoiceLineItem)
    → (tenant_id == 0 || subscription_id == 0) ≡ false
    → (is_nil items || exists_where (foreign currency) items) ≡ false
    → (i : Invoice) × (new_invoice now tenant_id subscription_id start end' currency items ≡ ok i)
      × (i.total ≡ record { minor = sum_of item_minor items % modulus; currency = currency })
      × (i.line_items ≡ items)
      × (i.status ≡ open_status)
      × (i.attempt_count ≡ 0)
new_invoice_total now t s a b currency items h k =
    let (when, facts) = accepted_when now t s a b currency items in
    taken (new_invoice now t s a b currency items) facts (when ∙ ground (arith, h, k))
  where
    taken :
        (r : Result Invoice)
        → ((i : Invoice)
            → r ≡ ok i
            → (i.total ≡ record { minor = sum_of item_minor items % modulus; currency = currency })
              × (i.line_items ≡ items)
              × (i.status ≡ open_status)
              × (i.attempt_count ≡ 0))
        → accepted r ≡ true
        → (i : Invoice) × (r ≡ ok i)
          × (i.total ≡ record { minor = sum_of item_minor items % modulus; currency = currency })
          × (i.line_items ≡ items)
          × (i.status ≡ open_status)
          × (i.attempt_count ≡ 0)
    taken (ok i) f e = let (u, v, x, y) = f i refl in (i, refl, u, v, x, y)
    taken (err e) f n = cc

-- Without a tenant, a subscription or a line item, or with an item in another currency, an invoice
-- is refused.
pub new_invoice_refused :
    (now : Time) (tenant_id subscription_id : ℕ) (start end' : Time) (currency : String)
    (items : List InvoiceLineItem)
    → ((tenant_id == 0 || subscription_id == 0)
        || (is_nil items || exists_where (foreign currency) items))
      ≡ true
    → accepted (new_invoice now tenant_id subscription_id start end' currency items) ≡ false
new_invoice_refused now t s a b currency items h =
    (accepted_when now t s a b currency items).0 ∙ ap not h
