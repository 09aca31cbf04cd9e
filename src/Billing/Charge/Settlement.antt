-- ===== src/Billing/Charge/Settlement.antt =====
-- What settling leaves, the first time and when it is done again.
use nvelope.Billing.Invoices.{update_seeing, update_invoice}
use nvelope.Billing.Subscriptions.{update_subscription}
use nvelope.Billing.Charge.{
  pay_unless_paid, activate_into, some, [], settle, none, true, false, update_invoice,
  update_seeing, update_subscription,
}
use nvelope.Common.Calendar.{Time}
use nvelope.Billing.Invoices
use nvelope.Billing.Subscriptions
use nvelope.Common.Action.{ok, ◌>>=◌}
use nvelope.Billing.Charge.Dunning.{select_first-update_where}
use nvelope.Billing.Subscription.{Subscription, active, is_canceled, activate, set_period}
use nvelope.Billing.Invoice.{Invoice, paid, status_paid, is_paid, is_settleable, mark_paid}
use nvelope.Billing.Store.{World, with_tenant}
use nvelope.Common.{
  if◌then◌else◌, refl, ℕ, ◌||◌, ◌≡◌, select_first, Bool-cases, arith, inl, inr, update_where,
}

abbrev paid_row : Time → Invoice → Invoice
paid_row now i =
    if status_paid i.status
    then i
    else record i { status = paid; paid_at = some now; attempt_count = 0; next_attempt_at = none }

paid_now :
    (now : Time) (i : Invoice)
    → (status_paid i.status || is_settleable i) ≡ true
    → pay_unless_paid now i ≡ ok (paid_row now i)
unfolding pay_unless_paid is_paid mark_paid
paid_now now i h = elim (Bool-cases (status_paid i.status)) [
  | inl e ↦ rw e
  | inr e ↦ let q : is_settleable i ≡ true = rw e at h in rw e (rw q)
]

activated :
    (inv : Invoice) (s : Subscription)
    → is_canceled s.state ≡ false
    → activate_into inv s
      ≡ ok (record s {
        state = active;
        current_period_start = inv.period_start;
        current_period_end = inv.period_end;
      })
unfolding activate_into activate set_period
activated inv s h = ground (arith, h)

module _ {G : Type 0} (k : ℕ) (inv : Invoice) (w : World G) (i : Invoice) (s : Subscription) where
  abbrev bare : Invoice
  bare = record i { line_items = [] }

  abbrev resumed : Subscription
  resumed = record s {
    state = active;
    current_period_start = inv.period_start;
    current_period_end = inv.period_end;
  }

  settled :
      w.faults ≡ []
      → select_first (Invoices.has_id inv.id) w.invoices ≡ some i
      → (status_paid i.status || is_settleable i) ≡ true
      → select_first (Subscriptions.has_id k) w.subscriptions ≡ some s
      → is_canceled s.state ≡ false
      → settle k inv w ≡ (
        ok tt,
        record w {
          invoices =
              update_where
                (Invoices.has_id inv.id)
                (λ row. Invoices.write_back row (paid_row w.now bare))
                w.invoices;
          subscriptions =
              update_where
                (Subscriptions.has_id k)
                (λ row. Subscriptions.write_back row resumed)
                w.subscriptions;
        },
      )
  unfolding settle ◌>>=◌ update_invoice update_seeing update_subscription with_tenant is_settleable
  settled f e o g c = rw f (rw e (rw (paid_now w.now bare o) (rw g (rw (activated inv s c)))))

  -- While the database fails no transaction, settling a stored invoice that is open, written off or
  -- already paid, for a stored subscription that is not canceled, leaves the invoice paid, with the
  -- time of payment it had if it was paid before and with the present time otherwise, and the
  -- subscription active in the period of the invoice.
  pub settle-activates :
      w.faults ≡ []
      → select_first (Invoices.has_id inv.id) w.invoices ≡ some i
      → (status_paid i.status || is_settleable i) ≡ true
      → select_first (Subscriptions.has_id k) w.subscriptions ≡ some s
      → is_canceled s.state ≡ false
      → ((settle k inv w).0 ≡ ok tt)
        × ((j : Invoice) × (select_first (Invoices.has_id inv.id) (settle k inv w).1.invoices
              ≡ some j)
            × (status_paid j.status ≡ true)
            × (j.paid_at ≡ (if status_paid i.status then i.paid_at else some w.now)))
        × ((t : Subscription) × (select_first
                (Subscriptions.has_id k)
                (settle k inv w).1.subscriptions
              ≡ some t)
            × (t.state ≡ active)
            × (t.current_period_start ≡ inv.period_start)
            × (t.current_period_end ≡ inv.period_end))
  settle-activates f e o g c = rw (settled f e o g c) (
    refl,
    (
      Invoices.write_back i (paid_row w.now bare),
      select_first-update_where (Invoices.has_id inv.id)
          (λ row. Invoices.write_back row (paid_row w.now bare)) w.invoices (λ x. refl) e,
      ground arith,
      ground arith,
    ),
    (
      Subscriptions.write_back s resumed,
      select_first-update_where (Subscriptions.has_id k)
          (λ row. Subscriptions.write_back row resumed) w.subscriptions (λ x. refl) g,
      refl,
      refl,
      refl,
    ),
  )
