-- ===== src/Billing/Backing/Commands.antt =====
-- The use cases keep what is backed.
use mathlib.Core.Path.{subst₂, sym, ap}
use nvelope.Billing.Backing.Charges.{settle_invoice-Triple, charge_invoice-Triple, cancel-idle}
use nvelope.Billing.Backing.Reads.{
  Found, current_subscription-Triple, time_now-Triple, get_plan-Triple, get_subscription-Triple,
  open_for_subscription-Triple, by_subscription_period-Triple,
}
use nvelope.Billing.Backing.{IsBacked, false, status_paid, exists_where, paid_for}
use nvelope.Billing.Charge.{
  renewal_invoice, handle, ChargeInvoiceResult, renew_or_cancel, renew_if_due, charge_or_renew,
  not_due,
}
use nvelope.Billing.Backing.Writes.{
  Backed, Bill, update_subscription-Triple, record_audit-Triple, blind-IsBacked,
  add_subscription-Triple, add_invoice-Triple, add_or_get-Triple,
}
use nvelope.Common.Action.{ok}
use nvelope.Billing.Dunning.{DunningPolicy}
use nvelope.Billing.Plan.{Plan, is_subscribable}
use nvelope.Common.Action.Triple.{
  Triple, Triple-raise, Triple-bind, Triple-pure, Triple-lift, Triple-strengthen, Triple-assume,
  Triple-weaken,
}
use nvelope.Common.Calendar.{Time}
use nvelope.Billing.Payment.{Gateway}
use nvelope.Billing.Commands.{
  cancel_subscription, open_account, snapshot, subscribe, cancel_current, after_first_charge,
  subscribe_new, subscribe_published, report_settled,
}
use nvelope.Billing.Subscription.{new_subscription, request_cancellation, Subscription, is_active}
use nvelope.Billing.Invoice.{new_invoice, Invoice, InvoiceLineItem}
use nvelope.Common.{ℕ, ◌≡◌, Option, String, Bool, List, arith, some, true, none, ◌∙◌}
use nvelope.Billing.Commands

new_invoice-unpaid :
    (now : Time) (t s : ℕ) (a b : Time) (cur : String) (items : List InvoiceLineItem) (i : Invoice)
    → new_invoice now t s a b cur items ≡ ok i
    → (status_paid i.status ≡ false) × (i.subscription_id ≡ s)
unfolding new_invoice
new_invoice-unpaid now t s a b cur items i e = ground arith

new_subscription-idle :
    (t p : ℕ) (a b : Time) (s : Subscription)
    → new_subscription t p a b ≡ ok s
    → is_active s.state ≡ false
unfolding new_subscription
new_subscription-idle t p a b s e = ground arith

request_cancellation-same :
    (s u : Subscription)
    → request_cancellation s ≡ ok u
    → (u.state ≡ s.state) × (u.current_period_start ≡ s.current_period_start)
unfolding request_cancellation
request_cancellation-same s u e = ground arith

module _ {G : Type 0} where
  cancel_current-Triple :
      (actor_id : ℕ) (o : Option Subscription)
      → Triple (Backed {G = G}) (cancel_current actor_id o) (λ r w. IsBacked w) Backed
  cancel_current-Triple actor_id none = Triple-raise _ (λ w h. h)
  cancel_current-Triple actor_id (some sub) =
      Triple-bind _ _
        (update_subscription-Triple {P = Backed} blind-IsBacked (λ w h. h) sub.id
          request_cancellation
          (λ w s u h a same q act.
            let (st, p) = request_cancellation-same s u q in
            subst₂ (λ i t. exists_where (paid_for i t) w.invoices ≡ true) same (sym p)
              (a (ap is_active (sym st) ∙ act))))
        λ done. record_audit-Triple actor_id _ sub.id

  pub cancel_subscription-Triple :
      (actor_id : ℕ)
      → Triple (Backed {G = G}) (cancel_subscription actor_id) (λ r w. IsBacked w) Backed
  unfolding cancel_subscription
  cancel_subscription-Triple actor_id =
      Triple-bind _ _ (current_subscription-Triple blind-IsBacked (λ w h. h))
        (cancel_current-Triple actor_id)

  open_account-Triple :
      (tenant_id : ℕ) (plan : Plan)
      → Triple (Backed {G = G}) (open_account tenant_id plan) (λ r w. IsBacked w) Backed
  unfolding open_account
  open_account-Triple tenant_id plan =
      Triple-bind _ _ (time_now-Triple blind-IsBacked (λ w h. h)) λ now.
        Triple-bind _ _ (Triple-lift _ (λ w h. h)) λ sub.
          Triple-bind _ _
            (Triple-assume (λ e. add_subscription-Triple sub (new_subscription-idle _ _ _ _ sub e)))
            λ id. Triple-bind _ _ (Triple-lift _ (λ w h. h)) λ inv.
              Triple-bind _ _
                (Triple-assume
                  (λ e. add_invoice-Triple inv (new_invoice-unpaid _ _ _ _ _ _ _ inv e).0))
                λ stored. Triple-pure id

  module _ (gateway : Gateway G) (d : DunningPolicy) (tenant_id : ℕ) where
    renewal_invoice-Triple :
        (sub : Subscription)
        → Triple Backed (renewal_invoice gateway tenant_id sub) (λ i w. Bill i sub.id w) Backed
    unfolding renewal_invoice
    renewal_invoice-Triple sub =
        Triple-bind _ _ (get_plan-Triple blind-IsBacked (λ w h. h) sub.plan_id) λ plan.
          Triple-bind _ _ (time_now-Triple blind-IsBacked (λ w h. h)) λ now.
            Triple-bind _ _ (Triple-lift _ (λ w h. h)) λ inv. Triple-assume (λ e.
              let (unpaid, s) = new_invoice-unpaid _ _ _ _ _ _ _ inv e in
              Triple-weaken _ (add_or_get-Triple inv unpaid) (λ j w h. (h.0, rw (← s) h.1)))

    renew_or_cancel-Triple :
        (id : ℕ) (sub : Subscription) (now : Time) (b : Bool)
        → sub.id ≡ id
        → Triple Backed
            (renew_or_cancel gateway d tenant_id id sub now b)
            (λ r w. IsBacked w)
            Backed
    renew_or_cancel-Triple id sub now true same =
        Triple-bind _ _
          (update_subscription-Triple {P = Backed} blind-IsBacked (λ w h. h) id _
            (λ w s u h a e q act. absurd (ground (arith, cancel-idle now s u q, act))))
          λ done. Triple-pure _
    renew_or_cancel-Triple id sub now false same =
        Triple-bind _ _ (renewal_invoice-Triple sub)
          λ inv. rw same (charge_invoice-Triple gateway d tenant_id id inv)

    renew_if_due-Triple :
        (id : ℕ) (sub : Subscription) (now : Time) (b : Bool)
        → sub.id ≡ id
        → Triple Backed (renew_if_due gateway d tenant_id id sub now b) (λ r w. IsBacked w) Backed
    renew_if_due-Triple id sub now true same = Triple-pure _
    renew_if_due-Triple id sub now false same =
        renew_or_cancel-Triple id sub now sub.cancel_at_period_end same

    charge_or_renew-Triple :
        (id : ℕ) (sub : Subscription) (o : Option Invoice)
        → sub.id ≡ id
        → Triple
            (λ w. IsBacked w × Found id o w)
            (charge_or_renew gateway d tenant_id id sub o)
            (λ r w. IsBacked w)
            Backed
    charge_or_renew-Triple id sub (some inv) same = charge_invoice-Triple gateway d tenant_id id inv
    charge_or_renew-Triple id sub none same =
        Triple-strengthen _
          (Triple-bind _ _ (time_now-Triple blind-IsBacked (λ w h. h))
            λ now. renew_if_due-Triple id sub now (not_due sub now) same)
          (λ w h. h.0)

    pub handle-Triple :
        (id : ℕ) → Triple Backed (handle gateway d tenant_id id) (λ r w. IsBacked w) Backed
    unfolding handle
    handle-Triple id = Triple-bind _ _ (get_subscription-Triple blind-IsBacked (λ w h. h) id) λ sub.
        Triple-assume (λ same.
          Triple-bind _ _ (open_for_subscription-Triple blind-IsBacked (λ w h. h) id)
            λ o. charge_or_renew-Triple id sub o same)

    first_charge-Triple :
        (id : ℕ) (b : Bool)
        → Triple Backed (after_first_charge gateway id b) (λ r w. IsBacked w) Backed
    unfolding snapshot
    first_charge-Triple id false = Triple-raise _ (λ w h. h)
    first_charge-Triple id true =
        Triple-bind _ _ (get_subscription-Triple blind-IsBacked (λ w h. h) id) λ sub.
          Triple-bind _ _
            (Triple-assume (λ same. by_subscription_period-Triple blind-IsBacked (λ w h. h) id _))
            λ inv. Triple-pure _

    subscribe_new-Triple :
        (actor_id : ℕ) (plan : Plan) (o : Option Subscription)
        → Triple Backed
            (subscribe_new gateway d tenant_id actor_id plan o)
            (λ r w. IsBacked w)
            Backed
    subscribe_new-Triple actor_id plan (some s) = Triple-raise _ (λ w h. h)
    subscribe_new-Triple actor_id plan none =
        Triple-bind _ _ (open_account-Triple tenant_id plan) λ id.
          Triple-bind _ _ (handle-Triple id) λ charge.
            Triple-bind _ _ (record_audit-Triple actor_id _ id)
              λ done. first_charge-Triple id charge.succeeded

    published-Triple :
        (actor_id : ℕ) (plan : Plan) (b : Bool)
        → Triple Backed
            (subscribe_published gateway d tenant_id actor_id plan b)
            (λ r w. IsBacked w)
            Backed
    published-Triple actor_id plan false = Triple-raise _ (λ w h. h)
    published-Triple actor_id plan true =
        Triple-bind _ _ (current_subscription-Triple blind-IsBacked (λ w h. h))
          (subscribe_new-Triple actor_id plan)

    pub subscribe-Triple :
        (actor_id plan_id : ℕ)
        → Triple Backed (subscribe gateway d tenant_id actor_id plan_id) (λ r w. IsBacked w) Backed
    unfolding subscribe
    subscribe-Triple actor_id plan_id =
        Triple-bind _ _ (get_plan-Triple blind-IsBacked (λ w h. h) plan_id)
          λ plan. published-Triple actor_id plan (is_subscribable plan)

    reported-Triple :
        (res : ChargeInvoiceResult) (b : Bool)
        → Triple Backed (report_settled gateway res b) (λ r w. IsBacked w) Backed
    reported-Triple res false = Triple-raise _ (λ w h. h)
    reported-Triple res true = Triple-pure _

    pub settle_command-Triple :
        (actor_id id : ℕ)
        → Triple Backed (Commands.settle gateway tenant_id actor_id id) (λ r w. IsBacked w) Backed
    unfolding Commands.settle
    settle_command-Triple actor_id id =
        Triple-bind _ _ (settle_invoice-Triple gateway tenant_id id) λ res.
          Triple-bind _ _ (record_audit-Triple actor_id _ id)
            λ done. reported-Triple res res.succeeded
