-- ===== src/Billing/Backing/Charges.antt =====
-- The charge path keeps what is backed, whichever transaction the database fails.
use nvelope.Billing.Backing.Rows.{update-pays}
use nvelope.Billing.Backing.Reads.{
  time_now-Triple, has_succeeded_attempt-Triple, get_invoice-Triple, next_attempt_number-Triple,
}
use nvelope.Billing.Backing.{IsCharged, IsBacked, exists_where, paid_for, succeeded_for}
use nvelope.Billing.Backing.Writes.{
  Bill, blind-IsBacked, Backed, update_seeing-Triple, update_subscription-Triple,
  add_attempt-Triple,
}
use nvelope.Billing.Dunning.{DunningPolicy}
use nvelope.Common.Action.Triple.{
  Triple, Triple-bind, Triple-strengthen, Triple-raise, Triple-pure, Triple-weaken, Triple-return,
}
use nvelope.Common.Action.{ok}
use nvelope.Billing.Invoices.{update_invoice}
use nvelope.Billing.Store.{World, call_gateway}
use nvelope.Common.Calendar.{Time}
use nvelope.Billing.Payment.{
  Gateway, new_succeeded_attempt, new_failed_attempt, ChargeReply, is_approved,
}
use nvelope.Billing.Invoice.{
  Invoice, mark_uncollectible, is_open, status_paid, record_failed_attempt, is_settleable,
}
use nvelope.Billing.Subscription.{cancel, Subscription, is_active}
use nvelope.Billing.Charge.{
  pay_unless_paid, fail_once, activate_into, fall_behind, settle, dun, exhausted_by_failure,
  store_attempt, submit_charge, after_charge, charge_invoice, after_settle, settle_if_settleable,
  settle_invoice, submit_numbered, charge_unless_paid, settle_unless_paid,
}
use nvelope.Common.{ℕ, ◌≡◌, Bool, List, arith, true, false, ◌∙◌, refl, Bool-cases, inl, inr, sym}

pay_unless_paid-paid :
    (now : Time) (i u : Invoice) → pay_unless_paid now i ≡ ok u → status_paid u.status ≡ true
unfolding pay_unless_paid
pay_unless_paid-paid now i u e = ground arith

fail_once-status :
    (d : DunningPolicy) (now : Time) (i u : Invoice)
    → fail_once d now i ≡ ok u
    → status_paid u.status ≡ status_paid i.status
unfolding fail_once mark_uncollectible is_open record_failed_attempt
fail_once-status d now i u e = ground arith

activate_into-period :
    (inv : Invoice) (s u : Subscription)
    → activate_into inv s ≡ ok u
    → u.current_period_start ≡ inv.period_start
unfolding activate_into
activate_into-period inv s u e = ground arith

fall_behind-idle :
    (b : Bool) (s u : Subscription) → fall_behind b s ≡ ok u → is_active u.state ≡ false
unfolding fall_behind
fall_behind-idle b s u e = ground arith

pub cancel-idle : (at : Time) (s u : Subscription) → cancel s at ≡ ok u → is_active u.state ≡ false
unfolding cancel
cancel-idle at s u e = ground arith

module _ {G : Type 0} where
  Bill-blind :
      (inv : Invoice) (id : ℕ) (w : World G) (fs : List Bool)
      → Bill inv id w
      → Bill inv id (record w { faults = fs })
  Bill-blind inv id w fs h = (blind-IsBacked w fs h.0, h.1)

  -- A charged invoice is settled.
  settle-Triple :
      (id : ℕ) (inv : Invoice)
      → Triple
          (λ w. Bill inv id w × IsCharged inv w)
          (settle id inv)
          (λ u w. IsBacked w)
          (Backed {G = G})
  unfolding settle update_invoice
  settle-Triple id inv =
      Triple-bind _ _
        (time_now-Triple {P = λ w. Bill inv id w × IsCharged inv w}
          (λ w fs h. (Bill-blind inv id w fs h.0, h.1)) (λ w h. h.0.0))
        λ now.
          Triple-bind _ _
            (update_seeing-Triple
              (λ w. exists_where (paid_for id inv.period_start) w.invoices ≡ true)
              (λ w fs h. (Bill-blind inv id w fs h.0, h.1)) (λ w h. h.0.0) inv.id (λ i. tt)
              (pay_unless_paid now)
              (λ w i u h a same q. (
                (λ p. pay_unless_paid-paid now _ u q),
                (λ p. h.1),
                update-pays inv id u w.invoices (pay_unless_paid-paid now _ u q) h.0.1,
              )))
            λ done.
              update_subscription-Triple
                {P = λ w.
                  IsBacked w × (exists_where (paid_for id inv.period_start) w.invoices ≡ true)}
                (λ w fs h. (blind-IsBacked w fs h.0, h.1)) (λ w h. h.0) id (activate_into inv)
                (λ w s u h a same q act. rw (activate_into-period inv s u q) h.1)

  module _ (gateway : Gateway G) where
    dun-Triple :
        (d : DunningPolicy) (id : ℕ) (inv : Invoice)
        → Triple (Bill inv id) (dun gateway d id inv) (λ u w. IsBacked w) Backed
    unfolding dun
    dun-Triple d id inv =
        Triple-bind _ _ (time_now-Triple {P = Bill inv id} (Bill-blind inv id) (λ w h. h.0)) λ now.
          Triple-bind _ _
            (update_seeing-Triple (λ w. Unit {0}) (Bill-blind inv id) (λ w h. h.0) inv.id
              (exhausted_by_failure d now) (fail_once d now)
              (λ w i u h a same q.
                let s = fail_once-status d now _ u q in
                ((λ p. s ∙ p), (λ p. ground (arith, same, s, p, a)), tt)))
            λ exhausted.
              update_subscription-Triple {P = λ w. IsBacked w × Unit}
                (λ w fs h. (blind-IsBacked w fs h.0, tt)) (λ w h. h.0) id (fall_behind exhausted)
                (λ w s u h a same q act.
                  absurd (ground (arith, fall_behind-idle exhausted s u q, act)))

    store_attempt-Triple :
        (tenant_id n id : ℕ) (inv : Invoice) (reply : ChargeReply)
        → Triple
            (Bill inv id)
            (store_attempt gateway tenant_id inv n reply)
            (λ u w. Bill inv id w × (is_approved reply ≡ true → IsCharged inv w))
            Backed
    unfolding store_attempt new_succeeded_attempt new_failed_attempt
    store_attempt-Triple tenant_id n id inv reply = elim (Bool-cases (is_approved reply)) [
      | inl t ↦
          rw t (
            Triple-weaken _ (add_attempt-Triple inv id _) (λ u w h. (h.0, λ p. h.1 (ground arith))))
      | inr t ↦ rw t (
          Triple-weaken _ (add_attempt-Triple inv id _)
            (λ u w h. (h.0, λ p. absurd (ground arith))))
    ]

    submit_numbered-Triple :
        (tenant_id id : ℕ) (inv : Invoice) (n : ℕ)
        → Triple
            (Bill inv id)
            (submit_numbered gateway tenant_id inv n)
            (λ b w. Bill inv id w × (b ≡ true → IsCharged inv w))
            Backed
    unfolding submit_numbered call_gateway
    submit_numbered-Triple tenant_id id inv n =
        Triple-bind {Q = λ r w. Bill inv id w}
          {T = λ b w. Bill inv id w × (b ≡ true → IsCharged inv w)} _ _
          (record {
            at = λ w h. (
              record {
                paid = h.0.paid;
                active = h.0.active;
                distinct = h.0.distinct;
                below = h.0.below;
              },
              h.1,
            );
          })
          λ reply. Triple-bind _ _ (store_attempt-Triple tenant_id n id inv reply) λ done.
            Triple-weaken _ (Triple-return (is_approved reply))
              (λ b w h. (h.0.0, λ p. h.0.1 (sym h.1 ∙ p)))

    submit_charge-Triple :
        (tenant_id id : ℕ) (inv : Invoice)
        → Triple
            (Bill inv id)
            (submit_charge gateway tenant_id inv)
            (λ b w. Bill inv id w × (b ≡ true → IsCharged inv w))
            Backed
    unfolding submit_charge
    submit_charge-Triple tenant_id id inv =
        Triple-bind _ _ (next_attempt_number-Triple (Bill-blind inv id) (λ w h. h.0) inv.id)
          (submit_numbered-Triple tenant_id id inv)

    after_charge-Triple :
        (d : DunningPolicy) (id : ℕ) (inv : Invoice) (b : Bool)
        → Triple
            (λ w. Bill inv id w × (b ≡ true → IsCharged inv w))
            (after_charge gateway d id inv b)
            (λ r w. IsBacked w)
            Backed
    after_charge-Triple d id inv true =
        Triple-strengthen _ (Triple-bind _ _ (settle-Triple id inv) λ done. Triple-pure _)
          (λ w h. (h.0, h.1 refl))
    after_charge-Triple d id inv false =
        Triple-strengthen _ (Triple-bind _ _ (dun-Triple d id inv) λ done. Triple-pure _)
          (λ w h. h.0)

    charge_unless_paid-Triple :
        (d : DunningPolicy) (tenant_id id : ℕ) (inv : Invoice) (b : Bool)
        → Triple
            (λ w. Bill inv id w × (exists_where (succeeded_for inv.id) w.attempts ≡ b))
            (charge_unless_paid gateway d tenant_id id inv b)
            (λ r w. IsBacked w)
            Backed
    charge_unless_paid-Triple d tenant_id id inv true =
        Triple-bind _ _ (settle-Triple id inv) λ done. Triple-pure _
    charge_unless_paid-Triple d tenant_id id inv false =
        Triple-strengthen _
          (Triple-bind _ _ (submit_charge-Triple tenant_id id inv) (after_charge-Triple d id inv))
          (λ w h. h.0)

    pub charge_invoice-Triple :
        (d : DunningPolicy) (tenant_id id : ℕ) (inv : Invoice)
        → Triple
            (Bill inv id)
            (charge_invoice gateway d tenant_id id inv)
            (λ r w. IsBacked w)
            Backed
    unfolding charge_invoice
    charge_invoice-Triple d tenant_id id inv =
        Triple-bind _ _ (has_succeeded_attempt-Triple (Bill-blind inv id) (λ w h. h.0) inv.id)
          (charge_unless_paid-Triple d tenant_id id inv)

    after_settle-Triple :
        (inv : Invoice) (b : Bool)
        → Triple
            (λ w. Bill inv inv.subscription_id w × (b ≡ true → IsCharged inv w))
            (after_settle gateway inv b)
            (λ r w. IsBacked w)
            Backed
    after_settle-Triple inv true =
        Triple-strengthen _
          (Triple-bind _ _ (settle-Triple inv.subscription_id inv) λ done. Triple-pure _)
          (λ w h. (h.0, h.1 refl))
    after_settle-Triple inv false = Triple-strengthen _ (Triple-pure _) (λ w h. h.0.0)

    settle_unless_paid-Triple :
        (tenant_id : ℕ) (inv : Invoice) (b : Bool)
        → Triple
            (λ w.
              Bill inv inv.subscription_id w × (exists_where (succeeded_for inv.id) w.attempts ≡ b))
            (settle_unless_paid gateway tenant_id inv b)
            (λ r w. IsBacked w)
            Backed
    settle_unless_paid-Triple tenant_id inv true =
        Triple-bind _ _ (settle-Triple inv.subscription_id inv) λ done. Triple-pure _
    settle_unless_paid-Triple tenant_id inv false =
        Triple-strengthen _
          (Triple-bind _ _ (submit_charge-Triple tenant_id inv.subscription_id inv)
            (after_settle-Triple inv))
          (λ w h. h.0)

    settle_if_settleable-Triple :
        (tenant_id : ℕ) (inv : Invoice) (b : Bool)
        → Triple
            (Bill inv inv.subscription_id)
            (settle_if_settleable gateway tenant_id inv b)
            (λ r w. IsBacked w)
            Backed
    settle_if_settleable-Triple tenant_id inv false = Triple-raise _ (λ w h. h.0)
    settle_if_settleable-Triple tenant_id inv true =
        Triple-bind _ _
          (has_succeeded_attempt-Triple (Bill-blind inv inv.subscription_id) (λ w h. h.0) inv.id)
          (settle_unless_paid-Triple tenant_id inv)

    pub settle_invoice-Triple :
        (tenant_id id : ℕ)
        → Triple Backed (settle_invoice gateway tenant_id id) (λ r w. IsBacked w) Backed
    unfolding settle_invoice
    settle_invoice-Triple tenant_id id =
        Triple-bind _ _ (get_invoice-Triple blind-IsBacked (λ w h. h) id)
          λ inv. settle_if_settleable-Triple tenant_id inv (is_settleable inv)
