-- ===== src/Billing/Backing/Writes.antt =====
-- What the writing statements leave of the backing.
use nvelope.Common.Action.{ok, err}
use nvelope.Billing.Errors
use nvelope.Billing.Backing.Rows.{
  All-map, below-unused, select_first-test, select_first-stored, select_first-All, update_where-All,
  update-paid_for, update-Distinct,
}
use nvelope.Billing.Store.Triples.{with_tenant-Triple, Returns}
use nvelope.Common.Action.Triple.{Triple}
use nvelope.Billing.Subscription.{Subscription}
use nvelope.Billing.Payment.{PaymentAttempt}
use nvelope.Billing.Backing.{
  IsBacked, IsStored, false, is_active, succeeded_for, true, ActiveBy, exists_where, IsCharged,
  PaidBy, List, Bool, [], paid_for,
}
use nvelope.Billing.Subscriptions.{
  add_subscription, save_subscription, change_subscription, update_subscription,
}
use nvelope.Billing.Invoices.{
  insert_invoice, add_invoice, add_or_get, add_attempt, for_period, numbered, insert_unless,
  save_invoice, change_invoice, update_seeing,
}
use nvelope.Billing.Invoice.{Invoice, status_paid}
use nvelope.Billing.Store.{World, record_audit}
use nvelope.Common.{
  ℕ, ◌≡◌, String, arith, Option, Bool-cases, select_first, inl, ◌&&◌, ◌<◌, inr, some, none, refl,
  update_where, ==_iff,
}
use nvelope.Billing.Subscriptions
use nvelope.Billing.Invoices

module _ {G : Type 0} where
  abbrev pub Backed : World G → Type 0
  Backed w = IsBacked w

  abbrev pub Bill : Invoice → ℕ → World G → Type 0
  Bill inv id w = IsBacked w × IsStored inv id w

  -- Nothing here reads the faults.
  pub blind-IsBacked :
      (w : World G) (fs : List Bool) → IsBacked w → IsBacked (record w { faults = fs })
  blind-IsBacked w fs h = record {
    paid = h.paid;
    active = h.active;
    distinct = h.distinct;
    below = h.below;
  }

  -- A new row that is not paid, under a fresh id.
  insert-IsBacked :
      (w : World G) (i : Invoice)
      → status_paid i.status ≡ false
      → IsBacked w
      → IsBacked (insert_invoice i w).1
  unfolding insert_invoice
  insert-IsBacked w i unpaid h = record {
    paid = (λ p. absurd (ground (arith, unpaid, p)), h.paid);
    active =
        All-map (ActiveBy w.invoices) _ w.subscriptions (λ s k a. ground (arith, k a)) h.active;
    distinct = (below-unused w.fresh w.invoices h.below, h.distinct);
    below = (omega arith, All-map (λ i. i.id < w.fresh) _ w.invoices (λ j k. omega arith) h.below);
  }

  pub add_invoice-Triple :
      (i : Invoice)
      → status_paid i.status ≡ false
      → Triple Backed (add_invoice i) (λ j w. IsBacked w) Backed
  unfolding add_invoice insert_invoice
  add_invoice-Triple i unpaid =
      with_tenant-Triple (λ j w. IsBacked w) blind-IsBacked (λ w h. h) _
        λ w h.
          elim (Bool-cases
            (exists_where (for_period i.subscription_id i.period_start) w.invoices)) [
              | inl e ↦ rw e tt
              | inr e ↦ rw e (insert-IsBacked w i unpaid h)
            ]

  pub add_or_get-Triple :
      (i : Invoice)
      → status_paid i.status ≡ false
      → Triple Backed (add_or_get i) (λ j w. IsBacked w × IsStored j i.subscription_id w) Backed
  unfolding add_or_get insert_invoice
  add_or_get-Triple i unpaid =
      with_tenant-Triple (λ j w. IsBacked w × IsStored j i.subscription_id w) blind-IsBacked
        (λ w h. h) _ λ w h. inserted w _ refl h
    where
      inserted :
          (w : World G) (o : Option Invoice)
          → select_first (for_period i.subscription_id i.period_start) w.invoices ≡ o
          → IsBacked w
          → Returns (λ j w. IsBacked w × IsStored j i.subscription_id w) (insert_unless i o w)
      inserted w none e h = (insert-IsBacked w i unpaid h, ground arith)
      inserted w (some j) e h =
          (h, ground (arith, select_first-test _ w.invoices e, select_first-stored _ w.invoices e))

  -- A stored attempt adds to what is backed.
  pub add_attempt-Triple :
      (inv : Invoice) (id : ℕ) (a : PaymentAttempt)
      → Triple
          (Bill inv id)
          (add_attempt a)
          (λ u w. Bill inv id w × (succeeded_for inv.id a ≡ true → IsCharged inv w))
          Backed
  unfolding add_attempt
  add_attempt-Triple inv id a =
      with_tenant-Triple (λ u w. Bill inv id w × (succeeded_for inv.id a ≡ true → IsCharged inv w))
        (λ w fs h. (blind-IsBacked w fs h.0, h.1)) (λ w h. h.0) _
        λ w h.
          elim (Bool-cases (exists_where (numbered a.invoice_id a.attempt_number) w.attempts)) [
            | inl e ↦ rw e tt
            | inr e ↦ rw e (
              (
                record {
                  paid =
                      All-map (PaidBy w.attempts) _ w.invoices (λ i k p. ground (arith, k p))
                        h.0.paid;
                  active = h.0.active;
                  distinct = h.0.distinct;
                  below = h.0.below;
                },
                h.1,
              ),
              (λ s. ground (arith, s)),
            )
          ]

  -- A new subscription that is not active.
  pub add_subscription-Triple :
      (s : Subscription)
      → is_active s.state ≡ false
      → Triple Backed (add_subscription s) (λ j w. IsBacked w) Backed
  unfolding add_subscription
  add_subscription-Triple s idle =
      with_tenant-Triple (λ j w. IsBacked w) blind-IsBacked (λ w h. h) _
        λ w h.
          elim (Bool-cases (
            exists_where Subscriptions.not_canceled w.subscriptions
            && Subscriptions.not_canceled s)) [
              | inl e ↦ rw e tt
              | inr e ↦ rw e (record {
                paid = h.paid;
                active = ((λ p. absurd (ground (arith, idle, p))), h.active);
                distinct = h.distinct;
                below = All-map (λ i. i.id < w.fresh) _ w.invoices (λ j k. omega arith) h.below;
              })
            ]

  pub record_audit-Triple :
      (actor : ℕ) (action : String) (target : ℕ)
      → Triple Backed (record_audit actor action target) (λ u w. IsBacked w) Backed
  unfolding record_audit
  record_audit-Triple a b c =
      with_tenant-Triple (λ u w. IsBacked w) blind-IsBacked (λ w h. h) _
        λ w h. record { paid = h.paid; active = h.active; distinct = h.distinct; below = h.below }

  -- `Update` of a subscription: if an active result has its period paid for, all are backed.
  module _ {P : World G → Type 0}
      (blind : (w : World G) (fs : List Bool) → P w → P (record w { faults = fs }))
      (backed : (w : World G) → P w → IsBacked w) (id : ℕ)
      (fn : Subscription → Errors.Result Subscription)
      (paid : (w : World G) (s u : Subscription)
        → P w
        → ActiveBy w.invoices s
        → s.id ≡ id
        → fn s ≡ ok u
        → is_active u.state ≡ true
        → exists_where (paid_for id u.current_period_start) w.invoices ≡ true) where
    saved-IsBacked :
        (w : World G) (s : Subscription) (r : Errors.Result Subscription)
        → P w
        → ActiveBy w.invoices s
        → s.id ≡ id
        → fn s ≡ r
        → Returns (λ u w. IsBacked w) (save_subscription id r w)
    saved-IsBacked w s (err e) h a same q = tt
    saved-IsBacked w s (ok u) h a same q =
        let b : IsBacked w = backed w h in
        record {
          paid = b.paid;
          active =
              update_where-All (ActiveBy w.invoices) (Subscriptions.has_id id) _ w.subscriptions
                (λ r k t act. rw ((==_iff _ _).0 t) (paid w s u h a same q act)) b.active;
          distinct = b.distinct;
          below = b.below;
        }

    changed-IsBacked :
        (w : World G) (o : Option Subscription)
        → P w
        → select_first (Subscriptions.has_id id) w.subscriptions ≡ o
        → Returns (λ u w. IsBacked w) (change_subscription id fn o w)
    changed-IsBacked w none h e = tt
    changed-IsBacked w (some s) h e =
        let (a, t) =
          select_first-All (ActiveBy w.invoices) _ w.subscriptions (backed w h).active e in
        saved-IsBacked w s (fn s) h a ((==_iff _ _).0 t) refl

    pub update_subscription-Triple : Triple P (update_subscription id fn) (λ u w. IsBacked w) Backed
    unfolding update_subscription
    update_subscription-Triple =
        with_tenant-Triple (λ u w. IsBacked w) blind backed _ λ w h. changed-IsBacked w _ h refl

  -- `Update` of an invoice: a row that was paid stays paid, and a paid row has its attempt.
  module _ {B : Type 0} {P : World G → Type 0} (E : World G → Type 0)
      (blind : (w : World G) (fs : List Bool) → P w → P (record w { faults = fs }))
      (backed : (w : World G) → P w → IsBacked w) (id : ℕ) (seen : Invoice → B)
      (fn : Invoice → Errors.Result Invoice)
      (keeps : (w : World G) (i u : Invoice)
        → P w
        → PaidBy w.attempts i
        → i.id ≡ id
        → fn (record i { line_items = [] }) ≡ ok u
        → (status_paid i.status ≡ true → status_paid u.status ≡ true)
          × (status_paid u.status ≡ true → exists_where (succeeded_for id) w.attempts ≡ true)
          × E (record w {
            invoices = update_where (Invoices.has_id id) (λ r. Invoices.write_back r u) w.invoices;
          })) where
    saved_invoice-IsBacked :
        (w : World G) (i : Invoice) (b : B) (r : Errors.Result Invoice)
        → P w
        → PaidBy w.attempts i
        → i.id ≡ id
        → select_first (Invoices.has_id id) w.invoices ≡ some i
        → fn (record i { line_items = [] }) ≡ r
        → Returns (λ b w. IsBacked w × E w) (save_invoice id b r w)
    saved_invoice-IsBacked w i b (err e) h a same f q = tt
    saved_invoice-IsBacked w i b (ok u) h a same f q =
        let k : IsBacked w = backed w h in
        let (stays, has, extra) = keeps w i u h a same q in
        (
          record {
            paid =
                update_where-All (PaidBy w.attempts) (Invoices.has_id id) _ w.invoices
                  (λ r p t s. rw ((==_iff _ _).0 t) (has s)) k.paid;
            active =
                All-map (ActiveBy w.invoices) _ w.subscriptions
                  (λ s p act.
                    update-paid_for id s.id s.current_period_start u w.invoices k.distinct f stays
                      (p act))
                  k.active;
            distinct = update-Distinct id u w.invoices k.distinct;
            below =
                update_where-All (λ r. r.id < w.fresh) (Invoices.has_id id) _ w.invoices
                  (λ r p t. p) k.below;
          },
          extra,
        )

    changed_invoice-IsBacked :
        (w : World G) (o : Option Invoice)
        → P w
        → select_first (Invoices.has_id id) w.invoices ≡ o
        → Returns (λ b w. IsBacked w × E w) (change_invoice id seen fn o w)
    changed_invoice-IsBacked w none h e = tt
    changed_invoice-IsBacked w (some i) h e =
        let (a, t) = select_first-All (PaidBy w.attempts) _ w.invoices (backed w h).paid e in
        saved_invoice-IsBacked w i _ _ h a ((==_iff _ _).0 t) e refl

    pub update_seeing-Triple : Triple P (update_seeing id seen fn) (λ b w. IsBacked w × E w) Backed
    unfolding update_seeing
    update_seeing-Triple =
        with_tenant-Triple (λ b w. IsBacked w × E w) blind backed _
          λ w h. changed_invoice-IsBacked w _ h refl
