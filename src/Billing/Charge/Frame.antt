-- ===== src/Billing/Charge/Frame.antt =====
-- The statements that store no attempt and do not call the gateway keep what is known of both.
use nvelope.Common.{ℕ, String, Option, none, some, inl, inr, Bool-cases, exists_where, ◌&&◌}
use nvelope.Common.Calendar.{Time}
use nvelope.Common.Action.{ok, err}
use nvelope.Common.Action.Keeps.{Keeps}
use nvelope.Billing.Errors.{Result}
use nvelope.Billing.Plan.{Plan}
use nvelope.Billing.Subscription.{Subscription}
use nvelope.Billing.Invoice.{Invoice}
use nvelope.Billing.Payment.{Gateway}
use nvelope.Billing.Store.{World, time_now, record_audit}
use nvelope.Billing.Store.Keeps.{with_tenant-Keeps}
use nvelope.Billing.Subscriptions.{
  get_plan, found_plan, add_subscription, get_subscription, found_subscription,
  current_subscription, update_subscription, change_subscription, save_subscription, not_canceled,
}
use nvelope.Billing.Invoices.{
  add_invoice, insert_unless, add_or_get, get_invoice, found_invoice, update_seeing, update_invoice,
  change_invoice, save_invoice, open_for_subscription, by_subscription_period,
  has_succeeded_attempt, for_period,
}
use nvelope.Billing.Charge.Submit.{SettlesOnce}

module _ {G : Type 0} (gateway : Gateway G) (v : ℕ) where
  abbrev Q : World G → Type 0
  Q = SettlesOnce gateway v

  pub time_now-frame : Keeps Q time_now
  time_now-frame = record { at = λ w h. h }

  pub record_audit-frame :
      (actor : ℕ) (action : String) (target : ℕ) → Keeps Q (record_audit actor action target)
  unfolding record_audit
  record_audit-frame a b c = with_tenant-Keeps {P = Q} (λ w fs h. h) _ λ w h. h

  pub get_plan-frame : (id : ℕ) → Keeps Q (get_plan id)
  unfolding get_plan
  get_plan-frame id = with_tenant-Keeps {P = Q} (λ w fs h. h) _ λ w h. found-Keeps _ w h
    where
      found-Keeps : (o : Option Plan) (w : World G) → Q w → Q (found_plan o w).1
      found-Keeps none w h = h
      found-Keeps (some p) w h = h

  pub get_subscription-frame : (id : ℕ) → Keeps Q (get_subscription id)
  unfolding get_subscription
  get_subscription-frame id = with_tenant-Keeps {P = Q} (λ w fs h. h) _ λ w h. found-Keeps _ w h
    where
      found-Keeps : (o : Option Subscription) (w : World G) → Q w → Q (found_subscription o w).1
      found-Keeps none w h = h
      found-Keeps (some p) w h = h

  pub get_invoice-frame : (id : ℕ) → Keeps Q (get_invoice id)
  unfolding get_invoice
  get_invoice-frame id = with_tenant-Keeps {P = Q} (λ w fs h. h) _ λ w h. found-Keeps _ w h
    where
      found-Keeps : (o : Option Invoice) (w : World G) → Q w → Q (found_invoice o w).1
      found-Keeps none w h = h
      found-Keeps (some p) w h = h

  pub current_subscription-frame : Keeps Q current_subscription
  unfolding current_subscription
  current_subscription-frame = with_tenant-Keeps {P = Q} (λ w fs h. h) _ λ w h. h

  pub open_for_subscription-frame : (id : ℕ) → Keeps Q (open_for_subscription id)
  unfolding open_for_subscription
  open_for_subscription-frame id = with_tenant-Keeps {P = Q} (λ w fs h. h) _ λ w h. h

  pub by_subscription_period-frame : (id : ℕ) (t : Time) → Keeps Q (by_subscription_period id t)
  unfolding by_subscription_period
  by_subscription_period-frame id t = with_tenant-Keeps {P = Q} (λ w fs h. h) _ λ w h. h

  pub has_succeeded_attempt-frame : (id : ℕ) → Keeps Q (has_succeeded_attempt id)
  unfolding has_succeeded_attempt
  has_succeeded_attempt-frame id = with_tenant-Keeps {P = Q} (λ w fs h. h) _ λ w h. h

  pub add_subscription-frame : (s : Subscription) → Keeps Q (add_subscription s)
  unfolding add_subscription
  add_subscription-frame s =
      with_tenant-Keeps {P = Q} (λ w fs h. h) _
        λ w h. elim (Bool-cases (exists_where not_canceled w.subscriptions && not_canceled s)) [
          | inl e ↦ rw e h
          | inr e ↦ rw e h
        ]

  pub update_subscription-frame :
      (id : ℕ) (fn : Subscription → Result Subscription) → Keeps Q (update_subscription id fn)
  unfolding update_subscription
  update_subscription-frame id fn = with_tenant-Keeps {P = Q} (λ w fs h. h) _ λ w h. changed _ w h
    where
      saved : (r : Result Subscription) (w : World G) → Q w → Q (save_subscription id r w).1
      saved (ok s) w h = h
      saved (err e) w h = h

      changed : (o : Option Subscription) (w : World G) → Q w → Q (change_subscription id fn o w).1
      changed none w h = h
      changed (some s) w h = saved (fn s) w h

  pub add_invoice-frame : (i : Invoice) → Keeps Q (add_invoice i)
  unfolding add_invoice
  add_invoice-frame i =
      with_tenant-Keeps {P = Q} (λ w fs h. h) _
        λ w h.
          elim (Bool-cases
            (exists_where (for_period i.subscription_id i.period_start) w.invoices)) [
              | inl e ↦ rw e h
              | inr e ↦ rw e h
            ]

  pub add_or_get-frame : (i : Invoice) → Keeps Q (add_or_get i)
  unfolding add_or_get
  add_or_get-frame i = with_tenant-Keeps {P = Q} (λ w fs h. h) _ λ w h. inserted _ w h
    where
      inserted : (o : Option Invoice) (w : World G) → Q w → Q (insert_unless i o w).1
      inserted none w h = h
      inserted (some s) w h = h

  pub update_seeing-frame :
      {B : Type 0} (id : ℕ) (seen : Invoice → B) (fn : Invoice → Result Invoice)
      → Keeps Q (update_seeing id seen fn)
  unfolding update_seeing
  update_seeing-frame {B} id seen fn =
      with_tenant-Keeps {P = Q} (λ w fs h. h) _ λ w h. changed _ w h
    where
      saved : (b : B) (r : Result Invoice) (w : World G) → Q w → Q (save_invoice id b r w).1
      saved b (ok s) w h = h
      saved b (err e) w h = h

      changed : (o : Option Invoice) (w : World G) → Q w → Q (change_invoice id seen fn o w).1
      changed none w h = h
      changed (some i) w h = saved _ _ w h

  pub update_invoice-frame :
      (id : ℕ) (fn : Invoice → Result Invoice) → Keeps Q (update_invoice id fn)
  unfolding update_invoice
  update_invoice-frame id fn = update_seeing-frame id (λ i. tt) fn

pub ruleset frames = (
  time_now-frame, record_audit-frame, get_plan-frame, get_subscription-frame, get_invoice-frame,
  current_subscription-frame, open_for_subscription-frame, by_subscription_period-frame,
  has_succeeded_attempt-frame, add_subscription-frame, update_subscription-frame, add_invoice-frame,
  add_or_get-frame, update_seeing-frame, update_invoice-frame,
)
