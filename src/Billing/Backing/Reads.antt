-- ===== src/Billing/Backing/Reads.antt =====
-- What the reading statements tell, beside any fact that they leave.
use nvelope.Billing.Backing.Rows.{select_first-stored, select_first-test, select_earliest-stored}
use nvelope.Billing.Backing.{IsStored, succeeded_for}
use nvelope.Billing.Invoice.{Invoice}
use nvelope.Billing.Subscription.{Subscription}
use nvelope.Billing.Plan.{Plan}
use nvelope.Common.Calendar.{Time}
use nvelope.Billing.Store.Triples.{with_tenant-Triple, Returns}
use nvelope.Common.Action.Triple.{Triple}
use nvelope.Billing.Subscriptions.{
  current_subscription, get_plan, get_subscription, found_plan, found_subscription,
}
use nvelope.Billing.Invoices.{
  has_succeeded_attempt, next_attempt_number, by_subscription_period, open_for_subscription,
  get_invoice, select_earliest, open_for, found_invoice, loaded,
}
use nvelope.Billing.Store.{World, time_now}
use nvelope.Common.{
  ℕ, ◌≡◌, List, Bool, Option, exists_where, select_first, some, refl, none, ==_iff,
}
use nvelope.Billing.Subscriptions
use nvelope.Billing.Invoices

-- An open invoice that is found is stored.
abbrev pub Found : {G : Type 0} → ℕ → Option Invoice → World G → Type 0
Found id none w = Unit
Found id (some i) w = IsStored i id w

module _ {G : Type 0} {P R : World G → Type 0}
    (blind : (w : World G) (faults : List Bool) → P w → P (record w { faults = faults }))
    (weaken : (w : World G) → P w → R w) where
  pub has_succeeded_attempt-Triple :
      (id : ℕ)
      → Triple P
          (has_succeeded_attempt id)
          (λ b w. P w × (exists_where (succeeded_for id) w.attempts ≡ b))
          R
  unfolding has_succeeded_attempt
  has_succeeded_attempt-Triple id =
      with_tenant-Triple (λ b w. P w × (exists_where (succeeded_for id) w.attempts ≡ b)) blind
        weaken _ λ w h. (h, refl)

  pub next_attempt_number-Triple : (id : ℕ) → Triple P (next_attempt_number id) (λ n w. P w) R
  unfolding next_attempt_number
  next_attempt_number-Triple id = with_tenant-Triple (λ n w. P w) blind weaken _ λ w h. h

  pub current_subscription-Triple : Triple P current_subscription (λ n w. P w) R
  unfolding current_subscription
  current_subscription-Triple = with_tenant-Triple (λ n w. P w) blind weaken _ λ w h. h

  pub by_subscription_period-Triple :
      (id : ℕ) (t : Time) → Triple P (by_subscription_period id t) (λ n w. P w) R
  unfolding by_subscription_period
  by_subscription_period-Triple id t = with_tenant-Triple (λ n w. P w) blind weaken _ λ w h. h

  pub time_now-Triple : Triple P time_now (λ t w. P w) R
  time_now-Triple = record { at = λ w h. h }

  pub get_plan-Triple : (id : ℕ) → Triple P (get_plan id) (λ p w. P w) R
  unfolding get_plan
  get_plan-Triple id = with_tenant-Triple (λ p w. P w) blind weaken _ λ w h. found _ w h
    where
      found : (o : Option Plan) (w : World G) → P w → Returns (λ p w. P w) (found_plan o w)
      found none w h = tt
      found (some p) w h = h

  pub get_subscription-Triple :
      (id : ℕ) → Triple P (get_subscription id) (λ s w. P w × (s.id ≡ id)) R
  unfolding get_subscription
  get_subscription-Triple id =
      with_tenant-Triple (λ s w. P w × (s.id ≡ id)) blind weaken _ λ w h. found _ w refl h
    where
      found :
          (o : Option Subscription) (w : World G)
          → select_first (Subscriptions.has_id id) w.subscriptions ≡ o
          → P w
          → Returns (λ s w. P w × (s.id ≡ id)) (found_subscription o w)
      found none w e h = tt
      found (some s) w e h = (h, (==_iff _ _).0 (select_first-test _ w.subscriptions e))

  pub open_for_subscription-Triple :
      (id : ℕ) → Triple P (open_for_subscription id) (λ o w. P w × Found id o w) R
  unfolding open_for_subscription
  open_for_subscription-Triple id =
      with_tenant-Triple (λ o w. P w × Found id o w) blind weaken _ λ w h. (h, found w _ refl)
    where
      found :
          (w : World G) (o : Option Invoice)
          → select_earliest (open_for id) w.invoices ≡ o
          → Found id (loaded o) w
      found w none e = tt
      found w (some i) e = select_earliest-stored id w.invoices e

  pub get_invoice-Triple :
      (id : ℕ) → Triple P (get_invoice id) (λ i w. P w × IsStored i i.subscription_id w) R
  unfolding get_invoice
  get_invoice-Triple id =
      with_tenant-Triple (λ i w. P w × IsStored i i.subscription_id w) blind weaken _
        λ w h. found _ w refl h
    where
      found :
          (o : Option Invoice) (w : World G)
          → select_first (Invoices.has_id id) w.invoices ≡ o
          → P w
          → Returns (λ i w. P w × IsStored i i.subscription_id w) (found_invoice o w)
      found none w e h = tt
      found (some i) w e h = (h, select_first-stored _ w.invoices e)
