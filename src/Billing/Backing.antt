-- ===== src/Billing/Backing.antt =====
-- What stands behind a settled invoice and an active subscription: a charge that was approved.
pub mod Rows
pub mod Reads
pub mod Writes
pub mod Charges
pub mod Commands
use nvelope.Billing.Invoices.{succeeded_for}
use nvelope.Billing.Subscription.{Subscription, is_active}
use nvelope.Billing.Payment.{PaymentAttempt}
use nvelope.Billing.Invoice.{Invoice, status_paid}
use nvelope.Billing.Store.{World}
use nvelope.Common.Calendar.{Time}
use nvelope.Billing.Invoices
use nvelope.Common.{ℕ, ◌<◌, ◌≡◌, Bool, List, ◌==◌, ◌∷◌, All, exists_where, ◌&&◌, false, true, []}

-- The invoice of a subscription's period, when it is paid.
abbrev pub paid_for : ℕ → Time → Invoice → Bool
paid_for subscription_id start i =
    (i.subscription_id == subscription_id && i.period_start == start) && status_paid i.status

-- A paid invoice has a succeeded attempt.
abbrev pub PaidBy : List PaymentAttempt → Invoice → Type 0
PaidBy attempts i = status_paid i.status ≡ true → exists_where (succeeded_for i.id) attempts ≡ true

-- An active subscription has a paid invoice for its current period.
abbrev pub ActiveBy : List Invoice → Subscription → Type 0
ActiveBy invoices s =
    is_active s.state ≡ true → exists_where (paid_for s.id s.current_period_start) invoices ≡ true

-- No two rows have one id.
abbrev pub Distinct : List Invoice → Type 0
Distinct [] = Unit
Distinct (i ∷ rows) = (exists_where (Invoices.has_id i.id) rows ≡ false) × Distinct rows

pub record IsBacked {G : Type 0} (w : World G) : Type 0 where
  pub paid : All (PaidBy w.attempts) w.invoices
  pub active : All (ActiveBy w.invoices) w.subscriptions
  pub distinct : Distinct w.invoices
  pub below : All (λ i. i.id < w.fresh) w.invoices

-- The row of an invoice that was loaded for a subscription is stored.
abbrev pub billed : Invoice → ℕ → Invoice → Bool
billed inv subscription_id r =
    (r.id == inv.id && r.subscription_id == subscription_id) && r.period_start == inv.period_start

abbrev pub IsStored : Invoice → ℕ → {G : Type 0} → World G → Type 0
IsStored inv subscription_id w = exists_where (billed inv subscription_id) w.invoices ≡ true

abbrev pub IsCharged : Invoice → {G : Type 0} → World G → Type 0
IsCharged inv w = exists_where (succeeded_for inv.id) w.attempts ≡ true
