-- ===== src/Billing/Charge/Once.antt =====
-- No invoice is ever charged twice: over every sequence of the billing commands, whichever
-- transactions the database fails.
use nvelope.Billing.Store.{with_tenant, run_transaction}
use nvelope.Billing.Invoices.{succeeded_for, has_succeeded_attempt}
use nvelope.Common.Action.{◌>>=◌, continue}
use nvelope.Common.{◌∷◌, ℕ, exists_where, false, ◌≡◌, Bool-cases, inl, [], inr, none}
use nvelope.Common.Action.Keeps.{Keeps, keeps_rules, Keeps-continue}
use nvelope.Billing.Dunning.{DunningPolicy}
use nvelope.Billing.Invoice.{Invoice}
use nvelope.Billing.Payment.{Gateway}
use nvelope.Billing.Charge.{
  settle, dun, Bool, charge_unless_paid, settle_unless_paid, ◌>>=◌, List, charge_invoice,
  has_succeeded_attempt, after_charge, after_settle, true, World, Billing, submit_charge, ok,
  settle_if_settleable, renewal_invoice, Subscription, handle, settle_invoice, Time, Option,
  renew_or_cancel, renew_if_due, charge_or_renew, some,
}
use nvelope.Billing.Charge.Submit.{SettlesOnce, submit_charge-SettlesOnce}
use nvelope.Billing.Charge.Frame.{frames}

module _ {G : Type 0} (gateway : Gateway G) (v : ℕ) where
  settle-Keeps : (id : ℕ) (inv : Invoice) → Keeps (SettlesOnce gateway v) (settle id inv)
  unfolding settle
  settle-Keeps id inv = search (keeps_rules, frames)

  dun-Keeps :
      (d : DunningPolicy) (id : ℕ) (inv : Invoice)
      → Keeps (SettlesOnce gateway v) (dun gateway d id inv)
  unfolding dun
  dun-Keeps d id inv = search (keeps_rules, frames) depth 8

  after_charge-Keeps :
      (d : DunningPolicy) (id : ℕ) (inv : Invoice) (approved : Bool)
      → Keeps (SettlesOnce gateway v) (after_charge gateway d id inv approved)
  after_charge-Keeps d id inv true = search (keeps_rules, settle-Keeps)
  after_charge-Keeps d id inv false = search (keeps_rules, dun-Keeps)

  after_settle-Keeps :
      (inv : Invoice) (approved : Bool)
      → Keeps (SettlesOnce gateway v) (after_settle gateway inv approved)
  after_settle-Keeps inv true = search (keeps_rules, settle-Keeps)
  after_settle-Keeps inv false = search keeps_rules

  already :
      (d : DunningPolicy) (tenant_id id : ℕ) (inv : Invoice)
      → Keeps (SettlesOnce gateway v) (charge_unless_paid gateway d tenant_id id inv true)
  already d tenant_id id inv = search (keeps_rules, settle-Keeps)

  already_settled :
      (tenant_id : ℕ) (inv : Invoice)
      → Keeps (SettlesOnce gateway v) (settle_unless_paid gateway tenant_id inv true)
  already_settled tenant_id inv = search (keeps_rules, settle-Keeps)

  -- A submission, at a state where the invoice has no succeeded attempt, and what follows it.
  submit-then :
      {A : Type 0} (w : World G) (tenant_id : ℕ) (inv : Invoice) (f : Bool → Billing G A)
      → exists_where (succeeded_for inv.id) w.attempts ≡ false
      → ((b : Bool) → Keeps (SettlesOnce gateway v) (f b))
      → SettlesOnce gateway v w
      → SettlesOnce gateway v ((submit_charge gateway tenant_id inv >>= f) w).1
  unfolding ◌>>=◌
  submit-then w tenant_id inv f unpaid kf h =
      let (r, w') = submit_charge gateway tenant_id inv w in
      Keeps-continue r f w' (submit_charge-SettlesOnce gateway v w tenant_id inv unpaid h) kf

  -- The guard: what comes after it submits a charge only if no attempt has succeeded.
  guard-run :
      {A : Type 0} (faults : List Bool) (w : World G) (inv : Invoice) (f : Bool → Billing G A)
      → ((fs : List Bool)
          → SettlesOnce gateway v
              (f (exists_where (succeeded_for inv.id) w.attempts) (record w { faults = fs })).1)
      → SettlesOnce gateway v w
      → SettlesOnce gateway v
          (let (r, w') =
              run_transaction faults
                (λ s. (ok (exists_where (succeeded_for inv.id) s.attempts), s))
                w in
            continue r f w').1
  guard-run [] w inv f k h = k w.faults
  guard-run (true ∷ fs) w inv f k h = h
  guard-run (false ∷ fs) w inv f k h = k fs

  charge_invoice-Keeps :
      (d : DunningPolicy) (tenant_id id : ℕ) (inv : Invoice)
      → Keeps (SettlesOnce gateway v) (charge_invoice gateway d tenant_id id inv)
  unfolding charge_invoice has_succeeded_attempt with_tenant ◌>>=◌
  charge_invoice-Keeps d tenant_id id inv = record {
    at = λ w h.
        guard-run w.faults w inv (charge_unless_paid gateway d tenant_id id inv)
          (λ fs. elim (Bool-cases (exists_where (succeeded_for inv.id) w.attempts)) [
            | inl e ↦ rw e ((already d tenant_id id inv).at (record w { faults = fs }) h)
            | inr e ↦ rw e (
                submit-then (record w { faults = fs }) tenant_id inv (after_charge gateway d id inv)
                  e (after_charge-Keeps d id inv) h)
          ])
          h;
  }

  settle_settleable-Keeps :
      (tenant_id : ℕ) (inv : Invoice) (settleable : Bool)
      → Keeps (SettlesOnce gateway v) (settle_if_settleable gateway tenant_id inv settleable)
  unfolding has_succeeded_attempt with_tenant ◌>>=◌
  settle_settleable-Keeps tenant_id inv false = search keeps_rules
  settle_settleable-Keeps tenant_id inv true = record {
    at = λ w h.
        guard-run w.faults w inv (settle_unless_paid gateway tenant_id inv)
          (λ fs. elim (Bool-cases (exists_where (succeeded_for inv.id) w.attempts)) [
            | inl e ↦ rw e ((already_settled tenant_id inv).at (record w { faults = fs }) h)
            | inr e ↦ rw e (
                submit-then (record w { faults = fs }) tenant_id inv (after_settle gateway inv) e
                  (after_settle-Keeps inv) h)
          ])
          h;
  }

  renewal_invoice-Keeps :
      (tenant_id : ℕ) (sub : Subscription)
      → Keeps (SettlesOnce gateway v) (renewal_invoice gateway tenant_id sub)
  unfolding renewal_invoice
  renewal_invoice-Keeps tenant_id sub = search (keeps_rules, frames) depth 9

  renew_or_cancel-Keeps :
      (d : DunningPolicy) (tenant_id id : ℕ) (sub : Subscription) (now : Time) (cancels : Bool)
      → Keeps (SettlesOnce gateway v) (renew_or_cancel gateway d tenant_id id sub now cancels)
  renew_or_cancel-Keeps d tenant_id id sub now true = search (keeps_rules, frames)
  renew_or_cancel-Keeps d tenant_id id sub now false =
      search (keeps_rules, renewal_invoice-Keeps, charge_invoice-Keeps)

  renew_if_due-Keeps :
      (d : DunningPolicy) (tenant_id id : ℕ) (sub : Subscription) (now : Time) (waits : Bool)
      → Keeps (SettlesOnce gateway v) (renew_if_due gateway d tenant_id id sub now waits)
  renew_if_due-Keeps d tenant_id id sub now true = search keeps_rules
  renew_if_due-Keeps d tenant_id id sub now false =
      renew_or_cancel-Keeps d tenant_id id sub now sub.cancel_at_period_end

  charge_or_renew-Keeps :
      (d : DunningPolicy) (tenant_id id : ℕ) (sub : Subscription) (due : Option Invoice)
      → Keeps (SettlesOnce gateway v) (charge_or_renew gateway d tenant_id id sub due)
  charge_or_renew-Keeps d tenant_id id sub (some inv) = charge_invoice-Keeps d tenant_id id inv
  charge_or_renew-Keeps d tenant_id id sub none = search (keeps_rules, frames, renew_if_due-Keeps)

  -- ChargeInvoiceHandler.Handle
  pub handle-SettlesOnce :
      (d : DunningPolicy) (tenant_id id : ℕ)
      → Keeps (SettlesOnce gateway v) (handle gateway d tenant_id id)
  unfolding handle
  handle-SettlesOnce d tenant_id id = search (keeps_rules, frames, charge_or_renew-Keeps)

  -- ChargeInvoiceHandler.Settle
  pub settle_invoice-SettlesOnce :
      (tenant_id id : ℕ) → Keeps (SettlesOnce gateway v) (settle_invoice gateway tenant_id id)
  unfolding settle_invoice
  settle_invoice-SettlesOnce tenant_id id = search (keeps_rules, frames, settle_settleable-Keeps)
