-- ===== src/Billing/Charge/Submit.antt =====
-- What one submitted charge keeps, whichever transaction of it the database fails.
use nvelope.Common.{
  ◌∷◌, [], List, ℕ, ◌+◌, ◌≡◌, refl, inl, inr, Bool, true, false, exists_where, Bool-cases, ◌==◌,
  ==_iff, ap,
}
use nvelope.Common.Action.Keeps.{continue-pure-state}
use nvelope.Common.Action.{◌>>=◌, ok, continue}
use nvelope.Billing.Invoice.{Invoice}
use nvelope.Billing.Payment.{
  PaymentAttempt, Gateway, confirmed, confirmed-refused, ChargeReply, ChargeRequest, is_approved,
  new_succeeded_attempt, new_failed_attempt,
}
use nvelope.Billing.Store.{World, with_tenant, run_transaction, call_gateway, run_transaction}
use nvelope.Billing.Store.Keeps.{with_tenant-at}
use nvelope.Billing.Invoices.{
  succeeded_for, numbered, max_attempt, add_attempt, next_attempt_number,
}
use nvelope.Billing.Charge.{store_attempt, request, submit_numbered, submit_charge, List}
use nvelope.Billing.Charge.Ledger.{
  IsSettledOnce, next_number, charge-IsSettledOnce, failed-IsSettledOnce, succeeded-IsSettledOnce,
  other-IsSettledOnce,
}

module _ {G : Type 0} (gateway : Gateway G) (v : ℕ) where
  -- The predicate on the whole state.
  abbrev pub SettlesOnce : World G → Type 0
  SettlesOnce w = IsSettledOnce gateway v w.attempts w.gateway

  add_attempt-at :
      (a : PaymentAttempt) (w : World G)
      → SettlesOnce w
      → IsSettledOnce gateway v (a ∷ w.attempts) w.gateway
      → SettlesOnce (add_attempt a w).1
  unfolding add_attempt
  add_attempt-at a w h k =
      with_tenant-at {P = SettlesOnce} (λ w fs h. h) _ w h
        λ rest.
          elim (Bool-cases (exists_where (numbered a.invoice_id a.attempt_number) w.attempts)) [
            | inl e ↦ rw e h
            | inr e ↦ rw e k
          ]

  -- The attempt of a reply to the charge under the next number.
  attempt-IsSettledOnce :
      (w : World G) (tenant_id : ℕ) (inv : Invoice) (reply : ChargeReply)
      → exists_where (succeeded_for inv.id) w.attempts ≡ false
      → (is_approved reply ≡ false
          → confirmed gateway w.gateway (inv.id, next_number inv.id w.attempts) ≡ false)
      → SettlesOnce w
      → SettlesOnce (store_attempt gateway tenant_id inv (next_number inv.id w.attempts) reply w).1
  unfolding store_attempt new_succeeded_attempt new_failed_attempt
  attempt-IsSettledOnce w tenant_id inv reply unpaid refused h = elim (Bool-cases (inv.id == v)) [
    | inl same ↦
        let e : inv.id ≡ v = (==_iff _ _).0 same in
        elim (Bool-cases (is_approved reply)) [
          | inl yes' ↦ rw yes' (
              add_attempt-at _ w h (
                succeeded-IsSettledOnce gateway v w.attempts w.gateway _ e
                  (ap (λ u. next_number u w.attempts) e) refl (rw e at unpaid) h))
          | inr no' ↦ rw no' (
              add_attempt-at _ w h (
                failed-IsSettledOnce gateway v w.attempts w.gateway _ e refl (rw e at (refused no'))
                  (rw e at unpaid) h))
        ]
    | inr other ↦ elim (Bool-cases (is_approved reply)) [
      | inl yes' ↦
          rw yes'
            (add_attempt-at _ w h (other-IsSettledOnce gateway v w.attempts w.gateway _ other h))
      | inr no' ↦
          rw no'
            (add_attempt-at _ w h (other-IsSettledOnce gateway v w.attempts w.gateway _ other h))
    ]
  ]

  -- From the number that was read on: the charge, then the attempt's row.
  charge-then-store :
      (w : World G) (tenant_id : ℕ) (inv : Invoice)
      → exists_where (succeeded_for inv.id) w.attempts ≡ false
      → SettlesOnce w
      → SettlesOnce (submit_numbered gateway tenant_id inv (next_number inv.id w.attempts) w).1
  unfolding submit_numbered ◌>>=◌ call_gateway
  charge-then-store w tenant_id inv unpaid h =
      let r : ChargeRequest = request inv tenant_id (next_number inv.id w.attempts) in
      let w' : World G = record w { gateway = (gateway.charge w.gateway r).1 } in
      continue-pure-state SettlesOnce _ _ (
        attempt-IsSettledOnce w' tenant_id inv (gateway.charge w.gateway r).0 unpaid
          (confirmed-refused gateway w.gateway r)
          (charge-IsSettledOnce gateway v w.attempts w.gateway r inv.id refl unpaid h))

  submit-run :
      (faults : List Bool) (w : World G) (tenant_id : ℕ) (inv : Invoice)
      → exists_where (succeeded_for inv.id) w.attempts ≡ false
      → SettlesOnce w
      → SettlesOnce
          (let (r, w') =
              run_transaction faults (λ s. (ok (max_attempt inv.id s.attempts + 1), s)) w in
            continue r (submit_numbered gateway tenant_id inv) w').1
  submit-run [] w tenant_id inv unpaid h = charge-then-store w tenant_id inv unpaid h
  submit-run (true ∷ fs) w tenant_id inv unpaid h = h
  submit-run (false ∷ fs) w tenant_id inv unpaid h =
      charge-then-store (record w { faults = fs }) tenant_id inv unpaid h

  -- A submitted charge of an invoice with no succeeded attempt.
  pub submit_charge-SettlesOnce :
      (w : World G) (tenant_id : ℕ) (inv : Invoice)
      → exists_where (succeeded_for inv.id) w.attempts ≡ false
      → SettlesOnce w
      → SettlesOnce (submit_charge gateway tenant_id inv w).1
  unfolding submit_charge next_attempt_number with_tenant ◌>>=◌
  submit_charge-SettlesOnce w tenant_id inv unpaid h = submit-run w.faults w tenant_id inv unpaid h
