-- ===== src/Billing/Charge/Dunning.antt =====
-- What a failed charge leaves: the count of its attempts, and when the retries are exhausted.
use nvelope.Billing.Invoices
use nvelope.Billing.Subscriptions
use nvelope.Billing.Subscriptions.{update_subscription}
use nvelope.Billing.Invoices.{update_seeing}
use nvelope.Billing.Store.{with_tenant}
use nvelope.Common.Int64.{add64, le64, sign_bit}
use nvelope.Common.Calendar.{Time}
use nvelope.Billing.Charge.{
  fall_behind, fail_once, List, false, none, true, some, exhausted_by_failure, ◌∷◌, World,
  is_exhausted, update_seeing, update_subscription, ℕ, leb, Gateway, dun, ◌>>=◌,
}
use nvelope.Common.Action.{ok, ◌>>=◌}
use nvelope.Billing.Subscription.{
  Subscription, SubscriptionState, past_due, suspended, canceled, mark_past_due, suspend,
}
use nvelope.Billing.Invoice.{
  Invoice, uncollectible, status_open, mark_uncollectible, record_failed_attempt, is_open,
  open_status,
}
use nvelope.Billing.Dunning.{DunningPolicy, next_attempt_at, is_exhausted}
use nvelope.Common.{
  if◌then◌else◌, Bool, ◌≡◌, select_first, arith, update_where, Bool-cases, inl, ◌∙◌, inr, ap, [],
  ◌+◌, ◌<◌, refl,
}

-- A search for the row that an update changed finds the new row.
pub select_first-update_where {ℓ} :
    {A : Type ℓ} (test : A → Bool) (f : A → A) (rows : List A) {a : A}
    → ((x : A) → test (f x) ≡ test x)
    → select_first test rows ≡ some a
    → select_first test (update_where test f rows) ≡ some (f a)
select_first-update_where test f [] same e = cc
select_first-update_where test f (x ∷ rows) {a} same e = elim (Bool-cases (test x)) [
  | inl t ↦
      let q : x ≡ a = ground (arith, t) in
      let u : test (f x) ≡ true = same x ∙ t in rw t (rw u (ap (λ y. some (f y)) q))
  | inr n ↦ rw n (rw n (select_first-update_where test f rows same (rw n at e)))
]

-- The states in which a failed charge is possible.
abbrev pub chargeable : SubscriptionState → Bool
chargeable suspended = false
chargeable canceled = false
chargeable _ = true

fallen :
    (s : Subscription) (b : Bool)
    → chargeable s.state ≡ true
    → fall_behind b s ≡ ok (record s { state = if b then suspended else past_due })
unfolding fall_behind mark_past_due suspend
fallen s b h = ground (arith, h)

abbrev failed_row : DunningPolicy → Time → Invoice → Bool → Invoice
unfolding next_attempt_at record_failed_attempt
failed_row d now i b =
    let r = record_failed_attempt i (next_attempt_at d now) in
    if b then record r { status = uncollectible; next_attempt_at = none } else r

failed_once :
    (d : DunningPolicy) (now : Time) (i : Invoice)
    → status_open i.status ≡ true
    → fail_once d now i ≡ ok (failed_row d now i (exhausted_by_failure d now i))
unfolding fail_once mark_uncollectible record_failed_attempt is_open failed_row next_attempt_at
failed_once d now i h = elim (Bool-cases (exhausted_by_failure d now i)) [
  | inl e ↦ rw e (rw h)
  | inr e ↦ rw e
]

row_count :
    (d : DunningPolicy) (now : Time) (i : Invoice) (b : Bool)
    → i.attempt_count + 1 < sign_bit
    → (failed_row d now i b).attempt_count ≡ i.attempt_count + 1
unfolding failed_row record_failed_attempt add64
row_count d now i true h = ground (arith, h)
row_count d now i false h = ground (arith, h)

row_status :
    (d : DunningPolicy) (now : Time) (i : Invoice) (b : Bool)
    → status_open i.status ≡ true
    → (failed_row d now i b).status ≡ (if b then uncollectible else open_status)
unfolding failed_row record_failed_attempt
row_status d now i true h = refl
row_status d now i false h = ground (arith, h)

row_next :
    (d : DunningPolicy) (now : Time) (i : Invoice) (b : Bool)
    → (failed_row d now i b).next_attempt_at ≡ (if b then none else some (next_attempt_at d now))
unfolding failed_row record_failed_attempt
row_next d now i true = refl
row_next d now i false = refl

abbrev bare : Invoice → Invoice
bare i = record i { line_items = [] }

module _ {G : Type 0} (w : World G) (no_faults : w.faults ≡ []) where
  updated_invoice :
      (d : DunningPolicy) (now : Time) (k : ℕ) (i : Invoice)
      → select_first (Invoices.has_id k) w.invoices ≡ some i
      → status_open i.status ≡ true
      → update_seeing k (exhausted_by_failure d now) (fail_once d now) w ≡ (
        ok (exhausted_by_failure d now (bare i)),
        record w {
          invoices =
              update_where
                (Invoices.has_id k)
                (λ row.
                  Invoices.write_back row
                    (failed_row d now (bare i) (exhausted_by_failure d now (bare i))))
                w.invoices;
        },
      )
  unfolding update_seeing with_tenant
  updated_invoice d now k i e o = rw no_faults (rw e (rw (failed_once d now (bare i) o)))

  updated_subscription :
      (k : ℕ) (s : Subscription) (b : Bool)
      → select_first (Subscriptions.has_id k) w.subscriptions ≡ some s
      → chargeable s.state ≡ true
      → update_subscription k (fall_behind b) w ≡ (
        ok tt,
        record w {
          subscriptions =
              update_where
                (Subscriptions.has_id k)
                (λ row.
                  Subscriptions.write_back row
                    (record s { state = if b then suspended else past_due }))
                w.subscriptions;
        },
      )
  unfolding update_subscription with_tenant
  updated_subscription k s b e c = rw no_faults (rw e (rw (fallen s b c)))

exhausted_when :
    (d : DunningPolicy) (now : Time) (i : Invoice)
    → i.attempt_count + 1 < sign_bit
    → d.max_attempts < sign_bit
    → exhausted_by_failure d now i ≡ leb d.max_attempts (i.attempt_count + 1)
unfolding exhausted_by_failure is_exhausted record_failed_attempt add64 le64
exhausted_when d now i a b = ground (arith, a, b)

module _ {G : Type 0} (gateway : Gateway G) (d : DunningPolicy) (k : ℕ) (inv : Invoice)
    (w : World G) (i : Invoice) (s : Subscription) where
  abbrev last : Bool
  last = exhausted_by_failure d w.now (bare i)

  abbrev counted : Invoice
  counted = failed_row d w.now (bare i) last

  abbrev dropped : Subscription
  dropped = record s { state = if last then suspended else past_due }

  dunned :
      w.faults ≡ []
      → select_first (Invoices.has_id inv.id) w.invoices ≡ some i
      → status_open i.status ≡ true
      → select_first (Subscriptions.has_id k) w.subscriptions ≡ some s
      → chargeable s.state ≡ true
      → dun gateway d k inv w ≡ (
        ok tt,
        record w {
          invoices =
              update_where
                (Invoices.has_id inv.id)
                (λ row. Invoices.write_back row counted)
                w.invoices;
          subscriptions =
              update_where
                (Subscriptions.has_id k)
                (λ row. Subscriptions.write_back row dropped)
                w.subscriptions;
        },
      )
  unfolding dun ◌>>=◌
  dunned f e o g c = rw (updated_invoice w f d w.now inv.id i e o) (
      updated_subscription
        (record w {
          invoices =
              update_where (Invoices.has_id inv.id) (λ row. Invoices.write_back row counted)
                w.invoices;
        })
        f k s last g c)

  -- While the database fails no transaction, a failed charge of a stored open invoice, whose
  -- subscription is pending, active or past due, counts one more attempt on the invoice. While the
  -- count stays below the policy's maximum, the invoice stays open with its next attempt one
  -- interval later, and the subscription becomes past due; once the count reaches the maximum, the
  -- invoice is written off with no further attempt, and the subscription suspended. The count and
  -- the maximum stay below 2 ^ 63.
  pub dun-counts :
      w.faults ≡ []
      → select_first (Invoices.has_id inv.id) w.invoices ≡ some i
      → status_open i.status ≡ true
      → select_first (Subscriptions.has_id k) w.subscriptions ≡ some s
      → chargeable s.state ≡ true
      → i.attempt_count + 1 < sign_bit
      → d.max_attempts < sign_bit
      → ((dun gateway d k inv w).0 ≡ ok tt)
        × ((j : Invoice) × (select_first (Invoices.has_id inv.id) (dun gateway d k inv w).1.invoices
              ≡ some j)
            × (j.attempt_count ≡ i.attempt_count + 1)
            × (j.status
                ≡ (if leb d.max_attempts (i.attempt_count + 1) then uncollectible else open_status))
            × (j.next_attempt_at ≡ (
                if leb d.max_attempts (i.attempt_count + 1)
                then none
                else some (next_attempt_at d w.now))))
        × ((t : Subscription) × (select_first
                (Subscriptions.has_id k)
                (dun gateway d k inv w).1.subscriptions
              ≡ some t)
            × (t.state
                ≡ (if leb d.max_attempts (i.attempt_count + 1) then suspended else past_due)))
  dun-counts f e o g c a b = rw (dunned f e o g c) (
      rw (← exhausted_when d w.now (bare i) a b) (
        refl,
        (
          Invoices.write_back i counted,
          select_first-update_where (Invoices.has_id inv.id)
              (λ row. Invoices.write_back row counted) w.invoices (λ x. refl) e,
          row_count d w.now (bare i) last a,
          row_status d w.now (bare i) last o,
          row_next d w.now (bare i) last,
        ),
        (
          Subscriptions.write_back s dropped,
          select_first-update_where (Subscriptions.has_id k)
              (λ row. Subscriptions.write_back row dropped) w.subscriptions (λ x. refl) g,
          refl,
        ),
      ))
