-- ===== src/Billing/Metering/Rollup.antt =====
-- A roll-up moves what waits in the events into the counters, and loses none of it.
use nvelope.Billing.Metering.{
  group_usage, UsageGroup, sum_of, UsageCounter, Int64, add_to_group, select_where, counter_total,
  BillingPeriod, ◌∷◌, not_rolled, counter_of, Result, event_quantity, select_first, waiting_in,
  counts, in_group, some, count_in, ok, bigint, update_where, new_counter, Option, roll_group,
  roll_groups, recount, none, roll_found, err, true, ltb, and_then,
}
use nvelope.Common.Calendar.{Time}
use nvelope.Common.{
  if◌then◌else◌, List, ℕ, ◌==◌, ◌≡◌, ◌+◌, arith, Bool-cases, [], refl, inl, inr, ◌∙◌, ◌⊎◌, sym,
}
use nvelope.Billing.Backing.Rows.{select_first-test}
use nvelope.Common.Int64.{sign_bit}
use nvelope.Billing.Errors.{infrastructure}
use nvelope.Billing.Usage.{UsageEvent}
use nvelope.Billing.Metering.Counters.{
  Unique, counted_in, summed_in, recount-counted, recount-Unique, select-missing, same_type_refl,
  exists-group,
}

abbrev pub quantity_in : Time → UsageEvent → ℕ
quantity_in p e = if e.period_start == p then e.quantity else 0

add_to_group-summed :
    (p : Time) (e : UsageEvent) (groups : List UsageGroup)
    → sum_of (summed_in p) (add_to_group e groups) ≡ sum_of (summed_in p) groups + quantity_in p e
add_to_group-summed p e [] = ground arith
add_to_group-summed p e (g ∷ groups) = elim (Bool-cases (in_group e g)) [
  | inl t ↦ rw t (ground (arith, t))
  | inr f ↦ rw f (omega (arith, add_to_group-summed p e groups))
]

group_usage-summed :
    (p : Time) (events : List UsageEvent)
    → sum_of (summed_in p) (group_usage events) ≡ sum_of (quantity_in p) events
unfolding group_usage
group_usage-summed p [] = refl
group_usage-summed p (e ∷ events) =
    omega (arith, add_to_group-summed p e (group_usage events), group_usage-summed p events)

waiting-summed :
    (p : Time) (events : List UsageEvent)
    → sum_of (quantity_in p) (select_where not_rolled events)
      ≡ sum_of event_quantity (select_where (waiting_in p) events)
waiting-summed p [] = refl
waiting-summed p (e ∷ events) = ground (arith, waiting-summed p events)

-- The sum of a period's counters.
pub counters-summed :
    (p : Time) (counters : List UsageCounter)
    → sum_of counter_total (select_where (counter_of p) counters) ≡ sum_of (counted_in p) counters
counters-summed p [] = refl
counters-summed p (c ∷ counters) = ground (arith, counters-summed p counters)

-- What counters become when each period's sum grows by what was added.
abbrev pub Moves : List UsageCounter → List UsageCounter → (Time → ℕ) → Type 0
Moves before after added =
    Unique after
    × ((p : Time) → sum_of (counted_in p) after ≡ sum_of (counted_in p) before + added p)

bigint-cases : (n : ℕ) → (bigint n ≡ ok n) ⊎ (bigint n ≡ err infrastructure)
bigint-cases n = elim (Bool-cases (ltb n sign_bit)) [ inl t ↦ inl (rw t) | inr f ↦ inr (rw f) ]

ok-eq : {A : Type 0} {a b : A} → ◌≡◌ {A = Result A} (ok a) (ok b) → a ≡ b
ok-eq e = cc

module _ (tenant_id : ℕ) (allowance : Int64) (period : BillingPeriod) where
  moved :
      (g : UsageGroup) (counters : List UsageCounter) (c : UsageCounter)
      → Unique counters
      → select_first (counts g) counters ≡ some c
      → Moves counters
          (update_where (counts g) (recount allowance (c.total_quantity + g.sum)) counters)
          (λ p. summed_in p g)
  moved g counters c u s =
      let same = select_first-test (counts g) counters s in
      (
        recount-Unique g allowance (c.total_quantity + g.sum) counters u,
        λ p.
            ground (
              arith,
              same,
              recount-counted p g allowance (c.total_quantity + g.sum) counters c u s,
            ),
      )

  started :
      (g : UsageGroup) (counters : List UsageCounter)
      → Unique counters
      → select_first (counts g) counters ≡ none
      → Moves counters
          (update_where
            (counts g)
            (recount allowance g.sum)
            (new_counter tenant_id period g ∷ counters))
          (λ p. summed_in p g)
  unfolding new_counter
  started g counters u s =
      let c = new_counter tenant_id period g in
      let hit : counts g c ≡ true = ground (arith, same_type_refl g.event_type) in
      let u' : Unique (c ∷ counters) =
        (exists-group g c counters hit ∙ select-missing g counters s, u) in
      (
        recount-Unique g allowance g.sum (c ∷ counters) u',
        λ p. omega (arith, recount-counted p g allowance g.sum (c ∷ counters) c u' (rw hit)),
      )

  count_in-eq :
      (g : UsageGroup) (counters : List UsageCounter) (n : ℕ) {after : List UsageCounter}
      → count_in g allowance counters (bigint n) ≡ ok after
      → after ≡ update_where (counts g) (recount allowance n) counters
  count_in-eq g counters n {after} e = elim (bigint-cases n) [
    | inl q ↦ sym (ok-eq (rw q at e))
    | inr q ↦ let k = rw q at e in cc
  ]

  found-Moves :
      (g : UsageGroup) (counters : List UsageCounter) (o : Option UsageCounter)
      {after : List UsageCounter}
      → Unique counters
      → select_first (counts g) counters ≡ o
      → roll_found tenant_id allowance period counters g g.sum o ≡ ok after
      → Moves counters after (λ p. summed_in p g)
  unfolding roll_found
  found-Moves g counters none {after} u s e =
      rw (count_in-eq g (new_counter tenant_id period g ∷ counters) g.sum e)
        (started g counters u s)
  found-Moves g counters (some c) {after} u s e =
      rw (count_in-eq g counters (c.total_quantity + g.sum) e) (moved g counters c u s)

  roll_group-Moves :
      (g : UsageGroup) (counters : List UsageCounter) {after : List UsageCounter}
      → Unique counters
      → roll_group tenant_id allowance period counters g ≡ ok after
      → Moves counters after (λ p. summed_in p g)
  unfolding roll_group
  roll_group-Moves g counters {after} u e = elim (bigint-cases g.sum) [
    | inl q ↦ found-Moves g counters (select_first (counts g) counters) u refl (rw q at e)
    | inr q ↦ let k = rw q at e in cc
  ]

  -- The groups' counters grow by what the groups hold.
  pub roll_groups-Moves :
      (groups : List UsageGroup) (counters : List UsageCounter) {after : List UsageCounter}
      → Unique counters
      → roll_groups tenant_id allowance period groups counters ≡ ok after
      → Moves counters after (λ p. sum_of (summed_in p) groups)
  unfolding roll_groups
  roll_groups-Moves [] counters u e = rw (sym (ok-eq e)) (u, λ p. omega arith)
  roll_groups-Moves (g ∷ groups) counters {after} u e =
      step (roll_group tenant_id allowance period counters g) refl e
        (λ middle v. roll_groups-Moves groups middle v)
    where
      step :
          (r : Result (List UsageCounter))
          → roll_group tenant_id allowance period counters g ≡ r
          → and_then r (roll_groups tenant_id allowance period groups) ≡ ok after
          → ((middle : List UsageCounter)
              → Unique middle
              → roll_groups tenant_id allowance period groups middle ≡ ok after
              → Moves middle after (λ p. sum_of (summed_in p) groups))
          → Moves counters after (λ p. sum_of (summed_in p) (g ∷ groups))
      step (err x) q k later = cc
      step (ok middle) q k later =
          let first = roll_group-Moves g counters u q in
          let rest = later middle first.0 k in (rest.0, λ p. omega (arith, first.1 p, rest.1 p))

-- What waits in the events is what the groups hold.
pub grouped :
    (p : Time) (events : List UsageEvent)
    → sum_of (summed_in p) (group_usage (select_where not_rolled events))
      ≡ sum_of event_quantity (select_where (waiting_in p) events)
grouped p events = group_usage-summed p (select_where not_rolled events) ∙ waiting-summed p events
