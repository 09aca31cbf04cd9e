-- ===== src/Billing/Metering/Counters.antt =====
-- The counters of a roll-up: one per period and type, each moved by its group's sum.
use nvelope.Common.{◌≡◌, refl, arith, [], Bool-cases, inl, ◌∙◌, ◌+◌, inr, sym, ◌==◌, ap, ◌||◌}
use nvelope.Billing.Metering.{
  UsageGroup, UsageCounter, counts, recount, List, Time, Int64, ◌∷◌, ℕ, true, exists_where,
  select_first, update_where, false, none, some, sum_of,
}
use nvelope.Common.{if◌then◌else◌}
use nvelope.Billing.Usage.{UsageEventType, same_type, campaign_send, transactional_send}

-- The group that a counter stands for.
abbrev pub group_of : UsageCounter → UsageGroup
group_of c = record { period_start = c.period_start; event_type = c.event_type; sum = 0 }

-- UNIQUE (tenant_id, period_start, event_type)
abbrev pub Unique : List UsageCounter → Type 0
Unique [] = Unit
Unique (c ∷ counters) = (exists_where (counts (group_of c)) counters ≡ false) × Unique counters

abbrev pub counted_in : Time → UsageCounter → ℕ
counted_in p c = if c.period_start == p then c.total_quantity else 0

abbrev pub summed_in : Time → UsageGroup → ℕ
summed_in p g = if g.period_start == p then g.sum else 0

pub same_type_refl : (a : UsageEventType) → same_type a a ≡ true
same_type_refl campaign_send = refl
same_type_refl transactional_send = refl

pub same_type_eq : (a b : UsageEventType) → same_type a b ≡ true → a ≡ b
same_type_eq campaign_send campaign_send e = refl
same_type_eq campaign_send transactional_send e = cc
same_type_eq transactional_send campaign_send e = cc
same_type_eq transactional_send transactional_send e = refl

-- A counter of the group stands for it.
counts-group :
    (g : UsageGroup) (c d : UsageCounter) → counts g c ≡ true → counts (group_of c) d ≡ counts g d
counts-group g c d h =
    let t : c.event_type ≡ g.event_type =
      same_type_eq c.event_type g.event_type (ground (arith, h)) in
    let q : c.period_start ≡ g.period_start = ground (arith, h) in rw t (rw q)

pub exists-group :
    (g : UsageGroup) (c : UsageCounter) (counters : List UsageCounter)
    → counts g c ≡ true
    → exists_where (counts (group_of c)) counters ≡ exists_where (counts g) counters
exists-group g c [] h = refl
exists-group g c (d ∷ counters) h =
    rw (counts-group g c d h) (ap (λ b. counts g d || b) (exists-group g c counters h))

update-missing :
    (g : UsageGroup) (f : UsageCounter → UsageCounter) (counters : List UsageCounter)
    → exists_where (counts g) counters ≡ false
    → update_where (counts g) f counters ≡ counters
update-missing g f [] h = refl
update-missing g f (c ∷ counters) h = ground (arith, update-missing g f counters)

pub select-missing :
    (g : UsageGroup) (counters : List UsageCounter)
    → select_first (counts g) counters ≡ none
    → exists_where (counts g) counters ≡ false
select-missing g [] h = refl
select-missing g (c ∷ counters) h = ground (arith, select-missing g counters)

-- A recount keeps every counter's key.
recount-exists :
    (h g : UsageGroup) (a n : Int64) (counters : List UsageCounter)
    → exists_where (counts h) (update_where (counts g) (recount a n) counters)
      ≡ exists_where (counts h) counters
unfolding recount
recount-exists h g a n [] = refl
recount-exists h g a n (c ∷ counters) = elim (Bool-cases (counts g c)) [
  | inl t ↦ rw t (ap (λ b. counts h c || b) (recount-exists h g a n counters))
  | inr f ↦ rw f (ap (λ b. counts h c || b) (recount-exists h g a n counters))
]

pub recount-Unique :
    (g : UsageGroup) (a n : Int64) (counters : List UsageCounter)
    → Unique counters
    → Unique (update_where (counts g) (recount a n) counters)
unfolding recount
recount-Unique g a n [] u = tt
recount-Unique g a n (c ∷ counters) u = elim (Bool-cases (counts g c)) [
  | inl t ↦
      rw t (recount-exists (group_of c) g a n counters ∙ u.0, recount-Unique g a n counters u.1)
  | inr f ↦
      rw f (recount-exists (group_of c) g a n counters ∙ u.0, recount-Unique g a n counters u.1)
]

-- Where the group has a counter, the recount replaces what it counted.
pub recount-counted :
    (p : Time) (g : UsageGroup) (a n : Int64) (counters : List UsageCounter) (c : UsageCounter)
    → Unique counters
    → select_first (counts g) counters ≡ some c
    → sum_of (counted_in p) (update_where (counts g) (recount a n) counters) + counted_in p c
      ≡ sum_of (counted_in p) counters + (if g.period_start == p then n else 0)
unfolding recount
recount-counted p g a n [] c u e = cc
recount-counted p g a n (d ∷ counters) c u e = elim (Bool-cases (counts g d)) [
  | inl t ↦
      let m = update-missing g (recount a n) counters (sym (exists-group g d counters t) ∙ u.0) in
      let q : d ≡ c = ground (arith, t, e) in rw t (rw m (ground (arith, t, q)))
  | inr f ↦ rw f (omega (arith, recount-counted p g a n counters c u.1 (rw f at e)))
]
