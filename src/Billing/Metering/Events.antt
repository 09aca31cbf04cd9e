-- ===== src/Billing/Metering/Events.antt =====
-- The stored sends: one row per send, whatever is recorded again, and what a stamp leaves of them.
use nvelope.Billing.Metering.{
  insert_events, ℕ, ◌∷◌, insert_event, sum_of, exists_where, update_where, Bool, same_send,
  not_rolled, false, stamp, event_quantity, select_where, waiting_in, usage_events_of, true,
}
use nvelope.Common.Calendar.{Time}
use nvelope.Common.{
  if◌then◌else◌, List, ◌≡◌, All, ◌==◌, ◌∙◌, Bool-cases, ◌+◌, ◌&&◌, arith, inl, not, [], inr, ap,
  refl, ◌||◌, length,
}
use nvelope.Billing.Backing.Rows.{update_where-All}
use nvelope.Billing.Metering.Counters.{same_type_refl}
use nvelope.Billing.Usage.{new_usage_event, UsageEventType, UsageEvent}

-- What is rolled up, by period.
abbrev pub rolled_in : Time → UsageEvent → ℕ
rolled_in p e = if e.period_start == p && not (not_rolled e) then e.quantity else 0

-- UNIQUE (tenant_id, event_type, source_ref)
abbrev pub OneRowEach : List UsageEvent → Type 0
OneRowEach [] = Unit
OneRowEach (e ∷ rows) = (exists_where (same_send e) rows ≡ false) × OneRowEach rows

abbrev pub IsUnit : UsageEvent → Type 0
IsUnit e = e.quantity ≡ 1

pub rolled-insert :
    (tenant_id : ℕ) (p : Time) (rows events : List UsageEvent)
    → sum_of (rolled_in p) (insert_events tenant_id rows events) ≡ sum_of (rolled_in p) rows
unfolding insert_events insert_event
rolled-insert t p rows [] = refl
rolled-insert t p rows (e ∷ events) =
    rolled-insert t p (insert_event t rows e) events ∙ ground arith

pub OneRowEach-insert :
    (tenant_id : ℕ) (rows events : List UsageEvent)
    → OneRowEach rows
    → OneRowEach (insert_events tenant_id rows events)
unfolding insert_events insert_event
OneRowEach-insert t rows [] h = h
OneRowEach-insert t rows (e ∷ events) h =
    OneRowEach-insert t (insert_event t rows e) events
      (elim (Bool-cases (exists_where (same_send e) rows)) [ inl q ↦ rw q h | inr q ↦ rw q (q, h) ])

pub IsUnit-insert :
    (tenant_id : ℕ) (rows events : List UsageEvent)
    → All IsUnit rows
    → All IsUnit events
    → All IsUnit (insert_events tenant_id rows events)
unfolding insert_events insert_event
IsUnit-insert t rows [] h k = h
IsUnit-insert t rows (e ∷ events) h k =
    IsUnit-insert t (insert_event t rows e) events
      (elim (Bool-cases (exists_where (same_send e) rows)) [
        | inl q ↦ rw q h
        | inr q ↦ rw q (k.0, h)
      ])
      k.1

pub rolled-stamp :
    (p now : Time) (rows : List UsageEvent)
    → sum_of (rolled_in p) (update_where not_rolled (stamp now) rows)
      ≡ sum_of (rolled_in p) rows + sum_of event_quantity (select_where (waiting_in p) rows)
rolled-stamp p now [] = refl
rolled-stamp p now (e ∷ rows) = ground (arith, rolled-stamp p now rows)

exists-stamp :
    (now : Time) (e : UsageEvent) (rows : List UsageEvent)
    → exists_where (same_send e) (update_where not_rolled (stamp now) rows)
      ≡ exists_where (same_send e) rows
exists-stamp now e [] = refl
exists-stamp now e (r ∷ rows) = elim (Bool-cases (not_rolled r)) [
  | inl q ↦ rw q (ap (λ b. same_send e r || b) (exists-stamp now e rows))
  | inr q ↦ rw q (ap (λ b. same_send e r || b) (exists-stamp now e rows))
]

pub OneRowEach-stamp :
    (now : Time) (rows : List UsageEvent)
    → OneRowEach rows
    → OneRowEach (update_where not_rolled (stamp now) rows)
OneRowEach-stamp now [] h = tt
OneRowEach-stamp now (e ∷ rows) h = elim (Bool-cases (not_rolled e)) [
  | inl q ↦ rw q (exists-stamp now e rows ∙ h.0, OneRowEach-stamp now rows h.1)
  | inr q ↦ rw q (exists-stamp now e rows ∙ h.0, OneRowEach-stamp now rows h.1)
]

-- The sends of a period.
abbrev pub sent_in : Time → UsageEvent → Bool
sent_in p e = e.period_start == p

pub split-sent :
    (p : Time) (rows : List UsageEvent)
    → All IsUnit rows
    → sum_of (rolled_in p) rows + sum_of event_quantity (select_where (waiting_in p) rows)
      ≡ length (select_where (sent_in p) rows)
split-sent p [] h = refl
split-sent p (e ∷ rows) h = ground (arith, split-sent p rows h.1, h.0)

pub IsUnit-stamp :
    (now : Time) (rows : List UsageEvent)
    → All IsUnit rows
    → All IsUnit (update_where not_rolled (stamp now) rows)
IsUnit-stamp now rows h = update_where-All IsUnit not_rolled (stamp now) rows (λ e k t. k) h

pub usage_events_of-IsUnit :
    (tenant_id : ℕ) (event_type : UsageEventType) (start now : Time) (refs : List ℕ)
    → All IsUnit (usage_events_of tenant_id event_type start now refs)
unfolding new_usage_event
usage_events_of-IsUnit t y start now [] = tt
usage_events_of-IsUnit t y start now (ref ∷ refs) =
    (refl, usage_events_of-IsUnit t y start now refs)

exists-insert :
    (tenant_id : ℕ) (e : UsageEvent) (rows events : List UsageEvent)
    → exists_where (same_send e) rows ≡ true
    → exists_where (same_send e) (insert_events tenant_id rows events) ≡ true
unfolding insert_events insert_event
exists-insert t e rows [] h = h
exists-insert t e rows (f ∷ events) h =
    exists-insert t e (insert_event t rows f) events (ground (arith, h))

inserted :
    (tenant_id : ℕ) (rows : List UsageEvent) (e : UsageEvent)
    → exists_where (same_send e) (insert_event tenant_id rows e) ≡ true
unfolding insert_event
inserted t rows e = ground (arith, same_type_refl e.event_type)

present-insert :
    (tenant_id : ℕ) (rows events : List UsageEvent)
    → All (λ e. exists_where (same_send e) (insert_events tenant_id rows events) ≡ true) events
unfolding insert_events
present-insert t rows [] = tt
present-insert t rows (e ∷ events) = (
  exists-insert t e (insert_event t rows e) events (inserted t rows e),
  present-insert t (insert_event t rows e) events,
)

pub insert-present :
    (tenant_id : ℕ) (rows events : List UsageEvent)
    → All (λ e. exists_where (same_send e) rows ≡ true) events
    → insert_events tenant_id rows events ≡ rows
unfolding insert_events insert_event
insert-present t rows [] h = refl
insert-present t rows (e ∷ events) h = rw h.0 (insert-present t rows events h.1)
