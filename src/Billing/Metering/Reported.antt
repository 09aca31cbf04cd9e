-- ===== src/Billing/Metering/Reported.antt =====
-- The sends that usage_recorder.go in internal/billing/adapters reports as recorded, and the
-- rows that one record writes for them.

use nvelope.Common.Action.{◌>>=◌, ok, err}
use nvelope.Common.Calendar.{Time}
use nvelope.Billing.Errors.{Result}
use nvelope.Common.{
  ℕ, Option, Bool, List, ◌&&◌, exists_where, false, ◌≡◌, select_first, arith, ◌==◌, ◌||◌, ◌∷◌, true,
  some, if◌then◌else◌, ◌∙◌, [], none, refl, Bool-cases, ap, update_where, All, inr, inl,
}
use nvelope.Billing.Metering.{
  insert_event, insert_events, same_send, usage_events_of, record_usage, record_events, stamp,
  not_rolled,
}
use nvelope.Billing.Metering.Counters.{same_type_eq}
use nvelope.Billing.Metering.Metered.{
  MeterEvent, record_event, roll_up_event, elsewhere, meter_step,
}
use nvelope.Billing.Subscriptions.{current_subscription, not_canceled}
use nvelope.Billing.Subscription.{Subscription}
use nvelope.Billing.Store.{World, with_tenant}
use nvelope.Billing.Usage.{UsageEvent, UsageEventType, same_type, new_usage_event}

-- The row of a send, given by its type and reference.
abbrev pub is_send : UsageEventType → ℕ → UsageEvent → Bool
is_send event_type ref row = same_type event_type row.event_type && ref == row.source_ref

abbrev pub mem : ℕ → List ℕ → Bool
mem ref refs = exists_where (λ k. ref == k) refs

module _ (y : UsageEventType) (ref : ℕ) where
  -- The rows of an event's send are those that conflict with it.
  same-rows :
      (e : UsageEvent) (rows : List UsageEvent)
      → is_send y ref e ≡ true
      → exists_where (is_send y ref) rows ≡ exists_where (same_send e) rows
  same-rows e rows h =
      let t : y ≡ e.event_type = same_type_eq y e.event_type (ground (arith, h)) in
      let r : ref ≡ e.source_ref = ground (arith, h) in rw (t, r) refl

  exists-insert_event :
      (tenant_id : ℕ) (rows : List UsageEvent) (e : UsageEvent)
      → exists_where (is_send y ref) (insert_event tenant_id rows e)
        ≡ (exists_where (is_send y ref) rows || is_send y ref e)
  unfolding insert_event
  exists-insert_event t rows e = elim (Bool-cases (exists_where (same_send e) rows)) [
    | inr new ↦ rw new (ground arith)
    | inl there ↦ rw there (elim (Bool-cases (is_send y ref e)) [
      | inl same ↦ ground (arith, same, same-rows e rows same, there)
      | inr other ↦ ground (arith, other)
    ])
  ]

  exists-insert_events :
      (tenant_id : ℕ) (rows events : List UsageEvent)
      → exists_where (is_send y ref) (insert_events tenant_id rows events)
        ≡ (exists_where (is_send y ref) rows || exists_where (is_send y ref) events)
  unfolding insert_events
  exists-insert_events t rows [] = ground arith
  exists-insert_events t rows (e ∷ events) =
      exists-insert_events t (insert_event t rows e) events
      ∙ ground (arith, exists-insert_event t rows e)

  exists-usage_events_of :
      (tenant_id : ℕ) (event_type : UsageEventType) (start now : Time) (refs : List ℕ)
      → exists_where (is_send y ref) (usage_events_of tenant_id event_type start now refs)
        ≡ (same_type y event_type && mem ref refs)
  unfolding new_usage_event
  exists-usage_events_of t z start now [] = ground arith
  exists-usage_events_of t z start now (k ∷ refs) =
      ground (arith, exists-usage_events_of t z start now refs)

  pub exists-stamped :
      (now : Time) (rows : List UsageEvent)
      → exists_where (is_send y ref) (update_where not_rolled (stamp now) rows)
        ≡ exists_where (is_send y ref) rows
  exists-stamped now [] = refl
  exists-stamped now (e ∷ rows) = elim (Bool-cases (not_rolled e)) [
    | inl q ↦ rw q (ap (λ x. is_send y ref e || x) (exists-stamped now rows))
    | inr q ↦ rw q (ap (λ x. is_send y ref e || x) (exists-stamped now rows))
  ]

module _ (tenant_id : ℕ) where
  pub all-present :
      (y : UsageEventType) (start now : Time) (refs : List ℕ) (rows : List UsageEvent)
      → ((ref : ℕ) → mem ref refs ≡ true → exists_where (is_send y ref) rows ≡ true)
      → All
          (λ e. exists_where (same_send e) rows ≡ true)
          (usage_events_of tenant_id y start now refs)
  unfolding new_usage_event
  all-present y start now [] rows h = tt
  all-present y start now (k ∷ refs) rows h = (
    h k (ground arith),
    all-present y start now refs rows λ ref there. h ref (ground (arith, there)),
  )

abbrev pub is_ok : {A : Type 0} → Result A → Bool
is_ok (ok a) = true
is_ok (err e) = false

abbrev pub is_there : {A : Type 0} → Option A → Bool
is_there none = false
is_there (some a) = true

module _ {G : Type 0} (tenant_id : ℕ) where
  -- A record that returns no error while there is a current subscription.
  unfoldable pub reported : World G → UsageEventType → List ℕ → Bool
  reported w event_type refs =
      is_ok (record_usage tenant_id event_type refs w).0
      && is_there (select_first not_canceled w.subscriptions)

  abbrev Effect : World G → UsageEventType → List ℕ → Type 0
  Effect w y refs =
      (start : Time) × ((record_usage tenant_id y refs w).1.usage_events ≡ (
        if reported w y refs
        then insert_events tenant_id w.usage_events (usage_events_of tenant_id y start w.now refs)
        else w.usage_events))

  some_refs-Effect :
      (w : World G) (faults : List Bool) (y : UsageEventType) (k : ℕ) (refs : List ℕ)
      (o : Option Subscription)
      → select_first not_canceled w.subscriptions ≡ o
      → Effect (record w { faults = faults }) y (k ∷ refs)
  unfolding record_usage reported current_subscription record_events with_tenant ◌>>=◌
  some_refs-Effect w [] y k refs none e = (0, rw e refl)
  some_refs-Effect w [] y k refs (some s) e = (s.current_period_start, rw e refl)
  some_refs-Effect w (true ∷ faults) y k refs o e = (0, refl)
  some_refs-Effect w (false ∷ faults) y k refs none e = (0, rw e refl)
  some_refs-Effect w (false ∷ []) y k refs (some s) e = (s.current_period_start, rw e refl)
  some_refs-Effect w (false ∷ true ∷ faults) y k refs (some s) e = (0, rw e refl)
  some_refs-Effect w (false ∷ false ∷ faults) y k refs (some s) e =
      (s.current_period_start, rw e refl)

  pub record_usage-Effect : (w : World G) (y : UsageEventType) (refs : List ℕ) → Effect w y refs
  unfolding record_usage reported insert_events ◌>>=◌
  record_usage-Effect w y [] =
      (0, either (is_there (select_first not_canceled w.subscriptions)) w.usage_events)
    where
      either : (b : Bool) (rows : List UsageEvent) → rows ≡ (if b then rows else rows)
      either true rows = refl
      either false rows = refl
  record_usage-Effect w y (k ∷ refs) = some_refs-Effect w w.faults y k refs _ refl

  -- The sends that the records of a run report as recorded.
  unfoldable pub reported_in : World G → List (MeterEvent G) → UsageEventType → ℕ → Bool
  reported_in w [] y ref = false
  reported_in w (record_event event_type refs ∷ es) y ref =
      (reported w event_type refs && (same_type y event_type && mem ref refs))
      || reported_in (meter_step tenant_id w (record_event event_type refs)) es y ref
  reported_in w (roll_up_event ∷ es) y ref =
      reported_in (meter_step tenant_id w roll_up_event) es y ref
  reported_in w (elsewhere v ∷ es) y ref =
      reported_in (meter_step tenant_id w (elsewhere v)) es y ref

  pub record_usage-sends :
      (w : World G) (event_type : UsageEventType) (refs : List ℕ) (y : UsageEventType) (ref : ℕ)
      → exists_where (is_send y ref) (record_usage tenant_id event_type refs w).1.usage_events ≡ (
          exists_where (is_send y ref) w.usage_events
          || (reported w event_type refs && (same_type y event_type && mem ref refs)))
  record_usage-sends w z refs y ref =
      let (start, effect) = record_usage-Effect w z refs in
      ap (exists_where (is_send y ref)) effect ∙ elim (Bool-cases (reported w z refs)) [
        | inl yes' ↦ rw yes' (
            exists-insert_events y ref tenant_id w.usage_events _
            ∙ ap (λ b. exists_where (is_send y ref) w.usage_events || b)
                (exists-usage_events_of y ref tenant_id z start w.now refs))
        | inr no' ↦ rw no' (ground arith)
      ]
