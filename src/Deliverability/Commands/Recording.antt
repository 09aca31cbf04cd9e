-- ===== src/Deliverability/Commands/Recording.antt =====
-- The statements of ProcessFeedback in internal/deliverability/app/command/feedback.go that record an
-- event and suppress its recipient.

use nvelope.Common.Database.Triples.{
  At, Anywhere, Triple-fix, Triple-take_fresh, Triple-write, Triple-read,
}
use nvelope.Common.Action.Triple.{
  Triple, Triple-bind, Triple-weaken, Triple-lift, Triple-pure, Triple-assume,
}
use nvelope.Deliverability.Commands.{suppress, apply_reason, apply, finish_event}
use text.Mathlib.TextPositions.{eq_refl}
use nvelope.Common.Rows.{exists-append}
use nvelope.Common.Action.{ok-injective, ◌>>=◌, pure}
use nvelope.Common.{
  String, trim_space, ◌≡◌, Bool, exists_where, Bool-cases, true, inl, some, not, inr, refl, ◌∷◌,
  ◌∙◌, [], sym, ap, false, Option, if◌then◌else◌, none,
}
use nvelope.Deliverability.Events.{
  DeliveryEvent, SuppressionEntry, SuppressionReason, suppression_reason, called_for, attributed,
  BounceSettings, same,
}
use nvelope.Deliverability.Store.{
  Tables, Env, record_row, suppress_row, settings_of, of_inbound, is_suppressed, mark_row,
  record_event, upsert_suppression, get_settings, mark_inbound,
}
use nvelope.Deliverability.Events.Built.{new_suppression_entry-address}

-- The address that the list keeps for an event's recipient.
abbrev pub normalized : Env → DeliveryEvent → String
normalized env e = env.mail.lower (trim_space e.recipient_email)

-- The recipient is suppressed if the tenant's settings call for it.
abbrev pub Suppresses : Env → DeliveryEvent → Tables → Tables → Type 0
Suppresses env e t t' =
    (reason : SuppressionReason)
    → suppression_reason e.kind ≡ some reason
    → called_for (settings_of e.tenant_id t) reason ≡ true
    → exists_where (is_suppressed e.tenant_id (normalized env e)) t'.suppressions ≡ true

-- Applying the settings adds to the suppression list and changes nothing else.
record Applied (env : Env) (e : DeliveryEvent) (t t' : Tables) : Type 0 where
  same_inbound : t'.inbound ≡ t.inbound
  same_events : t'.events ≡ t.events
  suppresses : Suppresses env e t t'

-- The event's row stands after the statement, which says whether it wrote it.
record Recorded (e : DeliveryEvent) (t t' : Tables) (recorded : Bool) : Type 0 where
  same_inbound : t'.inbound ≡ t.inbound
  same_settings : t'.settings ≡ t.settings
  stands : exists_where (of_inbound e.inbound_event_id) t'.events ≡ true
  answer : recorded ≡ not (exists_where (of_inbound e.inbound_event_id) t.events)

pub suppress_row-suppressed :
    (s : SuppressionEntry) (t : Tables)
    → exists_where (is_suppressed s.tenant_id s.email) (suppress_row s t).1.suppressions ≡ true
suppress_row-suppressed s t =
    elim (Bool-cases (exists_where (is_suppressed s.tenant_id s.email) t.suppressions)) [
      | inl there ↦ rw there there
      | inr new ↦ rw new (
          exists-append (is_suppressed s.tenant_id s.email) t.suppressions (s ∷ [])
          ∙ rw new (rw (eq_refl s.tenant_id) (rw (eq_refl s.email) refl)))
    ]

suppress_row-inbound :
    (s : SuppressionEntry) (t : Tables) → (suppress_row s t).1.inbound ≡ t.inbound
suppress_row-inbound s t =
    elim (Bool-cases (exists_where (is_suppressed s.tenant_id s.email) t.suppressions)) [
      | inl there ↦ rw there refl
      | inr new ↦ rw new refl
    ]

suppress_row-events : (s : SuppressionEntry) (t : Tables) → (suppress_row s t).1.events ≡ t.events
suppress_row-events s t =
    elim (Bool-cases (exists_where (is_suppressed s.tenant_id s.email) t.suppressions)) [
      | inl there ↦ rw there refl
      | inr new ↦ rw new refl
    ]

record_row-Recorded :
    (id : String) (e : DeliveryEvent) (t : Tables)
    → Recorded e t (record_row id e t).1 (record_row id e t).0
record_row-Recorded id e t =
    elim (Bool-cases (exists_where (of_inbound e.inbound_event_id) t.events)) [
      | inl there ↦ rw there (record {
        same_inbound = refl;
        same_settings = refl;
        stands = there;
        answer = rw there refl;
      })
      | inr new ↦ rw new (record {
        same_inbound = refl;
        same_settings = refl;
        stands =
            exists-append (of_inbound e.inbound_event_id) t.events _
            ∙ rw new (rw (eq_refl e.inbound_event_id) refl);
        answer = rw new refl;
      })
    ]

module _ (env : Env) (e : DeliveryEvent) (t : Tables) where
  suppress-Triple :
      (reason : SuppressionReason)
      → Triple
          (At t)
          (suppress env e reason)
          (λ u w.
            (w.tables.inbound ≡ t.inbound)
            × (w.tables.events ≡ t.events)
            × (exists_where (is_suppressed e.tenant_id (normalized env e)) w.tables.suppressions
                ≡ true))
          Anywhere
  unfolding suppress upsert_suppression
  suppress-Triple reason = Triple-bind _ _ (Triple-lift _ λ w h. tt) λ s. Triple-assume λ built.
      Triple-weaken _ (Triple-write t (suppress_row s)) λ u w left.
        let (tenant, email) = new_suppression_entry-address _ _ _ _ _ built in
        let there = suppress_row-suppressed s t in
        (
          ap (λ x. x.inbound) left.0 ∙ suppress_row-inbound s t,
          ap (λ x. x.events) left.0 ∙ suppress_row-events s t,
          rw (left.0, sym tenant, sym email) there,
        )

  apply_reason-Triple :
      (r : Option SuppressionReason)
      → suppression_reason e.kind ≡ r
      → Triple (At t) (apply_reason env e r) (λ u w. Applied env e t w.tables) Anywhere
  unfolding apply_reason get_settings
  apply_reason-Triple none same = Triple-weaken _ (Triple-pure tt) λ u w h. record {
    same_inbound = ap (λ x. x.inbound) h;
    same_events = ap (λ x. x.events) h;
    suppresses = λ reason e' called. absurd (cc (same, e'));
  }
  apply_reason-Triple (some r) same =
      Triple-bind _ _ (Triple-read t _) λ s. Triple-assume λ found. decide s (ok-injective found)
    where
      decide :
          (s : BounceSettings)
          → settings_of e.tenant_id t ≡ s
          → Triple
              (At t)
              (if called_for s r then suppress env e r else pure tt)
              (λ u w. Applied env e t w.tables)
              Anywhere
      decide s found = elim (Bool-cases (called_for s r)) [
        | inl on ↦ rw on (
            Triple-weaken _ (suppress-Triple r) λ u w left.
              let (inbound, events, there) = left in
              record {
                same_inbound = inbound;
                same_events = events;
                suppresses = λ reason e' called. there;
              })
        | inr off ↦ rw off (
            Triple-weaken _ (Triple-pure tt) λ u w h. record {
              same_inbound = ap (λ x. x.inbound) h;
              same_events = ap (λ x. x.events) h;
              suppresses = λ reason e' called. absurd (cc (same, e', called, found, off));
            })
      ]

  apply-Triple : Triple (At t) (apply env e) (λ u w. Applied env e t w.tables) Anywhere
  unfolding apply
  apply-Triple = apply_reason-Triple (suppression_reason e.kind) refl

-- What the record and the mark of an attributed notification leave.
pub record Attributed (env : Env) (e : DeliveryEvent) (id : String) (t t' : Tables) : Type 0 where
  pub recorded : exists_where (of_inbound e.inbound_event_id) t'.events ≡ true
  pub marked : t'.inbound ≡ (mark_row id attributed t).1.inbound
  pub suppressed :
      exists_where (of_inbound e.inbound_event_id) t.events ≡ false → Suppresses env e t t'

module _ (env : Env) (e : DeliveryEvent) (id : String) (t : Tables) where
  marked-Attributed :
      (t1 t2 t' : Tables)
      → t2.inbound ≡ t.inbound
      → exists_where (of_inbound e.inbound_event_id) t2.events ≡ true
      → (exists_where (of_inbound e.inbound_event_id) t.events ≡ false → Suppresses env e t t2)
      → t' ≡ (mark_row id attributed t2).1
      → Attributed env e id t t'
  marked-Attributed t1 t2 t' inbound stands suppresses left = record {
    recorded = rw left stands;
    marked = rw (left, inbound) refl;
    suppressed = λ new reason same called. rw left (suppresses new reason same called);
  }

  finish-Triple :
      (recorded : Bool) (t1 : Tables)
      → Recorded e t t1 recorded
      → Triple
          (At t1)
          (finish_event env e id recorded)
          (λ u w. Attributed env e id t w.tables)
          Anywhere
  unfolding finish_event mark_inbound
  finish-Triple true t1 r = Triple-bind _ _ (apply-Triple env e t1) λ u.
      Triple-fix {F = Applied env e t1} _ λ t2 a.
        Triple-weaken _ (Triple-write t2 (mark_row id attributed)) λ v w left.
          marked-Attributed t1 t2 _ (a.same_inbound ∙ r.same_inbound) (rw a.same_events r.stands)
            (λ new reason same called. a.suppresses reason same (rw r.same_settings called)) left.0
  finish-Triple false t1 r = Triple-bind _ _ (Triple-pure tt) λ u.
      Triple-weaken _ (Triple-write t1 (mark_row id attributed)) λ v w left.
        marked-Attributed t1 t1 _ r.same_inbound r.stands
          (λ new. absurd (cc (ap not new, r.answer))) left.0

  pub record_event-Triple :
      Triple
        (At t)
        (record_event env e >>= finish_event env e id)
        (λ u w. Attributed env e id t w.tables)
        Anywhere
  unfolding record_event
  record_event-Triple =
      Triple-bind _ _
        (Triple-bind _ _ (Triple-take_fresh t) λ n.
          Triple-weaken _ (Triple-write t (record_row (env.uuid n) e))
            λ b w left. rw (left.0, sym left.1) (record_row-Recorded (env.uuid n) e t))
        λ b. Triple-fix {F = λ t1. Recorded e t t1 b} _ (finish-Triple b)
