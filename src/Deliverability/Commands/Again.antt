-- ===== src/Deliverability/Commands/Again.antt =====
-- ProcessFeedback of internal/deliverability/app/command/feedback.go for a notification whose event
-- stands already.
use nvelope.Common.Rows.{select_first-test}
use text.Mathlib.TextEquality.{eq_iff}
use nvelope.Common.Action.{ok-injective}
use nvelope.Deliverability.Events.{
  DeliveryEvent, SuppressionEntry, InboundStatus, InboundNotification, attributed, Attribution,
  unattributed, is_processed,
}
use nvelope.Common.{
  String, List, exists_where, ◌≡◌, true, false, Bool, refl, sym, Option, Bool-cases, ap, ◌∙◌, some,
  inl, none, inr,
}
use nvelope.Common.Database.Triples.{Triple-Keeps}
use nvelope.Common.Action.Triple.{
  Triple, Triple-bind, Triple-lift, Triple-assume, Triple-pure, Triple-state, Triple-weaken,
}
use nvelope.Common.Action.Keeps.{Keeps}
use nvelope.Common.Database.{Db, read, write, with_tenant, Query, found-some}
use nvelope.Common.Database.Invariants.{
  On, Keeps-with_tenant, Keeps-read, Keeps-write, Keeps-take_fresh,
}
use nvelope.Common.Database.Inversion.{with_tenant-eq-ok}
use nvelope.Deliverability.Store.{
  Tables, Env, load_inbound, tenant_for_message, attribute, record_event, record_row, mark_inbound,
  mark_row, of_inbound, notification_is,
}
use nvelope.Deliverability.Commands.{
  finish_event, record_attributed, process_owned, process_loaded, process_feedback,
}
use nvelope.Deliverability.Events.Built.{new_delivery_event-IsEvent}

module _ (env : Env) (id : String) (events : List DeliveryEvent)
    (suppressions : List SuppressionEntry)
    (there : exists_where (of_inbound id) events ≡ true) where
  abbrev Same : Tables → Type 0
  Same t = (t.events ≡ events) × (t.suppressions ≡ suppressions)

  mark-Keeps : (status : InboundStatus) → Keeps (On Same) (mark_inbound id status)
  unfolding mark_inbound
  mark-Keeps status = Keeps-with_tenant _ (Keeps-write (mark_row id status) λ t h. h)

  record_row-Same :
      (new : String) (e : DeliveryEvent) (t : Tables)
      → e.inbound_event_id ≡ id
      → Same t
      → Same (record_row new e t).1 × ((record_row new e t).0 ≡ false)
  record_row-Same new e t same h =
      let found : exists_where (of_inbound e.inbound_event_id) t.events ≡ true =
        rw (same, h.0) there in
      rw found (h, refl)

  write-Triple :
      (new : String) (e : DeliveryEvent)
      → e.inbound_event_id ≡ id
      → Triple
          (On Same)
          (with_tenant (write (record_row new e)))
          (λ b w. On Same w × (b ≡ false))
          (On Same)
  unfolding write
  write-Triple new e same =
      Triple-Keeps _ (Keeps-with_tenant _ (Keeps-write _ λ t h. (record_row-Same new e t same h).0))
        λ w b h done.
          let (left, ran) = with_tenant-eq-ok _ w done in
          sym (ok-injective (ap (λ r. r.0) ran)) ∙ (record_row-Same new e w.tables same h.holds).1

  record_event-Triple :
      (e : DeliveryEvent)
      → e.inbound_event_id ≡ id
      → Triple (On Same) (record_event env e) (λ b w. On Same w × (b ≡ false)) (On Same)
  unfolding record_event
  record_event-Triple e same =
      Triple-bind _ _ (Triple-Keeps {F = λ n. Unit {0}} _ Keeps-take_fresh λ w a h done. tt)
        λ n. Triple-assume λ any. write-Triple (env.uuid n) e same

  -- An action that keeps the two tables.
  settle :
      {A : Type 0} (m : Query Tables A)
      → Keeps (On Same) m
      → Triple (On Same) m (λ a w. On Same w) (On Same)
  settle m k = Triple-weaken _ (Triple-Keeps {F = λ a. Unit {0}} m k λ w a h done. tt) λ a w h. h.0

  finish-Triple :
      (e : DeliveryEvent) (recorded : Bool)
      → recorded ≡ false
      → Triple (On Same) (finish_event env e id recorded) (λ u w. On Same w) (On Same)
  unfolding finish_event
  finish-Triple e true h = absurd (cc h)
  finish-Triple e false h = Triple-bind _ _ (Triple-pure tt) λ u. settle _ (mark-Keeps attributed)

  attributed-Triple :
      (n : InboundNotification) (tenant_id : String) (attr : Option Attribution)
      → n.id ≡ id
      → Triple (On Same) (record_attributed env tenant_id n attr) (λ u w. On Same w) (On Same)
  unfolding record_attributed
  attributed-Triple n tenant_id none same = rw same (settle _ (mark-Keeps unattributed))
  attributed-Triple n tenant_id (some attr) same = Triple-bind _ _ (Triple-lift _ λ w h. h) λ e.
      Triple-assume λ built.
        Triple-bind _ _
          (record_event-Triple e ((new_delivery_event-IsEvent _ _ _ _ _ _ _ built).inbound ∙ same))
          λ b. Triple-assume λ old. rw same (finish-Triple e b old)

  owned-Triple :
      (n : InboundNotification) (owner : Option String)
      → n.id ≡ id
      → Triple (On Same) (process_owned env n owner) (λ u w. On Same w) (On Same)
  unfolding process_owned attribute
  owned-Triple n none same = rw same (settle _ (mark-Keeps unattributed))
  owned-Triple n (some tenant_id) same =
      Triple-bind _ _ (settle _ (Keeps-with_tenant _ (Keeps-read _)))
        λ attr. attributed-Triple n tenant_id attr same

  loaded-Triple :
      (n : InboundNotification)
      → n.id ≡ id
      → Triple (On Same) (process_loaded env n) (λ u w. On Same w) (On Same)
  unfolding process_loaded tenant_for_message
  loaded-Triple n same = elim (Bool-cases (is_processed n.status)) [
    | inl done ↦ rw done (Triple-pure tt)
    | inr fresh ↦ rw fresh (
        Triple-bind _ _ (settle _ (Keeps-with_tenant _ (Keeps-read _)))
          λ owner. owned-Triple n owner same)
  ]

  load-Triple : Triple (On Same) (load_inbound id) (λ n w. On Same w × (n.id ≡ id)) (On Same)
  unfolding load_inbound read
  load-Triple = Triple-Keeps _ (Keeps-with_tenant _ (Keeps-read _)) λ w n h done.
      let (left, ran) = with_tenant-eq-ok _ w done in
      let found = found-some _ _ (ap (λ r. r.0) ran) in
      (eq_iff n.id id).0 (select_first-test (notification_is id) w.tables.inbound found)

  feedback-Triple : Triple (On Same) (process_feedback env id) (λ u w. On Same w) (On Same)
  unfolding process_feedback
  feedback-Triple = Triple-bind _ _ load-Triple λ n. Triple-assume λ same. loaded-Triple n same

-- Where an event is recorded for a notification, processing it again changes neither the events nor
-- the suppression list, whether it returns an error or not.
pub process_feedback-again :
    (env : Env) (id : String) (w : Db Tables)
    → exists_where (of_inbound id) w.tables.events ≡ true
    → ((process_feedback env id w).1.tables.events ≡ w.tables.events)
      × ((process_feedback env id w).1.tables.suppressions ≡ w.tables.suppressions)
process_feedback-again env id w there =
    (Triple-state _ w (feedback-Triple env id w.tables.events w.tables.suppressions there)
      (record { holds = (refl, refl) }) λ a s h. h).holds
