-- ===== src/Deliverability/Commands/Processing.antt =====
-- What ProcessFeedback of internal/deliverability/app/command/feedback.go leaves when it returns no
-- error.

use mathlib.Core.Path.{subst}
use nvelope.Common.Database.{Db, found-some}
use nvelope.Common.Database.Triples.{At, Anywhere, Triple-write, Triple-read}
use nvelope.Common.Action.Triple.{
  Triple, Triple-bind, Triple-weaken, Triple-lift, Triple-pure, Triple-assume, Triple-ok,
}
use nvelope.Deliverability.Commands.{
  process_feedback, record_attributed, process_owned, process_loaded,
}
use nvelope.Common.Action.{ok, ok-injective}
use nvelope.Common.{
  String, trim_space, ◌≡◌, Bool-cases, true, inl, some, inr, refl, ◌∙◌, ap, Option, none,
  select_first,
}
use nvelope.Deliverability.Events.{
  DeliveryEvent, InboundNotification, Attribution, is_processed, unattributed, same,
}
use nvelope.Deliverability.Store.{
  Tables, Env, mark_row, mark_inbound, load_inbound, notification_is, owner_of, attribution_of,
  attribute, tenant_for_message, load_row,
}
use nvelope.Deliverability.Commands.Recording.{Attributed, record_event-Triple}
use nvelope.Deliverability.Events.Built.{new_delivery_event-IsEvent}

-- What processing a notification leaves: it was processed before and nothing changes; or no send of
-- ours has its message id, and it is marked so; or its event is recorded.
pub data Processed (env : Env) (id : String) (t t' : Tables) : Type 0 where
  processed_before :
      (n : InboundNotification)
      → select_first (notification_is id) t.inbound ≡ some n
      → is_processed n.status ≡ true
      → t' ≡ t
      → Processed env id t t'
  unmatched :
      (n : InboundNotification)
      → select_first (notification_is id) t.inbound ≡ some n
      → ((tenant_id : String)
          → owner_of n.provider_message_id t ≡ some tenant_id
          → attribution_of tenant_id n.provider_message_id t ≡ none)
      → t' ≡ (mark_row n.id unattributed t).1
      → Processed env id t t'
  matched :
      (n : InboundNotification) (e : DeliveryEvent)
      → select_first (notification_is id) t.inbound ≡ some n
      → owner_of n.provider_message_id t ≡ some e.tenant_id
      → attribution_of e.tenant_id n.provider_message_id t ≡ some e.attribution
      → e.inbound_event_id ≡ n.id
      → e.kind ≡ n.kind
      → e.recipient_email ≡ env.mail.lower (trim_space n.recipient_email)
      → Attributed env e n.id t t'
      → Processed env id t t'

module _ (env : Env) (id : String) (t : Tables) (n : InboundNotification)
    (stored : select_first (notification_is id) t.inbound ≡ some n) where
  marked-Triple :
      ((tenant_id : String)
        → owner_of n.provider_message_id t ≡ some tenant_id
        → attribution_of tenant_id n.provider_message_id t ≡ none)
      → Triple (At t) (mark_inbound n.id unattributed) (λ u w. Processed env id t w.tables) Anywhere
  unfolding mark_inbound
  marked-Triple nobody =
      Triple-weaken _ (Triple-write t (mark_row n.id unattributed))
        λ u w left. unmatched n stored nobody left.0

  record_attributed-Triple :
      (tenant_id : String) (attr : Option Attribution)
      → owner_of n.provider_message_id t ≡ some tenant_id
      → attribution_of tenant_id n.provider_message_id t ≡ attr
      → Triple
          (At t)
          (record_attributed env tenant_id n attr)
          (λ u w. Processed env id t w.tables)
          Anywhere
  unfolding record_attributed
  record_attributed-Triple tenant_id none owner sent = marked-Triple λ other owner'.
      let same : tenant_id ≡ other = cc (owner, owner') in
      subst (λ x. attribution_of x n.provider_message_id t ≡ none) same sent
  record_attributed-Triple tenant_id (some attr) owner sent =
      Triple-bind _ _ (Triple-lift _ λ w h. tt) λ e. Triple-assume λ built.
        let is = new_delivery_event-IsEvent _ _ _ _ _ _ _ built in
        Triple-weaken _ (record_event-Triple env e n.id t) λ u w left.
          matched n e stored (owner ∙ ap some is.tenant)
            (subst (λ x. attribution_of x n.provider_message_id t ≡ some e.attribution) is.tenant
              (sent ∙ ap some is.attr_same))
            is.inbound is.kind_same is.email left

  process_owned-Triple :
      (owner : Option String)
      → owner_of n.provider_message_id t ≡ owner
      → Triple (At t) (process_owned env n owner) (λ u w. Processed env id t w.tables) Anywhere
  unfolding process_owned attribute
  process_owned-Triple none same = marked-Triple λ tenant_id owner. absurd (cc (same, owner))
  process_owned-Triple (some tenant_id) same = Triple-bind _ _ (Triple-read t _) λ attr.
      Triple-assume λ found. record_attributed-Triple tenant_id attr same (ok-injective found)

  process_loaded-Triple :
      Triple (At t) (process_loaded env n) (λ u w. Processed env id t w.tables) Anywhere
  unfolding process_loaded tenant_for_message
  process_loaded-Triple = elim (Bool-cases (is_processed n.status)) [
    | inl done ↦
        rw done (Triple-weaken _ (Triple-pure tt) λ u w h. processed_before n stored done h)
    | inr fresh ↦ rw fresh (
        Triple-bind _ _ (Triple-read t _)
          λ owner. Triple-assume λ found. process_owned-Triple owner (ok-injective found))
  ]

-- Processing that returns no error, whichever transactions fail before, either finds the
-- notification processed and changes nothing; or no send of the owning tenant has its message id,
-- and it is marked so with no other change; or it is marked attributed and its event is recorded,
-- and if no event was recorded for it before and the owning tenant's settings call for it, the
-- recipient is suppressed.
pub process_feedback-Processed :
    (env : Env) (id : String) (w : Db Tables)
    → (process_feedback env id w).0 ≡ ok tt
    → Processed env id w.tables (process_feedback env id w).1.tables
unfolding process_feedback load_inbound
process_feedback-Processed env id w done =
    Triple-ok _ w
      (Triple-bind _ _ (Triple-read w.tables (load_row id))
        λ n. Triple-assume λ found. process_loaded-Triple env id w.tables n (found-some _ _ found))
      refl done
