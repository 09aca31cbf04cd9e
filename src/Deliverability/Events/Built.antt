-- ===== src/Deliverability/Events/Built.antt =====
-- What the constructors of internal/deliverability/domain put into an event and an entry.

use nvelope.Common.Action.{ok, ok-injective}
use nvelope.Common.{String, trim_space, ◌≡◌, Bool-cases, inl, not, inr, is_empty, sym, ap, ◌||◌}
use nvelope.Deliverability.Events.{
  DeliveryEvent, SuppressionEntry, new_suppression_entry, SuppressionReason, Mail, valid_reason,
  EventKind, new_delivery_event, Attribution, valid_kind, same,
}

-- The entry that is built carries the event's tenant and address.
pub new_suppression_entry-address :
    (mail : Mail) (tenant_id email : String) (reason : SuppressionReason) (source : String)
    {s : SuppressionEntry}
    → new_suppression_entry mail tenant_id email reason source ≡ ok s
    → (s.tenant_id ≡ tenant_id) × (s.email ≡ mail.lower (trim_space email))
unfolding new_suppression_entry
new_suppression_entry-address mail tenant_id email reason source h =
    elim (Bool-cases (is_empty tenant_id)) [
      | inl bad ↦ absurd (cc (rw bad at h))
      | inr a ↦ elim (Bool-cases (mail.is_address (mail.lower (trim_space email)))) [
        | inr bad ↦ absurd (cc (rw (a, bad) at h))
        | inl b ↦ elim (Bool-cases (valid_reason reason)) [
          | inr bad ↦ absurd (cc (rw (a, b, bad) at h))
          | inl c ↦
              let eq = ok-injective (rw (a, b, c) at h) in
              (sym (ap (λ x. x.tenant_id) eq), sym (ap (λ x. x.email) eq))
        ]
      ]
    ]

-- An event that the code builds carries what it was built from.
pub record IsEvent (mail : Mail) (tenant_id id : String) (kind : EventKind) (recipient : String)
    (attr : Attribution) (e : DeliveryEvent) : Type 0 where
  pub tenant : tenant_id ≡ e.tenant_id
  pub inbound : e.inbound_event_id ≡ id
  pub kind_same : e.kind ≡ kind
  pub email : e.recipient_email ≡ mail.lower (trim_space recipient)
  pub attr_same : attr ≡ e.attribution

pub new_delivery_event-IsEvent :
    (mail : Mail) (tenant_id id : String) (kind : EventKind) (recipient message : String)
    (attr : Attribution) {e : DeliveryEvent}
    → new_delivery_event mail tenant_id id kind recipient message attr ≡ ok e
    → IsEvent mail tenant_id id kind recipient attr e
unfolding new_delivery_event
new_delivery_event-IsEvent mail tenant_id id kind recipient message attr h =
    elim (Bool-cases (is_empty tenant_id || is_empty id)) [
      | inl bad ↦ absurd (cc (rw bad at h))
      | inr c1 ↦ elim (Bool-cases (valid_kind kind)) [
        | inr bad ↦ absurd (cc (rw (c1, bad) at h))
        | inl c2 ↦ elim (Bool-cases (is_empty (mail.lower (trim_space recipient)))) [
          | inl bad ↦ absurd (cc (rw (c1, c2, bad) at h))
          | inr c3 ↦ elim (Bool-cases (is_empty message)) [
            | inl bad ↦ absurd (cc (rw (c1, c2, c3, bad) at h))
            | inr c4 ↦
                elim (Bool-cases (
                  same (not (is_empty attr.campaign_recipient_id))
                    (not (is_empty attr.transactional_message_id)))) [
                      | inl bad ↦ absurd (cc (rw (c1, c2, c3, c4, bad) at h))
                      | inr c5 ↦
                          let made = ok-injective (rw (c1, c2, c3, c4, c5) at h) in
                          record {
                            tenant = ap (λ x. x.tenant_id) made;
                            inbound = sym (ap (λ x. x.inbound_event_id) made);
                            kind_same = sym (ap (λ x. x.kind) made);
                            email = sym (ap (λ x. x.recipient_email) made);
                            attr_same = ap (λ x. x.attribution) made;
                          }
                    ]
          ]
        ]
      ]
    ]
