-- ===== src/Audience/Memberships/Lifecycle.antt =====
-- The diagram of internal/audience/domain/membership.go.
use nvelope.Platform.Apperr.{Failure}
use nvelope.Common.{◌≡◌, true, refl}
use nvelope.Audience.Memberships.{
  SubscriptionStatus, unconfirmed, confirmed, unsubscribed, change_status,
  valid_subscription_status, unknown_status,
}
use nvelope.Common.Action.{ok, err}

-- The edges of the diagram, and staying where one is.
pub data Moves : SubscriptionStatus → SubscriptionStatus → Type 0 where
  stay : {s : SubscriptionStatus} → Moves s s
  confirming : Moves unconfirmed confirmed
  leaving_early : Moves unconfirmed unsubscribed
  leaving : Moves confirmed unsubscribed
  returning : Moves unsubscribed confirmed

-- A status of the diagram, not an unknown text.
pub record IsKnown (s : SubscriptionStatus) : Type 0 where
  pub known : valid_subscription_status s ≡ true

-- What a change does: it reaches its target along an edge, or it is refused.
pub data Changes (target status : SubscriptionStatus) : Type 0 where
  moved : Moves status target → change_status target status ≡ ok target → Changes target status
  refused :
      (e : Failure)
      → change_status target status ≡ err e
      → ¬ Moves status target
      → Changes target status

-- Between known statuses a change reaches its target exactly along the edges of the diagram, or
-- stays where it is; every other change is refused.
pub change_status-Changes :
    (target status : SubscriptionStatus) → IsKnown target → IsKnown status → Changes target status
unfolding change_status valid_subscription_status
change_status-Changes unconfirmed unconfirmed k l = moved stay refl
change_status-Changes unconfirmed confirmed k l = refused _ refl λ m. elim m [ ]
change_status-Changes unconfirmed unsubscribed k l = refused _ refl λ m. elim m [ ]
change_status-Changes confirmed unconfirmed k l = moved confirming refl
change_status-Changes confirmed confirmed k l = moved stay refl
change_status-Changes confirmed unsubscribed k l = moved returning refl
change_status-Changes unsubscribed unconfirmed k l = moved leaving_early refl
change_status-Changes unsubscribed confirmed k l = moved leaving refl
change_status-Changes unsubscribed unsubscribed k l = moved stay refl
change_status-Changes unknown_status s k l = absurd (cc (k.known))
change_status-Changes unconfirmed unknown_status k l = absurd (cc (l.known))
change_status-Changes confirmed unknown_status k l = absurd (cc (l.known))
change_status-Changes unsubscribed unknown_status k l = absurd (cc (l.known))
