-- ===== src/Audience/Commands.antt =====
-- internal/audience/app/command: double opt-in and the changes of memberships.
pub mod Unsubscribe
pub mod Confirm
pub mod Promote
pub mod Outcomes
use nvelope.Audience.Pages.{collect_fields}
use nvelope.Common.Database.{time_now, Db, take_fresh, require, with_tenant, read}
use nvelope.Common.Calendar.{Duration}
use nvelope.Audience.Subscribers.{
  Subscriber, Pending, rename, is_expired, set_attributes, new_subscriber, new_pending,
}
use nvelope.Platform.Apperr.{Failure, is_slug}
use nvelope.Audience.Store.{
  Tables, Env, Audience, membership_not_found, subscriber_not_found, confirmation_expired,
  submission_throttled, address_suppressed, page_not_found, attach, detach, set_status,
  for_subscriber, upsert_by_email, search_one, update_subscriber, pending_by_hash, upsert_pending,
  refresh_token, delete_pending, page_by_slug, enqueue_optin,
}
use nvelope.Audience.Attributes.{
  Result, Attributes, validation_failed, Entries, new_attributes, get_text,
}
use nvelope.Audience.Memberships.{
  Membership, SubscriptionStatus, unconfirmed, confirmed, unsubscribed,
}
use nvelope.Common.Action.{ok, err, pure, raise, lift, ◌>>=◌, ◌>>◌, Result as Outcome, and_then}
use nvelope.Common.{
  if◌then◌else◌, String, List, Bool, Option, ◌∷◌, true, is_empty, [], false, not, some, ◌+◌,
  trim_space, ◌&&◌, append_text, text_eq, none,
}

-- AddToList, RemoveFromList and ChangeSubscriptionState.
unfoldable pub add_to_list : String → String → Audience (Unit {0})
add_to_list subscriber_id list_id = attach subscriber_id list_id unconfirmed

unfoldable pub remove_from_list : String → String → Audience (Unit {0})
remove_from_list subscriber_id list_id = detach subscriber_id list_id

unfoldable pub change_subscription_state :
    String → String → SubscriptionStatus → Audience (Unit {0})
change_subscription_state subscriber_id list_id status = set_status subscriber_id list_id status

-- The error, or the fallback where errors.Is finds the slug.
abbrev pub answer_or :
    {A : Type 0}
    → String
    → Audience A
    → Outcome Failure A × Db Tables
    → Outcome Failure A × Db Tables
answer_or slug fallback (ok a, w) = (ok a, w)
answer_or slug fallback (err e, w) = if is_slug slug e then fallback w else (err e, w)

abbrev pub or_else : {A : Type 0} → String → Audience A → Audience A → Audience A
or_else slug m fallback w = answer_or slug fallback (m w)

unfoldable pub confirm_membership : String → String → Audience (Unit {0})
confirm_membership subscriber_id list_id =
    or_else "membership_exists" (attach subscriber_id list_id confirmed)
      (set_status subscriber_id list_id confirmed)

-- The loop over the target lists.
unfoldable pub confirm_all : String → List String → Audience (Unit {0})
confirm_all subscriber_id [] = pure tt
confirm_all subscriber_id (list_id ∷ lists) =
    confirm_membership subscriber_id list_id >> confirm_all subscriber_id lists

abbrev pub first_id : List Subscriber → Result String
first_id [] = err subscriber_not_found
first_id (s ∷ ss) = ok s.id

-- Whether a pending submission matched the token.
pub data Confirmation : Type 0 where
  newly_confirmed already_confirmed : Confirmation

module _ (env : Env) (tenant_id : String) where
  unfoldable pub resolve_id : String → Audience String
  resolve_id email = do subs ← search_one env email; lift (first_id subs)

  -- ConfirmSubscription, once the pending submission has been found.
  unfoldable pub promote : Pending → Audience Confirmation
  promote p = do
    now ← time_now
    lift (require (not (is_expired now p)) confirmation_expired)
    barred ← with_tenant (read λ t. env.suppressed (env.mail.lower p.email))
    lift (require (not barred) address_suppressed)
    sub ←
        lift (new_subscriber env.mail tenant_id p.email (get_text p.attributes "name") p.attributes)
    upsert_by_email env sub
    subscriber_id ← resolve_id p.email
    confirm_all subscriber_id p.target_list_ids
    delete_pending p.id
    pure newly_confirmed

  abbrev pub promote_found :
      Outcome Failure Pending × Db Tables → Outcome Failure Confirmation × Db Tables
  promote_found (ok p, w) = promote p w
  promote_found (err e, w) =
      if is_slug "pending_subscription_not_found" e then (ok already_confirmed, w) else (err e, w)

  unfoldable pub confirm_subscription : String → Audience Confirmation
  confirm_subscription token w = promote_found (pending_by_hash (env.hash token) w)

  -- ResendConfirmation; `ttl` is the lifetime of a confirmation.
  unfoldable pub resend_confirmation : Duration → String → Audience (Unit {0})
  resend_confirmation ttl token = do
    p ← pending_by_hash (env.hash token)
    n ← take_fresh
    raw ← lift (env.token n)
    now ← time_now
    refresh_token p.id (env.hash raw) (now + ttl)
    enqueue_optin p.id raw

  -- A question of the throttle and its answer.
  abbrev pub admit : Result Bool → Result (Unit {0})
  admit (err e) = err e
  admit (ok true) = ok tt
  admit (ok false) = err submission_throttled

  -- The source's answer counts where the source is known.
  abbrev pub admit_source : String → Result Bool → Result (Unit {0})
  admit_source source answer = if is_empty source then ok tt else admit answer

  -- SubmitPublicSubscription; `allow` answers for the throttle's keys.
  unfoldable pub submit_public_subscription :
      (String → Result Bool)
      → Duration
      → String
      → String
      → List (String × String)
      → String
      → Audience (Unit {0})
  submit_public_subscription allow ttl page_slug email submitted source = do
    page ← page_by_slug page_slug
    lift (require page.active page_not_found)
    let email' = env.mail.lower (trim_space email)
    lift (require (not (is_empty email')) (validation_failed "email is required"))
    lift (admit (allow (append_text "email:" (append_text tenant_id (append_text ":" email')))))
    lift (
        admit_source source
          (allow (append_text "src:" (append_text tenant_id (append_text ":" source)))))
    attrs ← lift (collect_fields page.fields submitted)
    n ← take_fresh
    raw ← lift (env.token n)
    now ← time_now
    p ← lift (
        new_pending env.mail tenant_id page.id email' attrs page.target_list_ids (env.hash raw)
          (now + ttl))
    id ← upsert_pending env p
    enqueue_optin id raw

abbrev pub status_unsubscribed : SubscriptionStatus → Bool
status_unsubscribed unsubscribed = true
status_unsubscribed _ = false

-- The loop of PublicUnsubscribe over the memberships that were read.
unfoldable pub leave_each : String → String → List Membership → Audience (Unit {0})
leave_each subscriber_id list_id [] = pure tt
leave_each subscriber_id list_id (m ∷ ms) =
    let rest = leave_each subscriber_id list_id ms in
    if not (is_empty list_id) && not (text_eq m.list_id list_id)
    then rest
    else if status_unsubscribed m.status
    then rest
    else set_status subscriber_id m.list_id unsubscribed >> rest

-- PublicUnsubscribe: an empty list id stands for every list.
unfoldable pub public_unsubscribe : String → String → Audience (Unit {0})
public_unsubscribe subscriber_id list_id = do
  memberships ← for_subscriber subscriber_id
  leave_each subscriber_id list_id memberships

-- The loop of UpdatePreferences over the lists.
unfoldable pub prefer_each : String → List (String × Bool) → Audience (Unit {0})
prefer_each subscriber_id [] = pure tt
prefer_each subscriber_id ((list_id, subscribed) ∷ rest) =
    or_else "membership_not_found"
      (set_status subscriber_id list_id (if subscribed then confirmed else unsubscribed)) (pure tt)
    >> prefer_each subscriber_id rest

abbrev pub with_profile : String → Option Attributes → Subscriber → Subscriber
with_profile name none s = rename name s
with_profile name (some a) s = set_attributes a (rename name s)

abbrev pub checked : Option Entries → Result (Option Attributes)
checked none = ok none
checked (some raw) = and_then (new_attributes raw) λ a. ok (some a)

-- UpdatePreferences
unfoldable pub update_preferences :
    String → String → Option Entries → List (String × Bool) → Audience (Unit {0})
update_preferences subscriber_id name attributes lists = do
  attrs ← lift (checked attributes)
  update_subscriber subscriber_id (λ s. ok (with_profile name attrs s))
  prefer_each subscriber_id lists
