-- ===== src/Audience/Store.antt =====
-- internal/audience/adapters: the tables of one tenant and the repositories over them. Subscribers
-- stand newest first, as `ORDER BY created_at DESC` reads them.
pub mod Like
use nvelope.Common.{none, some}
use nvelope.Common.Calendar.{Time}
use nvelope.Platform.Apperr.{
  Failure, new_not_found, new_conflict, new_incorrect_input, plain, annotate,
}
use nvelope.Audience.Attributes.{Result, Attributes}
use nvelope.Audience.Memberships.{Membership, SubscriptionStatus, change_status, unsubscribed}
use nvelope.Audience.Subscribers.{Subscriber, Pending, Mail}
use nvelope.Audience.Pages.{SubscriptionPage}
use nvelope.Audience.Store.Like.{like}
use nvelope.Common.Action.{ok, err, Action, pure, raise, lift, ◌>>=◌, ◌>>◌, and_then}
use nvelope.Common.Database.{
  Db, Query, with_tenant, read, write, take_fresh, time_now, found, require,
}
use nvelope.Common.{
  if◌then◌else◌, String, List, ℕ, Bool, text_eq, exists_where, not, select_first, select_where, ◌∷◌,
  append_text, take, ◌++◌, ◌&&◌, [], update_where, trim_space, false, ◌||◌, true,
}

-- A job that sends the confirmation of a pending submission, with its raw token.
pub record OptinJob : Type 0 where
  pub pending_id : String
  pub token : String

pub record Tables : Type 0 where
  pub lists : List String
  pub subscribers : List Subscriber
  pub memberships : List Membership
  pub pending : List Pending
  pub pages : List SubscriptionPage
  pub jobs : List OptinJob

-- What the code calls and does not implement: the database's uuids, crypto/rand, SHA-256, mail
-- addresses, and the deliverability context's list of suppressed addresses, which it keeps in
-- lower case.
pub record Env : Type 0 where
  pub uuid : ℕ → String
  pub token : ℕ → Result String
  pub hash : String → String
  pub mail : Mail
  pub suppressed : String → Result Bool

abbrev pub Audience : Type 0 → Type 0
Audience A = Query Tables A

unfoldable pub subscriber_not_found : Failure
subscriber_not_found = new_not_found "subscriber_not_found" "no such subscriber"

unfoldable pub membership_not_found : Failure
membership_not_found = new_not_found "membership_not_found" "that subscriber is not on that list"

unfoldable pub membership_exists : Failure
membership_exists = new_conflict "membership_exists" "that subscriber is already on that list"

unfoldable pub subscriber_email_taken : Failure
subscriber_email_taken =
    new_conflict "subscriber_email_taken" "a subscriber with that email already exists"

unfoldable pub pending_not_found : Failure
pending_not_found = new_not_found "pending_subscription_not_found" "no such pending subscription"

unfoldable pub page_not_found : Failure
page_not_found = new_not_found "subscription_page_not_found" "no such subscription page"

unfoldable pub confirmation_expired : Failure
confirmation_expired =
    new_incorrect_input "confirmation_expired" "this confirmation link has expired"

unfoldable pub submission_throttled : Failure
submission_throttled =
    new_incorrect_input "submission_throttled" "please wait a moment before trying again"

unfoldable pub address_suppressed : Failure
address_suppressed = new_incorrect_input "address_suppressed" "this address cannot be subscribed"

abbrev pub is_member : String → String → Membership → Bool
is_member subscriber_id list_id m =
    text_eq m.subscriber_id subscriber_id && text_eq m.list_id list_id

-- The foreign keys of subscriber_lists.
abbrev pub references : String → String → Tables → Bool
references subscriber_id list_id t =
    exists_where (λ s. text_eq s.id subscriber_id) t.subscribers
    && exists_where (λ l. text_eq l list_id) t.lists

-- Memberships.Attach
unfoldable pub attach : String → String → SubscriptionStatus → Audience (Unit {0})
attach subscriber_id list_id status = with_tenant do
  read λ t.
      and_then
        (require (references subscriber_id list_id t)
          (annotate "attaching membership" (plain "foreign key violation")))
        λ known.
          require (not (exists_where (is_member subscriber_id list_id) t.memberships))
            membership_exists
  write λ t. (
    tt,
    record t {
      memberships =
          t.memberships
          ++ (record { subscriber_id = subscriber_id; list_id = list_id; status = status }) ∷ [];
    },
  )

-- Memberships.Detach
unfoldable pub detach : String → String → Audience (Unit {0})
detach subscriber_id list_id = with_tenant do
  read λ t.
      require (exists_where (is_member subscriber_id list_id) t.memberships) membership_not_found
  write λ t. (
    tt,
    record t {
      memberships = select_where (λ m. not (is_member subscriber_id list_id m)) t.memberships;
    },
  )

-- Memberships.SetStatus
unfoldable pub set_status : String → String → SubscriptionStatus → Audience (Unit {0})
set_status subscriber_id list_id target = with_tenant do
  m ←
      read λ t.
        found membership_not_found (select_first (is_member subscriber_id list_id) t.memberships)
  status ← lift (change_status target m.status)
  write λ t. (
    tt,
    record t {
      memberships =
          update_where (is_member subscriber_id list_id) (λ m. record m { status = status })
            t.memberships;
    },
  )

-- Memberships.ForSubscriber
unfoldable pub for_subscriber : String → Audience (List Membership)
for_subscriber subscriber_id =
    with_tenant
      do read λ t. ok (select_where (λ m. text_eq m.subscriber_id subscriber_id) t.memberships)

-- The unique key of subscribers: the address, whose case does not count.
abbrev pub same_email : Env → String → Subscriber → Bool
same_email env email s = text_eq (env.mail.lower s.email) (env.mail.lower email)

-- Subscribers.UpsertByEmail: a new subscriber is the newest.
unfoldable pub upsert_by_email : Env → Subscriber → Audience Bool
upsert_by_email env s = with_tenant do
  n ← take_fresh
  write λ t.
      let new = (record s { id = env.uuid n }) ∷ t.subscribers in
      let old =
        update_where (same_email env s.email)
          (λ r. record r { name = s.name; attributes = s.attributes }) t.subscribers in
      if exists_where (same_email env s.email) t.subscribers
      then (false, record t { subscribers = old })
      else (true, record t { subscribers = new })

-- The condition of Subscribers.Search.
unfoldable pub matches : Env → String → Subscriber → Bool
unfolding like
matches env q s =
    let pattern = append_text "%" (append_text (env.mail.lower (trim_space q)) "%") in
    text_eq pattern "%%"
    || (like pattern (env.mail.lower s.email) || like pattern (env.mail.lower s.name))

-- Subscribers.Search with a limit of one row and no offset.
unfoldable pub search_one : Env → String → Audience (List Subscriber)
unfolding matches
search_one env q = with_tenant do read λ t. ok (take 1 (select_where (matches env q) t.subscribers))

-- Subscribers.Update
unfoldable pub update_subscriber : String → (Subscriber → Result Subscriber) → Audience (Unit {0})
update_subscriber id f = with_tenant do
  s ← read λ t. found subscriber_not_found (select_first (λ s. text_eq s.id id) t.subscribers)
  updated ← lift (f s)
  write λ t. (
    tt,
    record t {
      subscribers =
          update_where (λ s. text_eq s.id id)
            (λ s. record s {
              name = updated.name;
              state = updated.state;
              attributes = updated.attributes;
            })
            t.subscribers;
    },
  )

abbrev pub has_hash : String → Pending → Bool
has_hash hash p = text_eq p.token_hash hash

-- PendingSubscriptions.GetByTokenHash
unfoldable pub pending_by_hash : String → Audience Pending
pending_by_hash hash =
    with_tenant do read λ t. found pending_not_found (select_first (has_hash hash) t.pending)

abbrev pub same_submission : Env → Pending → Pending → Bool
same_submission env p q =
    text_eq (env.mail.lower q.email) (env.mail.lower p.email) && text_eq q.page_id p.page_id

-- PendingSubscriptions.Upsert: it returns the row's id.
unfoldable pub upsert_pending : Env → Pending → Audience String
upsert_pending env p = with_tenant do
  n ← take_fresh
  write λ t.
      let new = t.pending ++ (record p { id = env.uuid n }) ∷ [] in
      let old =
        update_where (same_submission env p)
          (λ q. record q {
            attributes = p.attributes;
            target_list_ids = p.target_list_ids;
            token_hash = p.token_hash;
            expires_at = p.expires_at;
          })
          t.pending in
      elim (select_first (same_submission env p) t.pending) [
        | none ↦ (env.uuid n, record t { pending = new })
        | some q ↦ (q.id, record t { pending = old })
      ]

-- PendingSubscriptions.RefreshToken
unfoldable pub refresh_token : String → String → Time → Audience (Unit {0})
refresh_token id hash expires_at = with_tenant do
  read λ t. require (exists_where (λ p. text_eq p.id id) t.pending) pending_not_found
  write λ t. (
    tt,
    record t {
      pending =
          update_where (λ p. text_eq p.id id)
            (λ p. record p { token_hash = hash; expires_at = expires_at }) t.pending;
    },
  )

-- PendingSubscriptions.Delete
unfoldable pub delete_pending : String → Audience (Unit {0})
delete_pending id =
    with_tenant
      do write λ t. (tt, record t { pending = select_where (λ p. not (text_eq p.id id)) t.pending })

-- SubscriptionPages.GetBySlug
unfoldable pub page_by_slug : String → Audience SubscriptionPage
page_by_slug slug =
    with_tenant do read λ t. found page_not_found (select_first (λ p. text_eq p.slug slug) t.pages)

-- OptinEnqueuer.EnqueueOptinSend
unfoldable pub enqueue_optin : String → String → Audience (Unit {0})
enqueue_optin pending_id token = with_tenant do
  write λ t. (tt, record t { jobs = (record { pending_id = pending_id; token = token }) ∷ t.jobs })
