-- ===== src/Audience/Subscribers.antt =====
-- internal/audience/domain/subscriber.go and pending_subscription.go: the person in a tenant's
-- audience, and a submission that waits for its confirmation. A method that mutates the receiver
-- returns the new record; on an error the receiver is left as it was.
use nvelope.Common.Calendar.{Time}
use nvelope.Audience.Attributes.{Result, Attributes, validation_failed}
use nvelope.Audience.Memberships.{invalid_transition}
use nvelope.Common.Action.{ok, err}
use nvelope.Common.Action
use nvelope.Common.{
  if◌then◌else◌, String, Bool, trim_space, is_empty, true, List, ltb, not, false, ◌||◌, length,
  ◌==◌,
}

-- State is a string in the code: `unknown_state` is any other string.
pub data State : Type 0 where
  enabled disabled blocklisted unknown_state : State

pub record Subscriber : Type 0 where
  pub id : String
  pub email : String
  pub name : String
  pub state : State
  pub attributes : Attributes

-- strings.ToLower, and whether mail.ParseAddress reads a text as exactly that address.
pub record Mail : Type 0 where
  pub lower : String → String
  pub is_address : String → Bool

module _ (mail : Mail) where
  unfoldable pub normalize_email : String → Result String
  normalize_email email =
      let email' = trim_space email in
      if is_empty email'
      then err (validation_failed "email is required")
      else if not (mail.is_address email')
      then err (validation_failed "email is not valid")
      else ok (mail.lower email')

  unfoldable pub new_subscriber : String → String → String → Attributes → Result Subscriber
  new_subscriber tenant_id email name attributes =
      if is_empty tenant_id
      then err (validation_failed "a tenant is required")
      else Action.and_then (normalize_email email) λ email'. ok (record {
        id = "";
        email = email';
        name = trim_space name;
        state = enabled;
        attributes = attributes;
      })

unfoldable pub rename : String → Subscriber → Subscriber
rename name s = record s { name = trim_space name }

unfoldable pub set_attributes : Attributes → Subscriber → Subscriber
set_attributes a s = record s { attributes = a }

abbrev pub state_blocklisted : State → Bool
state_blocklisted blocklisted = true
state_blocklisted _ = false

abbrev pub must_unblocklist : {A : Type 0} → Result A
must_unblocklist = err (invalid_transition "a blocklisted subscriber must be un-blocklisted first")

unfoldable pub enable : State → Result State
enable blocklisted = must_unblocklist
enable _ = ok enabled

unfoldable pub disable : State → Result State
disable blocklisted = must_unblocklist
disable _ = ok disabled

unfoldable pub blocklist : State → State
blocklist s = blocklisted

unfoldable pub unblocklist : State → Result State
unblocklist blocklisted = ok enabled
unblocklist _ = err (invalid_transition "only a blocklisted subscriber can be un-blocklisted")

-- ChangeState of a subscriber in the second state to the first.
unfoldable pub change_state : State → State → Result State
unfolding enable disable blocklist unblocklist
change_state enabled s = if state_blocklisted s then unblocklist s else enable s
change_state disabled s = disable s
change_state blocklisted s = ok (blocklist s)
change_state unknown_state s = err (validation_failed "unknown subscriber state")

pub record Pending : Type 0 where
  pub id : String
  pub page_id : String
  pub email : String
  pub attributes : Attributes
  pub target_list_ids : List String
  pub token_hash : String
  pub expires_at : Time

-- The zero time.Time is 0 here, a day that no clock shows.
unfoldable pub new_pending :
    Mail → String → String → String → Attributes → List String → String → Time → Result Pending
new_pending mail tenant_id page_id email attributes lists token_hash expires_at =
    if is_empty tenant_id || is_empty page_id
    then err (validation_failed "a tenant and a subscription page are required")
    else Action.and_then (normalize_email mail email) λ email'.
      if length lists == 0
      then err (validation_failed "a pending subscription must target at least one list")
      else if is_empty token_hash
      then err (validation_failed "a confirmation token is required")
      else if expires_at == 0
      then err (validation_failed "an expiry is required")
      else ok (record {
        id = "";
        page_id = page_id;
        email = email';
        attributes = attributes;
        target_list_ids = lists;
        token_hash = token_hash;
        expires_at = expires_at;
      })

unfoldable pub is_expired : Time → Pending → Bool
is_expired now p = ltb p.expires_at now
