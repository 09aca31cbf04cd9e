-- ===== src/Iam/Sessions.antt =====
-- internal/iam/domain/session.go, user.go and totp.go: the workspace session, the tenant's user
-- and the recovery code. A method that mutates the receiver returns the new record.
use nvelope.Common.Calendar.{Time}
use nvelope.Platform.Apperr.{new_incorrect_input}
use nvelope.Iam.Permissions.{Result}
use nvelope.Iam.Roles.{validation_failed}
use nvelope.Common.Action.{ok, err}
use nvelope.Common.{
  if◌then◌else◌, String, Bool, false, Option, true, is_empty, ◌&&◌, some, trim_space, ◌||◌, ltb,
  none,
}

pub data SessionState : Type 0 where
  totp_pending active revoked : SessionState

pub record Session : Type 0 where
  pub id : String
  pub tenant_id : String
  pub user_id : String
  pub token_hash : String
  pub state : SessionState
  pub expires_at : Time
  pub revoked_at : Option Time

abbrev pub state_pending : SessionState → Bool
state_pending totp_pending = true
state_pending _ = false

abbrev pub state_active : SessionState → Bool
state_active active = true
state_active _ = false

unfoldable pub new_session : String → String → String → Bool → Time → Result Session
new_session tenant_id user_id token_hash totp_enabled expires_at =
    if is_empty tenant_id || (is_empty user_id || is_empty token_hash)
    then err (validation_failed "tenant, user, and token are required")
    else ok (record {
      id = "";
      tenant_id = tenant_id;
      user_id = user_id;
      token_hash = token_hash;
      state = (if totp_enabled then totp_pending else active);
      expires_at = expires_at;
      revoked_at = none;
    })

unfoldable pub is_active : Time → Session → Bool
is_active now s = state_active s.state && ltb now s.expires_at

unfoldable pub complete_totp : Session → Result Session
complete_totp s =
    if state_pending s.state
    then ok (record s { state = active })
    else err (
        new_incorrect_input "invalid_transition"
          "this session is not awaiting a two-factor challenge")

unfoldable pub revoke : Time → Session → Session
revoke now s = record s { state = revoked; revoked_at = some now }

pub data UserStatus : Type 0 where
  active_user suspended : UserStatus

-- The encrypted secret is a text here, empty where the code has nil.
pub record TenantUser : Type 0 where
  pub id : String
  pub tenant_id : String
  pub platform_user_id : String
  pub email : String
  pub name : String
  pub status : UserStatus
  pub totp_enabled : Bool
  pub totp_secret : String

-- `lower` is strings.ToLower.
unfoldable pub new_tenant_user :
    (String → String) → String → String → String → String → Result TenantUser
new_tenant_user lower tenant_id platform_user_id email name =
    let email' = trim_space (lower email) in
    if is_empty tenant_id || is_empty platform_user_id
    then err (validation_failed "a tenant and a platform user are required")
    else if is_empty email'
    then err (validation_failed "email is required")
    else ok (record {
      id = "";
      tenant_id = tenant_id;
      platform_user_id = platform_user_id;
      email = email';
      name = trim_space name;
      status = active_user;
      totp_enabled = false;
      totp_secret = "";
    })

unfoldable pub enable_totp : String → TenantUser → Result TenantUser
enable_totp encrypted u =
    if is_empty encrypted
    then err (validation_failed "a TOTP secret is required")
    else ok (record u { totp_enabled = true; totp_secret = encrypted })

unfoldable pub disable_totp : TenantUser → TenantUser
disable_totp u = record u { totp_enabled = false; totp_secret = "" }

unfoldable pub suspend : TenantUser → TenantUser
suspend u = record u { status = suspended }

unfoldable pub reactivate : TenantUser → TenantUser
reactivate u = record u { status = active_user }

-- A recovery code of a user.
pub record RecoveryCode : Type 0 where
  pub user_id : String
  pub code_hash : String
  pub used_at : Option Time
