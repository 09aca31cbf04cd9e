-- ===== src/Iam/Commands.antt =====
-- internal/iam/app/command and app/query: the handlers over the store.
pub mod Recovery
pub mod Held
pub mod Granted
pub mod Keys
use nvelope.Common.Database.{take_fresh, Db, read, with_tenant, time_now, require}
use nvelope.Iam.Principals.{Principal, new_principal, api_key, PrincipalKind}
use nvelope.Common.Calendar.{Duration}
use nvelope.Platform.Apperr.{Failure, is_slug}
use nvelope.Iam.Sessions.{
  TenantUser, state_pending, disable_totp, new_tenant_user, SessionState, Session, complete_totp,
  new_session, revoke, is_active, enable_totp,
}
use nvelope.Iam.Roles.{
  Role, new_role, rename, is_revoked, set_permissions, new_api_key, validation_failed, ApiKey,
}
use nvelope.Iam.Store.{
  Tables, Iam, Env, unauthenticated, totp_required, totp_invalid_code, add_role, update_role,
  delete_role, assign_tenant_role, assign_list_role, remove_list_role,
}
use nvelope.Iam.Store.Accounts.{
  add_user, get_user, by_platform_user, update_user, add_session, session_by_token, update_session,
  add_key, key_by_hash, revoke_stored_key, touch_last_used, add_batch, consume, delete_codes,
  record_audit, effective_for,
}
use nvelope.Common.Action.{Result as Outcome, and_then}
use nvelope.Common.{
  if◌then◌else◌, String, List, Bool, ℕ, not, exists_where, ◌||◌, [], is_empty, text_eq, false, suc,
  true, ◌+◌, ◌∷◌, zero, map,
}
use nvelope.Common.Action.{ok, err, pure, lift, ◌>>=◌, ◌>>◌}
use nvelope.Iam.Permissions.{Result, parse_permissions, Permission, all_permissions}

-- The parameters that every handler has: the environment, the tenant and the actor.
module _ (env : Env) (tenant_id actor_id : String) where
  unfoldable pub create_role : String → List String → Iam String
  create_role name permissions = do
    perms ← lift (parse_permissions permissions)
    role ← lift (new_role tenant_id name perms)
    id ← add_role env role
    record_audit actor_id "role.create" id
    pure id

  unfoldable pub rename_and_grant : String → List Permission → Role → Result Role
  rename_and_grant name perms r = and_then (rename name r) λ r'. set_permissions perms r'

  unfoldable pub change_role : String → String → List String → Iam (Unit {0})
  change_role role_id name permissions = do
    perms ← lift (parse_permissions permissions)
    update_role role_id (rename_and_grant name perms)
    record_audit actor_id "role.update" role_id

  unfoldable pub drop_role : String → Iam (Unit {0})
  drop_role role_id = do delete_role role_id; record_audit actor_id "role.delete" role_id

  unfoldable pub assign_role : String → String → Iam (Unit {0})
  assign_role user_id role_id = do
    assign_tenant_role env user_id role_id
    record_audit actor_id "role.assign" user_id

  unfoldable pub grant_list_role : String → String → String → Iam (Unit {0})
  grant_list_role user_id list_id role_id = do
    assign_list_role env user_id list_id role_id
    record_audit actor_id "role.assign_list" user_id

  unfoldable pub revoke_list_role : String → String → Iam (Unit {0})
  revoke_list_role user_id list_id = do
    remove_list_role user_id list_id
    record_audit actor_id "role.revoke_list" user_id

  -- IssueAPIKey: the id and the token, which is shown once.
  unfoldable pub issue_api_key : String → List String → Iam (String × String)
  issue_api_key name permissions = do
    perms ← lift (parse_permissions permissions)
    n ← take_fresh
    token ← lift (env.token n)
    key ← lift (new_api_key tenant_id name (env.hash token) perms actor_id)
    id ← add_key env key
    record_audit actor_id "apikey.issue" id
    pure (id, token)

  unfoldable pub revoke_api_key : String → Iam (Unit {0})
  revoke_api_key key_id = do revoke_stored_key key_id; record_audit actor_id "apikey.revoke" key_id

abbrev pub owner_role_name : String
owner_role_name = "Owner"

abbrev pub has_owner_role : List Role → Bool
has_owner_role roles = exists_where (λ r. text_eq r.name owner_role_name) roles

module _ (env : Env) (tenant_id : String) where
  -- Roles.All
  unfoldable pub all_roles : Iam (List Role)
  all_roles = with_tenant do read λ t. ok t.roles

  unfoldable pub bootstrap_owner : Bool → String → Iam (Unit {0})
  bootstrap_owner true user_id = pure tt
  bootstrap_owner false user_id = do
    owner ← lift (new_role tenant_id owner_role_name all_permissions)
    role_id ← add_role env owner
    assign_tenant_role env user_id role_id

  -- provision
  unfoldable pub provision : String → String → String → Iam TenantUser
  provision platform_user_id email name = do
    new_user ← lift (new_tenant_user env.lower tenant_id platform_user_id email name)
    user_id ← add_user env new_user
    existing ← all_roles
    bootstrap_owner (has_owner_role existing) user_id
    get_user user_id

  -- errors.Is(err, ErrUserNotFound)
  abbrev pub or_provision :
      Outcome Failure TenantUser × Db Tables
      → Iam TenantUser
      → Outcome Failure TenantUser × Db Tables
  or_provision (ok u, w) fallback = (ok u, w)
  or_provision (err e, w) fallback = if is_slug "user_not_found" e then fallback w else (err e, w)

  -- OpenWorkspaceSession; `ttl` is the handler's lifetime of a session.
  unfoldable pub open_workspace_session :
      Duration → String → String → String → Iam (String × SessionState)
  open_workspace_session ttl platform_user_id email name = do
    user ← λ w.
        or_provision (by_platform_user platform_user_id w) (provision platform_user_id email name)
    n ← take_fresh
    token ← lift (env.token n)
    now ← time_now
    session ← lift (new_session tenant_id user.id (env.hash token) user.totp_enabled (now + ttl))
    add_session env session
    pure (token, session.state)

  -- CloseSession: any error of the lookup ends it without an error.
  abbrev pub close_found :
      Outcome Failure Session × Db Tables → Outcome Failure (Unit {0}) × Db Tables
  close_found (err e, w) = (ok tt, w)
  close_found (ok session, w) = update_session session.id (λ s. ok (revoke w.now s)) w

  unfoldable pub close_session : String → Iam (Unit {0})
  close_session token w = close_found (session_by_token (env.hash token) w)

  -- Any error of a lookup becomes ErrUnauthenticated.
  abbrev pub or_unauthenticated : {A : Type 0} → Iam A → Iam A
  or_unauthenticated m w =
      let (r, w') = m w in (elim r [ ok a ↦ ok a | err e ↦ err unauthenticated ], w')

  unfoldable pub challenge_met : String → TenantUser → Iam Bool
  challenge_met code user =
      if not user.totp_enabled || is_empty user.totp_secret then pure false else do
        secret ← lift (env.decrypt user.totp_secret)
        (if env.validate secret code then pure true else consume user.id (env.hash code))

  -- VerifyTOTPChallenge
  unfoldable pub verify_totp_challenge : String → String → Iam (Unit {0})
  verify_totp_challenge token code = do
    session ← or_unauthenticated (session_by_token (env.hash token))
    lift (require (state_pending session.state) unauthenticated)
    user ← or_unauthenticated (get_user session.user_id)
    met ← challenge_met code user
    lift (require met unauthenticated)
    update_session session.id complete_totp

  -- ConfirmTOTP, with the recovery codes that token.New makes one after the other.
  unfoldable pub fresh_codes : ℕ → Iam (List String)
  fresh_codes zero = pure []
  fresh_codes (suc k) = do
    n ← take_fresh
    code ← lift (env.token n)
    rest ← fresh_codes k
    pure (code ∷ rest)

  unfoldable pub confirm_totp : String → String → String → Iam (List String)
  confirm_totp user_id secret code = do
    lift (require (not (is_empty secret)) (validation_failed "a TOTP secret is required"))
    lift (require (env.validate secret code) totp_invalid_code)
    encrypted ← lift (env.encrypt secret)
    update_user user_id (enable_totp encrypted)
    codes ← fresh_codes 10
    add_batch user_id (map env.hash codes)
    pure codes

  unfoldable pub stop_totp : String → Iam (Unit {0})
  stop_totp user_id = do update_user user_id (λ u. ok (disable_totp u)); delete_codes user_id

  -- AuthenticatePrincipal, once the session has been found.
  unfoldable pub principal_of : Session → Iam Principal
  principal_of session = do
    lift (require (not (state_pending session.state)) totp_required)
    now ← time_now
    lift (require (is_active now session) unauthenticated)
    perms ← effective_for session.user_id
    pure (new_principal PrincipalKind.session tenant_id session.user_id perms.0 perms.1)

  unfoldable pub authenticate_principal : String → Iam Principal
  authenticate_principal token = do
    session ← or_unauthenticated (session_by_token (env.hash token))
    principal_of session

  -- AuthenticateAPIKey: a failure to note the use is ignored.
  abbrev pub ignore_error : Iam (Unit {0}) → Iam (Unit {0})
  ignore_error m w = (ok tt, (m w).1)

  unfoldable pub principal_of_key : ApiKey → Iam Principal
  principal_of_key key = do
    lift (require (not (is_revoked key)) unauthenticated)
    ignore_error (touch_last_used key.id)
    pure (new_principal api_key tenant_id key.id key.permissions [])

  unfoldable pub authenticate_api_key : String → Iam Principal
  authenticate_api_key raw_key = do
    key ← or_unauthenticated (key_by_hash (env.hash raw_key))
    principal_of_key key
