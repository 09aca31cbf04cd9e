-- ===== src/Iam/Store/Accounts.antt =====
-- internal/iam/adapters: users, sessions, API keys, recovery codes and the audit log.
use nvelope.Iam.Store.{
  Tables, Iam, Env, user_not_found, session_not_found, api_key_not_found, TenantUser, Session,
  ApiKey, RecoveryCode, with_tenant, Role, take_fresh, read, time_now, write, role_id_is,
  is_revoked, require, found, Assignment,
}
use nvelope.Common.{
  String, List, Bool, text_eq, select_first, map, ◌++◌, update_where, not, ◌&&◌, exists_where, none,
  select_where, ◌∷◌, [], some, true, false, ◌||◌, Option,
}
use nvelope.Common.Action.{ok, lift, ◌>>=◌, ◌>>◌}
use nvelope.Iam.Permissions.{Result, Permission}
use nvelope.Platform.Apperr.{plain, annotate}

abbrev pub same_account : Env → TenantUser → TenantUser → Bool
same_account env u v =
    text_eq v.platform_user_id u.platform_user_id || text_eq (env.lower v.email) (env.lower u.email)

-- Users.Add: a platform user and an address, whose case does not count, stand once in a tenant.
unfoldable pub add_user : Env → TenantUser → Iam String
add_user env u = with_tenant do
  n ← take_fresh
  read λ t.
      require (not (exists_where (same_account env u) t.users))
        (annotate "inserting user" (plain "unique violation"))
  write λ t. (env.uuid n, record t { users = t.users ++ (record u { id = env.uuid n }) ∷ [] })

-- Users.Get
unfoldable pub get_user : String → Iam TenantUser
get_user id =
    with_tenant do read λ t. found user_not_found (select_first (λ u. text_eq u.id id) t.users)

-- Users.ByPlatformUser
unfoldable pub by_platform_user : String → Iam TenantUser
by_platform_user id =
    with_tenant
      do read λ t. found user_not_found (select_first (λ u. text_eq u.platform_user_id id) t.users)

-- Users.Update
unfoldable pub update_user : String → (TenantUser → Result TenantUser) → Iam (Unit {0})
update_user id f = with_tenant do
  u ← read λ t. found user_not_found (select_first (λ u. text_eq u.id id) t.users)
  updated ← lift (f u)
  write λ t. (
    tt,
    record t {
      users =
          update_where (λ v. text_eq v.id id)
            (λ v. record v {
              name = updated.name;
              status = updated.status;
              totp_enabled = updated.totp_enabled;
              totp_secret = updated.totp_secret;
            })
            t.users;
    },
  )

abbrev pub has_token : String → Session → Bool
has_token hash s = text_eq s.token_hash hash

abbrev pub session_id_is : String → Session → Bool
session_id_is id s = text_eq s.id id

-- Sessions.Add: the id and the token's hash are unique.
unfoldable pub add_session : Env → Session → Iam String
add_session env s = with_tenant do
  n ← take_fresh
  read λ t.
      require
        (not (
          exists_where (has_token s.token_hash) t.sessions
          || exists_where (session_id_is (env.uuid n)) t.sessions))
        (annotate "inserting session" (plain "unique violation"))
  write λ t. (env.uuid n, record t { sessions = t.sessions ++ (record s { id = env.uuid n }) ∷ [] })

-- Sessions.ByTokenHash
unfoldable pub session_by_token : String → Iam Session
session_by_token hash =
    with_tenant do read λ t. found session_not_found (select_first (has_token hash) t.sessions)

-- Sessions.Update
unfoldable pub update_session : String → (Session → Result Session) → Iam (Unit {0})
update_session id f = with_tenant do
  s ← read λ t. found session_not_found (select_first (session_id_is id) t.sessions)
  updated ← lift (f s)
  write λ t. (
    tt,
    record t {
      sessions =
          update_where (session_id_is id)
            (λ v. record v { state = updated.state; revoked_at = updated.revoked_at }) t.sessions;
    },
  )

abbrev pub key_hash_is : String → ApiKey → Bool
key_hash_is hash k = text_eq k.token_hash hash

-- APIKeys.Add
unfoldable pub add_key : Env → ApiKey → Iam String
add_key env k = with_tenant do
  n ← take_fresh
  read λ t.
      require (not (exists_where (key_hash_is k.token_hash) t.api_keys))
        (annotate "inserting API key" (plain "unique violation"))
  write λ t. (env.uuid n, record t { api_keys = t.api_keys ++ (record k { id = env.uuid n }) ∷ [] })

-- APIKeys.ByTokenHash
unfoldable pub key_by_hash : String → Iam ApiKey
key_by_hash hash =
    with_tenant do read λ t. found api_key_not_found (select_first (key_hash_is hash) t.api_keys)

abbrev pub live_key : String → ApiKey → Bool
live_key id k = text_eq k.id id && not (is_revoked k)

-- APIKeys.Revoke
unfoldable pub revoke_stored_key : String → Iam (Unit {0})
revoke_stored_key id = with_tenant do
  now ← time_now
  read λ t. require (exists_where (live_key id) t.api_keys) api_key_not_found
  write λ t. (
    tt,
    record t {
      api_keys = update_where (live_key id) (λ k. record k { revoked_at = some now }) t.api_keys;
    },
  )

-- APIKeys.TouchLastUsed
unfoldable pub touch_last_used : String → Iam (Unit {0})
touch_last_used id = with_tenant do
  now ← time_now
  write λ t. (
    tt,
    record t {
      api_keys =
          update_where (λ k. text_eq k.id id) (λ k. record k { last_used_at = some now })
            t.api_keys;
    },
  )

-- RecoveryCodes.AddBatch
unfoldable pub add_batch : String → List String → Iam (Unit {0})
add_batch user_id hashes = with_tenant do
  write λ t. (
    tt,
    record t {
      codes =
          map (λ h. record { user_id = user_id; code_hash = h; used_at = none }) hashes
          ++ select_where (λ c. not (text_eq c.user_id user_id)) t.codes;
    },
  )

abbrev pub unused : RecoveryCode → Bool
unused c = elim c.used_at [ none ↦ true | some t ↦ false ]

abbrev pub usable : String → String → RecoveryCode → Bool
usable user_id hash c = text_eq c.user_id user_id && (text_eq c.code_hash hash && unused c)

-- RecoveryCodes.Consume: whether a row was updated.
unfoldable pub consume : String → String → Iam Bool
consume user_id hash = with_tenant do
  now ← time_now
  write λ t. (
    exists_where (usable user_id hash) t.codes,
    record t {
      codes = update_where (usable user_id hash) (λ c. record c { used_at = some now }) t.codes;
    },
  )

-- RecoveryCodes.DeleteForUser
unfoldable pub delete_codes : String → Iam (Unit {0})
delete_codes user_id = with_tenant do
  write λ t. (tt, record t { codes = select_where (λ c. not (text_eq c.user_id user_id)) t.codes })

-- AuditRepository.Record, whose failure recordAudit ignores.
unfoldable pub record_audit : String → String → String → Iam (Unit {0})
record_audit actor action target w = (
  ok tt,
  (with_tenant
      (write λ t. (
        tt,
        record t {
          audit = record { actor_id = actor; action = action; target = target } ∷ t.audit;
        },
      ))
      w).1,
)

-- EffectiveFor: the permissions of the tenant role, and those of each list's role.
abbrev pub permissions_of : List Role → String → List Permission
permissions_of roles role_id = elim (select_first (role_id_is role_id) roles) [
  | none ↦ []
  | some r ↦ r.permissions
]

abbrev pub assigned_permissions : List Role → Option Assignment → List Permission
assigned_permissions roles none = []
assigned_permissions roles (some a) = permissions_of roles a.role_id

abbrev pub tenant_permissions : String → Tables → List Permission
tenant_permissions user_id t =
    assigned_permissions t.roles (select_first (λ a. text_eq a.user_id user_id) t.user_roles)

abbrev pub list_permissions : String → Tables → List (String × List Permission)
list_permissions user_id t =
    map (λ a. (a.list_id, permissions_of t.roles a.role_id))
      (select_where (λ a. text_eq a.user_id user_id) t.list_roles)

unfoldable pub effective_for : String → Iam (List Permission × List (String × List Permission))
effective_for user_id =
    with_tenant do read λ t. ok (tenant_permissions user_id t, list_permissions user_id t)
