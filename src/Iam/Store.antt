-- ===== src/Iam/Store.antt =====
-- internal/iam/adapters: the tables of one tenant and the repositories over them. Nothing of the
-- audit log is read again, so it keeps the action and its target alone.
pub mod Accounts
use nvelope.Platform.Apperr.{
  Failure, new_not_found, new_conflict, new_incorrect_input, new_authorization, plain, annotate,
}
use nvelope.Iam.Permissions.{Permission, Result}
use nvelope.Iam.Roles.{Role, ApiKey, validation_failed, revoke_key, is_revoked}
use nvelope.Iam.Sessions.{Session, TenantUser, RecoveryCode}
use nvelope.Common.Action.{ok, err, Action, pure, raise, lift, ◌>>=◌, ◌>>◌}
use nvelope.Common.Database.{
  found, require, Db, Query, with_tenant, read, write, take_fresh, time_now,
}
use nvelope.Common.{
  if◌then◌else◌, String, List, ℕ, Option, Bool, text_eq, some, true, select_first, not, ◌&&◌, ◌∷◌,
  select_where, none, false, exists_where, ◌++◌, update_where, ◌||◌, [],
}

pub record Assignment : Type 0 where
  pub user_id : String
  pub role_id : String

pub record ListAssignment : Type 0 where
  pub user_id : String
  pub list_id : String
  pub role_id : String

pub record AuditRecord : Type 0 where
  pub actor_id : String
  pub action : String
  pub target : String

pub record Tables : Type 0 where
  pub roles : List Role
  pub user_roles : List Assignment
  pub list_roles : List ListAssignment
  pub users : List TenantUser
  pub sessions : List Session
  pub api_keys : List ApiKey
  pub codes : List RecoveryCode
  pub audit : List AuditRecord

-- What the code calls and does not implement: the database's uuids, crypto/rand, SHA-256,
-- strings.ToLower, and the TOTP library with its encryption.
pub record Env : Type 0 where
  pub uuid : ℕ → String
  pub token : ℕ → Result String
  pub hash : String → String
  pub lower : String → String
  pub valid_uuid : String → Bool
  pub encrypt : String → Result String
  pub decrypt : String → Result String
  pub validate : String → String → Bool

abbrev pub Iam : Type 0 → Type 0
Iam A = Query Tables A

unfoldable pub role_not_found : Failure
role_not_found = new_not_found "role_not_found" "no such role"

unfoldable pub role_name_taken : Failure
role_name_taken = new_conflict "role_name_taken" "a role with that name already exists"

unfoldable pub role_in_use : Failure
role_in_use = new_conflict "role_in_use" "that role is still assigned — reassign its holders first"

unfoldable pub user_not_found : Failure
user_not_found = new_not_found "user_not_found" "no such user"

unfoldable pub session_not_found : Failure
session_not_found = new_not_found "session_not_found" "no such session"

unfoldable pub api_key_not_found : Failure
api_key_not_found = new_not_found "api_key_not_found" "no such API key"

unfoldable pub unauthenticated : Failure
unauthenticated = new_authorization "unauthenticated" "a valid session or API key is required"

unfoldable pub totp_required : Failure
totp_required =
    new_authorization "totp_required" "two-factor authentication is required to continue"

unfoldable pub totp_invalid_code : Failure
totp_invalid_code = new_incorrect_input "totp_invalid_code" "that verification code is not valid"

abbrev pub role_id_is : String → Role → Bool
role_id_is id r = text_eq r.id id

-- getRoleTx
unfoldable pub load_role : String → Iam Role
load_role id = read λ t. found role_not_found (select_first (role_id_is id) t.roles)

-- Roles.Add
unfoldable pub add_role : Env → Role → Iam String
add_role env role = with_tenant do
  n ← take_fresh
  read λ t. require (not (exists_where (λ r. text_eq r.name role.name) t.roles)) role_name_taken
  write λ t. (env.uuid n, record t { roles = t.roles ++ (record role { id = env.uuid n }) ∷ [] })

abbrev pub other_with_name : String → String → Role → Bool
other_with_name id name r = text_eq r.name name && not (text_eq r.id id)

-- Roles.Update
unfoldable pub update_role : String → (Role → Result Role) → Iam (Unit {0})
update_role id f = with_tenant do
  role ← load_role id
  updated ← lift (f role)
  read λ t. require (not (exists_where (other_with_name id updated.name) t.roles)) role_name_taken
  write λ t. (
    tt,
    record t {
      roles =
          update_where (role_id_is id)
            (λ r. record r { name = updated.name; permissions = updated.permissions }) t.roles;
    },
  )

abbrev pub assigned_role : String → Assignment → Bool
assigned_role id a = text_eq a.role_id id

abbrev pub list_assigned_role : String → ListAssignment → Bool
list_assigned_role id a = text_eq a.role_id id

-- Roles.Delete
unfoldable pub delete_role : String → Iam (Unit {0})
delete_role id = with_tenant do
  read λ t.
      require
        (not (
          exists_where (assigned_role id) t.user_roles
          || exists_where (list_assigned_role id) t.list_roles))
        role_in_use
  read λ t. require (exists_where (role_id_is id) t.roles) role_not_found
  write λ t. (tt, record t { roles = select_where (λ r. not (text_eq r.id id)) t.roles })

-- The foreign keys of user_roles and user_list_roles.
abbrev pub references : Env → String → String → Tables → Result (Unit {0})
references env user_id role_id t =
    if env.valid_uuid user_id && env.valid_uuid role_id
    then require
        (exists_where (λ u. text_eq u.id user_id) t.users
          && exists_where (role_id_is role_id) t.roles)
        (annotate "assigning role" (plain "foreign key violation"))
    else err role_not_found

-- Roles.AssignTenantRole
unfoldable pub assign_tenant_role : Env → String → String → Iam (Unit {0})
assign_tenant_role env user_id role_id = with_tenant do
  read (references env user_id role_id)
  write λ t. (
    tt,
    record t {
      user_roles =
          (record { user_id = user_id; role_id = role_id })
          ∷ select_where (λ a. not (text_eq a.user_id user_id)) t.user_roles;
    },
  )

abbrev pub same_entry : String → String → ListAssignment → Bool
same_entry user_id list_id a = text_eq a.user_id user_id && text_eq a.list_id list_id

-- Roles.AssignListRole
unfoldable pub assign_list_role : Env → String → String → String → Iam (Unit {0})
assign_list_role env user_id list_id role_id = with_tenant do
  read λ t. if env.valid_uuid list_id then references env user_id role_id t else err role_not_found
  write λ t. (
    tt,
    record t {
      list_roles =
          (record { user_id = user_id; list_id = list_id; role_id = role_id })
          ∷ select_where (λ a. not (same_entry user_id list_id a)) t.list_roles;
    },
  )

-- Roles.RemoveListRole
unfoldable pub remove_list_role : String → String → Iam (Unit {0})
remove_list_role user_id list_id = with_tenant do
  write λ t. (
    tt,
    record t { list_roles = select_where (λ a. not (same_entry user_id list_id a)) t.list_roles },
  )
