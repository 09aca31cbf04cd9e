-- ===== src/Iam/Roles.antt =====
-- internal/iam/domain/role.go and apikey.go: the named set of permissions, and the scoped key. A
-- method that mutates the receiver returns the new record; on an error the receiver is left as it
-- was. Creation and update times, which the database writes, are left out.
pub mod Sound
use nvelope.Common.Calendar.{Time}
use nvelope.Platform.Apperr.{Failure, new_incorrect_input}
use nvelope.Common.Action.{ok, err}
use nvelope.Common.Action
use nvelope.Common.{
  if◌then◌else◌, String, List, Bool, ◌∷◌, trim_space, Option, some, [], is_empty, ◌||◌, none, false,
  true,
}
use nvelope.Iam.Permissions.{
  Permission, Result, contains, new_permission, dedupe_permissions, unknown_permission,
}

pub record Role : Type 0 where
  pub id : String
  pub tenant_id : String
  pub name : String
  pub permissions : List Permission

unfoldable pub validation_failed : String → Failure
validation_failed m = new_incorrect_input "validation_failed" m

-- The loop over NewPermission.
unfoldable pub check_permissions : List Permission → Result (Unit {0})
check_permissions [] = ok tt
check_permissions (p ∷ ps) = Action.and_then (new_permission p) λ known. check_permissions ps

unfoldable pub new_role : String → String → List Permission → Result Role
new_role tenant_id name permissions =
    let name' = trim_space name in
    if is_empty tenant_id
    then err (validation_failed "a tenant is required")
    else if is_empty name'
    then err (validation_failed "role name is required")
    else Action.and_then (check_permissions permissions) λ checked. ok (record {
      id = "";
      tenant_id = tenant_id;
      name = name';
      permissions = dedupe_permissions permissions;
    })

unfoldable pub rename : String → Role → Result Role
rename name r =
    let name' = trim_space name in
    if is_empty name'
    then err (validation_failed "role name is required")
    else ok (record r { name = name' })

unfoldable pub set_permissions : List Permission → Role → Result Role
set_permissions permissions r =
    Action.and_then (check_permissions permissions)
      λ checked. ok (record r { permissions = dedupe_permissions permissions })

pub record ApiKey : Type 0 where
  pub id : String
  pub tenant_id : String
  pub name : String
  pub token_hash : String
  pub permissions : List Permission
  pub created_by : String
  pub last_used_at : Option Time
  pub revoked_at : Option Time

unfoldable pub new_api_key : String → String → String → List Permission → String → Result ApiKey
new_api_key tenant_id name token_hash permissions created_by =
    let name' = trim_space name in
    if is_empty tenant_id || (is_empty token_hash || is_empty created_by)
    then err (validation_failed "a tenant, a token, and a creator are required")
    else if is_empty name'
    then err (validation_failed "an API key name is required")
    else Action.and_then (check_permissions permissions) λ checked. ok (record {
      id = "";
      tenant_id = tenant_id;
      name = name';
      token_hash = token_hash;
      permissions = dedupe_permissions permissions;
      created_by = created_by;
      last_used_at = none;
      revoked_at = none;
    })

unfoldable pub is_revoked : ApiKey → Bool
is_revoked k = elim k.revoked_at [ none ↦ false | some t ↦ true ]

-- Revoke: revoking again keeps the first time.
unfoldable pub revoke_key : Time → ApiKey → ApiKey
unfolding is_revoked
revoke_key now k = if is_revoked k then k else record k { revoked_at = some now }
