-- ===== src/Iam/Principals.antt =====
-- internal/iam/domain/principal.go: the actor of a request and what it may do.
use nvelope.Iam.Permissions.{Permission, contains}
use nvelope.Common.{if◌then◌else◌, String, List, Bool, true, [], ◌∷◌, text_eq}

pub data PrincipalKind : Type 0 where
  session api_key : PrincipalKind

-- The map of list permissions as its entries, the ones set last first.
pub record Principal : Type 0 where
  pub kind : PrincipalKind
  pub tenant_id : String
  pub actor_id : String
  pub tenant_permissions : List Permission
  pub list_permissions : List (String × List Permission)

unfoldable pub new_principal :
    PrincipalKind → String → String → List Permission → List (String × List Permission) → Principal
new_principal kind tenant_id actor_id tenant_permissions list_permissions = record {
  kind = kind;
  tenant_id = tenant_id;
  actor_id = actor_id;
  tenant_permissions = tenant_permissions;
  list_permissions = list_permissions;
}

-- p.listPermissions[listID]: no permissions for a missing key.
unfoldable pub for_list : List (String × List Permission) → String → List Permission
for_list [] list_id = []
for_list ((key, ps) ∷ rest) list_id = if text_eq key list_id then ps else for_list rest list_id

unfoldable pub can : Principal → Permission → Bool
can p required = contains p.tenant_permissions required

unfoldable pub can_on_list : Principal → Permission → String → Bool
unfolding for_list
can_on_list p required list_id =
    if contains p.tenant_permissions required
    then true
    else contains (for_list p.list_permissions list_id) required
