-- ===== src/Iam/Permissions.antt =====
-- internal/iam/domain/permission.go: the catalogue of permissions and the sets built from it.
pub mod Sets
use nvelope.Common.{
  String, Bool, List, append_text, if◌then◌else◌, false, ◌∷◌, [], text_eq, ◌++◌, ◌||◌,
}
use nvelope.Platform.Apperr.{Failure, new_incorrect_input}
use nvelope.Common.Action.{ok, err, lift}
use nvelope.Common.Action

abbrev pub Permission : Type 0
Permission = String

abbrev pub Result : Type 0 → Type 0
Result A = Action.Result Failure A

-- contains, of principal.go.
unfoldable pub contains : List Permission → Permission → Bool
contains [] target = false
contains (p ∷ ps) target = text_eq p target || contains ps target

-- The keys of the map `catalogue`.
abbrev pub catalogue : List Permission
catalogue =
    "lists:get" ∷ "lists:manage" ∷ "subscribers:get" ∷ "subscribers:manage" ∷ "subscribers:import"
    ∷ "subscribers:export" ∷ "roles:get" ∷ "roles:manage" ∷ "apikeys:get" ∷ "apikeys:manage"
    ∷ "audit:get" ∷ "settings:get" ∷ "settings:manage" ∷ "sending:get" ∷ "sending:manage"
    ∷ "campaigns:get" ∷ "campaigns:manage" ∷ "transactional:send" ∷ "billing:get" ∷ "billing:manage"
    ∷ "subscription_pages:manage" ∷ "branding:manage" ∷ "media:get" ∷ "media:manage"
    ∷ "subscriber_fields:manage" ∷ []

abbrev pub list_scoped : List Permission
list_scoped = "lists:get" ∷ "lists:manage" ∷ "subscribers:get" ∷ "subscribers:manage" ∷ []

-- AllPermissions: the order, that of a walk over a map, is the catalogue's here.
unfoldable pub all_permissions : List Permission
all_permissions = catalogue

unfoldable pub is_list_scoped : Permission → Bool
is_list_scoped p = contains list_scoped p

unfoldable pub unknown_permission : String → Failure
unknown_permission s =
    new_incorrect_input "unknown_permission" (append_text "unknown permission: " s)

unfoldable pub new_permission : String → Result Permission
new_permission s = if contains catalogue s then ok s else err (unknown_permission s)

unfoldable pub parse_permissions : List String → Result (List Permission)
parse_permissions [] = ok []
parse_permissions (s ∷ raw) =
    Action.and_then (new_permission s)
      λ p. Action.and_then (parse_permissions raw) λ ps. ok (p ∷ ps)

-- The loop of EffectivePermissions and of dedupePermissions: the map `seen` and the slice `out`.
unfoldable pub collect :
    List Permission → List Permission → List Permission → List Permission × List Permission
collect seen out [] = (seen, out)
collect seen out (p ∷ ps) =
    let skipped = collect seen out ps in
    let kept = collect (p ∷ seen) (out ++ p ∷ []) ps in if contains seen p then skipped else kept

unfoldable pub dedupe_permissions : List Permission → List Permission
dedupe_permissions ps = (collect [] [] ps).1

unfoldable pub effective_permissions : List Permission → List Permission → List Permission
effective_permissions tenant list =
    let first = collect [] [] tenant in (collect first.0 first.1 list).1
