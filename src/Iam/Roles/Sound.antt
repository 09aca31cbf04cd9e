-- ===== src/Iam/Roles/Sound.antt =====
-- What the constructors and setters of internal/iam/domain/role.go and apikey.go keep.
use nvelope.Iam.Roles.{check_permissions, Role, set_permissions, rename, new_role}
use nvelope.Iam.Permissions.Sets.{Distinct, contains-collect, collect-Distinct}
use nvelope.Iam.Permissions.{Permission, contains, catalogue, new_permission, dedupe_permissions}
use nvelope.Common.{
  List, ◌≡◌, true, Bool-cases, inl, inr, ◌∷◌, is_empty, text_eq, [], false, arith, refl, sym, ◌∙◌,
  String, trim_space,
}
use text.Mathlib.TextEquality.{eq_iff}
use nvelope.Common.Action.{ok, and_then-eq-ok, ok-injective}

-- Every permission stands in the list once, and in the catalogue.
pub record IsSound (ps : List Permission) : Type 0 where
  pub distinct : Distinct ps
  pub known : (p : Permission) → contains ps p ≡ true → contains catalogue p ≡ true

new_permission-known :
    (p : Permission) {q : Permission} → new_permission p ≡ ok q → contains catalogue p ≡ true
unfolding new_permission
new_permission-known p h = elim (Bool-cases (contains catalogue p)) [
  | inl known ↦ known
  | inr unknown ↦ absurd (cc (rw unknown at h))
]

check_permissions-known :
    (ps : List Permission)
    → check_permissions ps ≡ ok tt
    → (p : Permission) → contains ps p ≡ true
    → contains catalogue p ≡ true
unfolding check_permissions new_permission contains
check_permissions-known [] checked p h = absurd (cc h)
check_permissions-known (q ∷ ps) checked p h = elim (Bool-cases (contains catalogue q)) [
  | inr unknown ↦ absurd (cc (rw unknown at checked))
  | inl known ↦ elim (Bool-cases (text_eq q p)) [
    | inl same ↦ ground (arith, eq_iff q p)
    | inr other ↦ check_permissions-known ps (rw known at checked) p (rw other at h)
  ]
]

pub contains-dedupe :
    (ps : List Permission) (p : Permission) → contains (dedupe_permissions ps) p ≡ contains ps p
unfolding dedupe_permissions contains
contains-dedupe ps p = contains-collect [] [] ps p (record { at = λ x. refl })

pub dedupe-IsSound :
    (ps : List Permission) → check_permissions ps ≡ ok tt → IsSound (dedupe_permissions ps)
unfolding dedupe_permissions
dedupe-IsSound ps checked = record {
  distinct = collect-Distinct [] [] ps (record { at = λ x. refl }) tt;
  known = λ p h. check_permissions-known ps checked p (sym (contains-dedupe ps p) ∙ h);
}

-- The role has a name and a sound list of permissions.
pub record IsValid (r : Role) : Type 0 where
  pub named : is_empty r.name ≡ false
  pub sound : IsSound r.permissions

set_permissions-IsValid :
    (ps : List Permission) (r r' : Role) → IsValid r → set_permissions ps r ≡ ok r' → IsValid r'
unfolding set_permissions
set_permissions-IsValid ps r r' v h =
    let (checked, passed, built) = and_then-eq-ok (check_permissions ps) _ h in
    rw (sym (ok-injective built)) (record { named = v.named; sound = dedupe-IsSound ps passed })

rename-IsValid : (n : String) (r r' : Role) → IsValid r → rename n r ≡ ok r' → IsValid r'
unfolding rename
rename-IsValid n r r' v h = elim (Bool-cases (is_empty (trim_space n))) [
  | inl blank ↦ absurd (cc (rw blank at h))
  | inr named ↦ rw (sym (ok-injective (rw named at h))) (record { named = named; sound = v.sound })
]

new_role-IsValid :
    (tenant_id n : String) (ps : List Permission) (r : Role)
    → new_role tenant_id n ps ≡ ok r
    → IsValid r
unfolding new_role
new_role-IsValid tenant_id n ps r h = elim (Bool-cases (is_empty tenant_id)) [
  | inl missing ↦ absurd (cc (rw missing at h))
  | inr present ↦ elim (Bool-cases (is_empty (trim_space n))) [
    | inl blank ↦ absurd (cc (rw (present, blank) at h))
    | inr named ↦
        let (checked, passed, built) =
          and_then-eq-ok (check_permissions ps) _ (rw (present, named) at h) in
        rw (sym (ok-injective built)) (record { named = named; sound = dedupe-IsSound ps passed })
  ]
]

-- A role as the commands make and change it.
pub data Reachable : Role → Type 0 where
  created :
      {r : Role} (tenant_id n : String) (ps : List Permission)
      → new_role tenant_id n ps ≡ ok r
      → Reachable r
  renamed : {r r' : Role} (n : String) → Reachable r → rename n r ≡ ok r' → Reachable r'
  granted :
      {r r' : Role} (ps : List Permission)
      → Reachable r
      → set_permissions ps r ≡ ok r'
      → Reachable r'

-- Every role that is made by NewRole and changed by Rename and SetPermissions has a name, and its
-- permissions stand in the catalogue, each of them once.
pub Reachable-IsValid : {r : Role} → Reachable r → IsValid r
Reachable-IsValid (created tenant_id n ps h) = new_role-IsValid tenant_id n ps _ h
Reachable-IsValid (renamed n before h) = rename-IsValid n _ _ (Reachable-IsValid before) h
Reachable-IsValid (granted ps before h) =
    set_permissions-IsValid ps _ _ (Reachable-IsValid before) h
