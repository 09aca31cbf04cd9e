-- ===== src/Iam/Commands/Held.antt =====
-- Which permissions the rows of user_roles and user_list_roles give a user, against what
-- EffectiveFor (internal/iam/adapters/roles_pg.go) reads from them.

use text.Mathlib.TextEquality.{eq_iff}
use mathlib.Core.Path.{subst}
use nvelope.Iam.Store.Accounts.{permissions_of, assigned_permissions}
use nvelope.Iam.Permissions.{Permission, contains}
use nvelope.Iam.Roles.{Role}
use nvelope.Iam.Store.{Assignment, ListAssignment, Tables}
use nvelope.Common.{
  List, String, Bool, ◌≡◌, if◌then◌else◌, exists_where, ◌∷◌, text_eq, ◌&&◌, false, true, [], ◌||◌,
  arith, refl, select_first, Bool-cases, inl, inr, sym,
}
use nvelope.Iam.Store.Accounts.{list_permissions}
use nvelope.Iam.Principals.{for_list}

-- No user has two roles, and none two on one list: the primary keys of user_roles and of
-- user_list_roles.
abbrev pub OneRole : List Assignment → Type 0
OneRole [] = Unit
OneRole (a ∷ rows) = (exists_where (λ b. text_eq b.user_id a.user_id) rows ≡ false) × OneRole rows

abbrev pub same_place : String → String → ListAssignment → Bool
same_place user_id list_id a = text_eq a.user_id user_id && text_eq a.list_id list_id

abbrev pub OneListRole : List ListAssignment → Type 0
OneListRole [] = Unit
OneListRole (a ∷ rows) =
    (exists_where (same_place a.user_id a.list_id) rows ≡ false) × OneListRole rows

-- An assignment of the user gives a role that holds the permission.
abbrev pub tenant_role_holds : List Role → List Assignment → String → Permission → Bool
tenant_role_holds roles rows user_id required =
    exists_where
      (λ a. text_eq a.user_id user_id && contains (permissions_of roles a.role_id) required) rows

abbrev pub list_role_holds : List Role → List ListAssignment → String → String → Permission → Bool
list_role_holds roles rows user_id list_id required =
    exists_where
      (λ a. same_place user_id list_id a && contains (permissions_of roles a.role_id) required) rows

or_none : (a b : Bool) → b ≡ false → ((true && a) || b) ≡ a
or_none a b h = ground (arith, h)

pub or_if : (a b : Bool) → (if a then true else b) ≡ (a || b)
or_if true b = refl
or_if false b = refl

none-and :
    {A : Type 0} (f g : A → Bool) (rows : List A)
    → exists_where f rows ≡ false
    → exists_where (λ a. f a && g a) rows ≡ false
none-and f g [] h = refl
none-and f g (a ∷ rows) h = ground (arith, none-and f g rows)

module _ (user_id : String) (required : Permission) where
  pub tenant_rows-held :
      (roles : List Role) (rows : List Assignment)
      → OneRole rows
      → contains
          (assigned_permissions roles (select_first (λ a. text_eq a.user_id user_id) rows))
          required
        ≡ tenant_role_holds roles rows user_id required
  unfolding contains
  tenant_rows-held roles [] h = refl
  tenant_rows-held roles (a ∷ rows) h = elim (Bool-cases (text_eq a.user_id user_id)) [
    | inl same ↦ rw same (sym (or_none _ _ (none-and _ _ rows (alone same))))
    | inr other ↦ rw other (tenant_rows-held roles rows h.1)
  ]
    where
      alone :
          text_eq a.user_id user_id ≡ true
          → exists_where (λ b. text_eq b.user_id user_id) rows ≡ false
      alone same =
          subst (λ u. exists_where (λ b. text_eq b.user_id u) rows ≡ false)
            ((eq_iff a.user_id user_id).0 same) h.0

  pub list_rows-held :
      (t : Tables) (list_id : String) (rows : List ListAssignment)
      → OneListRole rows
      → contains
          (for_list (list_permissions user_id (record t { list_roles = rows })) list_id)
          required
        ≡ list_role_holds t.roles rows user_id list_id required
  unfolding contains for_list
  list_rows-held t list_id [] h = refl
  list_rows-held t list_id (a ∷ rows) h = elim (Bool-cases (text_eq a.user_id user_id)) [
    | inr other ↦ rw other (list_rows-held t list_id rows h.1)
    | inl same ↦ rw same (elim (Bool-cases (text_eq a.list_id list_id)) [
      | inr other ↦ rw other (list_rows-held t list_id rows h.1)
      | inl here ↦ rw here (sym (or_none _ _ (none-and _ _ rows (alone same here))))
    ])
  ]
    where
      alone :
          text_eq a.user_id user_id ≡ true
          → text_eq a.list_id list_id ≡ true
          → exists_where (same_place user_id list_id) rows ≡ false
      alone same here =
          subst (λ u. exists_where (same_place u list_id) rows ≡ false)
            ((eq_iff a.user_id user_id).0 same)
            (subst (λ l. exists_where (same_place a.user_id l) rows ≡ false)
              ((eq_iff a.list_id list_id).0 here) h.0)
