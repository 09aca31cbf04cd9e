-- ===== src/Iam/Commands/Granted.antt =====
-- What a signed-in user may do on a list: CanOnList (internal/iam/domain/principal.go) on the
-- principal of AuthenticatePrincipal, from the stored assignments of roles.
use nvelope.Iam.Commands.Held.{
  tenant_role_holds, list_role_holds, OneRole, OneListRole, or_if, tenant_rows-held, list_rows-held,
}
use nvelope.Platform.Apperr.{Failure}
use mathlib.Core.Path.{subst, ap₂}
use nvelope.Common.Database.Triples.{At, Anywhere, Triple-read, Triple-now}
use nvelope.Common.Action.{ok, err, ok-injective}
use nvelope.Common.Action.Triple.{
  Triple, Post, Triple-bind, Triple-lift, Triple-ok, Triple-assume, Triple-weaken, Triple-return,
}
use nvelope.Iam.Sessions.{Session}
use nvelope.Iam.Commands.{principal_of, authenticate_principal, or_unauthenticated}
use nvelope.Common.Action
use nvelope.Iam.Store.Accounts.{session_by_token, effective_for, has_token}
use nvelope.Common.Database.{Db, Query, found, found-some}
use nvelope.Iam.Permissions.{Permission, contains}
use nvelope.Iam.Store.{Env, Tables, unauthenticated, session_not_found}
use nvelope.Common.{String, Bool, ◌≡◌, ◌||◌, refl, select_first, some, sym, ap, ◌∙◌}
use nvelope.Iam.Store.Accounts.{tenant_permissions, list_permissions}
use nvelope.Iam.Principals.{for_list, can_on_list, Principal, new_principal, PrincipalKind}

module _ (env : Env) (tenant_id : String) where
  abbrev principal_for : Tables → Session → Principal
  principal_for t s =
      new_principal PrincipalKind.session tenant_id s.user_id (tenant_permissions s.user_id t)
        (list_permissions s.user_id t)

  abbrev holds : Tables → Session → Permission → String → Bool
  holds t s required list_id =
      tenant_role_holds t.roles t.user_roles s.user_id required
      || list_role_holds t.roles t.list_roles s.user_id list_id required

  principal_for-holds :
      (t : Tables) (s : Session) (required : Permission) (list_id : String)
      → OneRole t.user_roles
      → OneListRole t.list_roles
      → can_on_list (principal_for t s) required list_id ≡ holds t s required list_id
  unfolding can_on_list new_principal
  principal_for-holds t s required list_id one one_each =
      or_if (contains (tenant_permissions s.user_id t) required)
        (contains (for_list (list_permissions s.user_id t) list_id) required)
      ∙ ap₂ (λ a b. a || b) (tenant_rows-held s.user_id required t.roles t.user_roles one)
          (list_rows-held s.user_id required t list_id t.list_roles one_each)

  or_unauthenticated-Post :
      {A : Type 0} (Q : A → Db Tables → Type 0) (m : Query Tables A) (w : Db Tables)
      → ((a : A) → (m w).0 ≡ ok a → Q a (m w).1)
      → Post Q Anywhere (or_unauthenticated env tenant_id m w)
  or_unauthenticated-Post {A} Q m w k = go (m w).0 refl
    where
      go :
          (r : Action.Result Failure A)
          → (m w).0 ≡ r
          → Post Q Anywhere (elim r [ ok a ↦ ok a | err e ↦ err unauthenticated ], (m w).1)
      go (ok a) e = k a e
      go (err x) e = tt

  session-Triple :
      (t : Tables) (token : String)
      → Triple
          (At t)
          (or_unauthenticated env tenant_id (session_by_token (env.hash token)))
          (λ s w. At t w × (select_first (has_token (env.hash token)) t.sessions ≡ some s))
          Anywhere
  unfolding session_by_token
  session-Triple t token = record {
    at = λ w h.
        or_unauthenticated-Post
          (λ s w. At t w × (select_first (has_token (env.hash token)) t.sessions ≡ some s))
          (session_by_token (env.hash token)) w
          λ s e.
            let (same, read) =
              Triple-ok _ w
                (Triple-read t λ t'.
                  found session_not_found (select_first (has_token (env.hash token)) t'.sessions))
                h e in
            (same, found-some session_not_found _ read);
  }

  effective-Triple :
      (t : Tables) (user_id : String)
      → Triple
          (At t)
          (effective_for user_id)
          (λ perms w. At t w × ((tenant_permissions user_id t, list_permissions user_id t) ≡ perms))
          Anywhere
  unfolding effective_for
  effective-Triple t user_id =
      Triple-weaken _
        (Triple-read t λ t'. ok (tenant_permissions user_id t', list_permissions user_id t'))
        λ perms w h. (h.0, ok-injective h.1)

  principal-Triple :
      (t : Tables) (s : Session)
      → Triple
          (At t)
          (principal_of env tenant_id s)
          (λ p w. At t w × (principal_for t s ≡ p))
          Anywhere
  unfolding principal_of
  principal-Triple t s = Triple-bind _ _ (Triple-lift _ λ w h. tt) λ u. Triple-assume λ settled.
      Triple-bind _ _ (Triple-now t) λ now. Triple-bind _ _ (Triple-lift _ λ w h. tt) λ v.
        Triple-assume λ active. Triple-bind _ _ (effective-Triple t s.user_id) λ perms.
          Triple-assume λ same. Triple-weaken _ (Triple-return _) λ p w h. (
            h.0,
            ap (λ x. new_principal PrincipalKind.session tenant_id s.user_id x.0 x.1) same
                ∙ sym h.1,
          )

  -- A principal that AuthenticatePrincipal returns for a token is the user of the session that has
  -- the token. While no user has two tenant roles, nor two roles on one list, CanOnList grants it a
  -- permission on a list, the ones that are not scoped to lists included, exactly if the user's
  -- tenant role holds the permission, or the user's role on that list does.
  pub authenticate-can_on_list :
      (token : String) (w : Db Tables) (required : Permission) (list_id : String) {p : Principal}
      → OneRole w.tables.user_roles
      → OneListRole w.tables.list_roles
      → (authenticate_principal env tenant_id token w).0 ≡ ok p
      → (s : Session) × (select_first (has_token (env.hash token)) w.tables.sessions ≡ some s)
        × (p.actor_id ≡ s.user_id)
        × (can_on_list p required list_id ≡ (
            tenant_role_holds w.tables.roles w.tables.user_roles s.user_id required
            || list_role_holds w.tables.roles w.tables.list_roles s.user_id list_id required))
  unfolding authenticate_principal new_principal
  authenticate-can_on_list token w required list_id one one_each done =
      let t = w.tables in
      let (s, there, same) = Triple-ok _ w (signing_in t) refl done in
      (
        s,
        there,
        ap (λ q. q.actor_id) (sym same),
        subst (λ q. can_on_list q required list_id ≡ holds t s required list_id) same
            (principal_for-holds t s required list_id one one_each),
      )
    where
      signing_in :
          (t : Tables)
          → Triple
              (At t)
              (authenticate_principal env tenant_id token)
              (λ p w'.
                (s : Session) × (select_first (has_token (env.hash token)) t.sessions ≡ some s)
                × (principal_for t s ≡ p))
              Anywhere
      signing_in t = Triple-bind _ _ (session-Triple t token) λ s.
          Triple-assume λ there. Triple-weaken _ (principal-Triple t s) λ p w' h. (s, there, h.1)
