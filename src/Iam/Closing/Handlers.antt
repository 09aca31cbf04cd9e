-- ===== src/Iam/Closing/Handlers.antt =====
-- Every handler of internal/iam/app leaves a closed session closed.
use nvelope.Common.Calendar.{Duration, Time}
use nvelope.Iam.Store.Accounts.{by_platform_user, update_session}
use nvelope.Platform.Apperr.{Failure, is_slug}
use nvelope.Iam.Store.{Env, Iam, Tables}
use nvelope.Iam.Sessions.{Session, revoked, revoke, complete_totp, TenantUser}
use nvelope.Iam.Roles.{ApiKey}
use nvelope.Iam.Commands.{
  principal_of_key, open_workspace_session, close_session, verify_totp_challenge, confirm_totp,
  authenticate_api_key, bootstrap_owner, provision, challenge_met, or_provision, or_unauthenticated,
  ignore_error, close_found, fresh_codes, create_role, change_role, drop_role, assign_role,
  grant_list_role, revoke_list_role, issue_api_key, revoke_api_key, stop_totp,
}
use nvelope.Iam.Closing.{
  ClosedIn, Command, perform, perform_all, create_a_role, change_a_role, drop_a_role, assign_a_role,
  grant_a_list_role, revoke_a_list_role, issue_a_key, revoke_a_key, open_a_session, close_a_session,
  meet_the_challenge, confirm_enrolment, stop_two_factor, use_a_key,
}
use nvelope.Iam.Closing.Keeps.{update_session-Closed}
use nvelope.Iam.Closing.Commands.{stored_rules, session_by_token-Closed, by_platform_user-Closed}
use nvelope.Common.{
  if◌then◌else◌, String, Bool, true, false, ◌≡◌, Bool-cases, ap, inl, sym, inr, ℕ, suc, zero, List,
  ◌∷◌, [],
}
use nvelope.Common.Action.{ok, err, ok-injective}
use nvelope.Common.Action.{Result as Outcome}
use nvelope.Common.Action.Keeps.{Keeps, Keeps-bind, Keeps-lift, Keeps-pure}
use nvelope.Common.Database.{Db}
use nvelope.Common.Database.Invariants.{On, Keeps-take_fresh}

complete_totp-revoked :
    (s u : Session) → complete_totp s ≡ ok u → s.state ≡ revoked → u.state ≡ revoked
unfolding complete_totp
complete_totp-revoked s u done gone = absurd (cc (rw gone at done))

module _ {hash : String} where
  bootstrap_owner-Closed :
      (env : Env) (tenant_id : String) (b : Bool) (u : String)
      → Keeps (On (ClosedIn hash)) (bootstrap_owner env tenant_id b u)
  unfolding bootstrap_owner
  bootstrap_owner-Closed env tenant_id true u = search stored_rules
  bootstrap_owner-Closed env tenant_id false u = search stored_rules

  provision-Closed :
      (env : Env) (tenant_id a b c : String)
      → Keeps (On (ClosedIn hash)) (provision env tenant_id a b c)
  unfolding provision
  provision-Closed env tenant_id a b c = search (stored_rules, bootstrap_owner-Closed)

  or_provision-Closed :
      (env : Env) (tenant_id : String) (r : Outcome Failure TenantUser × Db Tables)
      (m : Iam TenantUser)
      → On (ClosedIn hash) r.1
      → Keeps (On (ClosedIn hash)) m
      → On (ClosedIn hash) (or_provision env tenant_id r m).1
  or_provision-Closed env tenant_id (ok u, w) m h k = h
  or_provision-Closed env tenant_id (err e, w) m h k =
      elim (Bool-cases (is_slug "user_not_found" e)) [
        | inl missing ↦ rw missing (k.at w h)
        | inr other ↦ rw other h
      ]

  found_or_provisioned :
      (env : Env) (tenant_id p e n : String)
      → Keeps
          (On (ClosedIn hash))
          (λ w. or_provision env tenant_id (by_platform_user p w) (provision env tenant_id p e n))
  found_or_provisioned env tenant_id p e n = record {
    at = λ w h.
        or_provision-Closed env tenant_id _ _ ((by_platform_user-Closed p).at w h)
          (provision-Closed env tenant_id p e n);
  }

  open_workspace_session-Closed :
      (env : Env) (tenant_id : String) (ttl : Duration) (p e n : String)
      → Keeps (On (ClosedIn hash)) (open_workspace_session env tenant_id ttl p e n)
  unfolding open_workspace_session
  open_workspace_session-Closed env tenant_id ttl p e n =
      search (stored_rules, found_or_provisioned) depth 12

  close_found-Closed :
      (env : Env) (tenant_id : String) (r : Outcome Failure Session × Db Tables)
      → On (ClosedIn hash) r.1
      → On (ClosedIn hash) (close_found env tenant_id r).1
  unfolding revoke
  close_found-Closed env tenant_id (err e, w) h = h
  close_found-Closed env tenant_id (ok s, w) h =
      (update_session-Closed hash s.id (λ v. ok (revoke w.now v))
          λ v u e c. ap (λ x. x.state) (sym (ok-injective e))).at
        w h

  close_session-Closed :
      (env : Env) (tenant_id token : String)
      → Keeps (On (ClosedIn hash)) (close_session env tenant_id token)
  unfolding close_session
  close_session-Closed env tenant_id token = record {
    at = λ w h. close_found-Closed env tenant_id _ ((session_by_token-Closed _).at w h);
  }

  or_unauthenticated-Closed :
      {A : Type 0} (env : Env) (tenant_id : String) (m : Iam A)
      → Keeps (On (ClosedIn hash)) m
      → Keeps (On (ClosedIn hash)) (or_unauthenticated env tenant_id m)
  or_unauthenticated-Closed env tenant_id m k = record { at = λ w h. k.at w h }

  ignore_error-Closed :
      (env : Env) (tenant_id : String) (m : Iam (Unit {0}))
      → Keeps (On (ClosedIn hash)) m
      → Keeps (On (ClosedIn hash)) (ignore_error env tenant_id m)
  ignore_error-Closed env tenant_id m k = record { at = λ w h. k.at w h }

  either-Closed :
      {A : Type 0} (b : Bool) (m n : Iam A)
      → Keeps (On (ClosedIn hash)) m
      → Keeps (On (ClosedIn hash)) n
      → Keeps (On (ClosedIn hash)) (if b then m else n)
  either-Closed true m n k l = k
  either-Closed false m n k l = l

  challenge_met-Closed :
      (env : Env) (tenant_id code : String) (u : TenantUser)
      → Keeps (On (ClosedIn hash)) (challenge_met env tenant_id code u)
  unfolding challenge_met
  challenge_met-Closed env tenant_id code u = search (stored_rules, either-Closed)

  complete_stored : (id : String) → Keeps (On (ClosedIn hash)) (update_session id complete_totp)
  complete_stored id = update_session-Closed hash id complete_totp complete_totp-revoked

  verify_totp_challenge-Closed :
      (env : Env) (tenant_id token code : String)
      → Keeps (On (ClosedIn hash)) (verify_totp_challenge env tenant_id token code)
  unfolding verify_totp_challenge
  verify_totp_challenge-Closed env tenant_id token code =
      search (stored_rules, or_unauthenticated-Closed, challenge_met-Closed, complete_stored) depth
        12

  fresh_codes-Closed :
      (env : Env) (tenant_id : String) (k : ℕ)
      → Keeps (On (ClosedIn hash)) (fresh_codes env tenant_id k)
  unfolding fresh_codes
  fresh_codes-Closed env tenant_id zero = search stored_rules
  fresh_codes-Closed env tenant_id (suc k) = Keeps-bind _ _ Keeps-take_fresh λ n.
      Keeps-bind _ _ (Keeps-lift _)
        λ c. Keeps-bind _ _ (fresh_codes-Closed env tenant_id k) λ rest. Keeps-pure _

  confirm_totp-Closed :
      (env : Env) (tenant_id u s c : String)
      → Keeps (On (ClosedIn hash)) (confirm_totp env tenant_id u s c)
  unfolding confirm_totp
  confirm_totp-Closed env tenant_id u s c = search (stored_rules, fresh_codes-Closed) depth 12

  principal_of_key-Closed :
      (env : Env) (tenant_id : String) (key : ApiKey)
      → Keeps (On (ClosedIn hash)) (principal_of_key env tenant_id key)
  unfolding principal_of_key
  principal_of_key-Closed env tenant_id key = search (stored_rules, ignore_error-Closed)

  authenticate_api_key-Closed :
      (env : Env) (tenant_id key : String)
      → Keeps (On (ClosedIn hash)) (authenticate_api_key env tenant_id key)
  unfolding authenticate_api_key
  authenticate_api_key-Closed env tenant_id key =
      search (stored_rules, or_unauthenticated-Closed, principal_of_key-Closed)

module _ {hash : String} (env : Env) (tenant_id actor_id : String) where
  create_role-Closed :
      (n : String) (ps : List String)
      → Keeps (On (ClosedIn hash)) (create_role env tenant_id actor_id n ps)
  unfolding create_role
  create_role-Closed n ps = search stored_rules depth 12

  change_role-Closed :
      (r n : String) (ps : List String)
      → Keeps (On (ClosedIn hash)) (change_role env tenant_id actor_id r n ps)
  unfolding change_role
  change_role-Closed r n ps = search stored_rules depth 12

  drop_role-Closed : (r : String) → Keeps (On (ClosedIn hash)) (drop_role env tenant_id actor_id r)
  unfolding drop_role
  drop_role-Closed r = search stored_rules

  assign_role-Closed :
      (u r : String) → Keeps (On (ClosedIn hash)) (assign_role env tenant_id actor_id u r)
  unfolding assign_role
  assign_role-Closed u r = search stored_rules

  grant_list_role-Closed :
      (u l r : String) → Keeps (On (ClosedIn hash)) (grant_list_role env tenant_id actor_id u l r)
  unfolding grant_list_role
  grant_list_role-Closed u l r = search stored_rules

  revoke_list_role-Closed :
      (u l : String) → Keeps (On (ClosedIn hash)) (revoke_list_role env tenant_id actor_id u l)
  unfolding revoke_list_role
  revoke_list_role-Closed u l = search stored_rules

  issue_api_key-Closed :
      (n : String) (ps : List String)
      → Keeps (On (ClosedIn hash)) (issue_api_key env tenant_id actor_id n ps)
  unfolding issue_api_key
  issue_api_key-Closed n ps = search stored_rules depth 12

  revoke_api_key-Closed :
      (k : String) → Keeps (On (ClosedIn hash)) (revoke_api_key env tenant_id actor_id k)
  unfolding revoke_api_key
  revoke_api_key-Closed k = search stored_rules

  stop_totp-Closed : (u : String) → Keeps (On (ClosedIn hash)) (stop_totp env tenant_id u)
  unfolding stop_totp
  stop_totp-Closed u = search stored_rules

module _ {hash : String} (env : Env) (tenant_id actor_id : String) where
  perform-Closed : (c : Command) → Keeps (On (ClosedIn hash)) (perform env tenant_id actor_id c)
  unfolding perform
  perform-Closed (create_a_role name ps) =
      Keeps-bind _ _ (create_role-Closed env tenant_id actor_id name ps) λ r. Keeps-pure _
  perform-Closed (change_a_role id name ps) = change_role-Closed env tenant_id actor_id id name ps
  perform-Closed (drop_a_role id) = drop_role-Closed env tenant_id actor_id id
  perform-Closed (assign_a_role user_id role_id) =
      assign_role-Closed env tenant_id actor_id user_id role_id
  perform-Closed (grant_a_list_role user_id list_id role_id) =
      grant_list_role-Closed env tenant_id actor_id user_id list_id role_id
  perform-Closed (revoke_a_list_role user_id list_id) =
      revoke_list_role-Closed env tenant_id actor_id user_id list_id
  perform-Closed (issue_a_key name ps) =
      Keeps-bind _ _ (issue_api_key-Closed env tenant_id actor_id name ps) λ r. Keeps-pure _
  perform-Closed (revoke_a_key id) = revoke_api_key-Closed env tenant_id actor_id id
  perform-Closed (open_a_session ttl p e n) =
      Keeps-bind _ _ (open_workspace_session-Closed env tenant_id ttl p e n) λ r. Keeps-pure _
  perform-Closed (close_a_session token) = close_session-Closed env tenant_id token
  perform-Closed (meet_the_challenge token code) =
      verify_totp_challenge-Closed env tenant_id token code
  perform-Closed (confirm_enrolment u s c) =
      Keeps-bind _ _ (confirm_totp-Closed env tenant_id u s c) λ r. Keeps-pure _
  perform-Closed (stop_two_factor user_id) = stop_totp-Closed env tenant_id actor_id user_id
  perform-Closed (use_a_key key) =
      Keeps-bind _ _ (authenticate_api_key-Closed env tenant_id key) λ r. Keeps-pure _

  pub perform_all-Closed :
      (cs : List (Time × Command)) (w : Db Tables)
      → On (ClosedIn hash) w
      → On (ClosedIn hash) (perform_all env tenant_id actor_id cs w)
  unfolding perform_all
  perform_all-Closed [] w h = h
  perform_all-Closed ((now, c) ∷ cs) w h =
      perform_all-Closed cs _
        ((perform-Closed c).at (record w { now = now }) (record { holds = h.holds }))
