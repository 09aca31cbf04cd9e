-- ===== src/Iam/Closing.antt =====
-- A closed workspace session (internal/iam/domain/session.go) stays closed. The handlers as one
-- type of commands, and the invariant that they keep.
pub mod Keeps
pub mod Commands
pub mod Handlers
pub mod Forever
use nvelope.Common.Database.{Db}
use nvelope.Iam.Commands.{
  create_role, change_role, drop_role, assign_role, grant_list_role, revoke_list_role,
  issue_api_key, revoke_api_key, open_workspace_session, close_session, verify_totp_challenge,
  confirm_totp, stop_totp, authenticate_api_key,
}
use nvelope.Common.Calendar.{Duration, Time}
use nvelope.Iam.Sessions.{Session, revoked, active, totp_pending}
use nvelope.Iam.Store.{Tables, Env, Iam}
use nvelope.Iam.Store.Accounts.{has_token, session_id_is}
use nvelope.Common.Action.{pure, ◌>>=◌, ◌>>◌}
use nvelope.Common.{
  if◌then◌else◌, String, List, ◌∷◌, select_first, exists_where, ◌≡◌, [], false, some,
}

pub data Command : Type 0 where
  create_a_role : String → List String → Command
  change_a_role : String → String → List String → Command
  drop_a_role : String → Command
  assign_a_role : String → String → Command
  grant_a_list_role : String → String → String → Command
  revoke_a_list_role : String → String → Command
  issue_a_key : String → List String → Command
  revoke_a_key : String → Command
  open_a_session : Duration → String → String → String → Command
  close_a_session : String → Command
  meet_the_challenge : String → String → Command
  confirm_enrolment : String → String → String → Command
  stop_two_factor : String → Command
  use_a_key : String → Command

module _ (env : Env) (tenant_id actor_id : String) where
  -- The handler of a command, its result forgotten.
  unfoldable pub perform : Command → Iam (Unit {0})
  perform (create_a_role name ps) = create_role env tenant_id actor_id name ps >> pure tt
  perform (change_a_role id name ps) = change_role env tenant_id actor_id id name ps
  perform (drop_a_role id) = drop_role env tenant_id actor_id id
  perform (assign_a_role user_id role_id) = assign_role env tenant_id actor_id user_id role_id
  perform (grant_a_list_role user_id list_id role_id) =
      grant_list_role env tenant_id actor_id user_id list_id role_id
  perform (revoke_a_list_role user_id list_id) =
      revoke_list_role env tenant_id actor_id user_id list_id
  perform (issue_a_key name ps) = issue_api_key env tenant_id actor_id name ps >> pure tt
  perform (revoke_a_key id) = revoke_api_key env tenant_id actor_id id
  perform (open_a_session ttl platform_user_id email name) =
      open_workspace_session env tenant_id ttl platform_user_id email name >> pure tt
  perform (close_a_session token) = close_session env tenant_id token
  perform (meet_the_challenge token code) = verify_totp_challenge env tenant_id token code
  perform (confirm_enrolment user_id secret code) =
      confirm_totp env tenant_id user_id secret code >> pure tt
  perform (stop_two_factor user_id) = stop_totp env tenant_id user_id
  perform (use_a_key key) = authenticate_api_key env tenant_id key >> pure tt

  -- Commands one after the other, errors included, at the times that the list gives.
  unfoldable pub perform_all : List (Time × Command) → Db Tables → Db Tables
  perform_all [] w = w
  perform_all ((now, c) ∷ cs) w = perform_all cs (perform c (record w { now = now })).1

-- The ids of sessions differ: their primary key.
abbrev pub Keyed : List Session → Type 0
Keyed [] = Unit
Keyed (s ∷ ss) = (exists_where (session_id_is s.id) ss ≡ false) × Keyed ss

-- The session with this hash of a token is revoked.
pub record Closed (hash : String) (sessions : List Session) : Type 0 where
  pub keyed : Keyed sessions
  pub session : Session
  pub stored : select_first (has_token hash) sessions ≡ some session
  pub revoked_state : session.state ≡ revoked

abbrev pub ClosedIn : String → Tables → Type 0
ClosedIn hash t = Closed hash t.sessions
