-- ===== src/Iam/Tests.antt =====
-- Runs of internal/iam on concrete inputs, and the witnesses of its theorems.
use nvelope.Common.Database.{Db, with_tenant, read, write, time_now}
use nvelope.Iam.Sessions.{RecoveryCode, Session, active, is_active}
use nvelope.Iam.Permissions.{
  contains, new_permission, dedupe_permissions, collect, unknown_permission, is_list_scoped,
}
use nvelope.Iam.Roles.{Role, new_role, check_permissions}
use nvelope.Common.{
  refl, ◌∷◌, ◌≡◌, true, [], ◌≢◌, false, text_eq, none, trim_space, select_first, some, ◌||◌,
}
use nvelope.Common.Action.{ok, err, ◌>>=◌}
use nvelope.Iam.Store.{Tables, Env, unauthenticated}
use nvelope.Iam.Store.Accounts.{consume, session_by_token, update_session, effective_for, has_token}
use nvelope.Iam.Commands.{issue_api_key, close_session, authenticate_principal, principal_of}
use nvelope.Iam.Commands.Granted.{authenticate-can_on_list}
use nvelope.Iam.Commands.Held.{tenant_role_holds, list_role_holds}
use nvelope.Iam.Commands.Recovery.{consume-once}
use nvelope.Iam.Closing.{perform_all, open_a_session, open_a_session}
use nvelope.Iam.Closing.Forever.{close-forever}
use nvelope.Iam.Roles.Sound.{created, IsValid, Reachable-IsValid}
use nvelope.Iam.Principals.{Principal, can_on_list, new_principal, PrincipalKind}

-- A role given the same permission twice holds it once.
abbrev readers : Role
readers = record { id = ""; tenant_id = "t1"; name = "Readers"; permissions = "lists:get" ∷ [] }

made_readers : new_role "t1" " Readers " ("lists:get" ∷ "lists:get" ∷ []) ≡ ok readers
unfolding new_role check_permissions new_permission contains dedupe_permissions collect trim_space
made_readers = refl

unknown_refused :
    new_role "t1" "R" ("lists:explode" ∷ []) ≡ err (unknown_permission "lists:explode")
unfolding new_role check_permissions new_permission contains trim_space
unknown_refused = refl

Reachable-IsValid_example : IsValid readers
Reachable-IsValid_example =
    Reachable-IsValid (created "t1" " Readers " ("lists:get" ∷ "lists:get" ∷ []) made_readers)

abbrev ada : Principal
ada = record {
  kind = PrincipalKind.session;
  tenant_id = "t1";
  actor_id = "u1";
  tenant_permissions = "lists:get" ∷ [];
  list_permissions = ("l1", "lists:manage" ∷ []) ∷ [];
}

manages_l1 : can_on_list ada "lists:manage" "l1" ≡ true
unfolding can_on_list contains
manages_l1 = refl

not_l2 : can_on_list ada "lists:manage" "l2" ≡ false
unfolding can_on_list contains
not_l2 = refl

-- A toy environment: one id, one token, and a hash that is the text itself.
abbrev env : Env
env = record {
  uuid = λ n. "id";
  token = λ n. ok "secret";
  hash = λ s. s;
  lower = λ s. s;
  valid_uuid = λ s. true;
  encrypt = λ s. ok s;
  decrypt = λ s. ok s;
  validate = λ s c. text_eq s c;
}

abbrev empty : Tables
empty = record {
  roles = [];
  user_roles = [];
  list_roles = [];
  users = [];
  sessions = [];
  api_keys = [];
  codes = [];
  audit = [];
}

abbrev session_one : Session
session_one = record {
  id = "s1";
  tenant_id = "t1";
  user_id = "u1";
  token_hash = "secret";
  state = active;
  expires_at = 100;
  revoked_at = none;
}

abbrev code_one : RecoveryCode
code_one = record { user_id = "u1"; code_hash = "c"; used_at = none }

abbrev signed_in : Db Tables
signed_in = record {
  tables = record empty { sessions = session_one ∷ []; codes = code_one ∷ [] };
  faults = [];
  fresh = 0;
  now = 50;
}

signed_in_works :
    (authenticate_principal env "t1" "secret" signed_in).0
    ≡ ok (new_principal PrincipalKind.session "t1" "u1" [] [])
unfolding authenticate_principal principal_of session_by_token effective_for with_tenant read
    time_now is_active ◌>>=◌ new_principal
signed_in_works = refl

-- The list's role grants a permission that is not scoped to lists.
abbrev staffed : Db Tables
staffed = record signed_in {
  tables = record empty {
    sessions = session_one ∷ [];
    roles =
        record readers { id = "r1" }
        ∷ record readers { id = "r2"; permissions = "campaigns:manage" ∷ [] }
        ∷ [];
    user_roles = record { user_id = "u1"; role_id = "r1" } ∷ [];
    list_roles = record { user_id = "u1"; list_id = "l1"; role_id = "r2" } ∷ [];
  };
}

abbrev grace : Principal
grace =
    new_principal PrincipalKind.session "t1" "u1" ("lists:get" ∷ [])
      (("l1", "campaigns:manage" ∷ []) ∷ [])

grace_signed_in : (authenticate_principal env "t1" "secret" staffed).0 ≡ ok grace
unfolding authenticate_principal principal_of session_by_token effective_for with_tenant read
    time_now is_active ◌>>=◌ new_principal
grace_signed_in = refl

grants_unscoped :
    (can_on_list grace "campaigns:manage" "l1" ≡ true) × (is_list_scoped "campaigns:manage" ≡ false)
unfolding can_on_list contains new_principal is_list_scoped
grants_unscoped = (refl, refl)

authenticate-can_on_list_example :
    (s : Session) × (select_first (has_token "secret") staffed.tables.sessions ≡ some s)
    × (grace.actor_id ≡ s.user_id)
    × (can_on_list grace "campaigns:manage" "l1" ≡ (
        tenant_role_holds staffed.tables.roles staffed.tables.user_roles s.user_id
          "campaigns:manage"
        || list_role_holds staffed.tables.roles staffed.tables.list_roles s.user_id "l1"
            "campaigns:manage"))
authenticate-can_on_list_example =
    authenticate-can_on_list env "t1" "secret" staffed "campaigns:manage" "l1" (refl, tt) (refl, tt)
      grace_signed_in

looked_up : (session_by_token (env.hash "secret") signed_in).0 ≡ ok session_one
unfolding session_by_token with_tenant read
looked_up = refl

closed : (close_session env "t1" "secret" signed_in).0 ≡ ok tt
unfolding close_session update_session session_by_token with_tenant read write ◌>>=◌
closed = refl

close-forever_example :
    (authenticate_principal env "t1" "secret" (
      perform_all env "t1" "u1"
        ((60, open_a_session 40 "p1" "a@b.c" "Ada") ∷ [])
        (close_session env "t1" "secret" signed_in).1)).0
    ≡ err unauthenticated
close-forever_example =
    close-forever env "t1" "u1" "secret" signed_in (refl, tt) looked_up closed
      ((60, open_a_session 40 "p1" "a@b.c" "Ada") ∷ [])

consumed : (consume "u1" "c" signed_in).0 ≡ ok true
unfolding consume with_tenant write time_now ◌>>=◌
consumed = refl

consume-once_example : (consume "u1" "c" (consume "u1" "c" signed_in).1).0 ≢ ok true
consume-once_example = consume-once "u1" "c" signed_in (consume "u1" "c" signed_in).1 consumed refl

abbrev after_issue : Db Tables
after_issue = (issue_api_key env "t1" "u1" "CI" ("lists:get" ∷ []) signed_in).1
