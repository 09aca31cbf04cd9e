-- ===== src/Iam/Closing/Commands.antt =====
-- Every handler of internal/iam/app/command leaves a closed session closed, and it authenticates
-- nothing.
use nvelope.Iam.Sessions.{TenantUser}
use nvelope.Iam.Closing.Keeps.{add_session-Closed}
use nvelope.Iam.Commands.{all_roles}
use nvelope.Iam.Store.Accounts.{
  add_user, get_user, by_platform_user, update_user, session_by_token, add_key, key_by_hash,
  revoke_stored_key, touch_last_used, add_batch, consume, delete_codes, effective_for, record_audit,
}
use mathlib.Core.Path.{subst}
use nvelope.Iam.Roles.{Role, ApiKey}
use nvelope.Iam.Store.{
  add_role, update_role, load_role, delete_role, assign_tenant_role, assign_list_role,
  remove_list_role,
}
use nvelope.Iam.Closing.{Closed, ClosedIn, Tables, Env}
use nvelope.Common.{refl, String, ◌≡◌, List}
use nvelope.Iam.Permissions.{Result}
use nvelope.Common.Action.Keeps.{Keeps, keeps_rules}
use nvelope.Common.Database.{write}
use nvelope.Common.Database.Invariants.{
  On, Keeps-with_tenant, Keeps-read, Keeps-write, Keeps-time_now, Keeps-take_fresh,
}

-- A write that leaves the sessions alone.
pub Keeps-other :
    {A : Type 0} {hash : String} (f : Tables → A × Tables)
    → ((t : Tables) → t.sessions ≡ (f t).1.sessions)
    → Keeps (On (ClosedIn hash)) (write f)
Keeps-other {hash} f same = Keeps-write f λ t c. subst (Closed hash) (same t) c

pub ruleset other_rules =
    (keeps_rules, Keeps-with_tenant, Keeps-read, Keeps-time_now, Keeps-take_fresh, Keeps-other)

module _ {hash : String} where
  pub add_role-Closed : (env : Env) (r : Role) → Keeps (On (ClosedIn hash)) (add_role env r)
  unfolding add_role
  add_role-Closed env r = search other_rules

  pub update_role-Closed :
      (id : String) (f : Role → Result Role) → Keeps (On (ClosedIn hash)) (update_role id f)
  unfolding update_role load_role
  update_role-Closed id f = search other_rules

  pub delete_role-Closed : (id : String) → Keeps (On (ClosedIn hash)) (delete_role id)
  unfolding delete_role
  delete_role-Closed id = search other_rules

  pub assign_tenant_role-Closed :
      (env : Env) (u r : String) → Keeps (On (ClosedIn hash)) (assign_tenant_role env u r)
  unfolding assign_tenant_role
  assign_tenant_role-Closed env u r = search other_rules

  pub assign_list_role-Closed :
      (env : Env) (u l r : String) → Keeps (On (ClosedIn hash)) (assign_list_role env u l r)
  unfolding assign_list_role
  assign_list_role-Closed env u l r = search other_rules

  pub remove_list_role-Closed : (u l : String) → Keeps (On (ClosedIn hash)) (remove_list_role u l)
  unfolding remove_list_role
  remove_list_role-Closed u l = search other_rules

  pub add_user-Closed : (env : Env) (u : TenantUser) → Keeps (On (ClosedIn hash)) (add_user env u)
  unfolding add_user
  add_user-Closed env u = search other_rules

  pub get_user-Closed : (id : String) → Keeps (On (ClosedIn hash)) (get_user id)
  unfolding get_user
  get_user-Closed id = search other_rules

  pub by_platform_user-Closed : (id : String) → Keeps (On (ClosedIn hash)) (by_platform_user id)
  unfolding by_platform_user
  by_platform_user-Closed id = search other_rules

  pub update_user-Closed :
      (id : String) (f : TenantUser → Result TenantUser)
      → Keeps (On (ClosedIn hash)) (update_user id f)
  unfolding update_user
  update_user-Closed id f = search other_rules

  pub session_by_token-Closed : (h : String) → Keeps (On (ClosedIn hash)) (session_by_token h)
  unfolding session_by_token
  session_by_token-Closed h = search other_rules

  pub add_key-Closed : (env : Env) (k : ApiKey) → Keeps (On (ClosedIn hash)) (add_key env k)
  unfolding add_key
  add_key-Closed env k = search other_rules

  pub key_by_hash-Closed : (h : String) → Keeps (On (ClosedIn hash)) (key_by_hash h)
  unfolding key_by_hash
  key_by_hash-Closed h = search other_rules

  pub revoke_stored_key-Closed : (id : String) → Keeps (On (ClosedIn hash)) (revoke_stored_key id)
  unfolding revoke_stored_key
  revoke_stored_key-Closed id = search other_rules

  pub touch_last_used-Closed : (id : String) → Keeps (On (ClosedIn hash)) (touch_last_used id)
  unfolding touch_last_used
  touch_last_used-Closed id = search other_rules

  pub add_batch-Closed :
      (u : String) (hs : List String) → Keeps (On (ClosedIn hash)) (add_batch u hs)
  unfolding add_batch
  add_batch-Closed u hs = search other_rules

  pub consume-Closed : (u h : String) → Keeps (On (ClosedIn hash)) (consume u h)
  unfolding consume
  consume-Closed u h = search other_rules

  pub delete_codes-Closed : (u : String) → Keeps (On (ClosedIn hash)) (delete_codes u)
  unfolding delete_codes
  delete_codes-Closed u = search other_rules

  pub all_roles-Closed :
      (env : Env) (tenant_id : String) → Keeps (On (ClosedIn hash)) (all_roles env tenant_id)
  unfolding all_roles
  all_roles-Closed env tenant_id = search other_rules

  pub effective_for-Closed : (u : String) → Keeps (On (ClosedIn hash)) (effective_for u)
  unfolding effective_for
  effective_for-Closed u = search other_rules

  pub record_audit-Closed : (a b c : String) → Keeps (On (ClosedIn hash)) (record_audit a b c)
  unfolding record_audit
  record_audit-Closed a b c = record { at = (Keeps-with_tenant _ (Keeps-other _ λ t. refl)).at }

pub ruleset stored_rules = (
  other_rules, add_role-Closed, update_role-Closed, delete_role-Closed, assign_tenant_role-Closed,
  assign_list_role-Closed, remove_list_role-Closed, add_user-Closed, get_user-Closed,
  by_platform_user-Closed, update_user-Closed, session_by_token-Closed, add_key-Closed,
  key_by_hash-Closed, revoke_stored_key-Closed, touch_last_used-Closed, add_batch-Closed,
  consume-Closed, delete_codes-Closed, all_roles-Closed, effective_for-Closed, record_audit-Closed,
  add_session-Closed,
)
