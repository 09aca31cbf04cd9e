-- ===== src/Iam/Closing/Forever.antt =====
-- A session that CloseSession (internal/iam/app/command/sessions.go) has closed authenticates
-- nobody, whatever happens next.
use nvelope.Common.Rows.{select_first-update}
use nvelope.Platform.Apperr.{Failure}
use mathlib.Core.Path.{subst}
use nvelope.Common.Calendar.{Time}
use nvelope.Iam.Sessions.{Session, revoke, is_active, revoked}
use nvelope.Common.Database.{read, Db, write, found-some, time_now}
use nvelope.Common.Database.Invariants.{On}
use nvelope.Common.Database.Inversion.{with_tenant-eq-ok}
use nvelope.Iam.Closing.{Keyed, Closed, ClosedIn, Command, perform_all}
use nvelope.Iam.Closing.Handlers.{perform_all-Closed}
use nvelope.Iam.Closing.Keeps.{by_id, Keyed-update, written}
use nvelope.Iam.Store.{Tables, Env, unauthenticated}
use nvelope.Iam.Store.Accounts.{has_token, session_id_is, session_by_token, update_session}
use nvelope.Iam.Commands.{
  close_session, authenticate_principal, close_found, principal_of, or_unauthenticated,
}
use nvelope.Common.{refl, String, ◌≡◌, select_first, some, ap, sym, ◌∙◌, List}
use nvelope.Common.Action.{ok, err, ◌>>=◌, ok-injective}
use nvelope.Common.Action.{Result as Outcome}
use text.Mathlib.TextPositions.{eq_refl}

module _ (hash : String) (w : Db Tables) where
  session_by_token-eq-ok :
      {s : Session}
      → (session_by_token hash w).0 ≡ ok s
      → (select_first (has_token hash) w.tables.sessions ≡ some s)
        × ((session_by_token hash w).1.tables ≡ w.tables)
  unfolding session_by_token read
  session_by_token-eq-ok h =
      let (left, ran) = with_tenant-eq-ok _ w h in
      (found-some _ _ (ap (λ r. r.0) ran), sym (ap (λ r. r.1.tables) ran))

-- What a completed revocation of a stored session leaves.
revoked-Closed :
    (hash : String) (now : Time) (s : Session) (w : Db Tables)
    → Keyed w.tables.sessions
    → select_first (has_token hash) w.tables.sessions ≡ some s
    → (update_session s.id (λ v. ok (revoke now v)) w).0 ≡ ok tt
    → On (ClosedIn hash) (update_session s.id (λ v. ok (revoke now v)) w).1
unfolding update_session read write revoke ◌>>=◌
revoked-Closed hash now s w keyed stored done =
    let (left, ran) = with_tenant-eq-ok _ w done in
    let ran' = rw (by_id w.tables.sessions (has_token hash) s keyed stored) at ran in
    record {
      holds = subst (Closed hash) (ap (λ r. r.1.tables.sessions) ran') (record {
        keyed = Keyed-update w.tables.sessions (session_id_is s.id) (revoke now s) keyed;
        session = written (revoke now s) s;
        stored =
            select_first-update (has_token hash) (session_id_is s.id) (written (revoke now s))
              (λ v. refl) w.tables.sessions stored
            ∙ rw (eq_refl s.id) refl;
        revoked_state = refl;
      });
    }

close_found-Closed :
    (env : Env) (tenant_id hash : String) (r : Outcome Failure Session × Db Tables) {s : Session}
    → r.0 ≡ ok s
    → select_first (has_token hash) r.1.tables.sessions ≡ some s
    → Keyed r.1.tables.sessions
    → (close_found env tenant_id r).0 ≡ ok tt
    → On (ClosedIn hash) (close_found env tenant_id r).1
close_found-Closed env tenant_id hash (err e, w) found stored keyed done = absurd (cc found)
close_found-Closed env tenant_id hash (ok s', w) found stored keyed done =
    revoked-Closed hash w.now s' w keyed (rw (ok-injective found) stored) done

module _ (env : Env) (tenant_id token : String) (w : Db Tables) where
  closed_now :
      {s : Session}
      → (session_by_token (env.hash token) w).0 ≡ ok s
      → Keyed w.tables.sessions
      → (close_session env tenant_id token w).0 ≡ ok tt
      → On (ClosedIn (env.hash token)) (close_session env tenant_id token w).1
  unfolding close_session
  closed_now found keyed done =
      let (stored, same) = session_by_token-eq-ok (env.hash token) w found in
      close_found-Closed env tenant_id (env.hash token) (session_by_token (env.hash token) w) found
        (rw same stored) (rw same keyed) done

module _ (env : Env) (tenant_id : String) where
  principal_of-revoked :
      (s : Session) (w : Db Tables)
      → s.state ≡ revoked
      → (principal_of env tenant_id s w).0 ≡ err unauthenticated
  unfolding principal_of is_active time_now ◌>>=◌
  principal_of-revoked s w h = rw h refl

  lookup_refused :
      (r : Outcome Failure Session × Db Tables)
      → ((s : Session) → r.0 ≡ ok s → s.state ≡ revoked)
      → (((or_unauthenticated env tenant_id λ w. r) >>= principal_of env tenant_id) r.1).0
        ≡ err unauthenticated
  unfolding ◌>>=◌
  lookup_refused (err e, w) h = refl
  lookup_refused (ok s, w) h = principal_of-revoked s w (h s refl)

  closed_unauthenticated :
      (token : String) (w : Db Tables)
      → On (ClosedIn (env.hash token)) w
      → (authenticate_principal env tenant_id token w).0 ≡ err unauthenticated
  unfolding authenticate_principal ◌>>=◌
  closed_unauthenticated token w c = lookup_refused (session_by_token (env.hash token) w) λ s found.
      let (stored, same) = session_by_token-eq-ok (env.hash token) w found in
      let eq : c.holds.session ≡ s = cc (stored, c.holds.stored) in
      sym (ap (λ v. v.state) eq) ∙ c.holds.revoked_state

-- Where the ids of the sessions differ, a token's session is found and CloseSession succeeds on
-- it, the token authenticates nobody after any commands that follow, at any times and whichever
-- transactions the database fails.
pub close-forever :
    (env : Env) (tenant_id actor_id token : String) (w : Db Tables)
    → Keyed w.tables.sessions
    → {s : Session} → (session_by_token (env.hash token) w).0 ≡ ok s
    → (close_session env tenant_id token w).0 ≡ ok tt
    → (cs : List (Time × Command))
    → (authenticate_principal env tenant_id token
        (perform_all env tenant_id actor_id cs (close_session env tenant_id token w).1)).0
      ≡ err unauthenticated
close-forever env tenant_id actor_id token w keyed found done cs =
    closed_unauthenticated env tenant_id token _ (
      perform_all-Closed env tenant_id actor_id cs _
        (closed_now env tenant_id token w found keyed done))
