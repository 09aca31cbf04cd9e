-- ===== src/Iam/Closing/Keeps.antt =====
-- Every handler of internal/iam/app/command leaves a closed session closed.
use nvelope.Common.Action.Keeps.{Keeps, Keeps-bind}
use nvelope.Common.Database.{require-ok, found-some}
use nvelope.Common.Database.Invariants.{
  On, Keeps-with_tenant, Keeps-take_fresh, Keeps-read-lift-write, Keeps-read-write,
}
use nvelope.Common.Rows.{
  exists-append, select_first-exists, exists-update, select_first-append, select_first-update,
}
use nvelope.Iam.Closing.{Keyed, Closed, ClosedIn, Session, revoked}
use nvelope.Iam.Permissions.{Result}
use nvelope.Iam.Store.{Env}
use nvelope.Iam.Store.Accounts.{has_token, session_id_is, add_session, update_session}
use nvelope.Common.Action.{ok}
use nvelope.Common.{
  if◌then◌else◌, refl, List, exists_where, Bool, ◌≡◌, select_first, false, some, ◌++◌, ◌∷◌, [],
  Bool-cases, text_eq, inl, inr, sym, arith, ap, update_where, String, ◌∙◌, true, not, ◌||◌,
}
use text.Mathlib.TextEquality.{eq_iff}
use text.Mathlib.TextPositions.{eq_refl}

Keyed-snoc :
    (ss : List Session) (s : Session)
    → Keyed ss
    → exists_where (session_id_is s.id) ss ≡ false
    → Keyed (ss ++ s ∷ [])
Keyed-snoc [] s k h = (refl, tt)
Keyed-snoc (r ∷ ss) s k h = elim (Bool-cases (text_eq r.id s.id)) [
  | inl e ↦ absurd (cc (rw e at h))
  | inr e ↦ (
    rw (exists-append (session_id_is r.id) ss (s ∷ []))
        (rw k.0 (ground (arith, eq_iff s.id r.id, eq_iff r.id s.id))),
    Keyed-snoc ss s k.1 (rw e at h),
  )
]

-- A session that is stored is the first one with its id.
pub by_id :
    (ss : List Session) (test : Session → Bool) (s : Session)
    → Keyed ss
    → select_first test ss ≡ some s
    → select_first (session_id_is s.id) ss ≡ some s
by_id [] test s k h = absurd (cc h)
by_id (r ∷ ss) test s k h = elim (Bool-cases (test r)) [
  | inl e ↦ let same : r ≡ s = cc (rw e at h) in rw (sym same) (rw (eq_refl r.id) refl)
  | inr e ↦
      let rest = by_id ss test s k.1 (rw e at h) in
      elim (Bool-cases (text_eq r.id s.id)) [
        | inl same ↦ absurd (
            cc (
              ap (λ i. exists_where (session_id_is i) ss) ((eq_iff r.id s.id).0 same),
              k.0,
              select_first-exists (session_id_is s.id) ss rest,
            ))
        | inr other ↦ rw other rest
      ]
]

-- What an update of a session writes.
abbrev pub written : Session → Session → Session
written u v = record v { state = u.state; revoked_at = u.revoked_at }

pub Keyed-update :
    (ss : List Session) (p : Session → Bool) (u : Session)
    → Keyed ss
    → Keyed (update_where p (written u) ss)
Keyed-update [] p u k = tt
Keyed-update (s ∷ ss) p u k = (
  rw (chosen_id (p s)) (exists-update (session_id_is s.id) p (written u) (λ v. refl) ss ∙ k.0),
  Keyed-update ss p u k.1,
)
  where
    chosen_id : (b : Bool) → (if b then written u s else s).id ≡ s.id
    chosen_id true = refl
    chosen_id false = refl

module _ (hash : String) (ss : List Session) (c : Closed hash ss) where
  Closed-add :
      (s : Session) → exists_where (session_id_is s.id) ss ≡ false → Closed hash (ss ++ s ∷ [])
  Closed-add s fresh = record {
    keyed = Keyed-snoc ss s c.keyed fresh;
    session = c.session;
    stored = select_first-append (has_token hash) ss (s ∷ []) c.stored;
    revoked_state = c.revoked_state;
  }

  still_revoked :
      (id : String) (s u : Session)
      → select_first (session_id_is id) ss ≡ some s
      → (s.state ≡ revoked → u.state ≡ revoked)
      → (if session_id_is id c.session then written u c.session else c.session).state ≡ revoked
  still_revoked id s u loaded change = elim (Bool-cases (text_eq c.session.id id)) [
    | inr other ↦ rw other c.revoked_state
    | inl same ↦ rw same (
        change (
          let own = by_id ss (has_token hash) c.session c.keyed c.stored in
          let loaded' = rw (sym ((eq_iff c.session.id id).0 same)) at loaded in
          let eq : c.session ≡ s = cc (own, loaded') in
          sym (ap (λ v. v.state) eq) ∙ c.revoked_state))
  ]

  Closed-update :
      (id : String) (s u : Session)
      → select_first (session_id_is id) ss ≡ some s
      → (s.state ≡ revoked → u.state ≡ revoked)
      → Closed hash (update_where (session_id_is id) (written u) ss)
  Closed-update id s u loaded change = record {
    keyed = Keyed-update ss (session_id_is id) u c.keyed;
    session = if session_id_is id c.session then written u c.session else c.session;
    stored =
        select_first-update (has_token hash) (session_id_is id) (written u) (λ v. refl) ss c.stored;
    revoked_state = still_revoked id s u loaded change;
  }

not-true : (a b : Bool) → not (a || b) ≡ true → b ≡ false
not-true true b h = absurd (cc h)
not-true false true h = absurd (cc h)
not-true false false h = refl

module _ (hash : String) where
  pub add_session-Closed :
      (env : Env) (s : Session) → Keeps (On (ClosedIn hash)) (add_session env s)
  unfolding add_session
  add_session-Closed env s = Keeps-with_tenant _ (
      Keeps-bind _ _ Keeps-take_fresh λ n. Keeps-read-write _ _ λ t a c fresh.
        Closed-add hash t.sessions c (record s { id = env.uuid n })
          (not-true _ _ (require-ok _ _ fresh)))

  pub update_session-Closed :
      (id : String) (f : Session → Result Session)
      → ((s u : Session) → f s ≡ ok u → s.state ≡ revoked → u.state ≡ revoked)
      → Keeps (On (ClosedIn hash)) (update_session id f)
  unfolding update_session
  update_session-Closed id f change = Keeps-with_tenant _ (
      Keeps-read-lift-write _ _ _ λ t s u c loaded updated.
        Closed-update hash t.sessions c id s u (found-some _ _ loaded) (change s u updated))
