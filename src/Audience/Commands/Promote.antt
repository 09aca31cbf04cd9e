-- ===== src/Audience/Commands/Promote.antt =====
-- A confirmation of internal/audience/app/command/confirm_subscription.go that succeeds: whom it
-- confirms, on which lists, and what becomes of the submission.

use nvelope.Common.Rows.{select_where-first, All-weaken, exists-select_not}
use mathlib.Core.Path.{subst}
use nvelope.Audience.Memberships.{Membership}
use nvelope.Common.Action.Triple.{
  Triple, Triple-bind, Triple-weaken, Triple-from_ok, Triple-lift, Triple-ok, Triple-return,
  Triple-assume,
}
use nvelope.Common.Database.{Db, read, write}
use nvelope.Common.Database.Inversion.{with_tenant-eq-ok}
use nvelope.Audience.Subscribers.{Pending, Subscriber}
use nvelope.Audience.Commands.{promote, resolve_id, first_id, confirm_all, newly_confirmed}
use nvelope.Audience.Commands.Confirm.{
  Joining, confirm_all-Joining, confirmed_member, Joins, Anywhere,
}
use nvelope.Audience.Store.{Tables, Env, matches, search_one, delete_pending}
use nvelope.Common.{
  refl, String, List, select_first, take, ◌≡◌, Bool, select_where, some, exists_where, true, All,
  ◌∷◌, text_eq, ◌||◌, false, ap, inr, sym, [], inl,
}
use nvelope.Common.Action.{ok, ok-injective, ◌>>◌, pure}
use text.Mathlib.TextPositions.{eq_refl}

-- The newest subscriber that the search for the address finds, by its id.
record Resolved (env : Env) (email id : String) (w : Db Tables) : Type 0 where
  subscriber : Subscriber
  newest : select_first (matches env email) w.tables.subscribers ≡ some subscriber
  same_id : subscriber.id ≡ id

first_found :
    (env : Env) (email : String) (w : Db Tables) (rows selected : List Subscriber) {id : String}
    → select_where (matches env email) w.tables.subscribers ≡ selected
    → take 1 selected ≡ rows
    → first_id rows ≡ ok id
    → Resolved env email id w
first_found env email w rows [] chosen cut named = absurd (cc (rw (sym cut) at named))
first_found env email w rows (s ∷ rest) chosen cut named = record {
  subscriber = s;
  newest = select_where-first (matches env email) w.tables.subscribers chosen;
  same_id = ok-injective (rw (sym cut) at named);
}

-- Every list is still to come at the start of the loop.
all_to_come :
    (id : String) (ms : List Membership) (todo lists : List String)
    → ((test : String → Bool) → exists_where test lists ≡ true → exists_where test todo ≡ true)
    → All (Joins id ms todo) lists
all_to_come id ms todo [] k = tt
all_to_come id ms todo (l ∷ lists) k = (
  inr (k (λ x. text_eq x l) (rw (eq_refl l) refl)),
  all_to_come id ms todo lists λ test h. k test (or_true (test l) _ h),
)
  where
    or_true : (a b : Bool) → b ≡ true → (a || b) ≡ true
    or_true true b h = refl
    or_true false b h = h

-- After the promotion of a submission: the newest subscriber that the search for its address finds
-- is confirmed on each of its lists, and the submission is gone.
pub record Promoted (env : Env) (p : Pending) (t : Tables) : Type 0 where
  pub subscriber : Subscriber
  pub newest : select_first (matches env p.email) t.subscribers ≡ some subscriber
  pub joined :
      All
        (λ l. exists_where (confirmed_member subscriber.id l) t.memberships ≡ true)
        p.target_list_ids
  pub removed : exists_where (λ q. text_eq q.id p.id) t.pending ≡ false

module _ (env : Env) (email : String) where
  search_one-Triple :
      Triple Anywhere
        (search_one env email)
        (λ rows w. take 1 (select_where (matches env email) w.tables.subscribers) ≡ rows)
        Anywhere
  unfolding search_one read
  search_one-Triple =
      Triple-from_ok _
        (λ w rows h done.
          let (left, ran) = with_tenant-eq-ok _ w done in
          subst (λ t. take 1 (select_where (matches env email) t.subscribers) ≡ rows)
            (ap (λ x. x.1.tables) ran) (ok-injective (ap (λ x. x.0) ran)))
        λ w. tt

  resolve_id-Triple :
      (tenant_id : String)
      → Triple Anywhere (resolve_id env tenant_id email) (λ id w. Resolved env email id w) Anywhere
  unfolding resolve_id
  resolve_id-Triple tenant_id = Triple-bind _ _ search_one-Triple λ rows.
      Triple-weaken _ (Triple-lift (first_id rows) λ w h. tt)
        λ id w h. first_found env email w rows _ refl h.0 h.1

record SomeJoining (env : Env) (p : Pending) (w : Db Tables) : Type 0 where
  subscriber : Subscriber
  joining : Joining env p.email subscriber p.target_list_ids [] w

module _ (env : Env) (tenant_id : String) (p : Pending) where
  -- Deleting the submission leaves the rest.
  delete_pending-Promoted :
      (s : Subscriber) (w : Db Tables) {u : Unit {0}}
      → Joining env p.email s p.target_list_ids [] w
      → (delete_pending p.id w).0 ≡ ok u
      → Promoted env p (delete_pending p.id w).1.tables
  unfolding delete_pending write
  delete_pending-Promoted s w j done =
      let (left, ran) = with_tenant-eq-ok _ w done in
      subst (Promoted env p) (ap (λ x. x.1.tables) ran) (record {
        subscriber = s;
        newest = j.newest;
        joined = All-weaken p.target_list_ids (λ l h. over l h) j.joins;
        removed = exists-select_not (λ q. text_eq q.id p.id) w.tables.pending;
      })
    where
      over :
          (l : String)
          → Joins s.id w.tables.memberships [] l
          → exists_where (confirmed_member s.id l) w.tables.memberships ≡ true
      over l (inl there) = there
      over l (inr later) = absurd (cc later)

  confirm-Resolved :
      (id : String) (w : Db Tables) {u : Unit {0}}
      → Resolved env p.email id w
      → (confirm_all id p.target_list_ids w).0 ≡ ok u
      → SomeJoining env p (confirm_all id p.target_list_ids w).1
  confirm-Resolved id w r done = rw (sym r.same_id) (record {
    subscriber = r.subscriber;
    joining =
        Triple-ok _ w
          (confirm_all-Joining env p.email r.subscriber p.target_list_ids p.target_list_ids)
          (record {
            newest = r.newest;
            joins =
                all_to_come r.subscriber.id w.tables.memberships p.target_list_ids p.target_list_ids
                  λ test h. h;
          })
          (rw (sym r.same_id) at done);
  })

  finish-Triple :
      (id : String)
      → Triple
          (Resolved env p.email id)
          (confirm_all id p.target_list_ids >> (delete_pending p.id >> pure newly_confirmed))
          (λ c w. Promoted env p w.tables × (c ≡ newly_confirmed))
          Anywhere
  finish-Triple id =
      Triple-bind _ _
        (Triple-from_ok {Q = λ u w. SomeJoining env p w} _
          (λ w u r done. confirm-Resolved id w r done) λ w. tt)
        λ u.
          Triple-bind _ _
            (Triple-from_ok {Q = λ u w. Promoted env p w.tables} _
              (λ w v j done. delete_pending-Promoted j.subscriber w j.joining done) λ w. tt)
            λ v. Triple-return newly_confirmed

  pub promote-Triple :
      Triple Anywhere
        (promote env tenant_id p)
        (λ c w. Promoted env p w.tables × (c ≡ newly_confirmed))
        Anywhere
  unfolding promote
  promote-Triple =
      Triple-bind _ _ (Triple-from_ok {Q = λ n w. Anywhere w} _ (λ w n h e. tt) λ w. tt) λ now.
        Triple-bind _ _ (Triple-lift _ λ w h. tt) λ a. Triple-assume λ fresh.
          Triple-bind _ _ (Triple-from_ok {Q = λ n w. Anywhere w} _ (λ w n h e. tt) λ w. tt)
            λ barred. Triple-bind _ _ (Triple-lift _ λ w h. tt) λ b. Triple-assume λ allowed.
              Triple-bind _ _ (Triple-lift _ λ w h. tt) λ sub. Triple-assume λ made.
                Triple-bind _ _ (Triple-from_ok {Q = λ n w. Anywhere w} _ (λ w n h e. tt) λ w. tt)
                  λ created.
                    Triple-bind _ _ (resolve_id-Triple env p.email tenant_id) λ id. finish-Triple id
