-- ===== src/Audience/Commands/Confirm.antt =====
-- What a confirmation (internal/audience/app/command/confirm_subscription.go) leaves.
use mathlib.Core.Path.{subst}
use nvelope.Platform.Apperr.{Failure, is_slug}
use nvelope.Common.Action.Triple.{Triple, Triple-from_ok, Triple-pure, Triple-bind, Triple-ok}
use text.Mathlib.TextPositions.{eq_refl}
use text.Mathlib.TextEquality.{eq_iff}
use nvelope.Common.Rows.{
  exists-update_chosen, exists-append, exists-update_mono, All-weaken, select_first-exists,
}
use nvelope.Audience.Subscribers.{Subscriber}
use nvelope.Common.Database.{Db, found-some}
use nvelope.Common.Database.Inversion.{read-lift-write-ok, read-write-ok, with_tenant-eq-err}
use nvelope.Audience.Commands.{confirm_membership, confirm_all, answer_or}
use nvelope.Audience.Store.{Tables, Env, is_member, attach, set_status, matches}
use nvelope.Audience.Memberships.{
  Membership, SubscriptionStatus, confirmed, change_status, unsubscribed, unconfirmed,
  unknown_status,
}
use nvelope.Common.{
  refl, if◌then◌else◌, Bool, String, ◌≡◌, true, ◌&&◌, List, false, exists_where, select_first, sym,
  ◌∷◌, ◌++◌, ◌⊎◌, some, inl, [], update_where, text_eq, All, inr, ◌||◌, Bool-cases, arith, ap,
}
use nvelope.Common.Action.{ok, err, ok-injective, Result as Outcome}

abbrev pub status_confirmed : SubscriptionStatus → Bool
status_confirmed confirmed = true
status_confirmed _ = false

abbrev pub confirmed_member : String → String → Membership → Bool
confirmed_member subscriber_id list_id m =
    is_member subscriber_id list_id m && status_confirmed m.status

-- The list is joined, or still to come in the loop.
abbrev pub Joins : String → List Membership → List String → String → Type 0
Joins subscriber_id ms todo l =
    (exists_where (confirmed_member subscriber_id l) ms ≡ true)
    ⊎ (exists_where (λ x. text_eq x l) todo ≡ true)

-- The loop over the target lists for the newest subscriber that the address finds.
pub record Joining (env : Env) (email : String) (s : Subscriber) (lists todo : List String)
    (w : Db Tables) : Type 0 where
  pub newest : select_first (matches env email) w.tables.subscribers ≡ some s
  pub joins : All (Joins s.id w.tables.memberships todo) lists

abbrev pub Anywhere : Db Tables → Type 0
Anywhere w = Unit

change-confirmed :
    (s u : SubscriptionStatus) → change_status confirmed s ≡ ok u → status_confirmed u ≡ true
unfolding change_status
change-confirmed unsubscribed u h = rw (sym (ok-injective h)) refl
change-confirmed unconfirmed u h = rw (sym (ok-injective h)) refl
change-confirmed confirmed u h = rw (sym (ok-injective h)) refl
change-confirmed unknown_status u h = absurd (cc h)

-- The memberships after the list has been joined.
record Grows (id l : String) (ms ms' : List Membership) : Type 0 where
  joined : exists_where (confirmed_member id l) ms' ≡ true
  kept :
      (k : String)
      → exists_where (confirmed_member id k) ms ≡ true
      → exists_where (confirmed_member id k) ms' ≡ true

Joins-Grows :
    (id l : String) (ms ms' : List Membership) (todo : List String)
    → Grows id l ms ms'
    → (k : String) → Joins id ms (l ∷ todo) k
    → Joins id ms' todo k
Joins-Grows id l ms ms' todo g k (inl there) = inl (g.kept k there)
Joins-Grows id l ms ms' todo g k (inr later) = elim (Bool-cases (text_eq l k)) [
  | inl same ↦ inl (rw (sym ((eq_iff l k).0 same)) g.joined)
  | inr other ↦ inr (rw other at later)
]

attach-Grows :
    (id l : String) (ms : List Membership)
    → Grows id l ms (ms ++ (record { subscriber_id = id; list_id = l; status = confirmed }) ∷ [])
attach-Grows id l ms =
    let new : Membership = record { subscriber_id = id; list_id = l; status = confirmed } in
    record {
      joined =
          rw (exists-append (confirmed_member id l) ms (new ∷ []))
            (rw (eq_refl id) (rw (eq_refl l) (or_true (exists_where (confirmed_member id l) ms))));
      kept = λ k h. rw (exists-append (confirmed_member id k) ms (new ∷ [])) (rw h refl);
    }
  where
    or_true : (a : Bool) → (a || true) ≡ true
    or_true true = refl
    or_true false = refl

with_true : (a b c : Bool) → (a && b) ≡ true → c ≡ true → (a && c) ≡ true
with_true a b c h k = ground arith

update-Grows :
    (id l : String) (u : SubscriptionStatus) (ms : List Membership)
    → status_confirmed u ≡ true
    → exists_where (is_member id l) ms ≡ true
    → Grows id l ms (update_where (is_member id l) (λ m. record m { status = u }) ms)
update-Grows id l u ms h there = record {
  joined =
      exists-update_chosen (confirmed_member id l) (is_member id l) (λ m. record m { status = u })
        ms (λ m e. rw e (rw h refl)) there;
  kept = λ k old.
      exists-update_mono (confirmed_member id k) (is_member id l) (λ m. record m { status = u }) ms
        (λ m e. still k m (is_member id l m) e) old;
}
  where
    still :
        (k : String) (m : Membership) (chosen : Bool)
        → confirmed_member id k m ≡ true
        → confirmed_member id k (if chosen then record m { status = u } else m) ≡ true
    still k m true e =
        with_true (is_member id k m) (status_confirmed m.status) (status_confirmed u) e h
    still k m false e = e

module _ (env : Env) (email : String) (s : Subscriber) (lists : List String) where
  Joining-Grows :
      (l : String) (todo : List String) (t : Tables) (w : Db Tables)
      → Joining env email s lists (l ∷ todo) w
      → w.tables.subscribers ≡ t.subscribers
      → Grows s.id l w.tables.memberships t.memberships
      → (w' : Db Tables) → t ≡ w'.tables
      → Joining env email s lists todo w'
  Joining-Grows l todo t w j same g w' e = record {
    newest = rw (sym e) (rw (sym same) j.newest);
    joins = rw (sym e) (All-weaken lists (Joins-Grows s.id l _ _ todo g) j.joins);
  }

  set_status-Joining :
      (l : String) (todo : List String)
      → Triple
          (Joining env email s lists (l ∷ todo))
          (set_status s.id l confirmed)
          (λ u w. Joining env email s lists todo w)
          Anywhere
  unfolding set_status
  set_status-Joining l todo =
      Triple-from_ok _
        (λ w u j done.
          let stored = read-lift-write-ok _ _ _ w done in
          let found =
            select_first-exists (is_member s.id l) w.tables.memberships
              (found-some _ _ stored.load_ok) in
          Joining-Grows l todo _ w j refl
            (update-Grows s.id l stored.computed w.tables.memberships
              (change-confirmed _ _ stored.compute_ok) found)
            _ stored.tables)
        λ w. tt

  attach-Joining :
      (l : String) (todo : List String) (w : Db Tables) {u : Unit {0}}
      → Joining env email s lists (l ∷ todo) w
      → (attach s.id l confirmed w).0 ≡ ok u
      → Joining env email s lists todo (attach s.id l confirmed w).1
  unfolding attach
  attach-Joining l todo w j done =
      let (a, checked, value, tables) = read-write-ok _ _ w done in
      Joining-Grows l todo _ w j refl (attach-Grows s.id l w.tables.memberships) _ tables

  -- What failed attaching leaves: the transaction was rolled back.
  attach_refused :
      (l : String) (todo : List String) (w : Db Tables) {e : Failure}
      → Joining env email s lists (l ∷ todo) w
      → (attach s.id l confirmed w).0 ≡ err e
      → Joining env email s lists (l ∷ todo) (attach s.id l confirmed w).1
  unfolding attach
  attach_refused l todo w j failed =
      let same = with_tenant-eq-err _ w failed in
      record { newest = rw same j.newest; joins = rw same j.joins }

  answer-Joining :
      (l : String) (todo : List String) (w : Db Tables) (r : Outcome Failure (Unit {0}) × Db Tables)
      {u : Unit {0}}
      → attach s.id l confirmed w ≡ r
      → Joining env email s lists (l ∷ todo) w
      → (answer_or "membership_exists" (set_status s.id l confirmed) r).0 ≡ ok u
      → Joining env email s lists todo
          (answer_or "membership_exists" (set_status s.id l confirmed) r).1
  answer-Joining l todo w (ok v, w') ran j done =
      subst (λ x. Joining env email s lists todo x.1) ran
        (attach-Joining l todo w j (ap (λ x. x.0) ran))
  answer-Joining l todo w (err e, w') ran j done =
      elim (Bool-cases (is_slug "membership_exists" e)) [
        | inr other ↦ absurd (cc (rw other at done))
        | inl exists ↦ rw exists (
            Triple-ok _ w' (set_status-Joining l todo)
              (subst (λ x. Joining env email s lists (l ∷ todo) x.1) ran
                (attach_refused l todo w j (ap (λ x. x.0) ran)))
              (rw exists at done))
      ]

  confirm_membership-Joining :
      (l : String) (todo : List String)
      → Triple
          (Joining env email s lists (l ∷ todo))
          (confirm_membership s.id l)
          (λ u w. Joining env email s lists todo w)
          Anywhere
  unfolding confirm_membership
  confirm_membership-Joining l todo =
      Triple-from_ok _ (λ w u j done. answer-Joining l todo w _ refl j done) λ w. tt

  pub confirm_all-Joining :
      (todo : List String)
      → Triple
          (Joining env email s lists todo)
          (confirm_all s.id todo)
          (λ u w. Joining env email s lists [] w)
          Anywhere
  unfolding confirm_all
  confirm_all-Joining [] = Triple-pure tt
  confirm_all-Joining (l ∷ todo) =
      Triple-bind _ _ (confirm_membership-Joining l todo) λ u. confirm_all-Joining todo
