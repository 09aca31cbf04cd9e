-- ===== src/Audience/Commands/Unsubscribe.antt =====
-- "Unsubscribe from all" of internal/audience/app/command/public_unsubscribe.go leaves every list.
use text.Mathlib.TextPositions.{eq_refl}
use nvelope.Common.Rows.{All-weaken}
use mathlib.Core.Path.{subst}
use nvelope.Common.Action.Triple.{
  Triple, Triple-from_ok, Triple-pure, Triple-ok, Triple-strengthen, Triple-bind,
}
use nvelope.Common.Database.{Db, read}
use nvelope.Common.Database.Inversion.{read-lift-write-ok, with_tenant-eq-ok}
use nvelope.Audience.Commands.{status_unsubscribed, leave_each, public_unsubscribe}
use nvelope.Audience.Store.{Tables, is_member, set_status, for_subscriber}
use nvelope.Audience.Memberships.{
  Membership, SubscriptionStatus, unsubscribed, change_status, unconfirmed, confirmed,
  unknown_status,
}
use nvelope.Common.{
  refl, if◌then◌else◌, String, ◌≡◌, Bool, List, true, text_eq, All, sym, ◌∷◌, ◌&&◌, false, inl, not,
  ◌⊎◌, inr, exists_where, ◌||◌, text_eq_comm, update_where, arith, ◌∙◌, [], Bool-cases, ap,
  select_where,
}
use nvelope.Common.Action.{ok, ok-injective}

-- A membership that was read and that the loop has to end.
abbrev to_leave : String → Membership → Bool
to_leave list_id m = text_eq m.list_id list_id && not (status_unsubscribed m.status)

-- The row is another subscriber's, has ended, or is still to come in the loop.
abbrev Treated : String → List Membership → Membership → Type 0
Treated subscriber_id ms r =
    (text_eq r.subscriber_id subscriber_id ≡ false)
    ⊎ ((status_unsubscribed r.status ≡ true) ⊎ (exists_where (to_leave r.list_id) ms ≡ true))

-- The rows of the table.
record AllTreated (subscriber_id : String) (ms : List Membership) (w : Db Tables) : Type 0 where
  rows : All (Treated subscriber_id ms) w.tables.memberships

abbrev Anywhere : Db Tables → Type 0
Anywhere w = Unit

change-unsubscribed :
    (s u : SubscriptionStatus) → change_status unsubscribed s ≡ ok u → status_unsubscribed u ≡ true
unfolding change_status
change-unsubscribed unsubscribed u h = rw (sym (ok-injective h)) refl
change-unsubscribed unconfirmed u h = rw (sym (ok-injective h)) refl
change-unsubscribed confirmed u h = rw (sym (ok-injective h)) refl
change-unsubscribed unknown_status u h = rw (sym (ok-injective h)) refl

drop_ended : (a b c : Bool) → b ≡ true → ((a && not b) || c) ≡ true → c ≡ true
drop_ended a b c h k = ground arith

drop_other : (a b c : Bool) → a ≡ false → ((a && b) || c) ≡ true → c ≡ true
drop_other a b c h k = ground arith

module _ (subscriber_id : String) (m : Membership) (ms : List Membership) where
  -- A membership that has ended is skipped.
  skipped :
      status_unsubscribed m.status ≡ true
      → (r : Membership) → Treated subscriber_id (m ∷ ms) r
      → Treated subscriber_id ms r
  skipped ended r (inl other) = inl other
  skipped ended r (inr (inl done)) = inr (inl done)
  skipped ended r (inr (inr later)) = inr (inr (drop_ended _ _ _ ended later))

  -- A row after its update.
  ended :
      (u : SubscriptionStatus) (r : Membership)
      → status_unsubscribed u ≡ true
      → Treated subscriber_id (m ∷ ms) r
      → Treated subscriber_id ms
          (if is_member subscriber_id m.list_id r then record r { status = u } else r)
  ended u r h t = elim (Bool-cases (text_eq r.subscriber_id subscriber_id)) [
    | inr other ↦ rw other (inl other)
    | inl own ↦ elim (Bool-cases (text_eq r.list_id m.list_id)) [
      | inl here ↦ rw own (rw here (inr (inl h)))
      | inr elsewhere ↦ rw own (rw elsewhere (still own elsewhere t))
    ]
  ]
    where
      still :
          text_eq r.subscriber_id subscriber_id ≡ true
          → text_eq r.list_id m.list_id ≡ false
          → Treated subscriber_id (m ∷ ms) r
          → Treated subscriber_id ms r
      still own elsewhere (inl other) = absurd (cc (own, other))
      still own elsewhere (inr (inl done)) = inr (inl done)
      still own elsewhere (inr (inr later)) = inr (
          inr (
            drop_other (text_eq m.list_id r.list_id) _ _
              (text_eq_comm m.list_id r.list_id ∙ elsewhere) later))

  update_all :
      (u : SubscriptionStatus) (rows : List Membership)
      → status_unsubscribed u ≡ true
      → All (Treated subscriber_id (m ∷ ms)) rows
      → All
          (Treated subscriber_id ms)
          (update_where (is_member subscriber_id m.list_id) (λ r. record r { status = u }) rows)
  update_all u [] h k = tt
  update_all u (r ∷ rows) h k = (ended u r h k.0, update_all u rows h k.1)

  set_status-Triple :
      Triple
        (AllTreated subscriber_id (m ∷ ms))
        (set_status subscriber_id m.list_id unsubscribed)
        (λ u w. AllTreated subscriber_id ms w)
        Anywhere
  unfolding set_status
  set_status-Triple =
      Triple-from_ok _
        (λ w u h done.
          let stored = read-lift-write-ok _ _ _ w done in
          record {
            rows = subst (All (Treated subscriber_id ms)) (ap (λ t. t.memberships) stored.tables) (
                update_all stored.computed w.tables.memberships
                  (change-unsubscribed _ _ stored.compute_ok) h.rows);
          })
        λ w. tt

module _ (subscriber_id : String) where
  leave_each-Triple :
      (ms : List Membership)
      → Triple
          (AllTreated subscriber_id ms)
          (leave_each subscriber_id "" ms)
          (λ u w. AllTreated subscriber_id [] w)
          Anywhere
  unfolding leave_each
  leave_each-Triple [] = Triple-pure tt
  leave_each-Triple (m ∷ ms) = elim (Bool-cases (status_unsubscribed m.status)) [
    | inl gone ↦ rw gone (
        Triple-strengthen _ (leave_each-Triple ms) λ w h. record {
          rows = All-weaken w.tables.memberships (skipped subscriber_id m ms gone) h.rows;
        })
    | inr there ↦
        rw there (Triple-bind _ _ (set_status-Triple subscriber_id m ms) λ u. leave_each-Triple ms)
  ]

  -- What the loop reads holds every row that it has to end.
  all_read :
      (ms rows : List Membership)
      → ((test : Membership → Bool)
          → exists_where test (select_where (λ m. text_eq m.subscriber_id subscriber_id) rows)
            ≡ true
          → exists_where test ms ≡ true)
      → All (Treated subscriber_id ms) rows
  all_read ms [] k = tt
  all_read ms (r ∷ rows) k = elim (Bool-cases (text_eq r.subscriber_id subscriber_id)) [
    | inr other ↦ (inl other, all_read ms rows λ test h. k test (rw other h))
    | inl own ↦ (
      inr (elim (Bool-cases (status_unsubscribed r.status)) [
        | inl gone ↦ inl gone
        | inr there ↦ inr (k (to_leave r.list_id) (rw own (rw (eq_refl r.list_id) (rw there refl))))
      ]),
      all_read ms rows λ test h. k test (rw own (ground (arith, h))),
    )
  ]

  for_subscriber-Triple :
      Triple Anywhere
        (for_subscriber subscriber_id)
        (λ ms w. AllTreated subscriber_id ms w)
        Anywhere
  unfolding for_subscriber read
  for_subscriber-Triple =
      Triple-from_ok _
        (λ w ms h done.
          let (left, ran) = with_tenant-eq-ok _ w done in
          record {
            rows =
                subst (λ t. All (Treated subscriber_id ms) t.memberships) (ap (λ x. x.1.tables) ran)
                  (all_read ms w.tables.memberships λ test k.
                    subst (λ x. exists_where test x ≡ true) (ok-injective (ap (λ x. x.0) ran)) k);
          })
        λ w. tt

-- The row is another subscriber's, or has ended.
abbrev pub Ended : String → Membership → Type 0
Ended subscriber_id r =
    (text_eq r.subscriber_id subscriber_id ≡ false) ⊎ (status_unsubscribed r.status ≡ true)

-- After an unsubscription from every list that returns no error, every membership of the
-- subscriber has the status unsubscribed.
pub public_unsubscribe-Ended :
    (subscriber_id : String) (w : Db Tables)
    → (public_unsubscribe subscriber_id "" w).0 ≡ ok tt
    → All (Ended subscriber_id) (public_unsubscribe subscriber_id "" w).1.tables.memberships
unfolding public_unsubscribe
public_unsubscribe-Ended subscriber_id w done =
    let left =
      Triple-ok _ w
        (Triple-bind _ _ (for_subscriber-Triple subscriber_id) (leave_each-Triple subscriber_id)) tt
        done in
    All-weaken _ over left.rows
  where
    over : (r : Membership) → Treated subscriber_id [] r → Ended subscriber_id r
    over r (inl other) = inl other
    over r (inr (inl gone)) = inr gone
    over r (inr (inr later)) = absurd (cc later)
