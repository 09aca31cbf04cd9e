-- ===== src/Deliverability/Commands/Listing.antt =====
-- The commands of internal/deliverability/app/command/suppression.go, as the check before a send
-- reports them.
use mathlib.Core.Path.{subst}
use nvelope.Common.Action.{ok, and_then-eq-ok, ok-injective}
use nvelope.Deliverability.Events.{new_manual_suppression, SuppressionEntry, manual}
use nvelope.Common.{
  String, trim_space, Bool, ◌≡◌, List, exists_where, refl, true, false, select_where, not, text_eq,
  sym, ◌∷◌, ◌&&◌, ap, Bool-cases, [], inl, ◌∙◌, inr, text_eq_comm,
}
use nvelope.Common.Database.Triples.{At, Anywhere, Triple-write, Triple-fix}
use nvelope.Common.Database.{Db, with_tenant, read}
use nvelope.Common.Database.Inversion.{read-write-ok}
use nvelope.Common.Action.Triple.{
  Triple, Triple-ok, Triple-bind, Triple-lift, Triple-assume, Triple-weaken, Triple-from_ok,
}
use nvelope.Deliverability.Events.Built.{new_suppression_entry-address}
use nvelope.Deliverability.Commands.Recording.{suppress_row-suppressed}
use nvelope.Deliverability.Store.{
  Tables, Env, is_suppressed, suppress_row, drop_row, listed, upsert_suppression, remove_entry,
  record_audit, suppressed_among,
}
use nvelope.Deliverability.Commands.{add_suppression, remove_suppression}

module _ (env : Env) (tenant_id email : String) where
  abbrev mail_address : String
  mail_address = env.mail.lower (trim_space email)

  -- Whether the address is on the list.
  abbrev on_list : Tables → Bool
  on_list t = exists_where (is_suppressed tenant_id mail_address) t.suppressions

  audit-Triple :
      (action target : String) (t : Tables)
      → Triple
          (At t)
          (record_audit tenant_id action target)
          (λ u w. on_list w.tables ≡ on_list t)
          Anywhere
  unfolding record_audit
  audit-Triple action target t = Triple-weaken _ (Triple-write t _) λ u w left. rw (left.0) refl

  add-Triple :
      (note : String) (t : Tables)
      → Triple
          (At t)
          (add_suppression env tenant_id email note)
          (λ u w. on_list w.tables ≡ true)
          Anywhere
  unfolding add_suppression upsert_suppression new_manual_suppression
  add-Triple note t = Triple-bind _ _ (Triple-lift _ λ w h. tt) λ s. Triple-assume λ built.
      Triple-bind _ _
        (Triple-weaken {Q' = λ u w. on_list w.tables ≡ true} _ (Triple-write t (suppress_row s))
          λ u w left. stored s built w.tables left.0)
        λ u. Triple-fix {F = λ t1. on_list t1 ≡ true} _ λ t1 there.
          Triple-weaken _ (audit-Triple "suppression.added" s.email t1) λ v w same. same ∙ there
    where
      stored :
          (s : SuppressionEntry)
          → new_manual_suppression env.mail tenant_id email note ≡ ok s
          → (t' : Tables) → t' ≡ (suppress_row s t).1
          → on_list t' ≡ true
      stored s built t' left =
          let (e, made, same) = and_then-eq-ok _ _ built in
          let (tenant, mail) =
            new_suppression_entry-address env.mail tenant_id email manual "" made in
          let tenant' : s.tenant_id ≡ tenant_id =
            sym (ap (λ x. x.tenant_id) (ok-injective same)) ∙ tenant in
          let mail' : s.email ≡ mail_address = sym (ap (λ x. x.email) (ok-injective same)) ∙ mail in
          let there = suppress_row-suppressed s t in rw (left, sym tenant', sym mail') there

  gone :
      (ss : List SuppressionEntry)
      → exists_where
          (is_suppressed tenant_id mail_address)
          (select_where (λ s. not (is_suppressed tenant_id mail_address s)) ss)
        ≡ false
  gone [] = refl
  gone (s ∷ ss) = elim (Bool-cases (is_suppressed tenant_id mail_address s)) [
    | inl h ↦ rw h (gone ss)
    | inr h ↦ rw h (rw h (gone ss))
  ]

  remove-Triple :
      (t : Tables)
      → Triple
          (At t)
          (remove_suppression env tenant_id email)
          (λ u w. on_list w.tables ≡ false)
          Anywhere
  unfolding remove_suppression remove_entry
  remove-Triple t =
      Triple-bind _ _
        (Triple-from_ok {Q = λ u w. on_list w.tables ≡ false} _
          (λ w u h done.
            let (a, checked, value, tables) =
              read-write-ok (listed tenant_id mail_address)
                (λ there. drop_row tenant_id mail_address) w done in
            subst (λ t'. on_list t' ≡ false) tables (gone w.tables.suppressions))
          λ w. tt)
        λ u. Triple-fix {F = λ t1. on_list t1 ≡ false} _ λ t1 left.
          Triple-weaken _ (audit-Triple "suppression.removed" email t1) λ v w same. same ∙ left

  -- What the check reports of the address alone.
  reported :
      (ss : List SuppressionEntry)
      → exists_where (is_suppressed tenant_id mail_address) (
          select_where
            (λ s.
              text_eq s.tenant_id tenant_id
              && exists_where (λ e. text_eq (env.mail.lower (trim_space e)) s.email) (email ∷ []))
            ss)
        ≡ exists_where (is_suppressed tenant_id mail_address) ss
  reported [] = refl
  reported (s ∷ ss) = elim (Bool-cases (text_eq s.tenant_id tenant_id)) [
    | inr other ↦ rw other (reported ss)
    | inl own ↦ elim (Bool-cases (text_eq s.email mail_address)) [
      | inl here ↦ rw own (rw (text_eq_comm mail_address s.email) (rw here (rw own (rw here refl))))
      | inr elsewhere ↦ rw own (rw (text_eq_comm mail_address s.email) (rw elsewhere (reported ss)))
    ]
  ]

-- The check before a send, of the address alone, answers whether the address is on the list.
pub record Reports (env : Env) (tenant_id email : String) (listed : Bool) (w : Db Tables)
    : Type 0 where
  pub found : List SuppressionEntry
  pub answered : (suppressed_among env tenant_id (email ∷ []) w).0 ≡ ok found
  pub reports :
      exists_where (is_suppressed tenant_id (env.mail.lower (trim_space email))) found ≡ listed

module _ (env : Env) (tenant_id email : String) (w : Db Tables) where
  calm-Reports :
      (listed : Bool)
      → w.faults ≡ []
      → on_list env tenant_id email w.tables ≡ listed
      → Reports env tenant_id email listed w
  unfolding suppressed_among with_tenant read
  calm-Reports listed calm h = record {
    found = _;
    answered = rw calm refl;
    reports = reported env tenant_id email w.tables.suppressions ∙ h;
  }

-- After a manual suppression that returns no error, while the tables stay as it left them and the
-- database fails no transaction, the check before a send reports the address as suppressed.
pub add_suppression-Reports :
    (env : Env) (tenant_id email note : String) (w later : Db Tables)
    → (add_suppression env tenant_id email note w).0 ≡ ok tt
    → later.tables ≡ (add_suppression env tenant_id email note w).1.tables
    → later.faults ≡ []
    → Reports env tenant_id email true later
add_suppression-Reports env tenant_id email note w later done same calm =
    calm-Reports env tenant_id email later true calm
      (rw same (Triple-ok _ w (add-Triple env tenant_id email note w.tables) refl done))

-- After a removal from the suppression list that returns no error, while the tables stay as it left
-- them and the database fails no transaction, the check before a send reports nothing for the
-- address.
pub remove_suppression-Reports :
    (env : Env) (tenant_id email : String) (w later : Db Tables)
    → (remove_suppression env tenant_id email w).0 ≡ ok tt
    → later.tables ≡ (remove_suppression env tenant_id email w).1.tables
    → later.faults ≡ []
    → Reports env tenant_id email false later
remove_suppression-Reports env tenant_id email w later done same calm =
    calm-Reports env tenant_id email later false calm
      (rw same (Triple-ok _ w (remove-Triple env tenant_id email w.tables) refl done))
