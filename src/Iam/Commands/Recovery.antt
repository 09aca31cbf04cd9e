-- ===== src/Iam/Commands/Recovery.antt =====
-- A recovery code (internal/iam/adapters/recovery_codes_pg.go) is consumed once.
use nvelope.Common.Rows.{exists-update_self}
use nvelope.Iam.Sessions.{RecoveryCode}
use nvelope.Common.Database.{Db, time_now, write}
use nvelope.Common.Database.Inversion.{with_tenant-eq-ok}
use nvelope.Common.Calendar.{Time}
use nvelope.Iam.Store.{Tables}
use nvelope.Iam.Store.Accounts.{usable, consume}
use nvelope.Common.{
  refl, Bool, String, ◌&&◌, false, ◌≡◌, some, true, text_eq, exists_where, ◌≢◌, sym, ap,
}
use nvelope.Common.Action.{ok, ok-injective, ◌>>=◌}

and-false : (a b : Bool) → (a && (b && false)) ≡ false
and-false true true = refl
and-false true false = refl
and-false false b = refl

used-unusable :
    (user_id hash : String) (now : Time) (c : RecoveryCode)
    → usable user_id hash (record c { used_at = some now }) ≡ false
used-unusable user_id hash now c = and-false (text_eq c.user_id user_id) (text_eq c.code_hash hash)

module _ (user_id hash : String) (w : Db Tables) where
  consumed-spent :
      (consume user_id hash w).0 ≡ ok true
      → exists_where (usable user_id hash) (consume user_id hash w).1.tables.codes ≡ false
  unfolding consume time_now write ◌>>=◌
  consumed-spent h =
      let (left, ran) = with_tenant-eq-ok _ w h in
      rw (sym (ap (λ r. r.1) ran)) (
        exists-update_self (usable user_id hash) (λ c. record c { used_at = some w.now })
          (used-unusable user_id hash w.now) w.tables.codes)

  refused-spent :
      exists_where (usable user_id hash) w.tables.codes ≡ false
      → (consume user_id hash w).0 ≢ ok true
  unfolding consume time_now write ◌>>=◌
  refused-spent spent h =
      let (left, ran) = with_tenant-eq-ok _ w h in
      let found : exists_where (usable user_id hash) w.tables.codes ≡ true =
        ok-injective (ap (λ r. r.0) ran) in
      cc (found, spent)

-- Once a recovery code has been consumed, consuming it again in the state that is left never
-- succeeds, at whatever time and whichever transactions fail.
pub consume-once :
    (user_id hash : String) (w later : Db Tables)
    → (consume user_id hash w).0 ≡ ok true
    → later.tables ≡ (consume user_id hash w).1.tables
    → (consume user_id hash later).0 ≢ ok true
consume-once user_id hash w later first same =
    refused-spent user_id hash later (rw same (consumed-spent user_id hash w first))
