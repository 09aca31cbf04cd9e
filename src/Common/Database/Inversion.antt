-- ===== src/Common/Database/Inversion.antt =====
-- What a transaction (internal/platform/tenantdb) did, from what it returned.
use nvelope.Common.{List, Bool, ◌∷◌, [], true, false, ◌≡◌, ap, refl}
use nvelope.Platform.Apperr.{Failure}
use nvelope.Common.Action.{ok-injective, Action, ok, err, lift, ◌>>=◌, continue}
use nvelope.Common.Action
use nvelope.Common.Database.{Db, Query, with_tenant, read, write, run_transaction, commit}

module _ {T A : Type 0} where
  commit-ok :
      (before : Db T) (r : Action.Result Failure A × Db T) {a : A}
      → (commit before r).0 ≡ ok a
      → r ≡ (ok a, (commit before r).1)
  commit-ok before (ok a, after) h = ap (λ x. (x, after)) h
  commit-ok before (err e, after) h = absurd (cc h)

  run_transaction-ok :
      (faults : List Bool) (m : Query T A) (w : Db T) {a : A}
      → (run_transaction faults m w).0 ≡ ok a
      → (left : List Bool) × (m (record w { faults = left })
          ≡ (ok a, (run_transaction faults m w).1))
  run_transaction-ok [] m w h = (w.faults, commit-ok w (m w) h)
  run_transaction-ok (true ∷ faults) m w h = absurd (cc h)
  run_transaction-ok (false ∷ faults) m w h =
      (faults, commit-ok (record w { faults = faults }) (m (record w { faults = faults })) h)

  -- A transaction that returned a value ran its body on the same tables.
  pub with_tenant-eq-ok :
      (m : Query T A) (w : Db T) {a : A}
      → (with_tenant m w).0 ≡ ok a
      → (left : List Bool) × (m (record w { faults = left }) ≡ (ok a, (with_tenant m w).1))
  unfolding with_tenant
  with_tenant-eq-ok m w h = run_transaction-ok w.faults m w h

module _ {T A : Type 0} where
  commit-err :
      (before : Db T) (r : Action.Result Failure A × Db T) {e : Failure}
      → (commit before r).0 ≡ err e
      → (commit before r).1.tables ≡ before.tables
  commit-err before (ok a, after) h = absurd (cc h)
  commit-err before (err x, after) h = refl

  run_transaction-err :
      (faults : List Bool) (m : Query T A) (w : Db T) {e : Failure}
      → (run_transaction faults m w).0 ≡ err e
      → (run_transaction faults m w).1.tables ≡ w.tables
  run_transaction-err [] m w h = commit-err w (m w) h
  run_transaction-err (true ∷ faults) m w h = refl
  run_transaction-err (false ∷ faults) m w h =
      commit-err (record w { faults = faults }) (m (record w { faults = faults })) h

  -- A transaction that returned an error changed no table.
  pub with_tenant-eq-err :
      (m : Query T A) (w : Db T) {e : Failure}
      → (with_tenant m w).0 ≡ err e
      → (with_tenant m w).1.tables ≡ w.tables
  unfolding with_tenant
  with_tenant-eq-err m w h = run_transaction-err w.faults m w h

-- Inversion of a transaction that loads, computes and stores, once it has returned a value.
module _ {T A B C : Type 0} where
  pub record Stored (f : T → Action.Result Failure A) (h : A → Action.Result Failure B)
      (g : B → T → C × T) (t : T) (c : C) (t' : T) : Type 0 where
    pub loaded : A
    pub computed : B
    pub load_ok : f t ≡ ok loaded
    pub compute_ok : h loaded ≡ ok computed
    pub value : (g computed t).0 ≡ c
    pub tables : (g computed t).1 ≡ t'

  module _ (f : T → Action.Result Failure A) (h : A → Action.Result Failure B)
      (g : B → T → C × T) where
    Stored-computed :
        (a : A) (w : Db T) (r : Action.Result Failure B) {c : C} {w' : Db T}
        → f w.tables ≡ ok a
        → h a ≡ r
        → continue r (λ b. write (g b)) w ≡ (ok c, w')
        → Stored f h g w.tables c w'.tables
    unfolding write
    Stored-computed a w (ok b) e e' ran = record {
      loaded = a;
      computed = b;
      load_ok = e;
      compute_ok = e';
      value = ok-injective (ap (λ x. x.0) ran);
      tables = ap (λ x. x.1.tables) ran;
    }
    Stored-computed a w (err x) e e' ran = absurd (cc (ap (λ x. x.0) ran))

    Stored-loaded :
        (w : Db T) (r : Action.Result Failure A) {c : C} {w' : Db T}
        → f w.tables ≡ r
        → continue r (λ a. lift (h a) >>= λ b. write (g b)) w ≡ (ok c, w')
        → Stored f h g w.tables c w'.tables
    unfolding ◌>>=◌
    Stored-loaded w (ok a) e ran = Stored-computed a w (h a) e refl ran
    Stored-loaded w (err x) e ran = absurd (cc (ap (λ x. x.0) ran))

    pub read-lift-write-ok :
        (w : Db T) {c : C}
        → (with_tenant (read f >>= λ a. lift (h a) >>= λ b. write (g b)) w).0 ≡ ok c
        → Stored f h g w.tables c
            (with_tenant (read f >>= λ a. lift (h a) >>= λ b. write (g b)) w).1.tables
    unfolding read ◌>>=◌
    read-lift-write-ok w done =
        let (left, ran) = with_tenant-eq-ok _ w done in
        Stored-loaded (record w { faults = left }) (f w.tables) refl ran

-- The same for a transaction that checks and stores.
module _ {T A C : Type 0} (f : T → Action.Result Failure A) (g : A → T → C × T) where
  written_checked :
      (w : Db T) (r : Action.Result Failure A) {c : C} {w' : Db T}
      → f w.tables ≡ r
      → continue r (λ a. write (g a)) w ≡ (ok c, w')
      → (a : A) × (f w.tables ≡ ok a) × ((g a w.tables).0 ≡ c) × ((g a w.tables).1 ≡ w'.tables)
  unfolding write
  written_checked w (ok a) e ran =
      (a, e, ok-injective (ap (λ x. x.0) ran), ap (λ x. x.1.tables) ran)
  written_checked w (err x) e ran = absurd (cc (ap (λ x. x.0) ran))

  pub read-write-ok :
      (w : Db T) {c : C}
      → (with_tenant (read f >>= λ a. write (g a)) w).0 ≡ ok c
      → (a : A) × (f w.tables ≡ ok a)
        × ((g a w.tables).0 ≡ c)
        × ((g a w.tables).1 ≡ (with_tenant (read f >>= λ a. write (g a)) w).1.tables)
  unfolding read ◌>>=◌
  read-write-ok w done =
      let (left, ran) = with_tenant-eq-ok _ w done in
      written_checked (record w { faults = left }) (f w.tables) refl ran
