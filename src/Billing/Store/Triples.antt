-- ===== src/Billing/Store/Triples.antt =====
-- Triples of a transaction, and of the statements that only read.
use nvelope.Common.{[], true, false}
use nvelope.Common.Action
use nvelope.Billing.Store.{
  World, List, Bool, Billing, with_tenant, run_transaction, ◌∷◌, Error, ok, commit, err,
}
use nvelope.Common.Action.Triple.{Triple, Post}

module _ {G A : Type 0} where
  -- What a body's return leads to; its error is rolled back.
  abbrev pub Returns : (A → World G → Type 0) → Action.Result Error A × World G → Type 0
  Returns Q (ok a, w) = Q a w
  Returns Q (err e, w) = Unit

module _ {G A : Type 0} {P R : World G → Type 0} (Q : A → World G → Type 0)
    (blind : (w : World G) (faults : List Bool) → P w → P (record w { faults = faults }))
    (weaken : (w : World G) → P w → R w) where
  commit-Post :
      (before : World G) (r : Action.Result Error A × World G)
      → P before
      → Returns Q r
      → Post Q R (commit before r)
  commit-Post before (ok a, w) h k = k
  commit-Post before (err e, w) h k = weaken before h

  run-Post :
      (faults : List Bool) (body : Billing G A) (w : World G)
      → P w
      → ((w : World G) → P w → Returns Q (body w))
      → Post Q R (run_transaction faults body w)
  run-Post [] body w h k = commit-Post w (body w) h (k w h)
  run-Post (true ∷ faults) body w h k = weaken _ (blind w faults h)
  run-Post (false ∷ faults) body w h k =
      let w' = record w { faults = faults } in
      commit-Post w' (body w') (blind w faults h) (k w' (blind w faults h))

  pub with_tenant-Triple :
      (body : Billing G A)
      → ((w : World G) → P w → Returns Q (body w))
      → Triple P (with_tenant body) Q R
  unfolding with_tenant
  with_tenant-Triple body k = record { at = λ w h. run-Post w.faults body w h k }
