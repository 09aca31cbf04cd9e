-- ===== src/Billing/Store/Keeps.antt =====
-- What a transaction keeps.
use nvelope.Common.{Bool, true, false, List, [], ◌∷◌}
use nvelope.Common.Action.{ok, err}
use nvelope.Common.Action
use nvelope.Common.Action.Keeps.{Keeps}
use nvelope.Billing.Errors.{Error}
use nvelope.Billing.Store.{World, Billing, commit, run_transaction, with_tenant}

module _ {G A : Type 0} {P : World G → Type 0}
    (blind : (w : World G) (faults : List Bool) → P w → P (record w { faults = faults })) where
  commit-keeps :
      (before : World G) (r : Action.Result Error A × World G)
      → P before
      → P r.1
      → P (commit before r).1
  commit-keeps before (ok a, after) h k = k
  commit-keeps before (err e, after) h k = h

  run_transaction-keeps :
      (faults : List Bool) (body : Billing G A)
      → ((w : World G) → P w → P (body w).1)
      → (w : World G) → P w
      → P (run_transaction faults body w).1
  run_transaction-keeps [] body k w h = commit-keeps w (body w) h (k w h)
  run_transaction-keeps (true ∷ faults) body k w h = blind w faults h
  run_transaction-keeps (false ∷ faults) body k w h =
      let w' = record w { faults = faults } in
      commit-keeps w' (body w') (blind w faults h) (k w' (blind w faults h))

  -- A predicate that does not read the faults is kept if the body keeps it.
  pub with_tenant-Keeps :
      (body : Billing G A) → ((w : World G) → P w → P (body w).1) → Keeps P (with_tenant body)
  unfolding with_tenant
  with_tenant-Keeps body k = record { at = λ w h. run_transaction-keeps w.faults body k w h }

  run_transaction-at :
      (faults : List Bool) (body : Billing G A) (w : World G)
      → P w
      → ((rest : List Bool) → P (body (record w { faults = rest })).1)
      → P (run_transaction faults body w).1
  run_transaction-at [] body w h k = commit-keeps w (body w) h (k w.faults)
  run_transaction-at (true ∷ faults) body w h k = blind w faults h
  run_transaction-at (false ∷ faults) body w h k =
      let w' = record w { faults = faults } in
      commit-keeps w' (body w') (blind w faults h) (k faults)

  -- The same at one state.
  pub with_tenant-at :
      (body : Billing G A) (w : World G)
      → P w
      → ((rest : List Bool) → P (body (record w { faults = rest })).1)
      → P (with_tenant body w).1
  unfolding with_tenant
  with_tenant-at body w h k = run_transaction-at w.faults body w h k
