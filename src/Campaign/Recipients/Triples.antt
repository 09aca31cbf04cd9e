-- ===== src/Campaign/Recipients/Triples.antt =====
-- Triples of a transaction of the campaign context.
use nvelope.Common.{[], true, false}
use nvelope.Common.Action
use nvelope.Common.Action.{ok, err}
use nvelope.Common.Action.Triple.{Triple, Post}
use nvelope.Campaign.Domain.{CampaignError}
use nvelope.Campaign.Recipients.{
  Mailing, Sending, commit, run_transaction, transaction, List, Bool, ◌∷◌,
}

module _ {M L A : Type 0} {P : Mailing M L → Type 0} (Q : A → Mailing M L → Type 0)
    (blind : (w : Mailing M L) (faults : List Bool) → P w → P (record w { faults = faults })) where
  -- What a body's return leads to; its error is rolled back.
  abbrev pub Yields : Action.Result CampaignError A × Mailing M L → Type 0
  Yields (ok a, w) = Q a w
  Yields (err e, w) = Unit

  commit-Post :
      (before : Mailing M L) (r : Action.Result CampaignError A × Mailing M L)
      → P before
      → Yields r
      → Post Q P (commit before r)
  commit-Post before (ok a, w) h k = k
  commit-Post before (err e, w) h k = h

  run-Post :
      (faults : List Bool) (body : Sending M L A) (w : Mailing M L)
      → P w
      → ((w : Mailing M L) → P w → Yields (body w))
      → Post Q P (run_transaction faults body w)
  run-Post [] body w h k = commit-Post w (body w) h (k w h)
  run-Post (true ∷ faults) body w h k = blind w faults h
  run-Post (false ∷ faults) body w h k =
      let w' = record w { faults = faults } in
      commit-Post w' (body w') (blind w faults h) (k w' (blind w faults h))

  pub transaction-Triple :
      (body : Sending M L A)
      → ((w : Mailing M L) → P w → Yields (body w))
      → Triple P (transaction body) Q P
  unfolding transaction
  transaction-Triple body k = record { at = λ w h. run-Post w.faults body w h k }
