-- ===== src/Campaign/Batch/Statements.antt =====
-- The statements of one batch job keep what the loop over its window needs.

use nvelope.Common.{refl, ◌∷◌, sym, [], none}
use nvelope.Common.Action.{ok, err}
use nvelope.Common.Action.Keeps.{Keeps, keeps_rules}
use nvelope.Common.Action.Triple.{Triple, Triple-state, Triple-relax}
use nvelope.Campaign.Domain.{Campaign, Recipient}
use nvelope.Campaign.Recipients.{
  Mailing, recipient_counts, update_campaign, save_campaign, change_campaign, pending_recipients,
  transaction,
}
use nvelope.Campaign.Domain
use nvelope.Campaign.Recipients.Triples.{Yields, transaction-Triple}
use nvelope.Campaign.Batch.Window.{DistinctIds, window-DistinctIds, window-All}
use nvelope.Campaign.Batch.Deliveries.{IsUnsent}
use nvelope.Campaign.Batch.Once.{MailedOnce, Ready, copy}
use nvelope.Campaign.Batch.{
  Messenger, Permit, ℕ, String, recipient_counts, update_campaign, record_sent, clock,
  sync_progress, close_run, List, ◌∷◌, BatchOutcome, Bool, Option, some, pending_recipients,
  found_domain, suppressed_addresses, Rendering, domain_name, upsert_links,
}

module _ {M L : Type 0} (messenger : Messenger M) (allow : L → Permit × L)
    (rendering : Rendering) where
  abbrev P : Mailing M L → Type 0
  P = MailedOnce messenger

  pub blind : (w : Mailing M L) (faults : List Bool) → P w → P (record w { faults = faults })
  blind w faults h = copy messenger w _ refl refl refl h

  counts-Keeps : (id : ℕ) → Keeps P (recipient_counts id)
  unfolding recipient_counts
  counts-Keeps id = record {
    at = λ w h.
        Triple-state _ w (transaction-Triple {P = P} (λ a. P) blind _ λ w h. h) h (λ a w k. k);
  }

  saved :
      (id : ℕ) (r : Domain.Result Campaign) (w : Mailing M L)
      → P w
      → Yields {P = P} (λ u. P) blind (save_campaign id r w)
  saved id (err e) w h = tt
  saved id (ok c) w h = copy messenger w _ refl refl refl h

  changed :
      (id : ℕ) (fn : Campaign → Domain.Result Campaign) (o : Option Campaign) (w : Mailing M L)
      → P w
      → Yields {P = P} (λ u. P) blind (change_campaign id fn o w)
  changed id fn none w h = tt
  changed id fn (some c) w h = saved id (fn c) w h

  update-Keeps : (id : ℕ) (fn : Campaign → Domain.Result Campaign) → Keeps P (update_campaign id fn)
  unfolding update_campaign
  update-Keeps id fn = record {
    at = λ w h.
        Triple-state _ w (transaction-Triple {P = P} (λ u. P) blind _ λ w h. changed id fn _ w h) h
          (λ a w k. k);
  }

  record_sent-Keeps : (ids : List ℕ) → Keeps P (record_sent messenger allow rendering ids)
  unfolding record_sent
  record_sent-Keeps [] = record { at = λ w h. h }
  record_sent-Keeps (id ∷ ids) = record {
    at = λ w h. rw h.quiet (copy messenger w _ (sym h.quiet) refl refl h);
  }

  clock-Keeps : Keeps P (clock messenger allow rendering)
  clock-Keeps = record { at = λ w h. h }

  sync-Keeps : (id : ℕ) → Keeps P (sync_progress messenger allow rendering id)
  unfolding sync_progress
  sync-Keeps id = search (keeps_rules, counts-Keeps, clock-Keeps, update-Keeps)

  pub close-Keeps :
      (id : ℕ) (ids : List ℕ) (o : BatchOutcome)
      → Keeps P (close_run messenger allow rendering id ids o)
  unfolding close_run
  close-Keeps id ids o = search (keeps_rules, record_sent-Keeps, sync-Keeps)

  pub window-Triple :
      (id offset limit : ℕ)
      → Triple P
          (pending_recipients id offset limit)
          (λ rs w. Ready messenger rs w × DistinctIds rs)
          P
  unfolding pending_recipients
  window-Triple id offset limit =
      transaction-Triple {P = P} (λ rs w. Ready messenger rs w × DistinctIds rs) blind _
        λ w h. (
          (h, window-All (IsUnsent messenger w.messenger) id offset limit w.recipients h.unsent),
          window-DistinctIds id offset limit w.recipients h.distinct,
        )

  found-Yields :
      (o : Option String) (w : Mailing M L)
      → P w
      → Yields {P = P} (λ s. P) blind (found_domain messenger allow rendering o w)
  found-Yields none w h = tt
  found-Yields (some s) w h = h

  pub name-Triple : (id : ℕ) → Triple P (domain_name messenger allow rendering id) (λ s. P) P
  name-Triple id =
      transaction-Triple {P = P} (λ s. P) blind _ λ w h. found-Yields (w.sending_domains id) w h

  -- A read in a transaction of its own keeps what the loop needs.
  module _ (rs : List Recipient) where
    blind-Ready :
        (w : Mailing M L) (faults : List Bool)
        → Ready messenger rs w
        → Ready messenger rs (record w { faults = faults })
    blind-Ready w faults h = (blind w faults h.0, h.1)

    reading-Triple :
        {A : Type 0} (f : Mailing M L → A)
        → Triple (Ready messenger rs) (transaction λ w. (ok (f w), w)) (λ a. Ready messenger rs) P
    reading-Triple f =
        Triple-relax _
          (transaction-Triple {P = Ready messenger rs} (λ a. Ready messenger rs) blind-Ready _
            λ w h. h)
          λ w h. h.0

    pub suppressed-Triple :
        (window : List Recipient)
        → Triple
            (Ready messenger rs)
            (suppressed_addresses messenger allow rendering window)
            (λ s. Ready messenger rs)
            P
    suppressed-Triple [] = record { at = λ w h. h }
    suppressed-Triple (r ∷ window) = record {
      at = λ w h. (reading-Triple (λ w'. w'.suppression)).at w h;
    }

    pub links-Triple :
        (urls : List String)
        → Triple
            (Ready messenger rs)
            (upsert_links messenger allow rendering urls)
            (λ u. Ready messenger rs)
            P
    links-Triple [] = record { at = λ w h. h }
    links-Triple (url ∷ urls) = record { at = λ w h. (reading-Triple (λ w'. tt)).at w h }
