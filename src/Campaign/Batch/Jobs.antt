-- ===== src/Campaign/Batch/Jobs.antt =====
-- Over every sequence of batch jobs no recipient is mailed twice.
use nvelope.Campaign.Batch.Statements.{
  close-Keeps, name-Triple, blind, window-Triple, suppressed-Triple, links-Triple,
}
use nvelope.Billing.Backing.Rows.{All-map}
use nvelope.Common.{refl, ◌∷◌, [], true, none, false}
use nvelope.Common.Action.Keeps.{Keeps}
use nvelope.Common.Action.Triple.{
  Triple, Triple-bind, Triple-pure, Triple-raise, Post, Triple-strengthen, Triple-state,
  Triple-assume,
}
use nvelope.Campaign.Domain.{Campaign, Recipient}
use nvelope.Campaign.Recipients.{Mailing, Sending, get_campaign}
use nvelope.Campaign.Recipients.Triples.{transaction-Triple}
use nvelope.Campaign.Batch.Window.{DistinctIds}
use nvelope.Campaign.Batch.Once.{
  MailedOnce, Ready, Triple-keeps, copy, mark-Triple, send_one-Triple,
}
use nvelope.Campaign.Batch.{
  Messenger, Permit, permitted, limiter_failed, wait, ℕ, String, close_run, List, check_context,
  mail, ◌∷◌, BatchOutcome, ask_limiter, Bool, Option, mark, is_cancelled, after_permit, mail_one,
  batch_done, marked_skipped, rate_limiter, some, snooze, work_if_running, work_on, work,
  status_running, get_campaign, address, Rendering,
}

module _ {M L : Type 0} (messenger : Messenger M) (allow : L → Permit × L)
    (rendering : Rendering) where
  abbrev P : Mailing M L → Type 0
  P = MailedOnce messenger

  close-Triple :
      (id : ℕ) (ids : List ℕ) (o : BatchOutcome) (rs : List Recipient)
      → Triple (Ready messenger rs) (close_run messenger allow rendering id ids o) (λ a. P) P
  close-Triple id ids o rs =
      Triple-strengthen _ (Triple-keeps _ (close-Keeps messenger allow rendering id ids o))
        λ w h. h.0

  skip-Triple :
      (r : Recipient) (rs : List Recipient) (reason : String)
      → Triple
          (Ready messenger (r ∷ rs))
          (mark r.id (marked_skipped reason))
          (λ u. Ready messenger rs)
          P
  skip-Triple r rs reason =
      Triple-strengthen _
        (mark-Triple messenger r rs (marked_skipped reason) (λ s. refl) (λ s. refl))
        λ w h. record {
          quiet = h.0.quiet;
          distinct = h.0.distinct;
          others = All-map _ _ w.recipients (λ s k e. k) h.0.unsent;
          once = h.0.once;
          later = h.1.1;
        }

  ask-Triple :
      (rs : List Recipient)
      → Triple
          (Ready messenger rs)
          (ask_limiter messenger allow rendering)
          (λ p. Ready messenger rs)
          P
  ask-Triple rs = record { at = λ w h. (copy messenger w _ refl refl refl h.0, h.1) }

  check-Post :
      (rs : List Recipient) (shutdowns : List Bool) (w : Mailing M L)
      → Ready messenger rs w
      → Post (λ u. Ready messenger rs) P (is_cancelled messenger allow rendering shutdowns w)
  check-Post rs [] w h = h
  check-Post rs (true ∷ rest) w h = copy messenger w _ refl refl refl h.0
  check-Post rs (false ∷ rest) w h = (copy messenger w _ refl refl refl h.0, h.1)

  check-Triple :
      (rs : List Recipient)
      → Triple
          (Ready messenger rs)
          (check_context messenger allow rendering)
          (λ u. Ready messenger rs)
          P
  unfolding check_context
  check-Triple rs = record { at = λ w h. check-Post rs w.shutdowns w h }

  module _ (id : ℕ) (c : Campaign) (from : String) where
    permit-Triple :
        (ids : List ℕ) (r : Recipient) (rs : List Recipient) (p : Permit)
        (continue : List ℕ → Sending M L BatchOutcome)
        → DistinctIds (r ∷ rs)
        → ((ids : List ℕ) → Triple (Ready messenger rs) (continue ids) (λ a. P) P)
        → Triple
            (Ready messenger (r ∷ rs))
            (after_permit messenger allow rendering id c from ids r p continue)
            (λ a. P)
            P
    permit-Triple ids r rs limiter_failed k u t = Triple-raise rate_limiter λ w h. h.0
    permit-Triple ids r rs (wait n) k u t = close-Triple id ids (snooze n) (r ∷ rs)
    permit-Triple ids r rs permitted k u t =
        Triple-bind _ _ (send_one-Triple messenger allow rendering c from r rs u) λ b. t _

    one-Triple :
        (ids : List ℕ) (r : Recipient) (rs : List Recipient) (o : Option String)
        (continue : List ℕ → Sending M L BatchOutcome)
        → DistinctIds (r ∷ rs)
        → ((ids : List ℕ) → Triple (Ready messenger rs) (continue ids) (λ a. P) P)
        → Triple
            (Ready messenger (r ∷ rs))
            (mail_one messenger allow rendering id c from ids r o continue)
            (λ a. P)
            P
    one-Triple ids r rs (some reason) k u t = Triple-bind _ _ (skip-Triple r rs reason) λ v. t ids
    one-Triple ids r rs none k u t =
        Triple-bind _ _ (ask-Triple (r ∷ rs)) λ p. permit-Triple ids r rs p k u t

    mail-Triple :
        (suppressed : String → Option String) (ids : List ℕ) (rs : List Recipient)
        → DistinctIds rs
        → Triple
            (Ready messenger rs)
            (mail messenger allow rendering id c from suppressed ids rs)
            (λ a. P)
            P
    unfolding mail
    mail-Triple suppressed ids [] u = close-Triple id ids batch_done []
    mail-Triple suppressed ids (r ∷ rs) u =
        Triple-bind _ _ (check-Triple (r ∷ rs)) λ v.
          one-Triple ids r rs (suppressed r.email) _ u λ ids'. mail-Triple suppressed ids' rs u.1

  running-Triple :
      (offset limit : ℕ) (c : Campaign) (running : Bool)
      → Triple P (work_if_running messenger allow rendering offset limit c running) (λ a. P) P
  running-Triple offset limit c false = Triple-pure batch_done
  running-Triple offset limit c true =
      Triple-bind _ _ (name-Triple messenger allow rendering c.sending_domain_id) λ name.
        Triple-bind _ _ (window-Triple messenger allow rendering c.id offset limit) λ rs.
          Triple-assume λ u.
            Triple-bind _ _ (suppressed-Triple messenger allow rendering rs rs) λ suppressed.
              Triple-bind _ _
                (links-Triple messenger allow rendering rs (rendering.extract_links c.body_html))
                λ v. mail-Triple c.id c (address c.from_local_part name) suppressed [] rs u

  on-Triple :
      (offset limit : ℕ) (o : Option Campaign)
      → Triple P (work_on messenger allow rendering offset limit o) (λ a. P) P
  on-Triple offset limit none = Triple-pure batch_done
  on-Triple offset limit (some c) = running-Triple offset limit c (status_running c.status)

  -- One job, whether it ends, is snoozed or is stopped by an error, keeps the invariant.
  pub work-Keeps : (id offset limit : ℕ) → Keeps P (work messenger allow rendering id offset limit)
  unfolding work get_campaign
  work-Keeps id offset limit = record {
    at = λ w h.
        Triple-state _ w
          (Triple-bind _ _
            (transaction-Triple {P = P} (λ o. P) (blind messenger allow rendering) _ λ w h. h)
            (on-Triple offset limit))
          h (λ a w k. k);
  }
