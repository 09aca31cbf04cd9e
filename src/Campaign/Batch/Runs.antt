-- ===== src/Campaign/Batch/Runs.antt =====
-- Sequences of batch jobs (internal/campaign/adapters/batch_worker.go), redelivered jobs included.
use nvelope.Campaign.Domain.{is_pending}
use nvelope.Campaign.Recipients.{Mailing}
use nvelope.Campaign.Batch.{Messenger, Permit, work, ℕ, List, ◌∷◌, Recipient, [], true, Rendering}
use nvelope.Campaign.Batch.Window.{DistinctIds, All-pending}
use nvelope.Campaign.Batch.Deliveries.{IsUnsent}
use nvelope.Campaign.Batch.Once.{MailedOnce, copy}
use nvelope.Campaign.Batch.Jobs.{work-Keeps}
use nvelope.Common.{refl, ◌≡◌, [], All, ◌≤◌, arith, select_where}

-- A job for a window of a campaign; `elsewhere` is any change of the campaigns, the suppression
-- list, the limiter, the clock, the shutdowns and the faults to come.
pub data MailEvent (M L : Type 0) : Type 0 where
  batch_job : ℕ → ℕ → ℕ → MailEvent M L
  elsewhere : Mailing M L → MailEvent M L

module _ {M L : Type 0} (messenger : Messenger M) (allow : L → Permit × L)
    (rendering : Rendering) where
  unfoldable pub mail_step : Mailing M L → MailEvent M L → Mailing M L
  mail_step w (batch_job id offset limit) = (work messenger allow rendering id offset limit w).1
  mail_step w (elsewhere v) = record v {
    recipients = w.recipients;
    messenger = w.messenger;
    mark_faults = w.mark_faults;
  }

  unfoldable pub mail_run : Mailing M L → List (MailEvent M L) → Mailing M L
  mail_run w [] = w
  mail_run w (e ∷ es) = mail_run (mail_step w e) es

  step-MailedOnce :
      (w : Mailing M L) (e : MailEvent M L)
      → MailedOnce messenger w
      → MailedOnce messenger (mail_step w e)
  unfolding mail_step
  step-MailedOnce w (batch_job id offset limit) h =
      (work-Keeps messenger allow rendering id offset limit).at w h
  step-MailedOnce w (elsewhere v) h = copy messenger w _ refl refl refl h

  run-MailedOnce :
      (w : Mailing M L) (es : List (MailEvent M L))
      → MailedOnce messenger w
      → MailedOnce messenger (mail_run w es)
  unfolding mail_run
  run-MailedOnce w [] h = h
  run-MailedOnce w (e ∷ es) h = run-MailedOnce (mail_step w e) es (step-MailedOnce w e h)

  All-IsUnsent :
      (m : M) (rows : List Recipient)
      → ((k : ℕ) → messenger.delivered m k ≡ 0)
      → All (λ r. is_pending r ≡ true → IsUnsent messenger m r) rows
  All-IsUnsent m [] z = tt
  All-IsUnsent m (r ∷ rows) z = (λ p. z r.id, All-IsUnsent m rows z)

  -- From a state in which nobody was mailed and the recipients' ids differ, if no mark of a row is
  -- lost, every sequence of batch jobs delivers at most one message to a recipient, whichever
  -- windows they take, whichever jobs are delivered again, are stopped by a shutdown, the limiter or
  -- a failed transaction, and whatever else changes between them; and a recipient that is still
  -- pending was not mailed.
  pub mailed_once :
      (w : Mailing M L) (es : List (MailEvent M L)) (k : ℕ)
      → w.mark_faults ≡ []
      → DistinctIds w.recipients
      → ((k : ℕ) → messenger.delivered w.messenger k ≡ 0)
      → (messenger.delivered (mail_run w es).messenger k ≤ 1)
        × All
            (IsUnsent messenger (mail_run w es).messenger)
            (select_where is_pending (mail_run w es).recipients)
  mailed_once w es k q d z =
      let h = run-MailedOnce w es (record {
        quiet = q;
        distinct = d;
        unsent = All-IsUnsent w.messenger w.recipients z;
        once = λ k. omega (arith, z k);
      }) in
      (h.once k, All-pending _ (mail_run w es).recipients h.unsent)
