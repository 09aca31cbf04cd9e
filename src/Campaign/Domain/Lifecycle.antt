-- ===== src/Campaign/Domain/Lifecycle.antt =====
-- The lifecycle of a campaign, as the diagram that the methods follow, and the dates it leaves.
use nvelope.Common.{◌||◌, ◌≡◌, ◌&&◌}
use nvelope.Campaign.Domain.{
  Campaign, Time, Result, CampaignStatus, start, status_running, String, finish, draft, Bool, ℕ,
  pause, running, true, status_paused, resume, paused, false, cancel_campaign, finished, is_set,
  recompose, cancellable, set_archive_visible, cancelled,
}

pub data Change : Type 0 where
  start_change finish_change : Time → Change
  pause_change resume_change cancel_change : Change
  recompose_change : String → String → String → String → String → String → ℕ → Change
  archive_change : Bool → Time → Change

unfoldable pub change : Change → Campaign → Result Campaign
change (start_change at) c = start c at
change (finish_change at) c = finish c at
change pause_change c = pause c
change resume_change c = resume c
change cancel_change c = cancel_campaign c
change (recompose_change name subject html text from local domain) c =
    recompose c name subject html text from local domain
change (archive_change v at) c = set_archive_visible c v at

infix 40 ◌⇝◌
-- The edges of the lifecycle. An edit of a draft, and a change of the archive, keep the status.
pub data ◌⇝◌ : CampaignStatus → CampaignStatus → Type 0 where
  launch : draft ⇝ running
  hold : running ⇝ paused
  continuation : paused ⇝ running
  completion : running ⇝ finished
  stop : {s : CampaignStatus} → cancellable s ≡ true → s ⇝ cancelled
  staying : {s : CampaignStatus} → s ⇝ s

pub ruleset lifecycle = (launch, hold, continuation, completion, stop, staying)

abbrev pub status_finished : CampaignStatus → Bool
status_finished finished = true
status_finished _ = false

-- A campaign that ran has its start, a finished one its end, and an archived one both its start and
-- the time it was first shown.
pub record IsDated (c : Campaign) : Type 0 where
  pub started :
      status_running c.status || status_paused c.status || status_finished c.status ≡ true
      → is_set c.started_at ≡ true
  pub ended : status_finished c.status ≡ true → is_set c.finished_at ≡ true
  pub shown : c.archive_visible ≡ true → (is_set c.started_at && is_set c.archived_at) ≡ true

-- An edit changes the content only.
record SameState (c d : Campaign) : Type 0 where
  status_eq : d.status ≡ c.status
  started_eq : d.started_at ≡ c.started_at
  finished_eq : d.finished_at ≡ c.finished_at
  visible_eq : d.archive_visible ≡ c.archive_visible
  archived_eq : d.archived_at ≡ c.archived_at
