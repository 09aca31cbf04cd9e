-- ===== src/Campaign/Recipients.antt =====
-- The stored state of one tenant's campaigns, and internal/campaign/adapters/recipients_pg.go with
-- the parts of campaigns_pg.go that the batch worker uses. `faults` says of each coming transaction
-- whether the database fails it, and `mark_faults` says it of the marks and of the usage records,
-- whose errors the worker ignores; `suppression` is the reason of a suppressed address, whatever its
-- case; `shutdowns` says of each coming look at the context whether it is cancelled.
pub mod Triples
use nvelope.Common.{
  if◌then◌else◌, List, ℕ, String, Bool, Option, ◌==◌, ◌∷◌, select_where, some, length, update_where,
  select_first, leb, [], take, drop, true, none, false,
}
use nvelope.Common.Action.{Action, ok, err}
use nvelope.Common.Action
use nvelope.Common.Calendar.{Time}
use nvelope.Campaign.Domain.{
  Campaign, Recipient, CampaignError, database, Result, sent, failed, skipped, is_pending, is_sent,
  is_failed, campaign_not_found,
}

pub record Mailing (M L : Type 0) : Type 0 where
  pub campaigns : List Campaign
  pub recipients : List Recipient
  pub suppression : String → Option String
  pub sending_domains : ℕ → Option String
  pub messenger : M
  pub limiter : L
  pub metered : List ℕ
  pub now : Time
  pub shutdowns : List Bool
  pub faults : List Bool
  pub mark_faults : List Bool

abbrev pub Sending : Type 0 → Type 0 → Type 0 → Type 0
Sending M L A = Action (Mailing M L) CampaignError A

abbrev pub campaign_id_is : ℕ → Campaign → Bool
campaign_id_is id c = c.id == id

abbrev pub recipient_id_is : ℕ → Recipient → Bool
recipient_id_is id r = r.id == id

abbrev pub of_campaign : ℕ → Recipient → Bool
of_campaign campaign_id r = r.campaign_id == campaign_id

-- ORDER BY id
abbrev pub insert_by_id : Recipient → List Recipient → List Recipient
insert_by_id r [] = r ∷ []
insert_by_id r (s ∷ rows) =
    let rest = insert_by_id r rows in if leb r.id s.id then r ∷ s ∷ rows else s ∷ rest

unfoldable pub order_by_id : List Recipient → List Recipient
order_by_id [] = []
order_by_id (r ∷ rows) = insert_by_id r (order_by_id rows)

-- The pending rows of a window over all the campaign's rows, whatever their status.
unfoldable pub pending_window : ℕ → ℕ → ℕ → List Recipient → List Recipient
unfolding order_by_id
pending_window campaign_id offset limit rows =
    select_where is_pending
      (take limit (drop offset (order_by_id (select_where (of_campaign campaign_id) rows))))

abbrev pub marked_sent : String → Time → Recipient → Recipient
marked_sent reference at r = record r {
  status = sent;
  sent_at = some at;
  reason = "";
  provider_message_id = reference;
}

abbrev pub marked_failed : String → Recipient → Recipient
marked_failed reason r = record r { status = failed; reason = reason }

abbrev pub marked_skipped : String → Recipient → Recipient
marked_skipped reason r = record r { status = skipped; reason = reason }

-- Counts
abbrev pub count_where : (Recipient → Bool) → ℕ → List Recipient → ℕ
count_where test campaign_id rows =
    length (select_where test (select_where (of_campaign campaign_id) rows))

module _ {M L A : Type 0} where
  abbrev pub commit :
      Mailing M L
      → Action.Result CampaignError A × Mailing M L
      → Action.Result CampaignError A × Mailing M L
  commit before (ok a, after) = (ok a, after)
  commit before (err e, after) = (err e, before)

  abbrev pub run_transaction : List Bool → Sending M L A → Sending M L A
  run_transaction [] body w = commit w (body w)
  run_transaction (true ∷ faults) body w = (err database, record w { faults = faults })
  run_transaction (false ∷ faults) body w =
      let w' = record w { faults = faults } in commit w' (body w')

  -- tenantdb.WithTenant
  unfoldable pub transaction : Sending M L A → Sending M L A
  transaction body w = run_transaction w.faults body w

module _ {M L : Type 0} where
  unfoldable pub get_campaign : ℕ → Sending M L (Option Campaign)
  unfolding transaction
  get_campaign id = transaction λ w. (ok (select_first (campaign_id_is id) w.campaigns), w)

  -- Pending
  unfoldable pub pending_recipients : ℕ → ℕ → ℕ → Sending M L (List Recipient)
  unfolding transaction pending_window
  pending_recipients campaign_id offset limit =
      transaction λ w. (ok (pending_window campaign_id offset limit w.recipients), w)

  -- Counts
  unfoldable pub recipient_counts : ℕ → Sending M L (ℕ × ℕ × ℕ)
  unfolding transaction
  recipient_counts campaign_id = transaction λ w. (
    ok (
      count_where is_sent campaign_id w.recipients,
      count_where is_failed campaign_id w.recipients,
      count_where is_pending campaign_id w.recipients,
    ),
    w,
  )

  abbrev pub save_campaign : ℕ → Result Campaign → Sending M L Unit
  save_campaign id (err e) w = (err e, w)
  save_campaign id (ok updated) w =
      (ok tt, record w { campaigns = update_where (campaign_id_is id) (λ c. updated) w.campaigns })

  abbrev pub change_campaign : ℕ → (Campaign → Result Campaign) → Option Campaign → Sending M L Unit
  change_campaign id fn none w = (err campaign_not_found, w)
  change_campaign id fn (some c) w = save_campaign id (fn c) w

  -- Campaigns.Update
  unfoldable pub update_campaign : ℕ → (Campaign → Result Campaign) → Sending M L Unit
  unfolding transaction
  update_campaign id fn =
      transaction λ w. change_campaign id fn (select_first (campaign_id_is id) w.campaigns) w

  abbrev pub mark_under : List Bool → ℕ → (Recipient → Recipient) → Mailing M L → Mailing M L
  mark_under [] id f w = record w { recipients = update_where (recipient_id_is id) f w.recipients }
  mark_under (true ∷ faults) id f w = record w { mark_faults = faults }
  mark_under (false ∷ faults) id f w = record w {
    recipients = update_where (recipient_id_is id) f w.recipients;
    mark_faults = faults;
  }

  -- MarkSent, MarkFailed and MarkSkipped, whose error is ignored.
  unfoldable pub mark : ℕ → (Recipient → Recipient) → Sending M L Unit
  mark id f w = (ok tt, mark_under w.mark_faults id f w)
