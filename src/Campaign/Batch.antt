-- ===== src/Campaign/Batch.antt =====
-- internal/campaign/adapters/batch_worker.go: the job that mails one window of a campaign's
-- recipients. Of the tracked links' rows only the transaction is modelled that stores them; a
-- message's body is given by its text and the recipient whose tracked links it carries.
pub mod Window
pub mod Deliveries
pub mod Once
pub mod Statements
pub mod Jobs
pub mod Runs
pub use nvelope.Campaign.Messages.{
  OutboundMessage, Header, x_tenant, x_campaign, x_subscriber, list_unsubscribe,
  list_unsubscribe_post, SendReply, accepted, refused, Messenger, Rendering, Permit, permitted,
  limiter_failed, wait,
}
use nvelope.Common.Calendar.{Time}
use nvelope.Common.{
  if◌then◌else◌, String, ℕ, append_text, ◌≤◌, List, Option, ◌+◌, Bool, exists_where, ◌∷◌, some, ◌≢◌,
  not, ◌==◌, ◌≡◌, [], true, none, false,
}
use nvelope.Common.Action.{ok, err, pure, raise, ◌>>=◌, ◌>>◌}
use nvelope.Campaign.Domain.{
  shut_down, rate_limiter, unknown_domain, Result, finish, pause, should_auto_pause, status_running,
  Campaign, Recipient, sync_counts,
}
use nvelope.Campaign.Recipients.{
  Mailing, Sending, recipient_counts, get_campaign, update_campaign, mark, pending_recipients,
  transaction, marked_sent, marked_skipped, marked_failed,
}

pub data BatchOutcome : Type 0 where
  batch_done : BatchOutcome
  snooze : ℕ → BatchOutcome

-- The closure of syncProgress.
unfoldable pub sync_closure : ℕ → ℕ → ℕ → Time → Campaign → Result Campaign
unfolding should_auto_pause pause finish
sync_closure sent failed pending now c =
    let synced = sync_counts c sent failed in
    if not (status_running c.status)
    then ok c
    else if should_auto_pause synced
    then pause synced
    else if pending == 0
    then finish synced now
    else ok synced

-- The From address.
unfoldable pub address : String → String → String
unfolding append_text
address local_part domain = append_text local_part (append_text "@" domain)

module _ {M L : Type 0} (messenger : Messenger M) (allow : L → Permit × L)
    (rendering : Rendering) where
  abbrev pub unsubscribe_headers : Option (ℕ → String) → ℕ → List Header
  unsubscribe_headers none subscriber_id = []
  unsubscribe_headers (some url) subscriber_id =
      if subscriber_id == 0
      then []
      else list_unsubscribe (append_text "<" (append_text (url subscriber_id) ">"))
        ∷ list_unsubscribe_post
        ∷ []

  -- The headers of sendOne; 0 is the empty subscriber id.
  abbrev pub headers_for : Campaign → Recipient → List Header
  headers_for c r =
      x_tenant rendering.tenant_id
      ∷ x_campaign c.id
      ∷ x_subscriber r.subscriber_id
      ∷ unsubscribe_headers rendering.unsubscribe r.subscriber_id

  abbrev pub rendered : ℕ → String → String
  rendered subscriber_id text =
      if subscriber_id == 0 then text else rendering.substitute subscriber_id text

  abbrev pub message : Campaign → String → Recipient → OutboundMessage
  message c from_address r = record {
    from_name = c.from_name;
    from_address = from_address;
    to = r.email;
    subject = rendered r.subscriber_id c.subject;
    html_body = rendered r.subscriber_id c.body_html;
    text_body = rendered r.subscriber_id c.body_text;
    headers = headers_for c r;
    recipient_id = r.id;
  }

  abbrev pub call_messenger : OutboundMessage → Sending M L SendReply
  call_messenger o w =
      let (reply, m) = messenger.send w.messenger o in (ok reply, record w { messenger = m })

  abbrev pub ask_limiter : Sending M L Permit
  ask_limiter w = let (p, l) = allow w.limiter in (ok p, record w { limiter = l })

  abbrev pub clock : Sending M L Time
  clock w = (ok w.now, w)

  abbrev pub mark_reply : Recipient → SendReply → Time → Sending M L Bool
  mark_reply r (accepted reference) at = do mark r.id (marked_sent reference at); pure true
  mark_reply r (refused reason) at = do mark r.id (marked_failed reason); pure false

  -- sendOne
  unfoldable pub send_one : Campaign → String → Recipient → Sending M L Bool
  send_one c from_address r = do
    reply ← call_messenger (message c from_address r)
    at ← clock
    mark_reply r reply at

  -- recordUsage: a reference that was recorded before adds nothing.
  abbrev pub meter_one : List ℕ → ℕ → List ℕ
  meter_one rows id = if exists_where (λ k. k == id) rows then rows else id ∷ rows

  abbrev pub meter_all : List ℕ → List ℕ → List ℕ
  meter_all rows [] = rows
  meter_all rows (id ∷ ids) = meter_all (meter_one rows id) ids

  abbrev pub record_under : List Bool → List ℕ → Mailing M L → Mailing M L
  record_under [] ids w = record w { metered = meter_all w.metered ids }
  record_under (true ∷ faults) ids w = record w { mark_faults = faults }
  record_under (false ∷ faults) ids w = record w {
    metered = meter_all w.metered ids;
    mark_faults = faults;
  }

  unfoldable pub record_sent : List ℕ → Sending M L Unit
  record_sent [] w = (ok tt, w)
  record_sent (id ∷ ids) w = (ok tt, record_under w.mark_faults (id ∷ ids) w)

  -- syncProgress
  unfoldable pub sync_progress : ℕ → Sending M L Unit
  sync_progress campaign_id = do
    counts ← recipient_counts campaign_id
    now ← clock
    update_campaign campaign_id (sync_closure counts.0 counts.1 counts.2 now)

  abbrev pub is_cancelled : List Bool → Sending M L Unit
  is_cancelled [] w = (ok tt, w)
  is_cancelled (true ∷ rest) w = (err shut_down, record w { shutdowns = rest })
  is_cancelled (false ∷ rest) w = (ok tt, record w { shutdowns = rest })

  -- ctx.Err()
  unfoldable pub check_context : Sending M L Unit
  check_context w = is_cancelled w.shutdowns w

  -- What is sent is metered, and the campaign's counts brought up to date, before the job ends.
  unfoldable pub close_run : ℕ → List ℕ → BatchOutcome → Sending M L BatchOutcome
  close_run campaign_id ids outcome = do record_sent ids; sync_progress campaign_id; pure outcome

  -- The loop over the pending recipients; `ids` are those sent in this run.
  abbrev pub after_permit :
      ℕ
      → Campaign
      → String
      → List ℕ
      → Recipient
      → Permit
      → (List ℕ → Sending M L BatchOutcome)
      → Sending M L BatchOutcome
  after_permit campaign_id c from ids r limiter_failed continue = raise rate_limiter
  after_permit campaign_id c from ids r (wait time) continue =
      close_run campaign_id ids (snooze time)
  after_permit campaign_id c from ids r permitted continue = do
    delivered ← send_one c from r
    continue (if delivered then r.id ∷ ids else ids)

  abbrev pub mail_one :
      ℕ
      → Campaign
      → String
      → List ℕ
      → Recipient
      → Option String
      → (List ℕ → Sending M L BatchOutcome)
      → Sending M L BatchOutcome
  mail_one campaign_id c from ids r (some reason) continue = do
    mark r.id (marked_skipped reason)
    continue ids
  mail_one campaign_id c from ids r none continue = do
    permit ← ask_limiter
    after_permit campaign_id c from ids r permit continue

  unfoldable pub mail :
      ℕ
      → Campaign
      → String
      → (String → Option String)
      → List ℕ
      → List Recipient
      → Sending M L BatchOutcome
  mail campaign_id c from suppressed ids [] = close_run campaign_id ids batch_done
  mail campaign_id c from suppressed ids (r ∷ rest) = do
    check_context
    mail_one campaign_id c from ids r (suppressed r.email)
        (λ ids'. mail campaign_id c from suppressed ids' rest)

  abbrev pub found_domain : Option String → Sending M L String
  found_domain none w = (err unknown_domain, w)
  found_domain (some name) w = (ok name, w)

  -- DomainName
  abbrev pub domain_name : ℕ → Sending M L String
  domain_name id = transaction λ w. found_domain (w.sending_domains id) w

  -- Suppressed: no transaction for an empty window.
  abbrev pub suppressed_addresses : List Recipient → Sending M L (String → Option String)
  suppressed_addresses [] w = (ok (λ email. none), w)
  suppressed_addresses (r ∷ rs) w = transaction (λ w'. (ok w'.suppression, w')) w

  -- UpsertLinks, of a body that has links.
  abbrev pub upsert_links : List String → Sending M L Unit
  upsert_links [] w = (ok tt, w)
  upsert_links (url ∷ urls) w = transaction (λ w'. (ok tt, w')) w

  abbrev pub work_if_running : ℕ → ℕ → Campaign → Bool → Sending M L BatchOutcome
  work_if_running offset limit c false = pure batch_done
  work_if_running offset limit c true = do
    name ← domain_name c.sending_domain_id
    pending ← pending_recipients c.id offset limit
    suppressed ← suppressed_addresses pending
    upsert_links (rendering.extract_links c.body_html)
    mail c.id c (address c.from_local_part name) suppressed [] pending

  abbrev pub work_on : ℕ → ℕ → Option Campaign → Sending M L BatchOutcome
  work_on offset limit none = pure batch_done
  work_on offset limit (some c) = work_if_running offset limit c (status_running c.status)

  -- BatchWorker.Work
  unfoldable pub work : ℕ → ℕ → ℕ → Sending M L BatchOutcome
  work campaign_id offset limit = do found ← get_campaign campaign_id; work_on offset limit found
