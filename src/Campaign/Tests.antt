-- ===== src/Campaign/Tests.antt =====
-- A campaign of two recipients, mailed by two jobs for the same window, the first of them stopped.
use nvelope.Campaign.Domain.{Campaign, Recipient, running, draft, pending, is_pending}
use nvelope.Campaign.Recipients.{Mailing}
use nvelope.Campaign.Batch.{
  Messenger, SendReply, accepted, OutboundMessage, Permit, permitted, Rendering,
}
use nvelope.Campaign.Batch.Deliveries.{IsUnsent}
use nvelope.Campaign.Batch.Runs.{MailEvent, batch_job, elsewhere, mail_run, mailed_once}
use nvelope.Common.{
  refl, if◌then◌else◌, ℕ, List, none, ◌≤◌, some, ◌∷◌, arith, false, String, All, ◌==◌, [], ◌+◌,
  true, ◌≡◌, ◌≢◌, select_where,
}

abbrev count_of : ℕ → List ℕ → ℕ
count_of k [] = 0
count_of k (i ∷ ids) = (if i == k then 1 else 0) + count_of k ids

abbrev post_send : List ℕ → OutboundMessage → SendReply × List ℕ
post_send sent o = (accepted "ref", o.recipient_id ∷ sent)

post_one_each :
    (sent : List ℕ) (o : OutboundMessage)
    → count_of o.recipient_id (post_send sent o).1 ≤ count_of o.recipient_id sent + 1
post_one_each sent o = ground arith

post_others_kept :
    (sent : List ℕ) (o : OutboundMessage) (k : ℕ)
    → k ≢ o.recipient_id
    → count_of k (post_send sent o).1 ≡ count_of k sent
post_others_kept sent o k h = ground (arith, h)

abbrev post : Messenger (List ℕ)
post = record {
  send = post_send;
  delivered = λ sent k. count_of k sent;
  one_each = post_one_each;
  others_kept = post_others_kept;
}

abbrev newsletter : Campaign
newsletter = record {
  id = 5;
  tenant_id = 1;
  name = "News";
  subject = "Hello";
  body_html = "<p>Hello</p>";
  body_text = "";
  from_name = "Us";
  from_local_part = "news";
  sending_domain_id = 3;
  status = draft;
  max_send_errors = 100;
  sent_count = 0;
  failed_count = 0;
  recipient_count = 2;
  started_at = none;
  finished_at = none;
  archive_visible = false;
  archived_at = none;
}

abbrev reader : ℕ → String → Recipient
reader id email = record {
  id = id;
  campaign_id = 5;
  subscriber_id = id;
  email = email;
  status = pending;
  reason = "";
  provider_message_id = "";
  sent_at = none;
}

abbrev mailing : Mailing (List ℕ) ℕ
mailing = record {
  campaigns = record newsletter { status = running; started_at = some 4 } ∷ [];
  recipients = reader 12 "b@example.org" ∷ reader 11 "a@example.org" ∷ [];
  suppression = λ email. none;
  sending_domains = λ id. some "example.org";
  messenger = [];
  limiter = 0;
  metered = [];
  now = 9;
  shutdowns = false ∷ true ∷ [];
  faults = [];
  mark_faults = [];
}

abbrev jobs : List (MailEvent (List ℕ) ℕ)
jobs = batch_job 5 0 500 ∷ elsewhere mailing ∷ batch_job 5 0 500 ∷ []

abbrev rendering : Rendering
rendering = record {
  tenant_id = 1;
  substitute = λ id text. text;
  extract_links = λ html. html ∷ [];
  unsubscribe = some (λ id. "https://example.org/unsubscribe");
}

abbrev always : ℕ → Permit × ℕ
always n = (permitted, n)

mailed_once_example :
    (count_of 11 (mail_run post always rendering mailing jobs).messenger ≤ 1)
    × All
        (IsUnsent post (mail_run post always rendering mailing jobs).messenger)
        (select_where is_pending (mail_run post always rendering mailing jobs).recipients)
mailed_once_example =
    mailed_once post always rendering mailing jobs 11 refl (refl, (refl, tt)) (λ k. refl)

abbrev started : Campaign
started = record newsletter { status = running; started_at = some 4 }
