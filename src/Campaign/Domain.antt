-- ===== src/Campaign/Domain.antt =====
-- internal/campaign/domain/campaign.go and recipient.go: the campaign and its lifecycle, and one
-- addressed copy of it. The visual document and the template's fields are left out. A method that
-- mutates the receiver returns the new record; on an error the receiver is left as it was.
pub mod Lifecycle
use Prim.Native.Char.{code}
use Prim.Native.String
use nvelope.Common.{
  String, trim_space, is_empty, ℕ, Bool, not, Option, true, leb, ◌==◌, ◌&&◌, some, false, ◌||◌,
  none,
}
use nvelope.Common.{if◌then◌else◌}
use nvelope.Common.Int64.{Int64, lt64, le64}
use nvelope.Common.Calendar.{Time}
use nvelope.Common.Action.{ok, err}
use nvelope.Common.Action

-- A text is the message of `WithMessage`.
pub data CampaignError : Type 0 where
  campaign_not_found campaign_not_draft sending_domain_required campaign_not_sent : CampaignError
  not_editable : CampaignError
  campaign_invalid campaign_not_editable : String → CampaignError
  database shut_down rate_limiter unknown_domain : CampaignError

abbrev pub Result : Type 0 → Type 0
Result A = Action.Result CampaignError A

pub data CampaignStatus : Type 0 where
  draft running paused finished cancelled : CampaignStatus

pub record Campaign : Type 0 where
  pub id : ℕ
  pub tenant_id : ℕ
  pub name : String
  pub subject : String
  pub body_html : String
  pub body_text : String
  pub from_name : String
  pub from_local_part : String
  pub sending_domain_id : ℕ
  pub status : CampaignStatus
  pub max_send_errors : Int64
  pub sent_count : Int64
  pub failed_count : Int64
  pub recipient_count : Int64
  pub started_at : Option Time
  pub finished_at : Option Time
  pub archive_visible : Bool
  pub archived_at : Option Time

abbrev pub status_draft : CampaignStatus → Bool
status_draft draft = true
status_draft _ = false

abbrev pub status_running : CampaignStatus → Bool
status_running running = true
status_running _ = false

abbrev pub status_paused : CampaignStatus → Bool
status_paused paused = true
status_paused _ = false

-- The statuses that `Cancel` accepts.
abbrev pub cancellable : CampaignStatus → Bool
cancellable draft = true
cancellable running = true
cancellable paused = true
cancellable _ = false

-- ^[a-zA-Z0-9._%+\-]+$
abbrev pub local_char : ℕ → Bool
local_char c =
    (leb 0x61 c && leb c 0x7a)
    || (leb 0x41 c && leb c 0x5a)
    || (leb 0x30 c && leb c 0x39)
    || c == 0x2e
    || c == 0x5f
    || c == 0x25
    || c == 0x2b
    || c == 0x2d

unfoldable pub local_chars : String → Bool
local_chars String.[] = true
local_chars (String.◌∷◌ c s) = local_char (code c) && local_chars s

unfoldable pub new_campaign :
    ℕ → String → String → String → String → String → String → ℕ → Int64 → Result Campaign
unfolding local_chars le64 trim_space
new_campaign tenant_id name subject body_html body_text from_name from_local_part domain_id errors =
    let name' = trim_space name in
    let local' = trim_space from_local_part in
    if tenant_id == 0
    then err (campaign_invalid "a tenant is required")
    else if is_empty name'
    then err (campaign_invalid "campaign name is required")
    else if not (is_empty local') && not (local_chars local')
    then err (campaign_invalid "the From address local part is not valid")
    else ok (record {
      id = 0;
      tenant_id = tenant_id;
      name = name';
      subject = trim_space subject;
      body_html = body_html;
      body_text = body_text;
      from_name = trim_space from_name;
      from_local_part = local';
      sending_domain_id = domain_id;
      status = draft;
      max_send_errors = if le64 errors 0 then 100 else errors;
      sent_count = 0;
      failed_count = 0;
      recipient_count = 0;
      started_at = none;
      finished_at = none;
      archive_visible = false;
      archived_at = none;
    })

-- The fields that `Recompose` takes from the campaign it built.
abbrev pub take_content : Campaign → ℕ → Result Campaign → Result Campaign
take_content c domain_id (err e) = err e
take_content c domain_id (ok updated) = ok (record c {
  name = updated.name;
  subject = updated.subject;
  body_html = updated.body_html;
  body_text = updated.body_text;
  from_name = updated.from_name;
  from_local_part = updated.from_local_part;
  sending_domain_id = domain_id;
})

-- Recompose
unfoldable pub recompose :
    Campaign → String → String → String → String → String → String → ℕ → Result Campaign
recompose c name subject body_html body_text from_name from_local_part domain_id =
    if not (status_draft c.status)
    then err not_editable
    else take_content c domain_id (
        new_campaign c.tenant_id name subject body_html body_text from_name from_local_part
          domain_id c.max_send_errors)

unfoldable pub start : Campaign → Time → Result Campaign
unfolding trim_space
start c at =
    if not (status_draft c.status)
    then err campaign_not_draft
    else if is_empty c.subject
    then err (campaign_invalid "campaign subject is required")
    else if is_empty (trim_space c.body_html) && is_empty (trim_space c.body_text)
    then err (campaign_invalid "a campaign needs an HTML or text body")
    else if is_empty c.from_local_part
    then err (campaign_invalid "a valid From address local part is required")
    else if c.sending_domain_id == 0
    then err sending_domain_required
    else ok (record c { status = running; started_at = some at })

unfoldable pub pause : Campaign → Result Campaign
pause c =
    if not (status_running c.status)
    then err (campaign_not_editable "only a running campaign can be paused")
    else ok (record c { status = paused })

unfoldable pub resume : Campaign → Result Campaign
resume c =
    if not (status_paused c.status)
    then err (campaign_not_editable "only a paused campaign can be resumed")
    else ok (record c { status = running })

unfoldable pub finish : Campaign → Time → Result Campaign
finish c at =
    if not (status_running c.status)
    then err (campaign_not_editable "only a running campaign can finish")
    else ok (record c { status = finished; finished_at = some at })

unfoldable pub cancel_campaign : Campaign → Result Campaign
cancel_campaign c =
    if cancellable c.status
    then ok (record c { status = cancelled })
    else err (campaign_not_editable "a finished or cancelled campaign cannot be cancelled")

abbrev pub sync_counts : Campaign → Int64 → Int64 → Campaign
sync_counts c sent failed = record c { sent_count = sent; failed_count = failed }

unfoldable pub should_auto_pause : Campaign → Bool
unfolding lt64
should_auto_pause c = status_running c.status && lt64 c.max_send_errors c.failed_count

abbrev pub is_set : Option Time → Bool
is_set none = false
is_set (some t) = true

abbrev pub same_bool : Bool → Bool → Bool
same_bool true b = b
same_bool false b = not b

unfoldable pub set_archive_visible : Campaign → Bool → Time → Result Campaign
set_archive_visible c v at =
    if v && not (is_set c.started_at)
    then err campaign_not_sent
    else if same_bool v c.archive_visible
    then ok c
    else if v && not (is_set c.archived_at)
    then ok (record c { archive_visible = v; archived_at = some at })
    else ok (record c { archive_visible = v })

pub data RecipientStatus : Type 0 where
  pending sent failed skipped : RecipientStatus

-- `reason` is the failure's reason; the provider's reference is the stored message id.
pub record Recipient : Type 0 where
  pub id : ℕ
  pub campaign_id : ℕ
  pub subscriber_id : ℕ
  pub email : String
  pub status : RecipientStatus
  pub reason : String
  pub provider_message_id : String
  pub sent_at : Option Time

abbrev pub is_pending : Recipient → Bool
is_pending r = elim r.status [ pending ↦ true | _ ↦ false ]

abbrev pub is_sent : Recipient → Bool
is_sent r = elim r.status [ sent ↦ true | _ ↦ false ]

abbrev pub is_failed : Recipient → Bool
is_failed r = elim r.status [ failed ↦ true | _ ↦ false ]
