-- ===== src/Campaign/Messages.antt =====
-- What the batch worker of internal/campaign/adapters/batch_worker.go is given: the messenger and
-- the message it takes (internal/campaign/domain/messenger.go), the rendering and the limiter.

use nvelope.Common.{String, ℕ, ◌≤◌, List, Option, ◌+◌, ◌≢◌, ◌≡◌}

pub data Header : Type 0 where
  x_tenant x_campaign x_subscriber : ℕ → Header
  list_unsubscribe : String → Header
  list_unsubscribe_post : Header

pub record OutboundMessage : Type 0 where
  pub from_name : String
  pub from_address : String
  pub to : String
  pub subject : String
  pub html_body : String
  pub text_body : String
  pub headers : List Header
  pub recipient_id : ℕ

-- A message reference, or the text of an error.
pub data SendReply : Type 0 where
  accepted refused : String → SendReply

-- The mail provider, which is no code of the program: `M` is its state, and `delivered` tells how
-- many messages it took for a recipient. The laws are that one call takes at most one message, and
-- none for anybody else.
pub record Messenger (M : Type 0) : Type 0 where
  pub send : M → OutboundMessage → SendReply × M
  pub delivered : M → ℕ → ℕ
  pub one_each :
      (m : M) (o : OutboundMessage)
      → delivered (send m o).1 o.recipient_id ≤ delivered m o.recipient_id + 1
  pub others_kept :
      (m : M) (o : OutboundMessage) (k : ℕ)
      → k ≢ o.recipient_id
      → delivered (send m o).1 k ≡ delivered m k

-- What the worker renders messages with: the job's tenant, the merge tags of a subscriber put into
-- a text, the links of a body (ExtractLinks, by a regular expression), and the unsubscribe linker,
-- when it is wired, by the subscriber.
pub record Rendering : Type 0 where
  pub tenant_id : ℕ
  pub substitute : ℕ → String → String
  pub extract_links : String → List String
  pub unsubscribe : Option (ℕ → String)

-- What the rate limiter answers.
pub data Permit : Type 0 where
  permitted limiter_failed : Permit
  wait : ℕ → Permit
