-- ===== src/Billing/Store.antt =====
-- The stored state of one tenant's billing, and the transaction around each statement
-- (internal/platform/tenantdb). Row-level security hides every other tenant's rows, so the tables
-- hold the rows of one tenant. `faults` says of each coming transaction whether the database
-- fails it; `fresh` is the next generated id; `now` is the clock's reading.
pub mod Keeps
pub mod Triples
use nvelope.Common.{ℕ, Bool, true, false, String, List, [], ◌∷◌}
use nvelope.Common.Calendar.{Time}
use nvelope.Common.Action.{Action, ok, err}
use nvelope.Common.Action
use nvelope.Billing.Errors.{Error, infrastructure}
use nvelope.Billing.Plan.{Plan}
use nvelope.Billing.Subscription.{Subscription}
use nvelope.Billing.Invoice.{Invoice}
use nvelope.Billing.Usage.{UsageEvent, UsageCounter}
use nvelope.Billing.Payment.{PaymentAttempt, Gateway, ChargeRequest, ChargeReply}

pub record AuditEntry : Type 0 where
  pub actor_id : ℕ
  pub action : String
  pub target : ℕ

pub record World (G : Type 0) : Type 0 where
  pub plans : List Plan
  pub subscriptions : List Subscription
  pub invoices : List Invoice
  pub attempts : List PaymentAttempt
  pub audit : List AuditEntry
  pub usage_events : List UsageEvent
  pub usage_counters : List UsageCounter
  pub gateway : G
  pub fresh : ℕ
  pub now : Time
  pub faults : List Bool

abbrev pub Billing : Type 0 → Type 0 → Type 0
Billing G A = Action (World G) Error A

module _ {G A : Type 0} where
  -- A body that returns an error is rolled back.
  abbrev pub commit : World G → Action.Result Error A × World G → Action.Result Error A × World G
  commit before (ok a, after) = (ok a, after)
  commit before (err e, after) = (err e, before)

  abbrev pub run_transaction : List Bool → Billing G A → Billing G A
  run_transaction [] body w = commit w (body w)
  run_transaction (true ∷ faults) body w = (err infrastructure, record w { faults = faults })
  run_transaction (false ∷ faults) body w =
      let w' = record w { faults = faults } in commit w' (body w')

  -- tenantdb.WithTenant
  unfoldable pub with_tenant : Billing G A → Billing G A
  with_tenant body w = run_transaction w.faults body w

module _ {G : Type 0} where
  -- time.Now().UTC()
  abbrev pub time_now : Billing G Time
  time_now w = (ok w.now, w)

  -- The gateway is called outside every transaction.
  unfoldable pub call_gateway : Gateway G → ChargeRequest → Billing G ChargeReply
  call_gateway gateway r w =
      let (reply, g) = gateway.charge w.gateway r in (ok reply, record w { gateway = g })

  -- AuditWriter.Record
  unfoldable pub record_audit : ℕ → String → ℕ → Billing G Unit
  unfolding with_tenant
  record_audit actor_id action target = with_tenant λ w. (
    ok tt,
    record w { audit = record { actor_id = actor_id; action = action; target = target } ∷ w.audit },
  )
