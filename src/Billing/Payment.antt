-- ===== src/Billing/Payment.antt =====
-- internal/billing/domain/payment.go: charge attempts, and the gateway that charges.
use nvelope.Common.{
  ℕ, ◌≡◌, ◌≢◌, Bool, true, false, String, is_empty, if◌then◌else◌, ◌&&◌, not, refl, arith, ap,
}
use nvelope.Common.Action
use nvelope.Common.Action.{ok, err}
use nvelope.Billing.Errors.{Error}
use nvelope.Billing.Money.{Money}

pub data AttemptStatus : Type 0 where
  succeeded failed : AttemptStatus

-- The attempt number is the database's integer; it counts stored rows.
pub record PaymentAttempt : Type 0 where
  pub tenant_id : ℕ
  pub invoice_id : ℕ
  pub attempt_number : ℕ
  pub status : AttemptStatus
  pub gateway_reference : String
  pub failure_reason : String

unfoldable pub new_succeeded_attempt : ℕ → ℕ → ℕ → String → PaymentAttempt
new_succeeded_attempt tenant_id invoice_id attempt_number reference = record {
  tenant_id = tenant_id;
  invoice_id = invoice_id;
  attempt_number = attempt_number;
  status = succeeded;
  gateway_reference = reference;
  failure_reason = "";
}

unfoldable pub new_failed_attempt : ℕ → ℕ → ℕ → String → PaymentAttempt
new_failed_attempt tenant_id invoice_id attempt_number reason = record {
  tenant_id = tenant_id;
  invoice_id = invoice_id;
  attempt_number = attempt_number;
  status = failed;
  gateway_reference = "";
  failure_reason = reason;
}

abbrev pub status_succeeded : AttemptStatus → Bool
status_succeeded succeeded = true
status_succeeded failed = false

pub data ChargeOutcome : Type 0 where
  approved declined error : ChargeOutcome

-- The idempotency key invoice_id + ":" + attempt_number. An id's text has no colon and the
-- number's decimals are its own, so the pair stands for the text.
abbrev pub IdempotencyKey : Type 0
IdempotencyKey = ℕ × ℕ

pub record ChargeRequest : Type 0 where
  pub idempotency_key : IdempotencyKey
  pub amount : Money
  pub tenant_id : ℕ
  pub invoice_id : ℕ

pub record ChargeResult : Type 0 where
  pub outcome : ChargeOutcome
  pub gateway_reference : String
  pub decline_reason : String

-- What `Charge` returns: a result, or a Go error.
abbrev pub ChargeReply : Type 0
ChargeReply = Action.Result Error ChargeResult

-- gatewayErr == nil && result.Outcome == ChargeApproved
abbrev pub is_approved : ChargeReply → Bool
is_approved (err e) = false
is_approved (ok r) = elim r.outcome [ approved ↦ true | _ ↦ false ]

-- chargeFailureReason
abbrev pub charge_failure_reason : ChargeReply → String
charge_failure_reason (err e) = "gateway_error"
charge_failure_reason (ok r) = elim r.outcome [
  | error ↦ "gateway_error"
  | _ ↦ if is_empty r.decline_reason then "declined" else r.decline_reason
]

abbrev pub reference_of : ChargeReply → String
reference_of (ok r) = r.gateway_reference
reference_of (err e) = ""

abbrev pub is_error : ChargeReply → Bool
is_error (err e) = true
is_error (ok r) = elim r.outcome [ error ↦ true | _ ↦ false ]

-- The payment provider, which is no code of the program: `G` is its state, `taken` tells whether it
-- has taken the money of a key, and `unanswered` whether the last call for the key returned a Go
-- error or ChargeError, after which the money may have been taken or not. The laws follow what
-- `PaymentGateway` documents: a key has one result, and ChargeDeclined is a rejected payment, so
-- that nothing was taken under a key that is declined; and a charge concerns its own key alone.
pub record Gateway (G : Type 0) : Type 0 where
  pub charge : G → ChargeRequest → ChargeReply × G
  pub taken : G → IdempotencyKey → Bool
  pub unanswered : G → IdempotencyKey → Bool
  pub declined_takes_nothing :
      (g : G) (r : ChargeRequest) (result : ChargeResult)
      → (charge g r).0 ≡ ok result
      → result.outcome ≡ declined
      → taken (charge g r).1 r.idempotency_key ≡ false
  pub last_answer :
      (g : G) (r : ChargeRequest)
      → unanswered (charge g r).1 r.idempotency_key ≡ is_error (charge g r).0
  pub other_keys_kept :
      (g : G) (r : ChargeRequest) (k : IdempotencyKey)
      → k ≢ r.idempotency_key
      → (taken (charge g r).1 k ≡ taken g k) × (unanswered (charge g r).1 k ≡ unanswered g k)

module _ {G : Type 0} (gateway : Gateway G) where
  -- Money was taken under the key, and the gateway answered the last call for it.
  unfoldable pub confirmed : G → IdempotencyKey → Bool
  confirmed g k = gateway.taken g k && not (gateway.unanswered g k)

  pub confirmed-kept :
      (g : G) (r : ChargeRequest) (k : IdempotencyKey)
      → k ≢ r.idempotency_key
      → confirmed (gateway.charge g r).1 k ≡ confirmed g k
  unfolding confirmed
  confirmed-kept g r k other =
      let (taken, answered) = gateway.other_keys_kept g r k other in rw (taken, answered) refl

  -- After a charge that is not approved, its key is not confirmed.
  pub confirmed-refused :
      (g : G) (r : ChargeRequest)
      → is_approved (gateway.charge g r).0 ≡ false
      → confirmed (gateway.charge g r).1 r.idempotency_key ≡ false
  unfolding confirmed
  confirmed-refused g r refused = by_reply (gateway.charge g r).0 refl
    where
      by_outcome :
          (result : ChargeResult)
          → (gateway.charge g r).0 ≡ ok result
          → (o : ChargeOutcome) → result.outcome ≡ o
          → (gateway.taken (gateway.charge g r).1 r.idempotency_key
              && not (gateway.unanswered (gateway.charge g r).1 r.idempotency_key))
            ≡ false
      by_outcome result e approved o =
          let denied : is_approved (ok result) ≡ false = (rw e at refused) in
          let given : is_approved (ok result) ≡ true = rw o refl in absurd (cc (denied, given))
      by_outcome result e declined o = rw (gateway.declined_takes_nothing g r result e o) refl
      by_outcome result e error o = ground (arith, gateway.last_answer g r, ap is_error e)

      by_reply :
          (reply : ChargeReply)
          → (gateway.charge g r).0 ≡ reply
          → (gateway.taken (gateway.charge g r).1 r.idempotency_key
              && not (gateway.unanswered (gateway.charge g r).1 r.idempotency_key))
            ≡ false
      by_reply (ok result) e = by_outcome result e result.outcome refl
      by_reply (err x) e = ground (arith, gateway.last_answer g r, ap is_error e)

  pub confirmed-both :
      (g : G) (k : IdempotencyKey)
      → gateway.taken g k ≡ true
      → gateway.unanswered g k ≡ false
      → confirmed g k ≡ true
  unfolding confirmed
  confirmed-both g k taken answered = rw (taken, answered) refl

  pub confirmed-untaken :
      (g : G) (k : IdempotencyKey) → gateway.taken g k ≡ false → confirmed g k ≡ false
  unfolding confirmed
  confirmed-untaken g k untaken = rw untaken refl
