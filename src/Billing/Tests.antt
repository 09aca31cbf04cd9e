-- ===== src/Billing/Tests.antt =====
-- A tenant with one plan and a gateway that approves or declines by the tenant's invoice.
mod Lifecycle
mod Usage
mod Dunning
mod Sweep
use nvelope.Billing.Errors.{infrastructure}
use nvelope.Billing.Invoice.{new_line_item, new_invoice, is_settleable}
use nvelope.Billing.Subscription.{new_subscription, mark_past_due, suspend, activate}
use nvelope.Billing.Invoices.{
  add_invoice, add_or_get, get_invoice, update_seeing, update_invoice, open_for_subscription,
  by_subscription_period, has_succeeded_attempt, add_attempt, next_attempt_number, insert_invoice,
}
use nvelope.Billing.Subscriptions.{
  get_plan, add_subscription, get_subscription, current_subscription, update_subscription,
}
use nvelope.Billing.Commands
use nvelope.Billing.Charge.{
  handle, settle_invoice, renewal_invoice, charge_invoice, submit_charge, submit_numbered,
  store_attempt, dun, fall_behind, fail_once, exhausted_by_failure, pay_unless_paid, activate_into,
  fee_of,
}
use nvelope.Billing.Runs.Once.{charged_once}
use nvelope.Billing.Runs.{Event, subscribe_event, run, drift, step, charge_event, settle_event}
use nvelope.Billing.Subscription.{Subscription, pending}
use nvelope.Billing.Charge.{nothing_due}
use nvelope.Billing.Runs.Backed.{run-IsBacked}
use nvelope.Billing.Backing.{IsBacked}
use nvelope.Common.{
  ◌≡◌, ◌≢◌, refl, Bool, true, false, List, [], ◌∷◌, ◌==◌, ◌&&◌, ◌||◌, if◌then◌else◌, arith, ℕ,
  Bool-cases, inl, inr, none, ap,
}
use nvelope.Common.Int64.{Int64}
use nvelope.Common.Action.{ok, ◌>>=◌, err}
use nvelope.Billing.Money.{Money}
use nvelope.Billing.Dunning.{DunningPolicy, next_attempt_at, is_exhausted}
use nvelope.Billing.Plan.{Plan, published, block, is_subscribable, advance_from}
use nvelope.Billing.Payment.{
  Gateway, approved, declined, ChargeRequest, IdempotencyKey, ChargeReply, is_approved,
  ChargeResult, is_error, new_failed_attempt, new_succeeded_attempt,
}
use nvelope.Billing.Store.{World, call_gateway, record_audit, with_tenant}
use nvelope.Billing.Charge
use nvelope.Billing.Commands.{subscribe, cancel_subscription, open_account, snapshot}

abbrev rub : Int64 → Money
rub n = record { minor = n; currency = "RUB" }

abbrev basic : Plan
basic = record {
  id = 7;
  code = "basic";
  name = "Basic";
  price = rub 900;
  billing_period = record { months = 1; days = 0 };
  included_sends = 100;
  overage_mode = block;
  overage_price = rub 0;
  status = published;
}

-- A gateway that remembers the keys that it took money for, and declines in the given mode.
abbrev Till : Type 0
Till = Bool × List IdempotencyKey

abbrev key_in : IdempotencyKey → List IdempotencyKey → Bool
key_in k [] = false
key_in (i, n) ((j, m) ∷ ks) = (i == j && n == m) || key_in (i, n) ks

abbrev till_charge : Till → ChargeRequest → ChargeReply × Till
till_charge (open_till, ks) r =
    if open_till || key_in r.idempotency_key ks
    then (
      ok (record { outcome = approved; gateway_reference = "ref"; decline_reason = "" }),
      (open_till, r.idempotency_key ∷ ks),
    )
    else (
      ok (record { outcome = declined; gateway_reference = ""; decline_reason = "no funds" }),
      (open_till, ks),
    )

till_refuses :
    (g : Till) (r : ChargeRequest) (result : ChargeResult)
    → (till_charge g r).0 ≡ ok result
    → is_approved (ok result) ≡ false
    → key_in r.idempotency_key (till_charge g r).1.1 ≡ false
till_refuses (b, ks) r result e h = elim (Bool-cases (b || key_in r.idempotency_key ks)) [
  | inl yes' ↦ absurd (cc (h, ap is_approved (rw yes' at e)))
  | inr no' ↦ rw no' (ground (arith, no'))
]

till_answers : (g : Till) (r : ChargeRequest) → false ≡ is_error (till_charge g r).0
till_answers (b, ks) r = elim (Bool-cases (b || key_in r.idempotency_key ks)) [
  | inl e ↦ rw e refl
  | inr e ↦ rw e refl
]

pair-eq : (i n j m : ℕ) → (i == j && n == m) ≡ true → ◌≡◌ {A = IdempotencyKey} (i, n) (j, m)
pair-eq i n j m h = ground arith

key_in-cons :
    (k l : IdempotencyKey) (ks : List IdempotencyKey) → k ≢ l → key_in k (l ∷ ks) ≡ key_in k ks
key_in-cons (i, n) (j, m) ks h = elim (Bool-cases (i == j && n == m)) [
  | inl e ↦ absurd (h (pair-eq i n j m e))
  | inr e ↦ rw e
]

till_keeps :
    (g : Till) (r : ChargeRequest) (k : IdempotencyKey)
    → k ≢ r.idempotency_key
    → key_in k (till_charge g r).1.1 ≡ key_in k g.1
till_keeps (b, ks) r k h = elim (Bool-cases (b || key_in r.idempotency_key ks)) [
  | inl e ↦ rw e (key_in-cons k r.idempotency_key ks h)
  | inr e ↦ rw e
]

abbrev till : Gateway Till
till = record {
  charge = till_charge;
  taken = λ g k. key_in k g.1;
  unanswered = λ g k. false;
  declined_takes_nothing = λ g r result e o. till_refuses g r result e (rw o refl);
  last_answer = till_answers;
  other_keys_kept = λ g r k h. (till_keeps g r k h, refl);
}

abbrev policy : DunningPolicy
policy = record { max_attempts = 2; retry_interval = 1000 }

abbrev start_world : Bool → List Bool → World Till
start_world open_till faults = record {
  plans = basic ∷ [];
  subscriptions = [];
  invoices = [];
  attempts = [];
  audit = [];
  usage_events = [];
  usage_counters = [];
  gateway = (open_till, []);
  fresh = 100;
  now = 64_000_000_000_000_000_000;
  faults = faults;
}

subscribed : World Till
subscribed = (subscribe till policy 1 2 7 (start_world true [])).1

declined_world : World Till
declined_world =
    (Charge.handle till policy 1 100 (subscribe till policy 1 2 7 (start_world false [])).1).1

-- A failed charge, a retry that is approved while its attempt's row is lost, and the retry of that.
abbrev story : List Event
story =
    subscribe_event 2 7
    ∷ drift 64_000_000_000_000_002_000 (false ∷ false ∷ false ∷ false ∷ true ∷ []) (basic ∷ [])
    ∷ charge_event 100
    ∷ charge_event 100
    ∷ settle_event 2 101
    ∷ []

-- The run opens every definition that it computes through.
run_story : {G : Type 0} → Gateway G → World G → List Event → World G
unfolding run step subscribe handle settle_invoice Commands.settle cancel_subscription Charge.settle
    open_account snapshot renewal_invoice charge_invoice submit_charge submit_numbered store_attempt
    dun fall_behind fail_once exhausted_by_failure pay_unless_paid activate_into call_gateway
    record_audit with_tenant get_plan add_subscription get_subscription current_subscription
    update_subscription add_invoice add_or_get get_invoice update_seeing update_invoice
    open_for_subscription by_subscription_period has_succeeded_attempt add_attempt
    next_attempt_number insert_invoice ◌>>=◌ is_subscribable new_subscription new_line_item
    new_invoice fee_of is_settleable advance_from next_attempt_at is_exhausted mark_past_due suspend
    activate
run_story gateway w es = run gateway policy 1 w es

abbrev story_start : World Till
story_start =
    start_world true (false ∷ false ∷ false ∷ false ∷ false ∷ false ∷ false ∷ false ∷ true ∷ [])

charged_once_example : ◌≡◌ {A = ℕ} 1 1
charged_once_example =
    charged_once till policy 1 101 story_start story 1 1 refl (λ k. refl) (unfold run_story in refl)
      refl (unfold run_story in refl) refl

run-IsBacked_example : IsBacked (run till policy 1 story_start story)
run-IsBacked_example =
    run-IsBacked till policy 1 story_start story
      (record { paid = tt; active = tt; distinct = tt; below = tt })

-- A gateway that takes every key's money, and whose first reply is lost.
abbrev Lossy : Type 0
Lossy = Bool × (IdempotencyKey → Bool) × (IdempotencyKey → Bool)

abbrev key_eq : IdempotencyKey → IdempotencyKey → Bool
key_eq (i, n) (j, m) = i == j && n == m

abbrev lossy_reply : Bool → ChargeReply
lossy_reply true = err infrastructure
lossy_reply false =
    ok (record { outcome = approved; gateway_reference = "ref"; decline_reason = "" })

approves :
    (lost : Bool) {result : ChargeResult} {A : Type 0}
    → lossy_reply lost ≡ ok result
    → is_approved (ok result) ≡ false
    → A
approves true e h = absurd (cc e)
approves false e h = absurd (cc (h, ap is_approved e))

answers :
    (lost : Bool) (k : IdempotencyKey) (b : Bool)
    → (if key_eq k k then lost else b) ≡ is_error (lossy_reply lost)
answers true (i, n) b = ground arith
answers false (i, n) b = ground arith

key_eq-false : (k l : IdempotencyKey) → k ≢ l → key_eq k l ≡ false
key_eq-false (i, n) (j, m) h = elim (Bool-cases (i == j && n == m)) [
  | inl e ↦ absurd (h (pair-eq i n j m e))
  | inr e ↦ e
]

abbrev lossy : Gateway Lossy
lossy = record {
  charge = λ g r. (
    lossy_reply g.0,
    (
      false,
      (λ k. key_eq k r.idempotency_key || g.1 k),
      (λ k. if key_eq k r.idempotency_key then g.0 else g.2 k),
    ),
  );
  taken = λ g k. g.1 k;
  unanswered = λ g k. g.2 k;
  declined_takes_nothing = λ g r result e o. approves g.0 e (rw o refl);
  last_answer = λ g r. answers g.0 r.idempotency_key (g.2 r.idempotency_key);
  other_keys_kept = λ g r k other. (
    rw (key_eq-false k r.idempotency_key other) refl,
    rw (key_eq-false k r.idempotency_key other) refl,
  );
}

abbrev lossy_start : World Lossy
lossy_start = record {
  plans = basic ∷ [];
  subscriptions = [];
  invoices = [];
  attempts = [];
  audit = [];
  usage_events = [];
  usage_counters = [];
  gateway = (true, (λ k. false), (λ k. false));
  fresh = 100;
  now = 64_000_000_000_000_000_000;
  faults = [];
}

-- The retry after the lost reply takes the money of the invoice a second time.
charged_twice : World Lossy
unfolding run_story
charged_twice =
    run_story lossy lossy_start (
      subscribe_event 2 7
      ∷ drift 64_000_000_000_000_002_000 [] (basic ∷ [])
      ∷ charge_event 100
      ∷ [])

taken_twice :
    (lossy.taken charged_twice.gateway (101, 1) ≡ true)
    × (lossy.taken charged_twice.gateway (101, 2) ≡ true)
unfolding charged_twice new_failed_attempt new_succeeded_attempt
taken_twice = (refl, refl)
