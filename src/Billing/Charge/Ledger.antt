-- ===== src/Billing/Charge/Ledger.antt =====
-- The stored attempts of one invoice beside the money that the gateway took for it.

use nvelope.Common.{
  ℕ, suc, ◌+◌, ◌<◌, ◌≡◌, ◌⊎◌, inl, inr, Bool, true, false, ◌&&◌, List, [], ◌∷◌, ◌==◌, exists_where,
  Bool-cases, arith, ◌≢◌, sym, ◌∙◌,
}
use nvelope.Billing.Payment.{
  PaymentAttempt, Gateway, confirmed, confirmed-kept, status_succeeded, ChargeRequest,
  IdempotencyKey,
}
use nvelope.Billing.Invoices.{succeeded_for, numbered, max_attempt}

-- A succeeded attempt with this number is stored.
abbrev pub succeeded_at : ℕ → ℕ → PaymentAttempt → Bool
succeeded_at v n a = (a.invoice_id == v && a.attempt_number == n) && status_succeeded a.status

abbrev pub next_number : ℕ → List PaymentAttempt → ℕ
next_number v rows = max_attempt v rows + 1

pub max_attempt-bound :
    (v n : ℕ) (rows : List PaymentAttempt)
    → exists_where (numbered v n) rows ≡ true
    → n < next_number v rows
max_attempt-bound v n [] h = ground arith
max_attempt-bound v n (a ∷ rows) h = ground (arith, max_attempt-bound v n rows)

pub succeeded_at-numbered :
    (v n : ℕ) (rows : List PaymentAttempt)
    → exists_where (succeeded_at v n) rows ≡ true
    → exists_where (numbered v n) rows ≡ true
succeeded_at-numbered v n [] h = h
succeeded_at-numbered v n (a ∷ rows) h = ground (arith, succeeded_at-numbered v n rows)

pub succeeded_at-succeeded_for :
    (v n : ℕ) (rows : List PaymentAttempt)
    → exists_where (succeeded_at v n) rows ≡ true
    → exists_where (succeeded_for v) rows ≡ true
succeeded_at-succeeded_for v n [] h = h
succeeded_at-succeeded_for v n (a ∷ rows) h = ground (arith, succeeded_at-succeeded_for v n rows)

-- The number that comes next is not in use.
pub next_number-free :
    (v : ℕ) (rows : List PaymentAttempt)
    → exists_where (numbered v (next_number v rows)) rows ≡ false
next_number-free v rows = elim (Bool-cases (exists_where (numbered v (next_number v rows)) rows)) [
  | inl e ↦ absurd (omega (arith, max_attempt-bound v (next_number v rows) rows e))
  | inr e ↦ e
]

module _ {G : Type 0} (gateway : Gateway G) (v : ℕ) where
  -- Money is confirmed only for a stored succeeded attempt or for the number that comes next;
  -- a succeeded attempt is the last one, and with it nothing was taken for the next number.
  pub record IsSettledOnce (rows : List PaymentAttempt) (g : G) : Type 0 where
    pub accounted :
        (n : ℕ)
        → confirmed gateway g (v, n) ≡ true
        → (exists_where (succeeded_at v n) rows ≡ true) ⊎ (n ≡ next_number v rows)
    pub last : (n : ℕ) → exists_where (succeeded_at v n) rows ≡ true → suc n ≡ next_number v rows
    pub quiet :
        exists_where (succeeded_for v) rows ≡ true
        → confirmed gateway g (v, next_number v rows) ≡ false

pub pair-ne-fst : (u v n m : ℕ) → (u == v) ≡ false → ◌≢◌ {A = IdempotencyKey} (v, n) (u, m)
pair-ne-fst u v n m h p = ground arith

pub pair-ne-snd : (u v n m : ℕ) → (n == m) ≡ false → ◌≢◌ {A = IdempotencyKey} (v, n) (u, m)
pair-ne-snd u v n m h p = ground arith

module _ {G : Type 0} (gateway : Gateway G) where
  -- A charge under another key takes nothing for this one.
  pub taken-kept :
      (g : G) (r : ChargeRequest) (k l : IdempotencyKey)
      → r.idempotency_key ≡ l
      → k ≢ l
      → confirmed gateway (gateway.charge g r).1 k ≡ confirmed gateway g k
  taken-kept g r k l key ne = confirmed-kept gateway g r k (λ p. ne (p ∙ key))

module _ {G : Type 0} (gateway : Gateway G) (v : ℕ) where
  -- A charge under the next number's key, of an invoice with no succeeded attempt.
  pub charge-IsSettledOnce :
      (rows : List PaymentAttempt) (g : G) (r : ChargeRequest) (u : ℕ)
      → r.idempotency_key ≡ (u, next_number u rows)
      → exists_where (succeeded_for u) rows ≡ false
      → IsSettledOnce gateway v rows g
      → IsSettledOnce gateway v rows (gateway.charge g r).1
  charge-IsSettledOnce rows g r u key unpaid h = elim (Bool-cases (u == v)) [
    | inl same ↦ record {
      accounted = λ n taken. elim (Bool-cases (n == next_number u rows)) [
        | inl e ↦ inr (ground arith)
        | inr e ↦
            h.accounted n
              (sym (taken-kept gateway g r (v, n) _ key (pair-ne-snd u v n _ e)) ∙ taken)
      ];
      last = h.last;
      quiet = λ s. ground arith;
    }
    | inr other ↦ record {
      accounted = λ n taken.
          h.accounted n
            (sym (taken-kept gateway g r (v, n) _ key (pair-ne-fst u v n _ other)) ∙ taken);
      last = h.last;
      quiet = λ s.
          taken-kept gateway g r (v, next_number v rows) _ key (pair-ne-fst u v _ _ other)
          ∙ h.quiet s;
    }
  ]

  -- A new attempt of another invoice.
  pub other-IsSettledOnce :
      (rows : List PaymentAttempt) (g : G) (a : PaymentAttempt)
      → (a.invoice_id == v) ≡ false
      → IsSettledOnce gateway v rows g
      → IsSettledOnce gateway v (a ∷ rows) g
  other-IsSettledOnce rows g a other h = record {
    accounted = λ n taken. ground (arith, h.accounted n taken);
    last = λ n s. ground (arith, h.last n);
    quiet = λ s. rw other (h.quiet (rw other at s));
  }

  -- What was confirmed while no attempt has succeeded was taken for the next number.
  unpaid-next :
      (rows : List PaymentAttempt) (g : G) (n : ℕ)
      → exists_where (succeeded_for v) rows ≡ false
      → IsSettledOnce gateway v rows g
      → confirmed gateway g (v, n) ≡ true
      → n ≡ next_number v rows
  unpaid-next rows g n unpaid h taken = elim (h.accounted n taken) [
    | inl s ↦ absurd (ground (arith, succeeded_at-succeeded_for v n rows s))
    | inr e ↦ e
  ]

  unpaid-not_at :
      (rows : List PaymentAttempt) (n : ℕ)
      → exists_where (succeeded_for v) rows ≡ false
      → exists_where (succeeded_at v n) rows ≡ false
  unpaid-not_at rows n unpaid = ground (arith, succeeded_at-succeeded_for v n rows)

  -- The failed attempt of a charge that took nothing.
  pub failed-IsSettledOnce :
      (rows : List PaymentAttempt) (g : G) (a : PaymentAttempt)
      → a.invoice_id ≡ v
      → status_succeeded a.status ≡ false
      → confirmed gateway g (v, next_number v rows) ≡ false
      → exists_where (succeeded_for v) rows ≡ false
      → IsSettledOnce gateway v rows g
      → IsSettledOnce gateway v (a ∷ rows) g
  failed-IsSettledOnce rows g a mine fails free unpaid h = record {
    accounted = λ n taken. absurd (ground (arith, unpaid-next rows g n unpaid h taken));
    last = λ n s. absurd (ground (arith, unpaid-not_at rows n unpaid));
    quiet = λ s. absurd (ground arith);
  }

  -- The succeeded attempt under the next number.
  pub succeeded-IsSettledOnce :
      (rows : List PaymentAttempt) (g : G) (a : PaymentAttempt)
      → a.invoice_id ≡ v
      → a.attempt_number ≡ next_number v rows
      → status_succeeded a.status ≡ true
      → exists_where (succeeded_for v) rows ≡ false
      → IsSettledOnce gateway v rows g
      → IsSettledOnce gateway v (a ∷ rows) g
  succeeded-IsSettledOnce rows g a mine number succeeds unpaid h = record {
    accounted = λ n taken. inl (ground (arith, unpaid-next rows g n unpaid h taken));
    last = λ n s. ground (arith, unpaid-not_at rows n unpaid);
    quiet = λ s. elim (Bool-cases (confirmed gateway g (v, next_number v (a ∷ rows)))) [
      | inl taken ↦ absurd (ground (arith, unpaid-next rows g _ unpaid h taken))
      | inr e ↦ e
    ];
  }

  -- So at most one number of the invoice was charged.
  pub one_key :
      {rows : List PaymentAttempt} {g : G}
      → IsSettledOnce gateway v rows g
      → (n m : ℕ) → confirmed gateway g (v, n) ≡ true
      → confirmed gateway g (v, m) ≡ true
      → n ≡ m
  one_key {rows} h n m a b = elim (Bool-cases (exists_where (succeeded_for v) rows)) [
    | inl paid ↦ ground (arith, h.accounted n a, h.accounted m b, h.last n, h.last m, h.quiet paid)
    | inr unpaid ↦ ground (arith, unpaid-next rows _ n unpaid h a, unpaid-next rows _ m unpaid h b)
  ]
