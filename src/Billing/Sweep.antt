-- ===== src/Billing/Sweep.antt =====
-- internal/billing/app/command/sweep.go: a charge job for each due subscription. The due
-- subscriptions come from a function of the database, and are an argument. `refusals` says of each
-- coming insert whether the job queue refuses it.
use nvelope.Common.Action
use nvelope.Common.{
  if◌then◌else◌, ℕ, List, String, Bool, ◌∷◌, [], ◌≡◌, true, exists_where, ◌==◌, false, arith,
  Bool-cases, All, inl, refl, inr, ◌∙◌, ap,
}
use nvelope.Common.Action.{Action, ok, err, pure, ◌>>◌, continue, ◌>>=◌}
use nvelope.Billing.Errors.{Error, infrastructure}

pub record DueSubscription : Type 0 where
  pub tenant_id : ℕ
  pub subscription_id : ℕ
  pub reason : String

pub record ChargeJob : Type 0 where
  pub tenant_id : ℕ
  pub subscription_id : ℕ

pub record JobQueue : Type 0 where
  pub jobs : List ChargeJob
  pub refusals : List Bool

abbrev pub Sweeping : Type 0 → Type 0
Sweeping A = Action JobQueue Error A

abbrev pub insert_job : List Bool → ChargeJob → Sweeping Unit
insert_job [] j q = (ok tt, record q { jobs = j ∷ q.jobs })
insert_job (true ∷ rest) j q = (err infrastructure, record q { refusals = rest })
insert_job (false ∷ rest) j q = (ok tt, record { jobs = j ∷ q.jobs; refusals = rest })

-- EnqueueBillingCharge
unfoldable pub enqueue_billing_charge : ℕ → ℕ → Sweeping Unit
enqueue_billing_charge tenant_id subscription_id q =
    insert_job q.refusals (record { tenant_id = tenant_id; subscription_id = subscription_id }) q

abbrev pub id_in : List ℕ → ℕ → Bool
id_in ids k = exists_where (λ i. i == k) ids

-- The loop, with the map of the ids it has seen.
unfoldable pub sweep_from : List ℕ → List DueSubscription → Sweeping Unit
sweep_from seen [] = pure tt
sweep_from seen (d ∷ due) =
    if id_in seen d.subscription_id
    then sweep_from seen due
    else (enqueue_billing_charge d.tenant_id d.subscription_id
        >> sweep_from (d.subscription_id ∷ seen) due)

-- RunBillingSweepHandler.Handle
unfoldable pub run_billing_sweep : List DueSubscription → Sweeping Unit
unfolding sweep_from
run_billing_sweep due = sweep_from [] due

abbrev pub job_is : ℕ → ChargeJob → Bool
job_is k j = j.subscription_id == k

-- No two jobs are for one subscription.
abbrev pub OneJobEach : List ChargeJob → Type 0
OneJobEach [] = Unit
OneJobEach (j ∷ jobs) = (exists_where (job_is j.subscription_id) jobs ≡ false) × OneJobEach jobs

-- What was enqueued was seen.
abbrev Seen : List ℕ → List ChargeJob → Type 0
Seen seen jobs = (k : ℕ) → id_in seen k ≡ false → exists_where (job_is k) jobs ≡ false

abbrev Kept : List ℕ → JobQueue → Type 0
Kept seen q = OneJobEach q.jobs × Seen seen q.jobs

insert-OneJobEach :
    (refusals : List Bool) (j : ChargeJob) (seen : List ℕ) (q : JobQueue)
    → id_in seen j.subscription_id ≡ false
    → Kept seen q
    → Kept (j.subscription_id ∷ seen) (insert_job refusals j q).1
insert-OneJobEach [] j seen q n h =
    ((h.1 j.subscription_id n, h.0), λ k e. ground (arith, e, h.1 k))
insert-OneJobEach (true ∷ rest) j seen q n h = (h.0, λ k e. h.1 k (ground (arith, e)))
insert-OneJobEach (false ∷ rest) j seen q n h =
    ((h.1 j.subscription_id n, h.0), λ k e. ground (arith, e, h.1 k))

continued :
    (seen : List ℕ) (due : List DueSubscription) (r : Action.Result Error Unit × JobQueue)
    → Kept seen r.1
    → ((q : JobQueue) → Kept seen q → OneJobEach (sweep_from seen due q).1.jobs)
    → OneJobEach (continue r.0 (λ ignored. sweep_from seen due) r.1).1.jobs
continued seen due (ok u, q) h k = k q h
continued seen due (err e, q) h k = h.0

sweep-OneJobEach :
    (due : List DueSubscription) (seen : List ℕ) (q : JobQueue)
    → Kept seen q
    → OneJobEach (sweep_from seen due q).1.jobs
unfolding sweep_from enqueue_billing_charge ◌>>=◌
sweep-OneJobEach [] seen q h = h.0
sweep-OneJobEach (d ∷ due) seen q h = elim (Bool-cases (id_in seen d.subscription_id)) [
  | inl e ↦ rw e (sweep-OneJobEach due seen q h)
  | inr e ↦ rw e (
      continued (d.subscription_id ∷ seen) due _
        (insert-OneJobEach q.refusals
          (record { tenant_id = d.tenant_id; subscription_id = d.subscription_id }) seen q e h)
        (λ q'. sweep-OneJobEach due (d.subscription_id ∷ seen) q'))
]

-- The jobs of a sweep that the queue refuses nothing.
abbrev swept : List ℕ → List DueSubscription → List ChargeJob → List ChargeJob
swept seen [] jobs = jobs
swept seen (d ∷ due) jobs =
    let known = swept seen due jobs in
    let added =
      swept (d.subscription_id ∷ seen) due
        (record { tenant_id = d.tenant_id; subscription_id = d.subscription_id } ∷ jobs) in
    if id_in seen d.subscription_id then known else added

sweep-swept :
    (due : List DueSubscription) (seen : List ℕ) (jobs : List ChargeJob)
    → sweep_from seen due (record { jobs = jobs; refusals = [] })
      ≡ (ok tt, record { jobs = swept seen due jobs; refusals = [] })
unfolding sweep_from enqueue_billing_charge ◌>>=◌
sweep-swept [] seen jobs = refl
sweep-swept (d ∷ due) seen jobs = elim (Bool-cases (id_in seen d.subscription_id)) [
  | inl e ↦ rw e (sweep-swept due seen jobs)
  | inr e ↦ rw e (sweep-swept due (d.subscription_id ∷ seen) _)
]

swept-keeps :
    (due : List DueSubscription) (seen : List ℕ) (jobs : List ChargeJob) (k : ℕ)
    → exists_where (job_is k) jobs ≡ true
    → exists_where (job_is k) (swept seen due jobs) ≡ true
swept-keeps [] seen jobs k h = h
swept-keeps (d ∷ due) seen jobs k h = elim (Bool-cases (id_in seen d.subscription_id)) [
  | inl e ↦ rw e (swept-keeps due seen jobs k h)
  | inr e ↦ rw e (swept-keeps due (d.subscription_id ∷ seen) _ k (ground (arith, h)))
]

abbrev Covered : List ℕ → List ChargeJob → Type 0
Covered seen jobs = (k : ℕ) → id_in seen k ≡ true → exists_where (job_is k) jobs ≡ true

swept-covers :
    (due : List DueSubscription) (seen : List ℕ) (jobs after : List ChargeJob)
    → after ≡ swept seen due jobs
    → Covered seen jobs
    → All (λ d. exists_where (job_is d.subscription_id) after ≡ true) due
swept-covers [] seen jobs after q h = tt
swept-covers (d ∷ due) seen jobs after q h = elim (Bool-cases (id_in seen d.subscription_id)) [
  | inl e ↦
      let rest : after ≡ swept seen due jobs = q ∙ rw e in
      (
        rw rest (swept-keeps due seen jobs d.subscription_id (h d.subscription_id e)),
        swept-covers due seen jobs after rest h,
      )
  | inr e ↦
      let more : List ChargeJob =
        record { tenant_id = d.tenant_id; subscription_id = d.subscription_id } ∷ jobs in
      let rest : after ≡ swept (d.subscription_id ∷ seen) due more = q ∙ rw e in
      (
        rw rest (swept-keeps due (d.subscription_id ∷ seen) more d.subscription_id (ground arith)),
        swept-covers due (d.subscription_id ∷ seen) more after rest (λ k i. ground (arith, i, h k)),
      )
]

-- From an empty queue, a sweep enqueues at most one job for a subscription, whichever jobs the
-- queue refuses; and where it refuses none, the sweep succeeds, and every due subscription has a
-- job.
pub sweep-once :
    (due : List DueSubscription) (refusals : List Bool)
    → OneJobEach (run_billing_sweep due (record { jobs = []; refusals = refusals })).1.jobs
      × ((run_billing_sweep due (record { jobs = []; refusals = [] })).0 ≡ ok tt)
      × All
          (λ d.
            exists_where
              (job_is d.subscription_id)
              (run_billing_sweep due (record { jobs = []; refusals = [] })).1.jobs
            ≡ true)
          due
unfolding run_billing_sweep
sweep-once due refusals = (
  sweep-OneJobEach due [] _ (tt, λ k e. refl),
  ap (λ r. r.0) (sweep-swept due [] []),
  rw (sweep-swept due [] []) (swept-covers due [] [] _ refl (λ k e. cc)),
)
