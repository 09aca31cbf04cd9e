-- ===== src/Billing/Tests/Sweep.antt =====
-- Two due subscriptions, one of them for two reasons.
use nvelope.Common.Action.{ok}
use nvelope.Common.{true, List, [], ◌∷◌, ◌≡◌, All, exists_where, false}
use nvelope.Billing.Sweep.{DueSubscription, OneJobEach, job_is, run_billing_sweep, sweep-once}

abbrev due_now : List DueSubscription
due_now =
    record { tenant_id = 1; subscription_id = 100; reason = "renewal" }
    ∷ record { tenant_id = 2; subscription_id = 200; reason = "renewal" }
    ∷ record { tenant_id = 1; subscription_id = 100; reason = "retry" }
    ∷ []

sweep-once_example :
    OneJobEach
      (run_billing_sweep due_now (record { jobs = []; refusals = false ∷ true ∷ [] })).1.jobs
    × ((run_billing_sweep due_now (record { jobs = []; refusals = [] })).0 ≡ ok tt)
    × All
        (λ d.
          exists_where
            (job_is d.subscription_id)
            (run_billing_sweep due_now (record { jobs = []; refusals = [] })).1.jobs
          ≡ true)
        due_now
sweep-once_example = sweep-once due_now (false ∷ true ∷ [])
