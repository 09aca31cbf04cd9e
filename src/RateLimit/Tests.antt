-- ===== src/RateLimit/Tests.antt =====
-- Two tenants, with two messages a second for each and three for all.
use nvelope.Common.{◌≤◌, ◌∷◌, []}
use nvelope.RateLimit.{Limit, List}
use nvelope.RateLimit.Runs.{Call, calls, calls-within, empty, times, times_of}
use nvelope.RateLimit.Windows.{held}

abbrev each : Limit
each = record { max = 2; window = 1_000_000_000 }

abbrev everyone : Limit
everyone = record { max = 3; window = 1_000_000_000 }

abbrev burst : List Call
burst =
    record { tenant_id = 1; elapsed = 0 }
    ∷ record { tenant_id = 1; elapsed = 1 }
    ∷ record { tenant_id = 1; elapsed = 1 }
    ∷ record { tenant_id = 2; elapsed = 1 }
    ∷ record { tenant_id = 2; elapsed = 1 }
    ∷ []

calls-within_example :
    (held 1000 50_004 (times (calls everyone each (empty 50_000) burst).grants) ≤ 3)
    × (held 1000 50_004 (times_of 1 (calls everyone each (empty 50_000) burst).grants) ≤ 2)
calls-within_example = calls-within everyone each 50_000 burst 1 50_004
