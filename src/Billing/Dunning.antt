-- ===== src/Billing/Dunning.antt =====
-- internal/billing/domain/dunning.go: how often a failed charge is retried, and how far apart.
use nvelope.Common.{Bool, if◌then◌else◌}
use nvelope.Common.Int64.{Int64, le64, mul64}
use nvelope.Common.Calendar.{Time, Duration, hour, shift}

pub record DunningPolicy : Type 0 where
  pub max_attempts : Int64
  pub retry_interval : Duration

unfoldable pub new_dunning_policy : Int64 → Duration → DunningPolicy
unfolding le64 mul64
new_dunning_policy max_attempts retry_interval = record {
  max_attempts = if le64 max_attempts 0 then 1 else max_attempts;
  retry_interval = if le64 retry_interval 0 then mul64 72 hour else retry_interval;
}

unfoldable pub next_attempt_at : DunningPolicy → Time → Time
unfolding shift
next_attempt_at p failed_at = shift failed_at p.retry_interval

unfoldable pub is_exhausted : DunningPolicy → Int64 → Bool
unfolding le64
is_exhausted p attempt_count = le64 p.max_attempts attempt_count
