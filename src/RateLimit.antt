-- ===== src/RateLimit.antt =====
-- internal/platform/ratelimit/limiter.go: the sliding-window limiter, as the script that Redis runs.
-- A sorted set is the list of its scores, for its members are random and differ. The expiry of a key
-- is left out: it falls on the time at which every score of the set is out of the window. Numbers
-- are milliseconds since the epoch, and durations nanoseconds.
pub mod Windows
pub mod Runs
mod Tests
use nvelope.Common.{
  if◌then◌else◌, ℕ, List, Bool, ◌/◌, select_where, Option, ltb, leb, ◌+◌, none, some, length, ◌==◌,
  ◌∷◌, ◌-◌, ◌&&◌, ◌||◌, [], true, false,
}
use nvelope.Common.Action.{Result, ok, err}

pub record Limit : Type 0 where
  pub max : ℕ
  pub window : ℕ

-- Duration.Milliseconds
abbrev pub milliseconds : ℕ → ℕ
milliseconds d = d / 1_000_000

-- ZREMRANGEBYSCORE key 0 (now - window): a score is kept while it is in the window.
unfoldable pub trim : ℕ → ℕ → List ℕ → List ℕ
trim window now scores = select_where (λ s. ltb now (s + window)) scores

-- ZRANGE key 0 0: the least score.
unfoldable pub oldest : List ℕ → Option ℕ
oldest [] = none
oldest (s ∷ scores) = elim (oldest scores) [
  | none ↦ some s
  | some r ↦ some (if leb s r then s else r)
]

-- How long until the oldest score leaves the window, if the set is full.
abbrev pub wait_of : ℕ → ℕ → Option ℕ → ℕ
wait_of window now none = 0
wait_of window now (some s) = s + window - now

unfoldable pub wait_for : ℕ → ℕ → ℕ → List ℕ → ℕ
unfolding oldest
wait_for limit window now scores =
    if ltb (length scores) limit then 0 else wait_of window now (oldest scores)

abbrev pub longest : ℕ → ℕ → ℕ
longest a b = if leb a b then b else a

-- The sets after a call, and whether it is granted or else how long to wait.
pub record Answer : Type 0 where
  pub granted : Bool
  pub retry : ℕ
  pub tenant_scores : List ℕ
  pub global_scores : List ℕ

-- slidingWindow
unfoldable pub sliding_window : ℕ → ℕ → ℕ → ℕ → ℕ → List ℕ → List ℕ → Answer
unfolding trim wait_for
sliding_window now tenant_window tenant_limit global_window global_limit tenant_scores
      global_scores =
    let ts = trim tenant_window now tenant_scores in
    let gs = trim global_window now global_scores in
    if ltb (length ts) tenant_limit && ltb (length gs) global_limit
    then record { granted = true; retry = 0; tenant_scores = now ∷ ts; global_scores = now ∷ gs }
    else record {
      granted = false;
      retry = longest 1 (
          longest (wait_for tenant_limit tenant_window now ts)
            (wait_for global_limit global_window now gs));
      tenant_scores = ts;
      global_scores = gs;
    }

-- The keys: one for each tenant, and the global one.
pub record Redis : Type 0 where
  pub tenant : ℕ → List ℕ
  pub global : List ℕ

-- Limiter.Allow; `none` is the error of a per-tenant limit that is not positive.
unfoldable pub allow : Limit → ℕ → Limit → ℕ → Redis → Option Answer × Redis
unfolding sliding_window
allow global tenant_id per_tenant now redis =
    if per_tenant.max == 0 || per_tenant.window == 0
    then (none, redis)
    else let answer =
        sliding_window now (milliseconds per_tenant.window) per_tenant.max
          (milliseconds global.window) global.max (redis.tenant tenant_id) redis.global in
      (
        some answer,
        record {
          tenant = λ k. if k == tenant_id then answer.tenant_scores else redis.tenant k;
          global = answer.global_scores;
        },
      )
