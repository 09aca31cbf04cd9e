-- ===== src/RateLimit/Runs.antt =====
-- Calls of the limiter by every tenant, with a clock that does not go back.
use mathlib.Core.Path.{subst}
use nvelope.Common.{
  sym, if◌then◌else◌, ℕ, List, Option, ◌+◌, ◌∷◌, Bool, arith, [], ◌==◌, false, Bool-cases, some,
  ◌||◌, none, inl, inr, ltb, length, ◌&&◌, ◌≡◌, ◌<◌, ◌≤◌,
}
use nvelope.RateLimit.{Limit, Redis, Answer, allow, trim, sliding_window, milliseconds}
use nvelope.RateLimit.Windows.{Tracks, held, trim-Tracks, later-Tracks, grant-Tracks, empty-Tracks}

pub record Call : Type 0 where
  pub tenant_id : ℕ
  pub elapsed : ℕ

pub record Grant : Type 0 where
  pub tenant_id : ℕ
  pub at : ℕ

-- The clock, the keys and every grant so far.
pub record Trace : Type 0 where
  pub now : ℕ
  pub redis : Redis
  pub grants : List Grant

abbrev pub times : List Grant → List ℕ
times [] = []
times (g ∷ grants) = g.at ∷ times grants

abbrev pub times_of : ℕ → List Grant → List ℕ
times_of k [] = []
times_of k (g ∷ grants) =
    let rest = times_of k grants in if k == g.tenant_id then g.at ∷ rest else rest

abbrev pub is_granted : Option Answer → Bool
is_granted none = false
is_granted (some a) = a.granted

abbrev pub empty : ℕ → Trace
empty start = record { now = start; redis = record { tenant = λ k. []; global = [] }; grants = [] }

module _ (global per_tenant : Limit) where
  unfoldable pub call : Trace → Call → Trace
  call t c =
      let now = t.now + c.elapsed in
      let (answer, redis) = allow global c.tenant_id per_tenant now t.redis in
      record {
        now = now;
        redis = redis;
        grants =
            if is_granted answer
            then record { tenant_id = c.tenant_id; at = now } ∷ t.grants
            else t.grants;
      }

  unfoldable pub calls : Trace → List Call → Trace
  calls t [] = t
  calls t (c ∷ cs) = calls (call t c) cs

  abbrev tenant_window : ℕ
  tenant_window = milliseconds per_tenant.window

  abbrev global_window : ℕ
  global_window = milliseconds global.window

  record IsTracked (t : Trace) : Type 0 where
    tenants :
        (k : ℕ) → Tracks tenant_window per_tenant.max t.now (t.redis.tenant k) (times_of k t.grants)
    all : Tracks global_window global.max t.now t.redis.global (times t.grants)

  module _ (t : Trace) (c : Call) (h : IsTracked t) where
    abbrev later : ℕ
    later = t.now + c.elapsed

    abbrev ts : List ℕ
    ts = trim tenant_window later (t.redis.tenant c.tenant_id)

    abbrev gs : List ℕ
    gs = trim global_window later t.redis.global

    trimmed_all : Tracks global_window global.max later gs (times t.grants)
    trimmed_all = trim-Tracks later (omega arith) h.all

    trimmed_tenant : Tracks tenant_window per_tenant.max later ts (times_of c.tenant_id t.grants)
    trimmed_tenant = trim-Tracks later (omega arith) (h.tenants c.tenant_id)

    refused-Tracks :
        (k : ℕ)
        → Tracks tenant_window per_tenant.max later
            (if k == c.tenant_id then ts else t.redis.tenant k)
            (times_of k t.grants)
    refused-Tracks k = elim (Bool-cases (k == c.tenant_id)) [
      | inl e ↦ let q : k ≡ c.tenant_id = ground (arith, e) in rw e (rw q trimmed_tenant)
      | inr e ↦ rw e (later-Tracks later (omega arith) (h.tenants k))
    ]

    granted-Tracks :
        length ts < per_tenant.max
        → (k : ℕ)
        → Tracks tenant_window per_tenant.max later
            (if k == c.tenant_id then later ∷ ts else t.redis.tenant k)
            (times_of k (record { tenant_id = c.tenant_id; at = later } ∷ t.grants))
    granted-Tracks l k = elim (Bool-cases (k == c.tenant_id)) [
      | inl e ↦
          let q : k ≡ c.tenant_id = ground (arith, e) in
          rw e (
            subst
              (λ x.
                Tracks tenant_window per_tenant.max later (later ∷ ts)
                  (later ∷ times_of x t.grants))
              (sym q) (grant-Tracks l trimmed_tenant))
      | inr e ↦ rw e (later-Tracks later (omega arith) (h.tenants k))
    ]

    call-IsTracked : IsTracked (call t c)
    unfolding call allow sliding_window
    call-IsTracked = elim (Bool-cases (per_tenant.max == 0 || per_tenant.window == 0)) [
      | inl e ↦ rw e (record {
        tenants = λ k. later-Tracks later (omega arith) (h.tenants k);
        all = later-Tracks later (omega arith) h.all;
      })
      | inr e ↦ elim (Bool-cases (ltb (length ts) per_tenant.max && ltb (length gs) global.max)) [
        | inl f ↦ rw e (
            rw f (record {
              tenants = granted-Tracks (ground (arith, f));
              all = grant-Tracks (ground (arith, f)) trimmed_all;
            }))
        | inr f ↦ rw e (rw f (record { tenants = refused-Tracks; all = trimmed_all }))
      ]
    ]

  calls-IsTracked : (t : Trace) (cs : List Call) → IsTracked t → IsTracked (calls t cs)
  unfolding calls
  calls-IsTracked t [] h = h
  calls-IsTracked t (c ∷ cs) h = calls-IsTracked (call t c) cs (call-IsTracked t c h)

  -- From empty keys, after every sequence of calls by all tenants, under a clock that does not go
  -- back, at every time the window that ends then holds no more grants than the global limit, and no more of any one tenant's than the
  -- limit of a tenant.
  pub calls-within :
      (start : ℕ) (cs : List Call) (k at : ℕ)
      → (held global_window at (times (calls (empty start) cs).grants) ≤ global.max)
        × (held tenant_window at (times_of k (calls (empty start) cs).grants) ≤ per_tenant.max)
  calls-within start cs k at =
      let h =
        calls-IsTracked (empty start) cs
          (record { tenants = λ k. empty-Tracks; all = empty-Tracks }) in
      (h.all.bounded at, (h.tenants k).bounded at)
