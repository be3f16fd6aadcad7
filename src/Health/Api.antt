-- ===== src/Health/Api.antt =====
-- The API cursors and the latch of `HealthMonitor` in src/autobit/paper/health.py: their invariant,
-- and the methods that touch them.
use auto_bit.Prelude.{ℕ, suc, ◌+◌, ◌≤◌, ◌<◌, true, false, ◌≡◌, refl, Option, none, some, arith}
use auto_bit.Health.Snapshot.{HealthSnapshot, latest_observation}
use auto_bit.Health.Monitor.{settle, failed_api, successful_api, is_old, or_now}

-- The place of a time in the order, with `None` first.
unfoldable pub rank : Option ℕ → ℕ
rank none = 0
rank (some t) = suc t

pub rank-some : (t : ℕ) → rank (some t) ≡ suc t
unfolding rank
rank-some t = refl

rank-none : rank none ≡ 0
unfolding rank
rank-none = refl

pub rank-latest :
    (a b : Option ℕ)
    → (rank a ≤ rank (latest_observation a b)) × (rank b ≤ rank (latest_observation a b))
unfolding rank
rank-latest none b = omega arith
rank-latest (some t) none = omega arith
rank-latest (some t) (some u) = ground arith

pub is_old-rank : (a : Option ℕ) (t : ℕ) → is_old a t ≡ false → rank a < suc t
unfolding rank
is_old-rank none t h = omega arith
is_old-rank (some u) t h = ground arith

-- What holds between two observations of the counters and the cursors of the API.
pub record ApiValid {ℓ} {F : Type ℓ} (s : HealthSnapshot F) : Type 0 where
  pub open_latch : s.api_failure_latched ≡ true → s.api_successes < 3
  pub dated : s.api_failure_latched ≡ true → 0 < rank s.api_latch_activated_at
  pub undated : s.api_failure_latched ≡ false → rank s.api_latch_activated_at ≡ 0
  pub since_failure : rank s.api_latch_activated_at ≤ rank s.last_failure_at
  pub partly_recovered :
      s.api_failure_latched ≡ true
      → s.api_failures < 3
      → rank s.api_latch_activated_at < rank s.last_success_at
  pub failing_again :
      s.api_failure_latched ≡ true
      → s.api_failures < 3
      → 0 < s.api_failures
      → rank s.last_success_at < rank s.last_failure_at
  pub latches : 3 ≤ s.api_failures → s.api_failure_latched ≡ true
  pub exclusive : 0 < s.api_failures → s.api_successes ≡ 0
  pub failure_seen : 0 < s.api_failures → 0 < rank s.last_failure_at
  pub success_seen : 0 < s.api_successes → 0 < rank s.last_success_at
  pub success_observed : rank s.last_success_at ≤ rank s.last_observation_at
  pub failure_observed : rank s.last_failure_at ≤ rank s.last_observation_at
  pub capped : s.api_successes ≤ 3

rank-or_now :
    (a : Option ℕ) (t : ℕ)
    → (0 < rank (or_now a t))
      × (rank a ≤ rank (or_now a t))
      × (rank (or_now a t) ≤ rank a + suc t)
      × (0 < rank a → rank (or_now a t) ≡ rank a)
unfolding rank
rank-or_now none t = omega arith
rank-or_now (some u) t = omega arith

module _ {ℓ} {F : Type ℓ} where
  pub settle-ApiValid : (s : HealthSnapshot F) → ApiValid s → ApiValid (settle s)
  unfolding settle
  settle-ApiValid s v = ground arith

  pub failed_api-ApiValid :
      (observed : ℕ) (s : HealthSnapshot F)
      → rank s.last_success_at < suc observed
      → rank s.last_failure_at < suc observed
      → ApiValid s
      → ApiValid (failed_api observed s)
  unfolding failed_api
  failed_api-ApiValid observed s later_success later_failure v = ground (
    arith,
    rank-or_now s.api_latch_activated_at observed,
    rank-latest s.last_observation_at (some observed),
    rank-some observed,
  )

  pub successful_api-ApiValid :
      (observed : ℕ) (s : HealthSnapshot F)
      → rank s.last_success_at < suc observed
      → rank s.last_failure_at < suc observed
      → ApiValid s
      → ApiValid (successful_api observed s)
  unfolding successful_api
  successful_api-ApiValid observed s later_success later_failure v =
      ground
        (arith, rank-latest s.last_observation_at (some observed), rank-some observed, rank-none)
