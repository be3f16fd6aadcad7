-- ===== src/Health/Latch.antt =====
-- The tests of `_validate_snapshot_relationships` (src/autobit/paper/health.py) on the API counters,
-- cursors and latch, under their invariant.
use auto_bit.Prelude.{
  ℕ, ◌≤◌, false, ◌≡◌, ◌⊎◌, Option, none, some, ok, arith, ltb, leb, ◌==◌, is_some, ◌&&◌, ◌||◌,
}
use auto_bit.Double.{Double}
use auto_bit.Health.Snapshot.{HealthSnapshot, last_api_observation}
use auto_bit.Health.Snapshot.{derive_reasons}
use auto_bit.Health.Validate.{
  validate_api, latch_overrun, latch_unexplained, latch_undated, latch_unfounded, latch_unproven,
  latch_missed, counters_clash, failure_unseen, success_unseen, observation_behind, latch_ahead,
  before, missing_or_not_after,
}
use auto_bit.Health.Api.{rank, ApiValid}

is_some-rank : (a : Option ℕ) → is_some a ≡ ltb 0 (rank a)
unfolding rank
is_some-rank none = ground arith
is_some-rank (some t) = ground arith

before-rank : (a b : Option ℕ) → before a b ≡ ltb 0 (rank a) && ltb (rank a) (rank b)
unfolding rank
before-rank none b = ground arith
before-rank (some t) none = ground arith
before-rank (some t) (some u) = ground arith

missing-rank :
    (a b : Option ℕ)
    → missing_or_not_after a b ≡ rank a == 0 || (rank b == 0 || leb (rank a) (rank b))
unfolding rank
missing-rank none b = ground arith
missing-rank (some t) none = ground arith
missing-rank (some t) (some u) = ground arith

rank-last_api {ℓ} :
    {F : Type ℓ} (s : HealthSnapshot F)
    → (rank (last_api_observation s) ≤ rank s.last_success_at)
      ⊎ (rank (last_api_observation s) ≤ rank s.last_failure_at)
unfolding rank
rank-last_api s = ground arith

module _ {ℓ} {F : Type ℓ} ⦃d : Double F⦄ (s : HealthSnapshot F) (v : ApiValid s) where
  latch_unexplained-false : latch_unexplained s ≡ false
  unfolding latch_unexplained derive_reasons
  latch_unexplained-false = ground arith

  latch_overrun-false : latch_overrun s ≡ false
  unfolding latch_overrun
  latch_overrun-false = ground arith

  latch_undated-false : latch_undated s ≡ false
  unfolding latch_undated
  latch_undated-false = ground (arith, is_some-rank s.api_latch_activated_at)

  latch_unfounded-false : latch_unfounded s ≡ false
  unfolding latch_unfounded
  latch_unfounded-false = ground (
    arith,
    is_some-rank s.api_latch_activated_at,
    is_some-rank s.last_failure_at,
    before-rank s.last_failure_at s.api_latch_activated_at,
  )

  latch_unproven-false : latch_unproven s ≡ false
  unfolding latch_unproven
  latch_unproven-false = ground (
    arith,
    missing-rank s.last_success_at s.api_latch_activated_at,
    missing-rank s.last_failure_at s.last_success_at,
  )

  latch_missed-false : latch_missed s ≡ false
  unfolding latch_missed
  latch_missed-false = ground arith

  counters_clash-false : counters_clash s ≡ false
  unfolding counters_clash
  counters_clash-false = ground arith

  failure_unseen-false : failure_unseen s ≡ false
  unfolding failure_unseen
  failure_unseen-false = ground (arith, is_some-rank s.last_failure_at)

  success_unseen-false : success_unseen s ≡ false
  unfolding success_unseen
  success_unseen-false = ground (arith, is_some-rank s.last_success_at)

  observation_behind-false : observation_behind s ≡ false
  unfolding observation_behind
  observation_behind-false = ground (
    arith,
    is_some-rank (last_api_observation s),
    is_some-rank s.last_observation_at,
    before-rank s.last_observation_at (last_api_observation s),
    rank-last_api s,
  )

  latch_ahead-false : latch_ahead s ≡ false
  unfolding latch_ahead
  latch_ahead-false = ground (arith, before-rank s.last_observation_at s.api_latch_activated_at)

  pub validate_api-pass : validate_api s ≡ ok tt
  unfolding validate_api
  validate_api-pass = simp (
    latch_unexplained-false, latch_overrun-false, latch_undated-false, latch_unfounded-false,
    latch_unproven-false, latch_missed-false, counters_clash-false, failure_unseen-false,
    success_unseen-false, observation_behind-false, latch_ahead-false,
  )
