-- ===== src/Health/Observe.antt =====
-- Lemmas on the methods of `HealthMonitor` (src/autobit/paper/health.py), one for each.
use auto_bit.Prelude.{
  ℕ, suc, ◌<◌, false, not, ◌≡◌, refl, ◌≢◌, Option, some, arith, Bool-cases, inl, inr, ◌&&◌,
  is_nonempty,
}
use auto_bit.Prelude.Int.{ℤ, pos}
use auto_bit.Double.{Double}
use auto_bit.Python.{Value, boolean}
use auto_bit.Health.Snapshot.{
  reduced, HealthSnapshot, is_reduced, derive_reasons, last_api_observation,
}
use auto_bit.Health.Monitor.{
  Monitor, Reply, failed_api, successful_api, record_api_failure, record_api_success, fail_schema,
  record_candle_check, record_timestamp_check, record_schema_check, set_unresolved_orders,
  record_recovery_cycle_success, is_old, touched, promoted,
}
use auto_bit.Health.Api.{
  rank, failed_api-ApiValid, successful_api-ApiValid, rank-latest, is_old-rank,
}
use auto_bit.Health.Invariant.{Sound, Valid, settle-Valid}

module _ {ℓ} {F : Type ℓ} ⦃d : Double F⦄ where
  abbrev pub Keeps : (Monitor F → Monitor F × Reply) → Type ℓ
  Keeps step = (m : Monitor F) → Valid m.snapshot → Valid (step m).0.snapshot

  pub fail_schema-Valid : (observed : Option ℕ) → Keeps (fail_schema observed)
  unfolding fail_schema
  fail_schema-Valid observed m v =
      settle-Valid _ (ground (arith, v.sound, rank-latest m.snapshot.last_observation_at observed))
        (unfold derive_reasons in ground (arith, v.reduced_calm))

  pub record_schema_check-Valid :
      (value : Value F) (observed : ℕ) → Keeps (record_schema_check value observed)
  unfolding record_schema_check
  record_schema_check-Valid (boolean b) observed m v =
      settle-Valid _
        (ground (arith, v.sound, rank-latest m.snapshot.last_observation_at (some observed)))
        (unfold derive_reasons in ground (arith, v.reduced_calm))
  record_schema_check-Valid _ observed m v = fail_schema-Valid (some observed) m v

  pub record_timestamp_check-Valid :
      (value : Value F) (observed : ℕ) → Keeps (record_timestamp_check value observed)
  unfolding record_timestamp_check
  record_timestamp_check-Valid (boolean b) observed m v =
      settle-Valid _
        (ground (arith, v.sound, rank-latest m.snapshot.last_observation_at (some observed)))
        (unfold derive_reasons in ground (arith, v.reduced_calm))
  record_timestamp_check-Valid _ observed m v = fail_schema-Valid (some observed) m v

  pub record_candle_check-Valid :
      (expected : ℕ) (end : Option ℕ) (checked : ℕ) (value : Value F)
      → Keeps (record_candle_check expected end checked value)
  unfolding record_candle_check
  record_candle_check-Valid expected end checked (boolean b) m v =
      settle-Valid _
        (ground (arith, v.sound, rank-latest m.snapshot.last_observation_at (some checked)))
        (unfold derive_reasons in ground (arith, v.reduced_calm))
  record_candle_check-Valid expected end checked _ m v = fail_schema-Valid (some checked) m v

  pub set_unresolved_orders-Valid :
      (count : Option ℤ) (observed : Option ℕ) → Keeps (set_unresolved_orders count observed)
  unfolding set_unresolved_orders
  set_unresolved_orders-Valid (some (pos n)) observed m v =
      settle-Valid _ (ground (arith, v.sound, rank-latest m.snapshot.last_observation_at observed))
        (unfold derive_reasons in ground (arith, v.reduced_calm))
  set_unresolved_orders-Valid _ observed m v = fail_schema-Valid observed m v

  -- What an API observation that is newer than both cursors is newer than.
  module _ (observed : ℕ) (s : HealthSnapshot F)
      (new : is_old (last_api_observation s) observed ≡ false) where
    after_success : rank s.last_success_at < suc observed
    after_success = omega (
      arith,
      is_old-rank (last_api_observation s) observed new,
      rank-latest s.last_success_at s.last_failure_at,
    )

    after_failure : rank s.last_failure_at < suc observed
    after_failure = omega (
      arith,
      is_old-rank (last_api_observation s) observed new,
      rank-latest s.last_success_at s.last_failure_at,
    )

    successful_api-Sound : Sound s → Sound (successful_api observed s)
    successful_api-Sound v =
        let api = successful_api-ApiValid observed s after_success after_failure v.api in
        unfold successful_api in
        record {
          api = api;
          ledger = v.ledger;
          fill = v.fill;
          cash_proper = v.cash_proper;
          btc_proper = v.btc_proper;
          deviation_proper = v.deviation_proper;
        }

    pub failed_api-Sound : Sound s → Sound (failed_api observed s)
    failed_api-Sound v =
        let api = failed_api-ApiValid observed s after_success after_failure v.api in
        unfold failed_api in
        record {
          api = api;
          ledger = v.ledger;
          fill = v.fill;
          cash_proper = v.cash_proper;
          btc_proper = v.btc_proper;
          deviation_proper = v.deviation_proper;
        }

  pub record_api_success-Valid : (observed : ℕ) → Keeps (record_api_success observed)
  unfolding record_api_success
  record_api_success-Valid observed m v =
      let s = m.snapshot in
      elim (Bool-cases (is_old (last_api_observation s) observed)) [
        | inl old ↦ rw old v
        | inr new ↦ rw new (
            settle-Valid _ (successful_api-Sound observed s new v.sound)
              (unfold derive_reasons successful_api in ground (arith, v.reduced_calm)))
      ]

  -- In the stages `NORMAL` and `HALTED`.
  pub record_api_failure-Valid :
      (observed : ℕ) (m : Monitor F)
      → m.snapshot.stage ≢ reduced
      → Valid m.snapshot
      → Valid (record_api_failure observed m).0.snapshot
  unfolding record_api_failure
  record_api_failure-Valid observed m away v =
      let s = m.snapshot in
      elim (Bool-cases (is_old (last_api_observation s) observed)) [
        | inl old ↦ rw old v
        | inr new ↦ rw new (
            settle-Valid _ (failed_api-Sound observed s new v.sound)
              (unfold failed_api in λ e q. absurd (away e)))
      ]

  touched-Sound : (observed : ℕ) (s : HealthSnapshot F) → Sound s → Sound (touched observed s)
  unfolding touched
  touched-Sound observed s v = ground (arith, v, rank-latest s.last_observation_at (some observed))

  promoted-Valid :
      (observed : ℕ) (s : HealthSnapshot F)
      → Valid s
      → is_nonempty (derive_reasons (touched observed s)) ≡ false
      → Valid (promoted (touched observed s))
  unfolding promoted derive_reasons
  promoted-Valid observed s v calm =
      let still = touched-Sound observed s v.sound in
      unfold touched in
      record {
        sound = ground (arith, still);
        reasons_derived = v.reasons_derived;
        normal_calm = λ e. (calm, refl);
        reduced_calm = λ e. absurd (cc);
        halted_busy = λ e. absurd (cc);
      }

  pub record_recovery_cycle_success-Valid :
      (observed : ℕ) → Keeps (record_recovery_cycle_success observed)
  unfolding record_recovery_cycle_success
  record_recovery_cycle_success-Valid observed m v =
      let s = touched observed m.snapshot in
      elim (Bool-cases (is_reduced s.stage && not (is_nonempty (derive_reasons s)))) [
        | inl calm ↦ rw calm (promoted-Valid observed m.snapshot v (ground arith))
        | inr other_way ↦ rw other_way (
            settle-Valid s (touched-Sound observed m.snapshot v.sound)
              (unfold touched derive_reasons in ground (arith, v.reduced_calm)))
      ]
