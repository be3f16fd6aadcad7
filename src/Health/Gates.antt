-- ===== src/Health/Gates.antt =====
-- What gates trading in src/autobit/paper/health.py: the action, the stages and the retry delay.
use auto_bit.Prelude.{
  ◌&&◌, not, ℕ, zero, suc, ◌≤◌, ◌<◌, true, false, ◌≡◌, ◌≢◌, Option, some, arith, is_nonempty,
  if_both, if_cases, ok,
}
use auto_bit.Prelude.Int.{pos}
use auto_bit.Double.{Double}
use auto_bit.Double.Laws.{IsDouble}
use auto_bit.Python.{boolean}
use auto_bit.Health.Snapshot.{
  normal, halted, is_reduced, HealthSnapshot, derive_reasons, action, retry_delay,
}
use auto_bit.Health.Monitor.{
  Monitor, Reply, settle, record_api_failure, record_api_success, record_candle_check, fail_schema,
  record_timestamp_check, record_schema_check, set_unresolved_orders, touched,
  record_recovery_cycle_success, successful_api, failed_api,
}
use auto_bit.Health.Fills.{
  Decimals, record_ledger_check, record_fill_check, record_flat_fill_recovery_check,
  apply_ledger_check, bad_fill, good_fill, recovery_check,
}
use auto_bit.Health.Fills
use auto_bit.Health.History.{
  Observation, api_failure, api_success, candle_check, timestamp_check, schema_check,
  flat_fill_recovery_check, unresolved_orders, ledger_check, fill_check, recovery_cycle_success,
  observe, History, History-Valid,
}
use auto_bit.Health.Amounts.{IsDecimals}

-- The delay before the next attempt is from 1 to 300 seconds, and never shrinks as the attempts
-- go on.
pub retry_delay_bounds :
    (n : ℕ)
    → 0 < n
    → (1 ≤ retry_delay n) × (retry_delay n ≤ 300) × (retry_delay n ≤ retry_delay (suc n))
unfolding retry_delay
retry_delay_bounds zero h = omega arith
retry_delay_bounds (suc zero) h = omega arith
retry_delay_bounds (suc (suc zero)) h = omega arith
retry_delay_bounds (suc (suc (suc zero))) h = omega arith
retry_delay_bounds (suc (suc (suc (suc zero)))) h = omega arith
retry_delay_bounds (suc (suc (suc (suc (suc zero))))) h = omega arith
retry_delay_bounds (suc (suc (suc (suc (suc (suc n)))))) h = ground arith

module _ {ℓ} {F : Type ℓ} ⦃d : Double F⦄ ⦃c : Decimals F⦄ (w : IsDouble F) (k : IsDecimals F) where
  -- In every history, entries are halted exactly while a reason holds or fewer than three
  -- successes have followed a halt, and the reduced stage is left to no reason and all successes.
  pub gates :
      (m : Monitor F)
      → History m
      → (is_nonempty (derive_reasons m.snapshot) ≡ true → (action m.snapshot).halt_entries ≡ true)
        × ((action m.snapshot).resume_reduced ≡ true
            → (is_nonempty (derive_reasons m.snapshot) ≡ false) × (m.snapshot.api_successes ≡ 3))
        × ((action m.snapshot).halt_entries ≡ true
            → (0 < (action m.snapshot).retry_delay_seconds)
              × (is_nonempty (derive_reasons m.snapshot) ≡ false → m.snapshot.api_successes < 3))
  unfolding action
  gates m h =
      let v = History-Valid w k h in
      let delay = retry_delay_bounds m.snapshot.retry_attempts in
      (ground (arith, v), ground (arith, v, v.sound.api.capped), ground (arith, v, delay))

module _ {ℓ} {F : Type ℓ} ⦃d : Double F⦄ ⦃c : Decimals F⦄ where
  -- The monitor is not back to normal trading.
  record Stays (r : Monitor F × Reply) : Type 0 where
    away : r.0.snapshot.stage ≢ normal

  settle-ne-normal : (s : HealthSnapshot F) → s.stage ≡ halted → (settle s).stage ≢ normal
  unfolding settle
  settle-ne-normal s h = λ e. ground arith

  fail_schema-Stays :
      (observed : Option ℕ) (m : Monitor F)
      → m.snapshot.stage ≡ halted
      → Stays (fail_schema observed m)
  unfolding fail_schema
  fail_schema-Stays observed m h = record { away = settle-ne-normal _ h }

  ledger_check-Stays :
      (a b e f : Option F) (observed : Option ℕ) (m : Monitor F)
      → m.snapshot.stage ≡ halted
      → Stays (Fills.ledger_check a b e f observed m)
  unfolding apply_ledger_check
  ledger_check-Stays (some a) (some b) (some e) (some f) observed m h = record {
    away = settle-ne-normal _ h;
  }
  ledger_check-Stays _ _ _ _ observed m h = fail_schema-Stays observed m h

  fill_check-Stays :
      (expected actual : Option F) (observed : Option ℕ) (m : Monitor F)
      → m.snapshot.stage ≡ halted
      → Stays (Fills.fill_check expected actual observed m)
  unfolding good_fill bad_fill
  fill_check-Stays (some e) (some a) observed m h = record {
    away =
        settle-ne-normal _
          (if_both (λ (s : HealthSnapshot F). s.stage ≡ halted) (c.within_limit e a) h h);
  }
  fill_check-Stays _ _ observed m h = fail_schema-Stays observed m h

  same-Stays : (m : Monitor F) (r : Reply) → m.snapshot.stage ≡ halted → Stays (m, r)
  same-Stays m r h = record { away = λ e. ground arith }

  observe-Stays :
      (o : Observation F) (m : Monitor F) → m.snapshot.stage ≡ halted → Stays (observe o m)
  unfolding observe record_api_failure record_api_success record_candle_check record_timestamp_check
      record_schema_check set_unresolved_orders record_recovery_cycle_success record_ledger_check
      record_fill_check record_flat_fill_recovery_check failed_api successful_api touched
      recovery_check
  observe-Stays (api_failure at) m h =
      let stays = same-Stays m (ok (action m.snapshot)) h in
      if_both Stays _ stays (record { away = settle-ne-normal _ h })
  observe-Stays (api_success at) m h =
      let stays = same-Stays m (ok (action m.snapshot)) h in
      if_both Stays _ stays (record { away = settle-ne-normal _ h })
  observe-Stays (candle_check expected end checked (boolean b)) m h = record {
    away = settle-ne-normal _ h;
  }
  observe-Stays (candle_check expected end checked _) m h = fail_schema-Stays (some checked) m h
  observe-Stays (timestamp_check (boolean b) at) m h = record { away = settle-ne-normal _ h }
  observe-Stays (timestamp_check _ at) m h = fail_schema-Stays (some at) m h
  observe-Stays (schema_check (boolean b) at) m h = record { away = settle-ne-normal _ h }
  observe-Stays (schema_check _ at) m h = fail_schema-Stays (some at) m h
  observe-Stays (flat_fill_recovery_check (boolean b) at) m h =
      let stays = same-Stays m (ok (action m.snapshot)) h in
      if_both Stays _ stays (if_both Stays _ stays (record { away = settle-ne-normal _ h }))
  observe-Stays (flat_fill_recovery_check _ at) m h = fail_schema-Stays (some at) m h
  observe-Stays (unresolved_orders (some (pos n)) at) m h = record { away = settle-ne-normal _ h }
  observe-Stays (unresolved_orders _ at) m h = fail_schema-Stays at m h
  observe-Stays (ledger_check a b e f at) m h = ledger_check-Stays _ _ _ _ at m h
  observe-Stays (fill_check expected actual at) m h = fill_check-Stays _ _ at m h
  observe-Stays (recovery_cycle_success at) m h =
      if_cases Stays
        (is_reduced m.snapshot.stage && not (is_nonempty (derive_reasons (touched at m.snapshot))))
        (λ calm. absurd (ground (arith, calm, h)))
        (λ other_way. record { away = settle-ne-normal _ h })

  -- No single observation takes a halted monitor back to normal trading.
  pub halted_needs_reduced :
      (o : Observation F) (m : Monitor F)
      → m.snapshot.stage ≡ halted
      → (observe o m).0.snapshot.stage ≢ normal
  halted_needs_reduced o m h = (observe-Stays o m h).away
