-- ===== src/Health/History.antt =====
-- The observations that the paper service feeds to `HealthMonitor` (src/autobit/paper/health.py),
-- as one type, and every history of them from a new monitor.
use auto_bit.Prelude.{ℕ, ◌≡◌, ◌≢◌, refl, ap, Option, none, ok, arith, if◌then◌else◌}
use auto_bit.Prelude.Int.{ℤ}
use auto_bit.Double.{Double, nought}
use auto_bit.Double.Laws.{IsDouble}
use auto_bit.Python.{Value}
use auto_bit.Health.Snapshot.{HealthSnapshot, reduced, initial, derive_reasons}
use auto_bit.Health.Monitor.{
  Monitor, Reply, record_api_failure, record_api_success, record_candle_check,
  record_timestamp_check, record_schema_check, set_unresolved_orders, record_recovery_cycle_success,
}
use auto_bit.Health.Fills.{
  Decimals, positive_finite, record_ledger_check, record_fill_check,
  record_flat_fill_recovery_check,
}
use auto_bit.Health.Storage.{to_storage, legacy, from_storage}
use auto_bit.Health.Api.{rank}
use auto_bit.Health.Invariant.{Valid}
use auto_bit.Health.Observe.{
  record_api_failure-Valid, record_api_success-Valid, record_candle_check-Valid,
  record_timestamp_check-Valid, record_schema_check-Valid, set_unresolved_orders-Valid,
  record_recovery_cycle_success-Valid,
}
use auto_bit.Health.Amounts.{
  IsDecimals, IsComparable, zero_proper, zero_le_zero, record_ledger_check-Valid,
  record_fill_check-Valid, record_flat_fill_recovery_check-Valid,
}
use auto_bit.Health.Restart.{restart_accepts}

-- A call of one method of the monitor.
pub data Observation {ℓ} (F : Type ℓ) : Type ℓ where
  api_failure api_success : ℕ → Observation F
  candle_check : ℕ → Option ℕ → ℕ → Value F → Observation F
  timestamp_check schema_check flat_fill_recovery_check : Value F → ℕ → Observation F
  unresolved_orders : Option ℤ → Option ℕ → Observation F
  ledger_check : Value F → Value F → Value F → Value F → Option ℕ → Observation F
  fill_check : Value F → Value F → Option ℕ → Observation F
  recovery_cycle_success : ℕ → Observation F

module _ {ℓ} {F : Type ℓ} ⦃d : Double F⦄ ⦃c : Decimals F⦄ where
  unfoldable pub observe : Observation F → Monitor F → Monitor F × Reply
  observe (api_failure at) = record_api_failure at
  observe (api_success at) = record_api_success at
  observe (candle_check expected end checked value) = record_candle_check expected end checked value
  observe (timestamp_check value at) = record_timestamp_check value at
  observe (schema_check value at) = record_schema_check value at
  observe (flat_fill_recovery_check value at) = record_flat_fill_recovery_check value at
  observe (unresolved_orders count at) = set_unresolved_orders count at
  observe (ledger_check a b e f at) = record_ledger_check a b e f at
  observe (fill_check expected actual at) = record_fill_check expected actual at
  observe (recovery_cycle_success at) = record_recovery_cycle_success at

  -- Left out are an API failure in the stage `REDUCED`, and two prices so far apart that their
  -- relative deviation is no finite float.
  abbrev pub IsOrdinary : Observation F → Monitor F → Type 0
  IsOrdinary (api_failure at) m = m.snapshot.stage ≢ reduced
  IsOrdinary (fill_check expected actual at) m =
      IsComparable (positive_finite expected) (positive_finite actual)
  IsOrdinary _ m = Unit

  -- `HealthMonitor()`
  abbrev pub new_monitor : Monitor F
  new_monitor = record { snapshot = initial; pending_fill_recovery = none }

  -- The monitors that ordinary observations lead to.
  pub data History : Monitor F → Type ℓ where
    begin : History new_monitor
    next :
        {m : Monitor F} (o : Observation F) → IsOrdinary o m → History m → History (observe o m).0

module _ {ℓ} {F : Type ℓ} ⦃d : Double F⦄ where
  -- The snapshot with the fill history that a payload of version 2 gets.
  abbrev pub with_plain_fills : HealthSnapshot F → HealthSnapshot F
  with_plain_fills s = record s {
    fill_anomaly_episode = if s.fill_within_limit then 0 else 1;
    fill_recovery_checks = 0;
    fill_anomaly_deviation = if s.fill_within_limit then nought else s.fill_deviation;
    fill_anomaly_detected_at = none;
    fill_anomaly_resolved_at = none;
    last_fill_recovery_at = none;
  }

  legacy-to_storage : (s : HealthSnapshot F) → legacy (to_storage s) ≡ with_plain_fills s
  unfolding legacy to_storage
  legacy-to_storage s = refl

module _ {ℓ} {F : Type ℓ} ⦃d : Double F⦄ ⦃c : Decimals F⦄ (w : IsDouble F) (k : IsDecimals F) where
  observe-Valid :
      (o : Observation F) (m : Monitor F)
      → IsOrdinary o m
      → Valid m.snapshot
      → Valid (observe o m).0.snapshot
  unfolding observe
  observe-Valid (api_failure at) m p v = record_api_failure-Valid at m p v
  observe-Valid (api_success at) m p v = record_api_success-Valid at m v
  observe-Valid (candle_check expected end checked value) m p v =
      record_candle_check-Valid expected end checked value m v
  observe-Valid (timestamp_check value at) m p v = record_timestamp_check-Valid value at m v
  observe-Valid (schema_check value at) m p v = record_schema_check-Valid value at m v
  observe-Valid (flat_fill_recovery_check value at) m p v =
      record_flat_fill_recovery_check-Valid w k value at m v
  observe-Valid (unresolved_orders count at) m p v = set_unresolved_orders-Valid count at m v
  observe-Valid (ledger_check a b e f at) m p v = record_ledger_check-Valid w k a b e f at m v
  observe-Valid (fill_check expected actual at) m p v =
      record_fill_check-Valid w k expected actual at p m v
  observe-Valid (recovery_cycle_success at) m p v = record_recovery_cycle_success-Valid at m v

  initial-Valid : Valid {F = F} initial
  unfolding derive_reasons rank
  initial-Valid = ground (
    arith,
    zero_le_zero w k,
    zero_proper w k,
    w.lit_mono 0 1 1 10000000000 (omega arith) (omega arith) (omega arith),
    w.lit_mono 0 1 5 100 (omega arith) (omega arith) (omega arith),
  )

  pub History-Valid : {m : Monitor F} → History m → Valid m.snapshot
  History-Valid begin = initial-Valid
  History-Valid (next {m} o p h) = observe-Valid o m p (History-Valid h)

  -- After every history of ordinary observations from a new monitor, in any order and with any
  -- times and arguments, a restart accepts the payload that the monitor stores.
  pub History-restarts :
      (m : Monitor F)
      → History m
      → from_storage (to_storage m.snapshot) ≡ ok (legacy (to_storage m.snapshot))
  History-restarts m h = restart_accepts w m.snapshot (History-Valid h)

  -- After every such history, the snapshot that `from_mapping` returns for the stored payload has
  -- the monitor's stage, reasons, counters, latch, differences, checks and times, each as it was.
  -- The fill history alone is reset: to one open episode with the last deviation if the last fill
  -- was out of its limit, and to none if not.
  pub History-restores :
      (m : Monitor F)
      → History m
      → from_storage (to_storage m.snapshot) ≡ ok (with_plain_fills m.snapshot)
  History-restores m h = rw (History-restarts m h) (ap ok (legacy-to_storage m.snapshot))
