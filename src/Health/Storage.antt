-- ===== src/Health/Storage.antt =====
-- The payload of a `HEALTH_STATE` event: `_to_storage_mapping` and `HealthSnapshot.from_mapping`
-- of src/autobit/paper/health.py at version 2. The payload is a record, so that its keys and the
-- JSON types of its values are as `_to_storage_mapping` writes them.
use Prim.Native.String.{String}
use auto_bit.Prelude.{
  ℕ, Bool, not, ◌||◌, Option, none, List, Result, ok, ◌>>◌, raise_if, ltb, if◌then◌else◌,
}
use auto_bit.Double.{Double, ◌≺◌, nought}
use auto_bit.Health.Snapshot.{
  HealthStage, HealthReason, HealthSnapshot, api_successes_required, action,
}
use auto_bit.Health.Validate.{validate}

pub record StoredHealth {ℓ} (F : Type ℓ) : Type ℓ where
  pub stage : HealthStage
  pub reasons : List HealthReason
  pub halt_entries : Bool
  pub resume_reduced : Bool
  pub api_failures : ℕ
  pub api_successes : ℕ
  pub api_failure_latched : Bool
  pub api_latch_activated_at : Option ℕ
  pub unresolved_orders : ℕ
  pub ledger_matches : Bool
  pub ledger_cash_difference : F
  pub ledger_btc_difference : F
  pub timestamps_monotonic : Bool
  pub schema_valid : Bool
  pub latest_candle_valid : Bool
  pub fill_within_limit : Bool
  pub fill_deviation : F
  pub retry_attempts : ℕ
  pub last_success_at : Option ℕ
  pub last_failure_at : Option ℕ
  pub last_observation_at : Option ℕ

module _ {ℓ} {F : Type ℓ} ⦃d : Double F⦄ where
  -- `to_mapping` without the keys of the fill anomaly's history.
  unfoldable pub to_storage : HealthSnapshot F → StoredHealth F
  unfolding action
  to_storage s = record {
    stage = s.stage;
    reasons = s.reasons;
    halt_entries = (action s).halt_entries;
    resume_reduced = (action s).resume_reduced;
    api_failures = s.api_failures;
    api_successes = s.api_successes;
    api_failure_latched = s.api_failure_latched;
    api_latch_activated_at = s.api_latch_activated_at;
    unresolved_orders = s.unresolved_orders;
    ledger_matches = s.ledger_matches;
    ledger_cash_difference = s.ledger_cash_difference;
    ledger_btc_difference = s.ledger_btc_difference;
    timestamps_monotonic = s.timestamps_monotonic;
    schema_valid = s.schema_valid;
    latest_candle_valid = s.latest_candle_valid;
    fill_within_limit = s.fill_within_limit;
    fill_deviation = s.fill_deviation;
    retry_attempts = s.retry_attempts;
    last_success_at = s.last_success_at;
    last_failure_at = s.last_failure_at;
    last_observation_at = s.last_observation_at;
  }

  -- The snapshot that the payload describes, with the fill history of a `legacy` payload.
  unfoldable pub legacy : StoredHealth F → HealthSnapshot F
  legacy p = record {
    stage = p.stage;
    reasons = p.reasons;
    api_failures = p.api_failures;
    api_successes = p.api_successes;
    api_failure_latched = p.api_failure_latched;
    api_latch_activated_at = p.api_latch_activated_at;
    unresolved_orders = p.unresolved_orders;
    ledger_matches = p.ledger_matches;
    ledger_cash_difference = p.ledger_cash_difference;
    ledger_btc_difference = p.ledger_btc_difference;
    timestamps_monotonic = p.timestamps_monotonic;
    schema_valid = p.schema_valid;
    latest_candle_valid = p.latest_candle_valid;
    fill_within_limit = p.fill_within_limit;
    fill_deviation = p.fill_deviation;
    fill_anomaly_episode = if p.fill_within_limit then 0 else 1;
    fill_recovery_checks = 0;
    fill_anomaly_deviation = if p.fill_within_limit then nought else p.fill_deviation;
    fill_anomaly_detected_at = none;
    fill_anomaly_resolved_at = none;
    last_fill_recovery_at = none;
    retry_attempts = p.retry_attempts;
    last_success_at = p.last_success_at;
    last_failure_at = p.last_failure_at;
    last_observation_at = p.last_observation_at;
  }

  -- The test of `_nonnegative_finite` fails.
  abbrev pub is_improper : F → Bool
  is_improper x = not (d.is_finite x) || x ≺ nought

  unfoldable pub from_storage : StoredHealth F → Result String (HealthSnapshot F)
  from_storage p = do
    raise_if (ltb api_successes_required p.api_successes) "api_successes exceeds its canonical cap"
    raise_if (is_improper p.ledger_cash_difference) "ledger_cash_difference"
    raise_if (is_improper p.ledger_btc_difference) "ledger_btc_difference"
    raise_if (is_improper p.fill_deviation) "fill_deviation"
    validate p.halt_entries p.resume_reduced (legacy p)
    ok (legacy p)
