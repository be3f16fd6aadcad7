-- ===== src/Health/Snapshot.antt =====
-- The records of src/autobit/paper/health.py, and what it reads off a snapshot. Times are UTC,
-- in microseconds. `version` is the constant 3 and has no field.
use auto_bit.Prelude.{
  ℕ, ◌-◌, ◌^◌, Bool, true, false, not, ◌&&◌, Option, none, some, List, [], ◌∷◌, ◌++◌, ltb, leb,
  if◌then◌else◌,
}
use auto_bit.Double.{Double, nought}

pub data HealthStage : Type 0 where
  normal halted reduced : HealthStage

pub data HealthReason : Type 0 where
  api_failures stale_candle timestamp_reversal schema_error unresolved_order ledger_mismatch
        fill_deviation api_successes :
      HealthReason

pub record HealthSnapshot {ℓ} (F : Type ℓ) : Type ℓ where
  pub stage : HealthStage
  pub reasons : List HealthReason
  pub api_failures : ℕ
  pub api_successes : ℕ
  pub api_failure_latched : Bool
  pub api_latch_activated_at : Option ℕ
  pub unresolved_orders : ℕ
  pub ledger_matches : Bool
  pub ledger_cash_difference : F
  pub ledger_btc_difference : F
  pub timestamps_monotonic : Bool
  pub schema_valid : Bool
  pub latest_candle_valid : Bool
  pub fill_within_limit : Bool
  pub fill_deviation : F
  pub fill_anomaly_episode : ℕ
  pub fill_recovery_checks : ℕ
  pub fill_anomaly_deviation : F
  pub fill_anomaly_detected_at : Option ℕ
  pub fill_anomaly_resolved_at : Option ℕ
  pub last_fill_recovery_at : Option ℕ
  pub retry_attempts : ℕ
  pub last_success_at : Option ℕ
  pub last_failure_at : Option ℕ
  pub last_observation_at : Option ℕ

pub record RecoveryProgress : Type 0 where
  pub successes_observed : ℕ
  pub successes_required : ℕ
  pub remaining_gates : List HealthReason

pub record HealthAction : Type 0 where
  pub halt_entries : Bool
  pub resume_reduced : Bool
  pub reason : Option HealthReason
  pub reasons : List HealthReason
  pub retry_delay_seconds : ℕ
  pub stage : HealthStage
  pub progress : RecoveryProgress

abbrev pub api_successes_required : ℕ
api_successes_required = 3

abbrev pub is_halted : HealthStage → Bool
is_halted halted = true
is_halted _ = false

abbrev pub is_reduced : HealthStage → Bool
is_reduced reduced = true
is_reduced _ = false

abbrev pub later : ℕ → ℕ → ℕ
later a b = if ltb a b then b else a

-- `_latest_observation`
abbrev pub latest_observation : Option ℕ → Option ℕ → Option ℕ
latest_observation none observed = observed
latest_observation (some t) none = some t
latest_observation (some t) (some u) = some (later t u)

-- The reason, if its predicate is active.
abbrev pub when : Bool → HealthReason → List HealthReason → List HealthReason
when true reason rest = reason ∷ rest
when false reason rest = rest

unfoldable pub retry_delay : ℕ → ℕ
retry_delay attempts =
    if leb attempts 0 then 0 else if leb attempts 5 then 2 ^ (attempts - 1) else 300

abbrev pub first : List HealthReason → Option HealthReason
first [] = none
first (r ∷ rest) = some r

module _ {ℓ} {F : Type ℓ} where
  -- `_last_api_observation`: the later of the two cursors.
  abbrev pub last_api_observation : HealthSnapshot F → Option ℕ
  last_api_observation s = latest_observation s.last_success_at s.last_failure_at

  unfoldable pub derive_reasons : HealthSnapshot F → List HealthReason
  derive_reasons s = when s.api_failure_latched HealthReason.api_failures (
      when (not s.latest_candle_valid) stale_candle (
        when (not s.timestamps_monotonic) timestamp_reversal (
          when (not s.schema_valid) schema_error (
            when (ltb 0 s.unresolved_orders) unresolved_order (
              when (not s.ledger_matches) ledger_mismatch
                (when (not s.fill_within_limit) HealthReason.fill_deviation []))))))

  -- `_action`
  unfoldable pub action : HealthSnapshot F → HealthAction
  action s =
      let reasons = derive_reasons s in
      let halt = is_halted s.stage in
      record {
        halt_entries = halt;
        resume_reduced = is_reduced s.stage;
        reason = first reasons;
        reasons = reasons;
        retry_delay_seconds = if halt then retry_delay s.retry_attempts else 0;
        stage = s.stage;
        progress = record {
          successes_observed = s.api_successes;
          successes_required = api_successes_required;
          remaining_gates =
              if halt && ltb s.api_successes api_successes_required
              then reasons ++ HealthReason.api_successes ∷ []
              else reasons;
        };
      }

-- `HealthSnapshot()`
abbrev pub initial {ℓ} : {F : Type ℓ} ⦃d : Double F⦄ → HealthSnapshot F
initial = record {
  stage = normal;
  reasons = [];
  api_failures = 0;
  api_successes = 0;
  api_failure_latched = false;
  api_latch_activated_at = none;
  unresolved_orders = 0;
  ledger_matches = true;
  ledger_cash_difference = nought;
  ledger_btc_difference = nought;
  timestamps_monotonic = true;
  schema_valid = true;
  latest_candle_valid = true;
  fill_within_limit = true;
  fill_deviation = nought;
  fill_anomaly_episode = 0;
  fill_recovery_checks = 0;
  fill_anomaly_deviation = nought;
  fill_anomaly_detected_at = none;
  fill_anomaly_resolved_at = none;
  last_fill_recovery_at = none;
  retry_attempts = 0;
  last_success_at = none;
  last_failure_at = none;
  last_observation_at = none;
}
