-- ===== src/Health/Validate.antt =====
-- `_validate_snapshot_relationships` of src/autobit/paper/health.py, with its messages.
use Prim.Native.String.{String}
use auto_bit.Prelude.{
  ℕ, Bool, true, false, not, ◌&&◌, ◌||◌, Option, some, any, List, [], ◌∷◌, Result, ◌>>◌, raise_if,
  ltb, leb, ◌==◌, is_some, is_nonempty, if◌then◌else◌,
}
use auto_bit.Double.{Double, ◌≼◌, nought}
use auto_bit.Health.Snapshot.{
  HealthStage, normal, halted, reduced, HealthReason, api_failures, stale_candle,
  timestamp_reversal, schema_error, unresolved_order, ledger_mismatch, fill_deviation,
  api_successes, HealthSnapshot, api_successes_required, is_halted, is_reduced, derive_reasons,
  last_api_observation,
}
use auto_bit.Health.Fills.{ledger_tolerance, fill_deviation_limit}

abbrev pub Checked : Type 0
Checked = Result String (Unit {0})

abbrev pub reason_code : HealthReason → ℕ
reason_code api_failures = 0
reason_code stale_candle = 1
reason_code timestamp_reversal = 2
reason_code schema_error = 3
reason_code unresolved_order = 4
reason_code ledger_mismatch = 5
reason_code fill_deviation = 6
reason_code api_successes = 7

abbrev pub same_reasons : List HealthReason → List HealthReason → Bool
same_reasons [] [] = true
same_reasons (x ∷ xs) (y ∷ ys) = reason_code x == reason_code y && same_reasons xs ys
same_reasons _ _ = false

abbrev is_api_failures : HealthReason → Bool
is_api_failures HealthReason.api_failures = true
is_api_failures _ = false

abbrev pub same_bool : Bool → Bool → Bool
same_bool true b = b
same_bool false b = not b

-- `a < b`, false where either is `None`.
abbrev pub before : Option ℕ → Option ℕ → Bool
before (some a) (some b) = ltb a b
before _ _ = false

-- `a is None or a <= b`, where `b` is known.
abbrev pub missing_or_not_after : Option ℕ → Option ℕ → Bool
missing_or_not_after (some a) (some b) = leb a b
missing_or_not_after _ _ = true

module _ {ℓ} {F : Type ℓ} ⦃d : Double F⦄ where
  unfoldable pub validate_predicates : HealthSnapshot F → Checked
  validate_predicates s = do
    raise_if (not (same_reasons s.reasons (derive_reasons s)))
        "health reasons contradict predicates"
    raise_if
        (not (
          same_bool s.ledger_matches (
            s.ledger_cash_difference ≼ ledger_tolerance
            && s.ledger_btc_difference ≼ ledger_tolerance)))
        "ledger predicate contradicts differences"
    raise_if (not (same_bool s.fill_within_limit (s.fill_deviation ≼ fill_deviation_limit)))
        "fill predicate contradicts deviation"

  abbrev no_episode : HealthSnapshot F → Checked
  no_episode s =
      raise_if
        (not s.fill_within_limit
          || (not (s.fill_recovery_checks == 0)
              || (not (d.eq s.fill_anomaly_deviation nought)
                  || (is_some s.fill_anomaly_detected_at
                      || (is_some s.fill_anomaly_resolved_at || is_some s.last_fill_recovery_at)))))
        "fill anomaly evidence exists without an episode"

  abbrev an_episode : HealthSnapshot F → Checked
  an_episode s = do
    raise_if (s.fill_anomaly_deviation ≼ fill_deviation_limit)
        "fill anomaly episode lacks trigger evidence"
    raise_if (s.fill_within_limit && not (s.fill_recovery_checks == api_successes_required))
        "resolved fill episode lacks bounded recovery evidence"
    raise_if
        (not s.fill_within_limit
          && (leb api_successes_required s.fill_recovery_checks
              || is_some s.fill_anomaly_resolved_at))
        "active fill episode contradicts recovery evidence"
    raise_if
        (ltb 0 s.fill_recovery_checks
          && (ltb s.fill_recovery_checks api_successes_required
              && not (is_some s.last_fill_recovery_at)))
        "fill recovery counter lacks observation evidence"
    raise_if (before s.fill_anomaly_resolved_at s.fill_anomaly_detected_at)
        "fill anomaly resolution predates detection"
    raise_if (before s.fill_anomaly_resolved_at s.last_fill_recovery_at)
        "fill recovery cursor postdates resolution"

  unfoldable pub validate_fill : HealthSnapshot F → Checked
  validate_fill s = do
    raise_if (ltb api_successes_required s.fill_recovery_checks)
        "fill recovery checks exceed their canonical cap"
    if s.fill_anomaly_episode == 0 then no_episode s else an_episode s

  -- The tests of the relationships among the API counters, cursors and latch.
  unfoldable pub latch_unexplained : HealthSnapshot F → Bool
  latch_unexplained s =
      not (same_bool s.api_failure_latched (any is_api_failures (derive_reasons s)))

  unfoldable pub latch_overrun : HealthSnapshot F → Bool
  latch_overrun s = s.api_failure_latched && leb 3 s.api_successes

  unfoldable pub latch_undated : HealthSnapshot F → Bool
  latch_undated s = not (same_bool s.api_failure_latched (is_some s.api_latch_activated_at))

  unfoldable pub latch_unfounded : HealthSnapshot F → Bool
  latch_unfounded s =
      is_some s.api_latch_activated_at
      && (not (is_some s.last_failure_at) || before s.last_failure_at s.api_latch_activated_at)

  unfoldable pub latch_unproven : HealthSnapshot F → Bool
  latch_unproven s =
      s.api_failure_latched
      && (ltb s.api_failures 3
          && (missing_or_not_after s.last_success_at s.api_latch_activated_at
              || (ltb 0 s.api_failures
                  && missing_or_not_after s.last_failure_at s.last_success_at)))

  unfoldable pub latch_missed : HealthSnapshot F → Bool
  latch_missed s = leb 3 s.api_failures && not s.api_failure_latched

  unfoldable pub counters_clash : HealthSnapshot F → Bool
  counters_clash s = ltb 0 s.api_failures && ltb 0 s.api_successes

  unfoldable pub failure_unseen : HealthSnapshot F → Bool
  failure_unseen s = ltb 0 s.api_failures && not (is_some s.last_failure_at)

  unfoldable pub success_unseen : HealthSnapshot F → Bool
  success_unseen s = ltb 0 s.api_successes && not (is_some s.last_success_at)

  unfoldable pub observation_behind : HealthSnapshot F → Bool
  observation_behind s =
      is_some (last_api_observation s)
      && (not (is_some s.last_observation_at)
          || before s.last_observation_at (last_api_observation s))

  unfoldable pub latch_ahead : HealthSnapshot F → Bool
  latch_ahead s = before s.last_observation_at s.api_latch_activated_at

  unfoldable pub validate_api : HealthSnapshot F → Checked
  validate_api s = do
    raise_if (latch_unexplained s) "API latch contradicts reasons"
    raise_if (latch_overrun s) "API latch contradicts recovery successes"
    raise_if (latch_undated s) "API latch lacks activation provenance"
    raise_if (latch_unfounded s) "API latch activation contradicts failure evidence"
    raise_if (latch_unproven s) "API latch provenance lacks partial recovery evidence"
    raise_if (latch_missed s) "API failures contradict the API latch"
    raise_if (counters_clash s) "API failure and success counters contradict"
    raise_if (failure_unseen s) "API failure counter lacks observation evidence"
    raise_if (success_unseen s) "API success counter lacks observation evidence"
    raise_if (observation_behind s) "last observation predates an API observation cursor"
    raise_if (latch_ahead s) "API latch activation postdates the last observation"

  abbrev stage_relations : HealthStage → HealthSnapshot F → Checked
  stage_relations normal s =
      raise_if (is_nonempty (derive_reasons s) || not (s.retry_attempts == 0))
        "NORMAL health state is contradictory"
  stage_relations reduced s =
      raise_if
        (is_nonempty (derive_reasons s) || (ltb s.api_successes 3 || not (s.retry_attempts == 0)))
        "REDUCED health state is contradictory"
  stage_relations halted s = do
    raise_if (s.retry_attempts == 0) "HALTED health state requires retry evidence"
    raise_if (not (is_nonempty (derive_reasons s)) && leb api_successes_required s.api_successes)
        "HALTED health state has completed every recovery gate"

  unfoldable pub validate_stage : Bool → Bool → HealthSnapshot F → Checked
  validate_stage halt_entries resume_reduced s = do
    stage_relations s.stage s
    raise_if
        (not (same_bool halt_entries (is_halted s.stage))
          || not (same_bool resume_reduced (is_reduced s.stage)))
        "health action flags contradict stage"

  -- `_validate_snapshot_relationships`
  unfoldable pub validate : Bool → Bool → HealthSnapshot F → Checked
  validate halt_entries resume_reduced s = do
    validate_predicates s
    validate_fill s
    validate_api s
    validate_stage halt_entries resume_reduced s
