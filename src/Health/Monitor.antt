-- ===== src/Health/Monitor.antt =====
-- `HealthMonitor` of src/autobit/paper/health.py, method by method. A method returns the new
-- monitor, with the action, or with the `ValueError` that it raises. An argument that the source
-- checks for its type is a `Value`, or an `Option` that is `none` for a value of another type.
use auto_bit.Prelude.{
  ℕ, ◌+◌, ◌*◌, Bool, true, false, not, ◌&&◌, ◌||◌, Option, none, some, Result, ok, err, ltb, leb,
  ◌==◌, is_nonempty, if◌then◌else◌,
}
use auto_bit.Prelude.Int.{ℤ, pos}
use Prim.Native.Nat.{min}
use auto_bit.Python.{Value, boolean, microsecond_minute}
use auto_bit.Health.Snapshot.{
  HealthStage, halted, reduced, normal, HealthSnapshot, HealthAction, api_successes_required,
  is_halted, is_reduced, latest_observation, last_api_observation, derive_reasons, action,
}

pub record Monitor {ℓ} (F : Type ℓ) : Type ℓ where
  pub snapshot : HealthSnapshot F
  pub pending_fill_recovery : Option Bool

pub data HealthError : Type 0 where
  invalid_argument : HealthError

abbrev pub Reply : Type 0
Reply = Result HealthError HealthAction

abbrev settled_stage : Bool → HealthStage → ℕ → HealthStage
settled_stage true stage successes = halted
settled_stage false stage successes =
    if is_halted stage && leb api_successes_required successes then reduced else stage

-- The successes after an observation that may show a new fault.
abbrev pub kept : Bool → ℕ → ℕ
kept newly_faulted successes = if newly_faulted then 0 else successes

-- `previous is not None and observed <= previous`
abbrev pub is_old : Option ℕ → ℕ → Bool
is_old none observed = false
is_old (some t) observed = leb observed t

abbrev pub or_now : Option ℕ → ℕ → Option ℕ
or_now none observed = some observed
or_now (some t) observed = some t

-- `latest_valid` of `record_candle_check`.
abbrev candle_valid : ℕ → Option ℕ → ℕ → Bool → Bool → Bool
candle_valid expected none checked structurally_valid prior =
    if leb (expected + 10 * microsecond_minute) checked then false else prior
candle_valid expected (some end) checked structurally_valid prior =
    if end == expected && structurally_valid
    then true
    else if leb (expected + 10 * microsecond_minute) checked
    then false
    else prior

module _ {ℓ} {F : Type ℓ} where
  -- The snapshot that `_finish_observation` leaves.
  unfoldable pub settle : HealthSnapshot F → HealthSnapshot F
  settle s =
      let reasons = derive_reasons s in
      let stage = settled_stage (is_nonempty reasons) s.stage s.api_successes in
      record s {
        stage = stage;
        reasons = reasons;
        retry_attempts = if is_halted stage then s.retry_attempts + 1 else 0;
      }

  -- `self._snapshot = …; return self._finish_observation()`
  abbrev pub finish : Monitor F → HealthSnapshot F → Monitor F × Reply
  finish m s = (record m { snapshot = settle s }, ok (action (settle s)))

  -- `return self.current_action()`
  abbrev pub unchanged : Monitor F → Monitor F × Reply
  unchanged m = (m, ok (action m.snapshot))

  -- The `replace` of `record_api_failure`.
  unfoldable pub failed_api : ℕ → HealthSnapshot F → HealthSnapshot F
  failed_api observed s =
      let failures = s.api_failures + 1 in
      let latched = s.api_failure_latched || leb 3 failures in
      record s {
        api_failures = failures;
        api_successes = 0;
        api_failure_latched = latched;
        api_latch_activated_at =
            if latched then or_now s.api_latch_activated_at observed else s.api_latch_activated_at;
        last_failure_at = some observed;
        last_observation_at = latest_observation s.last_observation_at (some observed);
      }

  unfoldable pub record_api_failure : ℕ → Monitor F → Monitor F × Reply
  record_api_failure observed m =
      if is_old (last_api_observation m.snapshot) observed
      then unchanged m
      else finish m (failed_api observed m.snapshot)

  -- The `replace` of `record_api_success`.
  unfoldable pub successful_api : ℕ → HealthSnapshot F → HealthSnapshot F
  successful_api observed s =
      let successes = min api_successes_required (s.api_successes + 1) in
      let latched = s.api_failure_latched && ltb successes api_successes_required in
      record s {
        api_failures = 0;
        api_successes = successes;
        api_failure_latched = latched;
        api_latch_activated_at = if latched then s.api_latch_activated_at else none;
        last_success_at = some observed;
        last_observation_at = latest_observation s.last_observation_at (some observed);
      }

  unfoldable pub record_api_success : ℕ → Monitor F → Monitor F × Reply
  record_api_success observed m =
      if is_old (last_api_observation m.snapshot) observed
      then unchanged m
      else finish m (successful_api observed m.snapshot)

  -- `_fail_schema`, after which the caller raises.
  unfoldable pub fail_schema : Option ℕ → Monitor F → Monitor F × Reply
  fail_schema observed m = (
    record m {
      snapshot = settle (record m.snapshot {
        schema_valid = false;
        api_successes = kept m.snapshot.schema_valid m.snapshot.api_successes;
        last_observation_at = latest_observation m.snapshot.last_observation_at observed;
      });
    },
    err invalid_argument,
  )

  unfoldable pub record_candle_check : ℕ → Option ℕ → ℕ → Value F → Monitor F → Monitor F × Reply
  unfolding fail_schema
  record_candle_check expected observed checked (boolean structurally_valid) m =
      let prior = m.snapshot.latest_candle_valid in
      let valid = candle_valid expected observed checked structurally_valid prior in
      let newly_faulted =
        (prior && not valid) || (m.snapshot.schema_valid && not structurally_valid) in
      finish m (record m.snapshot {
        latest_candle_valid = valid;
        schema_valid = m.snapshot.schema_valid && structurally_valid;
        api_successes = kept newly_faulted m.snapshot.api_successes;
        last_observation_at = latest_observation m.snapshot.last_observation_at (some checked);
      })
  record_candle_check expected observed checked _ m = fail_schema (some checked) m

  unfoldable pub record_timestamp_check : Value F → ℕ → Monitor F → Monitor F × Reply
  unfolding fail_schema
  record_timestamp_check (boolean monotonic) observed m = finish m (record m.snapshot {
    timestamps_monotonic = monotonic;
    api_successes =
        kept (m.snapshot.timestamps_monotonic && not monotonic) m.snapshot.api_successes;
    last_observation_at = latest_observation m.snapshot.last_observation_at (some observed);
  })
  record_timestamp_check _ observed m = fail_schema (some observed) m

  unfoldable pub record_schema_check : Value F → ℕ → Monitor F → Monitor F × Reply
  unfolding fail_schema
  record_schema_check (boolean valid) observed m = finish m (record m.snapshot {
    schema_valid = valid;
    api_successes = kept (m.snapshot.schema_valid && not valid) m.snapshot.api_successes;
    last_observation_at = latest_observation m.snapshot.last_observation_at (some observed);
  })
  record_schema_check _ observed m = fail_schema (some observed) m

  unfoldable pub set_unresolved_orders : Option ℤ → Option ℕ → Monitor F → Monitor F × Reply
  unfolding fail_schema
  set_unresolved_orders (some (pos count)) observed m = finish m (record m.snapshot {
    unresolved_orders = count;
    api_successes =
        kept (m.snapshot.unresolved_orders == 0 && ltb 0 count) m.snapshot.api_successes;
    last_observation_at = latest_observation m.snapshot.last_observation_at observed;
  })
  set_unresolved_orders _ observed m = fail_schema observed m

  -- The two `replace`s of `record_recovery_cycle_success`.
  unfoldable pub touched : ℕ → HealthSnapshot F → HealthSnapshot F
  touched observed s = record s {
    last_observation_at = latest_observation s.last_observation_at (some observed);
  }

  unfoldable pub promoted : HealthSnapshot F → HealthSnapshot F
  promoted s = record s { stage = normal; retry_attempts = 0 }

  unfoldable pub record_recovery_cycle_success : ℕ → Monitor F → Monitor F × Reply
  record_recovery_cycle_success observed m =
      let s = touched observed m.snapshot in
      if is_reduced s.stage && not (is_nonempty (derive_reasons s))
      then (record m { snapshot = promoted s }, ok (action (promoted s)))
      else finish m s
