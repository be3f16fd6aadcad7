-- ===== src/Health/Fills.antt =====
-- The checks of `HealthMonitor` in src/autobit/paper/health.py that compare amounts and prices:
-- the ledger, a fill's price, and the recovery of a flat account from a bad fill.
use Prim.Native.Nat.{min}
use auto_bit.Prelude.{ℕ, ◌+◌, Bool, true, false, not, ◌&&◌, Option, none, some, leb, if◌then◌else◌}
use auto_bit.Double.{Double, ◌≼◌, ◌≺◌, nought, max}
use auto_bit.Python.{Value, number, boolean}
use auto_bit.Health.Snapshot.{HealthSnapshot, api_successes_required, latest_observation}
use auto_bit.Health.Monitor.{Monitor, Reply, finish, unchanged, kept, is_old, fail_schema}

-- What the monitor asks of `decimal.Decimal` and `math`: the absolute difference of two numbers
-- and the relative deviation of the second from the first, as floats; whether that deviation is
-- at most 0.05 before it is rounded; and the next float above.
pub record Decimals {ℓ} (F : Type ℓ) : Type ℓ where
  pub difference : F → F → F
  pub deviation : F → F → F
  pub within_limit : F → F → Bool
  pub next_after : F → F

-- `_nonnegative_number` and `_positive_finite`; a `Decimal` counts as a `number`.
module _ {ℓ} {F : Type ℓ} ⦃d : Double F⦄ where
  abbrev pub nonnegative_number : Value F → Option F
  nonnegative_number (number x) =
      if d.is_finite x then (if x ≺ nought then none else some x) else none
  nonnegative_number _ = none

  abbrev pub positive_finite : Value F → Option F
  positive_finite (number x) = if d.is_finite x then (if x ≼ nought then none else some x) else none
  positive_finite _ = none

  abbrev pub ledger_tolerance : F
  ledger_tolerance = d.lit 1 10000000000

  abbrev pub fill_deviation_limit : F
  fill_deviation_limit = d.lit 5 100

  module _ ⦃c : Decimals F⦄ where
    -- The body of `record_ledger_check` after its guards.
    unfoldable pub apply_ledger_check : F → F → F → F → Option ℕ → Monitor F → Monitor F × Reply
    apply_ledger_check stored_cash actual_cash stored_btc actual_btc observed m =
        let cash_difference = c.difference stored_cash actual_cash in
        let btc_difference = c.difference stored_btc actual_btc in
        let matches = cash_difference ≼ ledger_tolerance && btc_difference ≼ ledger_tolerance in
        finish m (record m.snapshot {
          ledger_matches = matches;
          ledger_cash_difference = cash_difference;
          ledger_btc_difference = btc_difference;
          api_successes = kept (m.snapshot.ledger_matches && not matches) m.snapshot.api_successes;
          last_observation_at = latest_observation m.snapshot.last_observation_at observed;
        })

    abbrev pub ledger_check :
        Option F → Option F → Option F → Option F → Option ℕ → Monitor F → Monitor F × Reply
    ledger_check (some a) (some b) (some e) (some f) observed m =
        apply_ledger_check a b e f observed m
    ledger_check _ _ _ _ observed m = fail_schema observed m

    unfoldable pub record_ledger_check :
        Value F → Value F → Value F → Value F → Option ℕ → Monitor F → Monitor F × Reply
    record_ledger_check stored_cash actual_cash stored_btc actual_btc =
        ledger_check (nonnegative_number stored_cash) (nonnegative_number actual_cash)
          (nonnegative_number stored_btc) (nonnegative_number actual_btc)

    -- `deviation`, put above the limit where rounding took it there.
    abbrev pub reported_deviation : F → F → F
    reported_deviation expected actual =
        if not (c.within_limit expected actual)
          && c.deviation expected actual ≼ fill_deviation_limit
        then c.next_after fill_deviation_limit
        else c.deviation expected actual

    -- The fill fields where the price is off the limit, and where it is not.
    unfoldable pub bad_fill : F → Option ℕ → HealthSnapshot F → HealthSnapshot F
    bad_fill deviation observed s = record s {
      fill_within_limit = false;
      fill_deviation = deviation;
      fill_anomaly_episode =
          if s.fill_within_limit then s.fill_anomaly_episode + 1 else s.fill_anomaly_episode;
      fill_recovery_checks = 0;
      fill_anomaly_deviation = max s.fill_anomaly_deviation deviation;
      fill_anomaly_detected_at =
          if s.fill_within_limit then observed else s.fill_anomaly_detected_at;
      fill_anomaly_resolved_at = none;
      last_fill_recovery_at = none;
      api_successes = kept s.fill_within_limit s.api_successes;
      last_observation_at = latest_observation s.last_observation_at observed;
    }

    unfoldable pub good_fill : F → Option ℕ → HealthSnapshot F → HealthSnapshot F
    good_fill deviation observed s = record s {
      fill_within_limit = true;
      fill_deviation = deviation;
      fill_recovery_checks =
          if s.fill_within_limit then s.fill_recovery_checks else api_successes_required;
      fill_anomaly_resolved_at =
          if s.fill_within_limit then s.fill_anomaly_resolved_at else observed;
      last_observation_at = latest_observation s.last_observation_at observed;
    }

    abbrev pub fill_check : Option F → Option F → Option ℕ → Monitor F → Monitor F × Reply
    fill_check (some expected) (some actual) observed m =
        let deviation = reported_deviation expected actual in
        finish m (
          if c.within_limit expected actual
          then good_fill deviation observed m.snapshot
          else bad_fill deviation observed m.snapshot)
    fill_check _ _ observed m = fail_schema observed m

    unfoldable pub record_fill_check : Value F → Value F → Option ℕ → Monitor F → Monitor F × Reply
    record_fill_check expected_price actual_price =
        fill_check (positive_finite expected_price) (positive_finite actual_price)

  unfoldable pub recovery_check : Bool → ℕ → HealthSnapshot F → HealthSnapshot F
  recovery_check eligible observed s =
      let checks =
        if eligible then min api_successes_required (s.fill_recovery_checks + 1) else 0 in
      let resolved = eligible && leb api_successes_required checks in
      record s {
        fill_within_limit = resolved;
        fill_deviation = if resolved then nought else s.fill_deviation;
        fill_recovery_checks = checks;
        fill_anomaly_resolved_at = if resolved then some observed else none;
        last_fill_recovery_at = some observed;
        last_observation_at = latest_observation s.last_observation_at (some observed);
      }

  unfoldable pub record_flat_fill_recovery_check : Value F → ℕ → Monitor F → Monitor F × Reply
  record_flat_fill_recovery_check (boolean eligible) observed m =
      if m.snapshot.fill_within_limit
      then unchanged m
      else if is_old m.snapshot.last_fill_recovery_at observed
      then unchanged m
      else finish (record m { pending_fill_recovery = some eligible })
          (recovery_check eligible observed m.snapshot)
  record_flat_fill_recovery_check _ observed m = fail_schema (some observed) m
