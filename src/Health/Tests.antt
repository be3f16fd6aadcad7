-- ===== src/Health/Tests.antt =====
-- Runs of the health monitor on fixed-point numbers, and its theorems at concrete histories.
use auto_bit.Prelude.{ℕ, ◌<◌, suc, true, false, ◌≡◌, ◌≢◌, refl, some, ok, err, arith, is_nonempty}
use auto_bit.Prelude.Int.{pos, ◌-ℤ◌}
use auto_bit.Double.{◌≼◌}
use auto_bit.Double.Fixed.{Fixed, nan, num, size, fixed_double, Fixed-IsDouble}
use auto_bit.Python.{number, boolean}
use auto_bit.Health.Snapshot.{reduced, halted, normal, derive_reasons, action}
use auto_bit.Health.Monitor.{
  Monitor, record_api_success, record_api_failure, record_timestamp_check, settle, successful_api,
}
use auto_bit.Health.Fills.{Decimals, record_fill_check, bad_fill}
use auto_bit.Health.Storage.{to_storage, legacy, from_storage}
use auto_bit.Health.Invariant.{Valid}
use auto_bit.Health.Amounts.{IsDecimals}
use auto_bit.Health.History.{
  Observation, api_success, fill_check, timestamp_check, observe, new_monitor, History, begin, next,
  History-Valid, History-restarts, with_plain_fills, History-restores,
}
use auto_bit.Health.Relapse.{relapse_breaks_restart}
use auto_bit.Health.Gates.{gates, halted_needs_reduced}

abbrev distance : Fixed → Fixed → Fixed
distance (num a) (num b) = num (pos (size (a -ℤ b)))
distance _ _ = nan

abbrev after : Fixed → Fixed
after (num (pos n)) = num (pos (suc n))
after x = x

instance abbrev fixed_decimals : Decimals Fixed
fixed_decimals = record {
  difference = distance;
  deviation = λ x y. fixed_double.div (distance x y) x;
  within_limit = λ x y. fixed_double.div (distance x y) x ≼ fixed_double.lit 5 100;
  next_after = after;
}

decimals : IsDecimals Fixed
decimals = record {
  difference_proper = λ x y p q. ground arith;
  within-le = λ x y h. h;
  next_above = refl;
  next_proper = refl;
}

abbrev price : ℕ → Fixed
price n = num (pos n)

-- A fill 10 % off the price, then three API successes while it is unresolved.
abbrev off_price : Observation Fixed
off_price = fill_check (number (price 100)) (number (price 110)) (some 1)

abbrev halted_monitor : Monitor Fixed
halted_monitor = (observe off_price new_monitor).0

halted-History : History halted_monitor
halted-History = next off_price refl begin

History-restarts_example :
    from_storage (to_storage halted_monitor.snapshot)
    ≡ ok (legacy (to_storage halted_monitor.snapshot))
History-restarts_example = History-restarts Fixed-IsDouble decimals halted_monitor halted-History

halted_stage : halted_monitor.snapshot.stage ≡ halted
unfolding observe record_fill_check settle derive_reasons bad_fill
halted_stage = refl

-- A clock that went back, and came right, and three API successes: trading at reduced size.
abbrev step : Observation Fixed → Monitor Fixed → Monitor Fixed
step o m = (observe o m).0

abbrev clock : Monitor Fixed
clock =
    step (timestamp_check (boolean true) 2) (step (timestamp_check (boolean false) 1) new_monitor)

abbrev recovered : Monitor Fixed
recovered = step (api_success 5) (step (api_success 4) (step (api_success 3) clock))

recovered-History : History recovered
recovered-History = next (api_success 5) tt (
    next (api_success 4) tt (
      next (api_success 3) tt (
        next (timestamp_check (boolean true) 2) tt
          (next (timestamp_check (boolean false) 1) tt begin))))

recovered_stage : recovered.snapshot.stage ≡ reduced
unfolding observe record_timestamp_check record_api_success settle successful_api derive_reasons
recovered_stage = refl

recovered-Valid : Valid recovered.snapshot
recovered-Valid = History-Valid Fixed-IsDouble decimals recovered-History

History-restores_example :
    from_storage (to_storage halted_monitor.snapshot)
    ≡ ok (with_plain_fills halted_monitor.snapshot)
History-restores_example = History-restores Fixed-IsDouble decimals halted_monitor halted-History

relapse_breaks_restart_example :
    from_storage (to_storage (record_api_failure 6 recovered).0.snapshot)
    ≡ err "REDUCED health state is contradictory"
unfolding observe record_timestamp_check record_api_success settle successful_api
relapse_breaks_restart_example =
    relapse_breaks_restart Fixed-IsDouble 6 recovered recovered-Valid recovered_stage refl

gates_example :
    (is_nonempty (derive_reasons recovered.snapshot) ≡ true
      → (action recovered.snapshot).halt_entries ≡ true)
    × ((action recovered.snapshot).resume_reduced ≡ true
        → (is_nonempty (derive_reasons recovered.snapshot) ≡ false)
          × (recovered.snapshot.api_successes ≡ 3))
    × ((action recovered.snapshot).halt_entries ≡ true
        → (0 < (action recovered.snapshot).retry_delay_seconds)
          × (is_nonempty (derive_reasons recovered.snapshot) ≡ false
              → recovered.snapshot.api_successes < 3))
gates_example = gates Fixed-IsDouble decimals recovered recovered-History

halted_needs_reduced_example : (observe (api_success 2) halted_monitor).0.snapshot.stage ≢ normal
halted_needs_reduced_example = halted_needs_reduced (api_success 2) halted_monitor halted_stage
