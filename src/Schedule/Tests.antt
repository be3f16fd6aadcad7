-- ===== src/Schedule/Tests.antt =====
-- Runs of the clock functions, and their theorems at a concrete time.
use auto_bit.Prelude.{ℕ, ◌+◌, ◌-◌, ◌*◌, ◌/◌, ◌≤◌, ◌<◌, ◌≡◌, refl, ok, some, none, [], ◌∷◌}
use auto_bit.Python.{aware, microsecond_hour, microsecond_minute}
use auto_bit.Schedule.{
  epoch, four_hours, maturity_delay, floor_four_hours, latest_completed_end, next_cycle_at,
}
use auto_bit.Schedule.Loop.{Service, done, answered, run_once, sleep_until, process_pending}
use auto_bit.Schedule.Cursor.{Ran, run_once-Ran}
use auto_bit.Schedule.Slots.{latest_completed_end-slot, next_cycle_at-first}

-- 1970-01-01, 08:05.
abbrev now : ℕ
now = epoch + 8 * microsecond_hour + 5 * microsecond_minute

-- The candle that ended at 04:00 is the latest that is old enough.
latest : latest_completed_end (aware now) ≡ ok (epoch + 4 * microsecond_hour)
unfolding latest_completed_end floor_four_hours
latest = refl

upcoming : next_cycle_at (aware now) ≡ ok (epoch + 8 * microsecond_hour + 10 * microsecond_minute)
unfolding next_cycle_at floor_four_hours
upcoming = refl

latest_completed_end-slot_example :
    let e = epoch + 4 * microsecond_hour in
    (e ≡ e / four_hours * four_hours)
    × (e + maturity_delay ≤ now)
    × (now < e + four_hours + maturity_delay)
latest_completed_end-slot_example =
    latest_completed_end-slot now (epoch + 4 * microsecond_hour) latest

next_cycle_at-first_example :
    let n = epoch + 8 * microsecond_hour + 10 * microsecond_minute in
    (now < n)
    × (latest_completed_end (aware now) ≡ ok (n - four_hours - maturity_delay))
    × ((k : ℕ) → now < k * four_hours + maturity_delay → n ≤ k * four_hours + maturity_delay)
next_cycle_at-first_example =
    next_cycle_at-first now (epoch + 8 * microsecond_hour + 10 * microsecond_minute) upcoming

-- A service that is done with every candle.
abbrev service : Service
service = record { oldest_required_end = none; process_completed_candle = λ e. done }

abbrev cursor : ℕ
cursor = epoch + 8 * microsecond_hour

-- It is 08:05, so the call sleeps, and then processes the candle that ended at 08:00.
processes :
    run_once service (some cursor) (aware now ∷ aware (cursor + maturity_delay) ∷ [])
    ≡ (some (cursor + four_hours), answered cursor (cursor + maturity_delay) done)
unfolding run_once latest_completed_end floor_four_hours sleep_until process_pending
processes = refl

run_once-Ran_example :
    let readings = aware now ∷ aware (cursor + maturity_delay) ∷ [] in
    Ran service cursor readings (run_once service (some cursor) readings)
run_once-Ran_example =
    run_once-Ran service cursor refl (aware now ∷ aware (cursor + maturity_delay) ∷ [])
