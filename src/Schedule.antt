-- ===== src/Schedule.antt =====
-- The two clock functions of src/autobit/paper/scheduler.py: the latest candle that is complete,
-- and the next cycle. A `datetime` past the year 9999 raises, as does one before the year 1.
pub mod Slots
pub mod Loop
pub mod Cursor
mod Tests
use auto_bit.Prelude.{
  ℕ, ◌+◌, ◌-◌, ◌*◌, ◌/◌, Bool, Option, none, some, Result, ok, err, ◌>>=◌, ◌>>◌, raise_if, or_raise,
  ltb, leb, if◌then◌else◌,
}
use auto_bit.Python.{
  TimeValue, aware, unusable, microsecond_minute, microsecond_hour, microsecond_day,
}

pub data ScheduleError : Type 0 where
  not_aware out_of_range : ScheduleError

abbrev pub four_hours : ℕ
four_hours = 4 * microsecond_hour

abbrev pub maturity_delay : ℕ
maturity_delay = 10 * microsecond_minute

-- 1970-01-01, a number of days after 0001-01-01.
abbrev pub epoch : ℕ
epoch = 719162 * microsecond_day

-- The first microsecond that is no `datetime`: 10000-01-01.
abbrev pub end_of_time : ℕ
end_of_time = 3652059 * microsecond_day

-- `_floor_four_hours`. `//` rounds down, so the slots before the epoch are counted up from the
-- time to the epoch and rounded up.
unfoldable pub floor_four_hours : ℕ → ℕ
floor_four_hours value =
    if leb epoch value
    then epoch + (value - epoch) / four_hours * four_hours
    else epoch - (epoch - value + (four_hours - 1)) / four_hours * four_hours

abbrev pub as_utc : TimeValue → Option ℕ
as_utc (aware t) = some t
as_utc unusable = none

unfoldable pub latest_completed_end : TimeValue → Result ScheduleError ℕ
latest_completed_end now_utc = do
  now ← or_raise (as_utc now_utc) not_aware
  raise_if (ltb now maturity_delay) out_of_range
  ok (floor_four_hours (now - maturity_delay))

unfoldable pub next_cycle_at : TimeValue → Result ScheduleError ℕ
next_cycle_at now_utc = do
  now ← or_raise (as_utc now_utc) not_aware
  raise_if (ltb now maturity_delay) out_of_range
  let latest_slot = floor_four_hours (now - maturity_delay) + maturity_delay
  let result = if leb latest_slot now then latest_slot + four_hours else latest_slot
  raise_if (leb end_of_time result) out_of_range
  ok result
