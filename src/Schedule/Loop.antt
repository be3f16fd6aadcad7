-- ===== src/Schedule/Loop.antt =====
-- `PaperScheduler.run_once` of src/autobit/paper/scheduler.py: one call, as a function from the
-- cursor `_next_end` to the cursor and the outcome. The clock is the list of its readings, one
-- for the call and one for each sleep, and the service a parameter. The sleeps before a retry
-- change no state and are left out.
use auto_bit.Prelude.{
  ℕ, ◌+◌, ◌%◌, Option, none, some, List, [], ◌∷◌, Result, ok, err, ltb, leb, ◌==◌, if◌then◌else◌,
}
use auto_bit.Python.{TimeValue, aware, unusable}
use auto_bit.Schedule.{ScheduleError, four_hours, maturity_delay, end_of_time, latest_completed_end}

-- What `process_completed_candle` does: a result, a result with the status `LEASE_HELD`, or an
-- exception.
pub data Processed : Type 0 where
  done lease_held failed : Processed

pub record Service : Type 0 where
  -- `oldest_required_end`, if the service has it.
  pub oldest_required_end : Option (ℕ → TimeValue)
  pub process_completed_candle : ℕ → Processed

-- How a call ends: by an exception of the scheduler, in a sleep after the last reading, or with
-- the service's answer for an end, at the time of a reading.
pub data Outcome : Type 0 where
  raised waiting : Outcome
  answered : ℕ → ℕ → Processed → Outcome

-- `_resolved_end`
abbrev pub resolved_end : TimeValue → Option ℕ
resolved_end (aware t) = if t % four_hours == 0 then some t else none
resolved_end unusable = none

abbrev required_end : Option (ℕ → TimeValue) → ℕ → Option ℕ
required_end none latest = resolved_end (aware latest)
required_end (some resolver) latest = resolved_end (resolver latest)

abbrev pub after_answer : ℕ → Processed → Option ℕ
after_answer e done = some (e + four_hours)
after_answer e _ = some e

module _ (service : Service) where
  -- `_process_pending`
  unfoldable pub process_pending : ℕ → ℕ → Option ℕ × Outcome
  process_pending e wake = if leb end_of_time (e + four_hours) then (some e, raised) else (
    after_answer e (service.process_completed_candle e),
    answered e wake (service.process_completed_candle e),
  )

  abbrev pub check_matured : ℕ → ℕ → Result ScheduleError ℕ → Option ℕ × Outcome
  check_matured e wake (err error) = (some e, raised)
  check_matured e wake (ok latest) =
      if ltb latest e then (some e, raised) else process_pending e wake

  -- The loop that sleeps until the target.
  unfoldable pub sleep_until : ℕ → ℕ → List TimeValue → Option ℕ × Outcome
  sleep_until e wake [] =
      if ltb wake (e + maturity_delay)
      then (some e, waiting)
      else check_matured e wake (latest_completed_end (aware wake))
  sleep_until e wake (unusable ∷ rest) =
      if ltb wake (e + maturity_delay)
      then (some e, raised)
      else check_matured e wake (latest_completed_end (aware wake))
  sleep_until e wake (aware t ∷ rest) =
      let awake = sleep_until e t rest in
      if ltb wake (e + maturity_delay)
      then awake
      else check_matured e wake (latest_completed_end (aware wake))

  abbrev pub pursue : ℕ → ℕ → List TimeValue → Option ℕ × Outcome
  pursue e wake rest =
      if leb end_of_time (e + maturity_delay) then (some e, raised) else sleep_until e wake rest

  abbrev begin : Option ℕ → ℕ → List TimeValue → Option ℕ × Outcome
  begin none wake rest = (none, raised)
  begin (some e) wake rest = pursue e wake rest

  abbrev required : Result ScheduleError ℕ → Option ℕ
  required (err error) = none
  required (ok latest) = required_end service.oldest_required_end latest

  unfoldable pub run_once : Option ℕ → List TimeValue → Option ℕ × Outcome
  unfolding sleep_until process_pending
  run_once cursor [] = (cursor, waiting)
  run_once cursor (unusable ∷ rest) = (cursor, raised)
  run_once none (aware wake ∷ rest) = begin (required (latest_completed_end (aware wake))) wake rest
  run_once (some e) (aware wake ∷ rest) = pursue e wake rest
