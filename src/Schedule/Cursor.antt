-- ===== src/Schedule/Cursor.antt =====
-- The cursor of `PaperScheduler` (src/autobit/paper/scheduler.py) over one call of `run_once`.
use auto_bit.Prelude.{
  ℕ, ◌+◌, ◌-◌, ◌*◌, ◌/◌, ◌≤◌, ◌<◌, ◌≡◌, refl, Bool, true, false, Option, some, List, [], ◌∷◌, All,
  any, ok, ltb, leb, if_cases, raise_if-pass, arith,
}
use mathlib.Core.List.{Mem, mem-cons_self, mem-cons_of_mem}
use auto_bit.Python.{TimeValue, aware, unusable}
use auto_bit.Schedule.{
  out_of_range, four_hours, maturity_delay, end_of_time, floor_four_hours, latest_completed_end,
}
use auto_bit.Schedule.Slots.{floor_four_hours-slot}
use auto_bit.Schedule.Loop.{
  Processed, done, lease_held, failed, Service, Outcome, raised, waiting, answered, process_pending,
  sleep_until, check_matured, run_once, after_answer,
}

abbrev is_unusable : TimeValue → Bool
is_unusable (aware t) = false
is_unusable unusable = true

-- Once a candle is ten minutes old, the latest complete candle is that one or a later one.
latest_completed_end-reaches :
    (e wake : ℕ)
    → e ≡ e / four_hours * four_hours
    → e + maturity_delay ≤ wake
    → (latest : ℕ) × (latest_completed_end (aware wake) ≡ ok latest) × (e ≤ latest)
unfolding latest_completed_end
latest_completed_end-reaches e wake aligned late =
    let slot = floor_four_hours-slot (wake - maturity_delay) in
    (
      floor_four_hours (wake - maturity_delay),
      raise_if-pass (ltb wake maturity_delay) out_of_range _ (ground arith) refl,
      ground (arith, slot),
    )

module _ (service : Service) (e : ℕ) where
  -- The candle is less than ten minutes old.
  abbrev pub IsEarly : TimeValue → Type 0
  IsEarly (aware t) = t < e + maturity_delay
  IsEarly unusable = ⊥

  -- How a call with the cursor at `e` ends, for the readings of the clock.
  pub data Ran (readings : List TimeValue) : Option ℕ × Outcome → Type 0 where
    clock_raised : any is_unusable readings ≡ true → Ran readings (some e, raised)
    range_raised : end_of_time ≤ e + four_hours → Ran readings (some e, raised)
    asleep : All IsEarly readings → Ran readings (some e, waiting)
    moved :
        (wake : ℕ)
        → Mem (aware wake) readings
        → e + maturity_delay ≤ wake
        → service.process_completed_candle e ≡ done
        → Ran readings (some (e + four_hours), answered e wake done)
    kept_held :
        (wake : ℕ)
        → Mem (aware wake) readings
        → e + maturity_delay ≤ wake
        → service.process_completed_candle e ≡ lease_held
        → Ran readings (some e, answered e wake lease_held)
    kept_failed :
        (wake : ℕ)
        → Mem (aware wake) readings
        → e + maturity_delay ≤ wake
        → service.process_completed_candle e ≡ failed
        → Ran readings (some e, answered e wake failed)

  after_early :
      (t : ℕ) (rest : List TimeValue) {r : Option ℕ × Outcome}
      → t < e + maturity_delay
      → Ran rest r
      → Ran (aware t ∷ rest) r
  after_early t rest early (clock_raised h) = clock_raised h
  after_early t rest early (range_raised h) = range_raised h
  after_early t rest early (asleep h) = asleep (early, h)
  after_early t rest early (moved wake r h p) = moved wake (mem-cons_of_mem (aware t) r) h p
  after_early t rest early (kept_held wake r h p) = kept_held wake (mem-cons_of_mem (aware t) r) h p
  after_early t rest early (kept_failed wake r h p) =
      kept_failed wake (mem-cons_of_mem (aware t) r) h p

  module _ (readings : List TimeValue) (wake : ℕ) (read : Mem (aware wake) readings)
      (late : e + maturity_delay ≤ wake) where
    answer-Ran :
        (answer : Processed)
        → service.process_completed_candle e ≡ answer
        → Ran readings (after_answer e answer, answered e wake answer)
    answer-Ran done p = moved wake read late p
    answer-Ran lease_held p = kept_held wake read late p
    answer-Ran failed p = kept_failed wake read late p

    check_matured-Ran :
        (aligned : e ≡ e / four_hours * four_hours)
        → Ran readings (check_matured service e wake (latest_completed_end (aware wake)))
    unfolding process_pending
    check_matured-Ran aligned =
        let (latest, same, reached) = latest_completed_end-reaches e wake aligned late in
        rw same (
          if_cases (Ran readings) (ltb latest e)
            (λ before. absurd (ground (arith, before, reached)))
            (λ _.
              if_cases (Ran readings) (leb end_of_time (e + four_hours))
                (λ past. range_raised (ground (arith, past)))
                (λ _. answer-Ran (service.process_completed_candle e) refl)))

  module _ (aligned : e ≡ e / four_hours * four_hours) where
    sleep_until-Ran :
        (wake : ℕ) (rest : List TimeValue)
        → Ran (aware wake ∷ rest) (sleep_until service e wake rest)
    unfolding sleep_until
    sleep_until-Ran wake [] =
        if_cases (Ran (aware wake ∷ [])) (ltb wake (e + maturity_delay))
          (λ early. asleep (ground (arith, early), tt))
          (λ late. check_matured-Ran _ wake mem-cons_self (ground (arith, late)) aligned)
    sleep_until-Ran wake (unusable ∷ rest) =
        if_cases (Ran (aware wake ∷ unusable ∷ rest)) (ltb wake (e + maturity_delay))
          (λ early. clock_raised refl)
          (λ late. check_matured-Ran _ wake mem-cons_self (ground (arith, late)) aligned)
    sleep_until-Ran wake (aware t ∷ rest) =
        if_cases (Ran (aware wake ∷ aware t ∷ rest)) (ltb wake (e + maturity_delay))
          (λ early.
            after_early wake (aware t ∷ rest) (ground (arith, early)) (sleep_until-Ran t rest))
          (λ late. check_matured-Ran _ wake mem-cons_self (ground (arith, late)) aligned)

    -- With the cursor at the end of a candle, a call of `run_once` raises only if a reading of the
    -- clock is unusable or the next candle is past the calendar, and sleeps only if every reading
    -- is less than ten minutes after the end. Else it asks the service for that end alone, at a
    -- reading ten minutes or more after it. The cursor moves, by four hours, only if the service is done; on
    -- `LEASE_HELD`, an exception, a raise and a sleep it stays.
    pub run_once-Ran :
        (readings : List TimeValue) → Ran readings (run_once service (some e) readings)
    unfolding run_once
    run_once-Ran [] = asleep tt
    run_once-Ran (unusable ∷ rest) = clock_raised refl
    run_once-Ran (aware wake ∷ rest) =
        if_cases (Ran (aware wake ∷ rest)) (leb end_of_time (e + maturity_delay))
          (λ past. range_raised (ground (arith, past))) (λ _. sleep_until-Ran wake rest)
