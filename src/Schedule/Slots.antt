-- ===== src/Schedule/Slots.antt =====
-- What the clock functions of src/autobit/paper/scheduler.py return.
use auto_bit.Prelude.{
  ℕ, ◌+◌, ◌-◌, ◌*◌, ◌/◌, ◌≤◌, ◌<◌, ◌≡◌, ok, arith, ltb, leb, raise_if-ok, raise_if-pass, ap,
  if◌then◌else◌, ltb,
}
use auto_bit.Python.{aware}
use auto_bit.Schedule.{
  four_hours, maturity_delay, end_of_time, floor_four_hours, latest_completed_end, next_cycle_at,
  out_of_range,
}

-- The floor is the last multiple of four hours that is not after the time.
pub floor_four_hours-slot :
    (t : ℕ)
    → (floor_four_hours t ≤ t)
      × (t < floor_four_hours t + four_hours)
      × (floor_four_hours t ≡ floor_four_hours t / four_hours * four_hours)
unfolding floor_four_hours
floor_four_hours-slot t = (ground arith, ground arith, ground arith)

-- The latest complete candle ends on a four-hour boundary, at least ten minutes ago, and less
-- than four hours and ten minutes ago.
pub latest_completed_end-slot :
    (now e : ℕ)
    → latest_completed_end (aware now) ≡ ok e
    → (e ≡ e / four_hours * four_hours)
      × (e + maturity_delay ≤ now)
      × (now < e + four_hours + maturity_delay)
unfolding latest_completed_end
latest_completed_end-slot now e h =
    let slot = floor_four_hours-slot (now - maturity_delay) in
    let (early, h) = raise_if-ok (ltb now maturity_delay) out_of_range _ h in
    let same : floor_four_hours (now - maturity_delay) ≡ e = ground (arith, h) in
    (
      ground (arith, slot, same, early),
      ground (arith, slot, same, early),
      ground (arith, slot, same, early),
    )

-- The next cycle is the first moment after now that is ten minutes past a four-hour boundary:
-- one candle after the latest complete one, and no such moment lies between.
pub next_cycle_at-first :
    (now n : ℕ)
    → next_cycle_at (aware now) ≡ ok n
    → (now < n)
      × (latest_completed_end (aware now) ≡ ok (n - four_hours - maturity_delay))
      × ((k : ℕ) → now < k * four_hours + maturity_delay → n ≤ k * four_hours + maturity_delay)
unfolding next_cycle_at latest_completed_end
next_cycle_at-first now n h =
    let slot = floor_four_hours-slot (now - maturity_delay) in
    let (early, h) = raise_if-ok (ltb now maturity_delay) out_of_range _ h in
    let latest = floor_four_hours (now - maturity_delay) + maturity_delay in
    let result = if leb latest now then latest + four_hours else latest in
    let (late, h) = raise_if-ok (leb end_of_time result) out_of_range _ h in
    let same : result ≡ n = ground (arith, h) in
    let back : floor_four_hours (now - maturity_delay) ≡ n - four_hours - maturity_delay =
      ground (arith, slot, same, early) in
    (
      ground (arith, slot, same, early),
      raise_if-pass (ltb now maturity_delay) out_of_range _ early (ap ok back),
      λ k later. ground (arith, slot, same, early, later),
    )
