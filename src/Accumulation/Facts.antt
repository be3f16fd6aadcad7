-- ===== src/Accumulation/Facts.antt =====
-- The records of src/autobit/core/risk_state.py, and the checks of an observation. Times are UTC
-- in microseconds, dates are day numbers, exceptions are constructors.
use auto_bit.Prelude.{
  ℕ, ◌+◌, ◌*◌, Bool, false, not, ◌&&◌, ◌||◌, Option, none, some, List, [], ◌∷◌, Result, ok, ◌>>=◌,
  ◌>>◌, raise_if, or_raise, length, ltb, leb, ◌==◌, if◌then◌else◌,
}
use auto_bit.Prelude.Int.{ℤ, pos, negsuc}
use auto_bit.Double.{Double, ◌≼◌, ◌≺◌, nought}
use auto_bit.Python.{Value, boolean, TimeValue, aware, unusable, microsecond_hour, microsecond_day}
use auto_bit.Risk.Snapshot.{RiskDecision}

pub record RiskState {ℓ} (F : Type ℓ) : Type ℓ where
  pub equity_peak : F
  pub daily_date : Option ℕ
  pub daily_baseline_equity : F
  pub equity_history : List (ℕ × F)
  pub risk_started_at : Option ℕ
  pub last_equity : F
  pub last_risk_at : Option ℕ
  pub consecutive_losses : ℤ
  pub processed_trade_count : ℤ
  pub recovery_started_at : Option ℕ
  pub daily_halt_started_at : Option ℕ
  pub weekly_halt_started_at : Option ℕ
  pub streak_halt_started_at : Option ℕ
  pub profitable_trades_since_streak_halt : ℤ
  pub volatility_halted : Bool
  pub volatility_stable_bars : ℤ
  pub decision : RiskDecision F
  pub initial_equity : F

-- `ClosedTradeObservation`
pub record ClosedTrade {ℓ} (F : Type ℓ) : Type ℓ where
  pub net_pnl : F
  pub exit_time : TimeValue

pub record RiskObservation {ℓ} (F : Type ℓ) : Type ℓ where
  pub now : TimeValue
  pub equity : F
  pub closed_trades : List (ClosedTrade F)
  pub volatility_ratio : F
  pub volatility_bar_valid : Value F
  pub system_healthy : Value F

pub data RiskStateError : Type 0 where
  timestamp_not_aware equity_invalid initial_equity_invalid flags_not_boolean cursor_ahead
        chronology_invalid trade_precedes_history timestamp_reversed same_bar_changed date_overflow
        no_history :
      RiskStateError

-- What `_validate_observation` reads off the arguments.
pub record Checked : Type 0 where
  pub bar_at : ℕ
  pub cursor : ℕ
  pub bar_valid : Bool
  pub healthy : Bool

abbrev pub week : ℕ
week = 7 * microsecond_day

abbrev pub time_of : TimeValue → Option ℕ
time_of (aware t) = some t
time_of unusable = none

-- The cursor, if `0 <= cursor <= count`.
abbrev pub cursor_of : ℤ → ℕ → Option ℕ
cursor_of (pos n) count = if leb n count then some n else none
cursor_of (negsuc n) count = none

-- `previous is not None and time < previous`
abbrev pub precedes : ℕ → Option ℕ → Bool
precedes time none = false
precedes time (some previous) = ltb time previous

-- `start is not None and time > start`
abbrev pub follows : TimeValue → Option ℕ → Bool
follows (aware time) (some start) = ltb start time
follows _ _ = false

-- `start`, kept if it is set, or set to the bar by the test.
abbrev pub set_start : Option ℕ → Bool → ℕ → Option ℕ
set_start (some t) test bar = some t
set_start none test bar = if test then some bar else none

-- `start`, cleared by the test once the time is over.
abbrev pub clear_start : Option ℕ → ℕ → ℕ → Bool → Option ℕ
clear_start none hours bar test = none
clear_start (some t) hours bar test =
    if leb (t + hours * microsecond_hour) bar && test then none else some t

module _ {ℓ} {F : Type ℓ} ⦃d : Double F⦄ where
  abbrev pub as_bool : Value F → Option Bool
  as_bool (boolean b) = some b
  as_bool v = none

  -- The loop over `enumerate(trades)`.
  unfoldable pub check_trades :
      ℕ → ℕ → Option ℕ → ℕ → Option ℕ → List (ClosedTrade F) → Result RiskStateError (Unit {0})
  check_trades now cursor last index previous [] = ok tt
  check_trades now cursor last index previous (trade ∷ rest) = do
    time ← or_raise (time_of trade.exit_time) chronology_invalid
    raise_if (not (d.is_finite trade.net_pnl) || ltb now time || precedes time previous)
        chronology_invalid
    raise_if (leb cursor index && precedes time last) trade_precedes_history
    check_trades now cursor last (index + 1) (some time) rest

  -- The tests against `prior.last_risk_at`.
  abbrev pub check_bar :
      RiskState F → RiskObservation F → ℕ → Option ℕ → ℕ → Result RiskStateError (Unit {0})
  check_bar prior o cursor none now = ok tt
  check_bar prior o cursor (some last) now = do
    raise_if (ltb now last) timestamp_reversed
    raise_if
        (now == last
          && (not (d.eq o.equity prior.last_equity) || not (length o.closed_trades == cursor)))
        same_bar_changed

  -- `_validate_observation`
  unfoldable pub validate_observation :
      RiskState F → RiskObservation F → Result RiskStateError Checked
  unfolding check_trades
  validate_observation prior o = do
    now ← or_raise (time_of o.now) timestamp_not_aware
    raise_if (not (d.is_finite o.equity) || o.equity ≺ nought) equity_invalid
    raise_if (not (d.is_finite prior.initial_equity) || prior.initial_equity ≼ nought)
        initial_equity_invalid
    bar_valid ← or_raise (as_bool o.volatility_bar_valid) flags_not_boolean
    healthy ← or_raise (as_bool o.system_healthy) flags_not_boolean
    cursor ← or_raise (cursor_of prior.processed_trade_count (length o.closed_trades)) cursor_ahead
    check_trades now cursor prior.last_risk_at 0 none o.closed_trades
    check_bar prior o cursor prior.last_risk_at now
    ok (record { bar_at = now; cursor = cursor; bar_valid = bar_valid; healthy = healthy })
