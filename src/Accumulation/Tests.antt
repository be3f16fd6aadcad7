-- ===== src/Accumulation/Tests.antt =====
-- A run of `advance_risk_state`, and the theorems at concrete states.
use auto_bit.Prelude.{
  ℕ, ◌*◌, ◌+◌, true, false, ◌≡◌, refl, none, [], ◌∷◌, ok, if◌then◌else◌, List, all, length,
}
use auto_bit.Prelude.Int.{pos, negsuc}
use auto_bit.Double.{◌≼◌, nought}
use auto_bit.Double.Fixed.{Fixed, num, fixed_double, Fixed-IsDouble}
use auto_bit.Python.{boolean, aware, microsecond_day}
use auto_bit.Risk.Snapshot.{RiskDecision, default_risk_config}
use auto_bit.Accumulation.Facts.{
  RiskState, ClosedTrade, RiskObservation, Checked, validate_observation, check_trades,
}
use auto_bit.Accumulation.{advance_risk_state, commit, apply_health_recovery, count_losses}
use auto_bit.Accumulation.Streak.{is_loss, trailing_losses, count_losses-trailing}
use auto_bit.Accumulation.Recovery.{apply_health_recovery-lowers}
use auto_bit.Accumulation.Advance.{Advanced, advance_risk_state-Advanced}

abbrev decision : RiskDecision Fixed
decision = record {
  risk_rate = num (pos 20000);
  exposure_cap = num (pos 700000);
  halted_until = none;
  reasons = [];
}

-- `RiskState()`
abbrev initial : RiskState Fixed
initial = record {
  equity_peak = num (pos 100000000);
  daily_date = none;
  daily_baseline_equity = num (pos 100000000);
  equity_history = [];
  risk_started_at = none;
  last_equity = num (pos 100000000);
  last_risk_at = none;
  consecutive_losses = pos 0;
  processed_trade_count = pos 0;
  recovery_started_at = none;
  daily_halt_started_at = none;
  weekly_halt_started_at = none;
  streak_halt_started_at = none;
  profitable_trades_since_streak_halt = pos 0;
  volatility_halted = false;
  volatility_stable_bars = pos 0;
  decision = decision;
  initial_equity = num (pos 100000000);
}

abbrev trade : ℕ → ClosedTrade Fixed
trade day = record { net_pnl = num (negsuc 999999); exit_time = aware (day * microsecond_day) }

abbrev trades : List (ClosedTrade Fixed)
trades = trade 8 ∷ trade 9 ∷ []

-- Two losses, and an equity of 98 on the tenth day.
abbrev observation : RiskObservation Fixed
observation = record {
  now = aware (10 * microsecond_day);
  equity = num (pos 98000000);
  closed_trades = trades;
  volatility_ratio = num (pos 1000000);
  volatility_bar_valid = boolean true;
  system_healthy = boolean true;
}

abbrev checked : Checked
checked = record { bar_at = 10 * microsecond_day; cursor = 0; bar_valid = true; healthy = true }

abbrev advanced : RiskState Fixed
advanced = commit initial observation default_risk_config checked (num (pos 100000000))

runs : advance_risk_state initial observation default_risk_config ≡ ok advanced
unfolding advance_risk_state validate_observation check_trades
runs = refl

two_losses : advanced.consecutive_losses ≡ pos 2
unfolding commit count_losses
two_losses = refl

advance_risk_state-Advanced_example : Advanced initial observation advanced
advance_risk_state-Advanced_example =
    advance_risk_state-Advanced Fixed-IsDouble initial advanced observation default_risk_config refl
      runs

count_losses-trailing_example :
    count_losses (pos 3) trades
    ≡ (if all is_loss trades then pos (3 + length trades) else pos (trailing_losses trades))
count_losses-trailing_example = count_losses-trailing 3 trades

apply_health_recovery-lowers_example :
    let r = apply_health_recovery decision true true in
    ((r.risk_rate ≼ decision.risk_rate) ≡ true)
    × ((r.exposure_cap ≼ decision.exposure_cap) ≡ true)
    × ((nought ≼ r.risk_rate) ≡ true)
    × ((nought ≼ r.exposure_cap) ≡ true)
    × (true ≡ false → (r.risk_rate ≡ nought) × (r.exposure_cap ≡ nought))
apply_health_recovery-lowers_example =
    apply_health_recovery-lowers Fixed-IsDouble decision true true refl refl
