-- ===== src/Engine/Tests.antt =====
-- Runs of the engine, and its theorems at concrete inputs.
use auto_bit.Prelude.{true, false, ◌≡◌, ◌≢◌, refl, ok, none, some, [], ◌∷◌}
use auto_bit.Prelude.Int.{pos}
use auto_bit.Double.Fixed.{Fixed, num, fixed_double, Fixed-IsDouble}
use auto_bit.Python.{number, boolean, aware, unusable}
use auto_bit.Risk.Snapshot.{RiskDecision, RiskSnapshot, drawdown_halt, default_risk_config}
use auto_bit.Risk.{accept, Accepted, evaluate_risk}
use auto_bit.Risk.Outcome.{Blocks}
use auto_bit.Sizing.{CostConfig, calculate_size}
use auto_bit.Sizing
use auto_bit.Strategy.{
  Row, close, high, entry_high, ema, atr, previous_close, previous_entry_high, baseline_atr_pct,
  default_strategy_config, initial_stop_price, evaluate_entry,
}
use auto_bit.Engine.{StrategyEngine, PositionContext, DecisionInput, buy, decide, risk_exit}
use auto_bit.Engine.Exits.{Sold, breached, breach_exits}
use auto_bit.Engine.Leaving.{Managed, decide-Managed}
use auto_bit.Engine.Entering.{Bought, decide-Bought, blocked_never_buys}

abbrev row : Row Fixed
row close = some (number (num (pos 105000000)))
row high = some (number (num (pos 150000000)))
row entry_high = some (number (num (pos 104000000)))
row (ema _) = some (number (num (pos 100000000)))
row (atr _) = some (number (num (pos 2000000)))
row previous_close = some (number (num (pos 103000000)))
row previous_entry_high = some (number (num (pos 104000000)))
row baseline_atr_pct = some (number (num (pos 20000)))
row _ = none

abbrev engine : StrategyEngine Fixed
engine = record {
  strategy = default_strategy_config;
  costs = record { fee_rate = number (num (pos 500)); slippage_rate = number (num (pos 500)) };
}

abbrev calm : RiskDecision Fixed
calm = record {
  risk_rate = num (pos 20000);
  exposure_cap = num (pos 700000);
  halted_until = none;
  reasons = [];
}

abbrev flat_input : DecisionInput Fixed
flat_input = record {
  row = row;
  cash = num (pos 1000000000);
  equity = num (pos 1000000000);
  position = none;
  has_pending_order = false;
  risk = calm;
}

abbrev held : PositionContext Fixed
held = record {
  entry_price = num (pos 105000000);
  initial_stop = num (pos 100000000);
  current_stop = num (pos 100000000);
  high_water = num (pos 105000000);
  quantity = num (pos 1000000);
  held_bars = pos 3;
}

abbrev held_input : DecisionInput Fixed
held_input = record flat_input {
  position = some held;
  has_pending_order = true;
  risk = record calm { reasons = drawdown_halt ∷ [] };
}

buys : (decide engine flat_input).action ≡ buy
unfolding decide evaluate_entry calculate_size initial_stop_price Sizing.settle Sizing.accept
buys = refl

decide-Managed_example : Managed held (decide engine held_input)
decide-Managed_example = decide-Managed Fixed-IsDouble engine held_input held refl

decide-Bought_example : Bought engine flat_input (decide engine flat_input)
decide-Bought_example = decide-Bought Fixed-IsDouble engine flat_input buys

-- Facts with no usable time.
abbrev facts : RiskSnapshot Fixed
facts = record {
  now = unusable;
  drawdown = number (num (pos 0));
  daily_loss = number (num (pos 0));
  weekly_loss = number (num (pos 0));
  consecutive_losses = pos 0;
  volatility_ratio = number (num (pos 1000000));
  system_healthy = boolean true;
  recovery_started_at = none;
  daily_halt_started_at = none;
  weekly_halt_started_at = none;
  streak_halt_started_at = none;
  volatility_halted = boolean false;
  volatility_stable_bars = pos 0;
  profitable_trades_since_streak_halt = pos 0;
}

blocks : Blocks (evaluate_risk facts default_risk_config)
unfolding evaluate_risk
blocks = record { no_rate = refl; no_cap = refl; named = refl }

abbrev blocked_input : DecisionInput Fixed
blocked_input = record flat_input { risk = evaluate_risk facts default_risk_config }

blocked_never_buys_example : (decide engine blocked_input).action ≢ buy
blocked_never_buys_example =
    blocked_never_buys Fixed-IsDouble engine blocked_input facts default_risk_config refl blocks

-- A fifth of the peak is lost, and no halt has started.
abbrev crash : RiskSnapshot Fixed
crash = record facts { now = aware 7; drawdown = number (num (pos 200000)) }

abbrev crash_accepted : Accepted Fixed
crash_accepted = record {
  now = 7;
  drawdown = num (pos 200000);
  daily_loss = num (pos 0);
  weekly_loss = num (pos 0);
  consecutive_losses = 0;
  volatility_ratio = num (pos 1000000);
  recovery_started_at = none;
  daily_halt_started_at = none;
  weekly_halt_started_at = none;
  streak_halt_started_at = none;
  volatility_halted = false;
  volatility_stable_bars = 0;
  profitable_trades_since_streak_halt = 0;
}

accepts : accept crash default_risk_config ≡ ok crash_accepted
unfolding accept
accepts = refl

abbrev crash_input : DecisionInput Fixed
crash_input = record held_input { risk = evaluate_risk crash default_risk_config }

breach_exits_example : Sold risk_exit held (decide engine crash_input)
breach_exits_example =
    breach_exits engine crash_input held crash default_risk_config risk_exit refl refl refl
      (breached crash_accepted accepts refl)
