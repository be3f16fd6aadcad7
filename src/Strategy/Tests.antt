-- ===== src/Strategy/Tests.antt =====
-- Runs of the strategy, and its theorems at concrete rows.
use auto_bit.Prelude.{true, ◌≡◌, refl, none, some}
use auto_bit.Prelude.Int.{pos}
use auto_bit.Double.Fixed.{Fixed, num, fixed_double, Fixed-IsDouble}
use auto_bit.Python.{number, boolean}
use auto_bit.Strategy.{
  Row, close, high, entry_high, ema, atr, previous_close, previous_entry_high, warmup_complete,
  entry_data_valid, PositionSnapshot, default_strategy_config, flag, evaluate_entry, next_stop,
}
use auto_bit.Strategy.Stops.{Raised, next_stop-Raised}
use auto_bit.Strategy.Entries.{Breakout, evaluate_entry-Breakout}

-- A close of 105 above a channel of 104 and an EMA of 100, after a close of 103 below the channel.
abbrev row : Row Fixed
row close = some (number (num (pos 105000000)))
row high = some (number (num (pos 150000000)))
row entry_high = some (number (num (pos 104000000)))
row (ema _) = some (number (num (pos 100000000)))
row (atr _) = some (number (num (pos 2000000)))
row previous_close = some (number (num (pos 103000000)))
row previous_entry_high = some (number (num (pos 104000000)))
row warmup_complete = some (boolean true)
row _ = none

abbrev position : PositionSnapshot Fixed
position = record {
  entry_price = num (pos 105000000);
  initial_stop = num (pos 100000000);
  current_stop = num (pos 100000000);
  high_water = num (pos 105000000);
}

-- The high is 9 risk units above the entry, so the stop trails by 3 ATR.
trails : next_stop position row default_strategy_config ≡ num (pos 144000000)
unfolding next_stop
trails = refl

enters : evaluate_entry row true default_strategy_config ≡ true
unfolding evaluate_entry
enters = refl

next_stop-Raised_example : Raised position (next_stop position row default_strategy_config)
next_stop-Raised_example = next_stop-Raised Fixed-IsDouble position row default_strategy_config

evaluate_entry-Breakout_example :
    (evaluate_entry row true default_strategy_config ≡ true
      → (true ≡ true)
        × (flag row warmup_complete ≡ true)
        × (flag row entry_data_valid ≡ true)
        × Breakout row default_strategy_config)
    × (true ≡ true
        → flag row warmup_complete ≡ true
        → flag row entry_data_valid ≡ true
        → Breakout row default_strategy_config
        → evaluate_entry row true default_strategy_config ≡ true)
evaluate_entry-Breakout_example = evaluate_entry-Breakout row default_strategy_config true
