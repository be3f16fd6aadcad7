-- ===== src/Sizing/Tests.antt =====
-- A run of the sizer, and its theorem there.
use auto_bit.Prelude.{◌≡◌, refl, ◌⊎◌, ok}
use auto_bit.Prelude.Int.{pos}
use auto_bit.Double.Fixed.{Fixed, num, fixed_double, Fixed-IsDouble}
use auto_bit.Python.{number}
use auto_bit.Sizing.{
  SizeRequest, CostConfig, Sizes, exposure, accept, calculate_size, invalid_decision,
}
use auto_bit.Sizing.Limits.{Sized, calculate_size-outcome}

-- 1000 of equity, a price of 100 and a stop at 90, at costs of 0.05 % twice.
abbrev request : SizeRequest Fixed
request = record {
  equity = number (num (pos 1000000000));
  cash = number (num (pos 1000000000));
  entry = number (num (pos 100000000));
  stop = number (num (pos 99000000));
  current_atr_pct = number (num (pos 20000));
  baseline_atr_pct = number (num (pos 20000));
  risk_rate = number (num (pos 20000));
  exposure_cap = number (num (pos 700000));
}

abbrev costs : CostConfig Fixed
costs = record { fee_rate = number (num (pos 500)); slippage_rate = number (num (pos 500)) }

-- The exposure cap of 70 % binds.
binds : calculate_size request costs ≡ record {
  quantity = num (pos 6996501);
  binding_constraint = exposure;
  estimated_loss = num (pos 8388804);
}
unfolding calculate_size
binds = refl

calculate_size-outcome_example :
    (calculate_size request costs ≡ invalid_decision)
    ⊎ ((s : Sizes Fixed) × (accept request costs ≡ ok s) × Sized s (calculate_size request costs))
calculate_size-outcome_example = calculate_size-outcome Fixed-IsDouble request costs
