-- ===== src/Validation/Tests.antt =====
-- A run of the validation policy on fixed-point numbers, and its theorems there.
use auto_bit.Prelude.{true, ◌≡◌, ◌↔◌, some, [], ok}
use auto_bit.Prelude.Int.{pos}
use auto_bit.Double.Fixed.{Fixed, num, fixed_double, Fixed-IsDouble}
use auto_bit.Validation.{
  ValidationInputs, pass, status_of, reasons_of, failures, classify_validation,
}
use auto_bit.Validation.Policy.{AllMet, classify_validation-returns, classify_validation-pass}

abbrev good : ValidationInputs Fixed
good = record {
  oos_net_return = num (pos 200000);
  sharpe = num (pos 1500000);
  profit_factor = num (pos 1800000);
  max_drawdown = num (pos 100000);
  trade_count = pos 150;
  dsr = num (pos 970000);
  pbo = some (num (pos 100000));
  positive_expectancy_fold_ratio = num (pos 700000);
  max_fold_profit_share = num (pos 300000);
  train_test_sharpe_ratio = some (num (pos 1200000));
  stress_survived = true;
}

classify_validation-returns_example :
    classify_validation good
    ≡ ok (record { status = status_of good; reasons = reasons_of (failures good) })
classify_validation-returns_example = classify_validation-returns good

classify_validation-pass_example :
    (classify_validation good ≡ ok (record { status = pass; reasons = [] })) ↔ AllMet good
classify_validation-pass_example = classify_validation-pass Fixed-IsDouble good
