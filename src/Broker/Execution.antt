-- ===== src/Broker/Execution.antt =====
-- `_execution_quantity` of src/autobit/execution/paper_broker.py: the size of an entry at the open
-- that it is filled at, and the loop that lowers it to what the cash pays for. The loop has the
-- rank of the size as fuel. A fill price is positive, so the division by it does not raise.
pub mod Ends
use auto_bit.Prelude.{ℕ, zero, suc, Bool, true, false, ◌&&◌, Option, none, some, if◌then◌else◌}
use auto_bit.Double.{Double, ◌≺◌, ◌⊘◌, nought}
use auto_bit.Python.{Value, number}
use auto_bit.Store.Orders.{Decimal}
use auto_bit.Strategy.{initial_stop_price}
use auto_bit.Sizing.{CostConfig, SizeRequest, calculate_size}
use auto_bit.Broker.{EntryContext, Platform}
use auto_bit.Broker.Costs.{computed_fee}

module _ {ℓ} {F : Type ℓ} ⦃p : Platform F⦄ where
  -- The loop, whose test is the argument.
  unfoldable pub lower : ℕ → (F → Bool) → F → Option F
  lower zero test result = if test result then none else some result
  lower (suc fuel) test result = elim (test result) [
    | true ↦ lower fuel test (p.nextafter result)
    | false ↦ some result
  ]

module _ {ℓ} {F : Type ℓ} ⦃m : Decimal F⦄ ⦃d : Double F⦄ where
  abbrev size_request : EntryContext F → F → F → SizeRequest F
  size_request context fill_price cash = record {
    equity = number cash;
    cash = number cash;
    entry = number fill_price;
    stop = number (
        initial_stop_price (number fill_price) (number context.entry_atr)
          (number context.initial_atr_mult));
    current_atr_pct = number (context.entry_atr ⊘ fill_price);
    baseline_atr_pct = number context.baseline_atr_pct;
    risk_rate = number context.risk_rate;
    exposure_cap = number context.exposure_cap;
  }

  abbrev pub sized_quantity : F → EntryContext F → F → F → F
  sized_quantity fee_rate context fill_price cash =
      (calculate_size (size_request context fill_price cash)
        (record { fee_rate = number fee_rate; slippage_rate = number nought })).quantity

  -- The price of a quantity and its fee.
  abbrev pub cost : F → F → F → m.D
  cost fee_rate fill_price quantity =
      m.add (m.mul (m.of_float quantity) (m.of_float fill_price))
        (m.of_float (computed_fee quantity fill_price fee_rate))

  abbrev pub exceeds_cash : F → F → F → F → Bool
  exceeds_cash fee_rate fill_price cash quantity =
      nought ≺ quantity && m.lt (m.of_float cash) (cost fee_rate fill_price quantity)

  unfoldable pub execution_quantity : ⦃p : Platform F⦄ → F → EntryContext F → F → F → Option F
  unfolding lower
  execution_quantity ⦃p⦄ fee_rate context fill_price cash =
      let sized = sized_quantity fee_rate context fill_price cash in
      lower (p.rank sized) (exceeds_cash fee_rate fill_price cash) sized
