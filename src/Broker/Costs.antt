-- ===== src/Broker/Costs.antt =====
-- The price, the fee and the slippage of a fill in src/autobit/execution/paper_broker.py.
use auto_bit.Prelude.{Bool, if◌then◌else◌}
use auto_bit.Double.{Double, one}
use auto_bit.Store.Payload.{Side, buy, sell}
use auto_bit.Store.Orders.{Decimal}

module _ {ℓ} {F : Type ℓ} ⦃m : Decimal F⦄ where
  -- `_exact`
  abbrev pub exact : F → F → Bool
  exact left right = m.eq (m.of_float left) (m.of_float right)

  abbrev pub multiplier : ⦃d : Double F⦄ → F → Side → m.D
  multiplier rate buy = m.add (m.of_float one) (m.of_float rate)
  multiplier rate sell = m.sub (m.of_float one) (m.of_float rate)

  abbrev pub distance : F → F → m.D
  distance a b =
      let gap = m.sub (m.of_float a) (m.of_float b) in
      if m.lt gap m.zero then m.sub m.zero gap else gap

  unfoldable pub computed_fill_price : ⦃d : Double F⦄ → F → F → Side → F
  computed_fill_price reference slippage_rate side =
      m.to_float (m.mul (m.of_float reference) (multiplier slippage_rate side))

  unfoldable pub computed_fee : F → F → F → F
  computed_fee quantity fill_price fee_rate =
      m.to_float (m.mul (m.mul (m.of_float quantity) (m.of_float fill_price)) (m.of_float fee_rate))

  unfoldable pub computed_slippage : F → F → F → F
  computed_slippage quantity fill_price reference =
      m.to_float (m.mul (distance fill_price reference) (m.of_float quantity))
