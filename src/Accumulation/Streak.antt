-- ===== src/Accumulation/Streak.antt =====
-- The loss streak of src/autobit/core/risk_state.py.
use auto_bit.Prelude.{ℕ, suc, ◌+◌, Bool, ◌≡◌, List, [], ◌∷◌, length, all, arith, if◌then◌else◌}
use auto_bit.Prelude.Int.{pos}
use auto_bit.Double.{Double, ◌≺◌, nought}
use auto_bit.Accumulation.Facts.{ClosedTrade}
use auto_bit.Accumulation.{count_losses}

module _ {ℓ} {F : Type ℓ} ⦃d : Double F⦄ where
  abbrev pub is_loss : ClosedTrade F → Bool
  is_loss trade = trade.net_pnl ≺ nought

  -- The number of losses at the end of a list of trades.
  abbrev pub trailing_losses : List (ClosedTrade F) → ℕ
  trailing_losses [] = 0
  trailing_losses (trade ∷ rest) =
      if all is_loss rest
      then (if is_loss trade then suc (length rest) else length rest)
      else trailing_losses rest

  -- From a streak of n, `count_losses` gives the number of losses since the last trade that was
  -- none, and n more where all the trades are losses.
  pub count_losses-trailing :
      (n : ℕ) (trades : List (ClosedTrade F))
      → count_losses (pos n) trades
        ≡ (if all is_loss trades then pos (n + length trades) else pos (trailing_losses trades))
  unfolding count_losses
  count_losses-trailing n [] = ground arith
  count_losses-trailing n (trade ∷ rest) =
      ground (arith, count_losses-trailing (suc n) rest, count_losses-trailing 0 rest)
