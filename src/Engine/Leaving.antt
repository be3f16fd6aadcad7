-- ===== src/Engine/Leaving.antt =====
-- The exits of `StrategyEngine.decide` (src/autobit/core/engine.py), and the stop that it moves.
use auto_bit.Prelude.{not, ◌≡◌, refl, Option, none, some, if_both}
use auto_bit.Double.{Double, nought}
use auto_bit.Double.Laws.{IsDouble}
use auto_bit.Strategy.{high, next_stop, evaluate_close_exit}
use auto_bit.Prelude.Int.{pos, leb_ℤ}
use auto_bit.Strategy.Stops.{Raised, next_stop-Raised}
use auto_bit.Engine.{
  PositionContext, DecisionInput, Decision, sell, hold, Reason, system_exit, StrategyEngine, decide,
  forced_exit_reason, positive, valid_position, sell_all, hold_still, manage, leave, tracked,
  choose, peak, positive_value, is_stagnant, close_exit, stagnant_exit, max_hold_exit,
}

module _ {ℓ} {F : Type ℓ} ⦃d : Double F⦄ where
  -- What a decision on a held position may be: to sell the whole of it, or to hold it, with a
  -- stop that is absent, or is the current one, or is no lower than that and the entry price.
  pub data Managed (p : PositionContext F) (r : Decision F) : Type ℓ where
    sold : r.action ≡ sell → r.quantity ≡ p.quantity → r.next_stop ≡ none → Managed p r
    untouched : r.action ≡ hold → r.quantity ≡ nought → r.next_stop ≡ none → Managed p r
    moved :
        (x : F)
        → r.action ≡ hold
        → r.quantity ≡ nought
        → r.next_stop ≡ some x
        → Raised (tracked p p.high_water) x
        → Managed p r

  module _ (w : IsDouble F) (e : StrategyEngine F) (s : DecisionInput F)
      (p : PositionContext F) where
    sell_all-Managed : (reason : Reason) → Managed p (sell_all reason p s.risk)
    sell_all-Managed reason = sold refl refl refl

    hold_still-Managed : Managed p (hold_still s.risk)
    hold_still-Managed = untouched refl refl refl

    manage-Managed : Managed p (manage e s p)
    unfolding manage
    manage-Managed =
        let water = peak p (positive_value s.row high) in
        if_both (Managed p) (evaluate_close_exit s.row) (sell_all-Managed close_exit) (
          if_both (Managed p) (is_stagnant e.strategy p water) (sell_all-Managed stagnant_exit) (
            if_both (Managed p) (leb_ℤ (pos e.strategy.max_holding_bars) p.held_bars)
              (sell_all-Managed max_hold_exit)
              (moved (next_stop (tracked p water) s.row e.strategy) refl refl refl
                (next_stop-Raised w (tracked p water) s.row e.strategy))))

    leave-Managed : (forced : Option Reason) → Managed p (leave e s p forced)
    leave-Managed (some reason) = sell_all-Managed reason
    leave-Managed none =
        if_both (Managed p) (not (valid_position p)) (sell_all-Managed system_exit)
          (if_both (Managed p) s.has_pending_order hold_still-Managed manage-Managed)

    pub choose-Managed : Managed p (choose e s (some p))
    choose-Managed =
        if_both (Managed p) (not (positive p.quantity)) hold_still-Managed
          (leave-Managed (forced_exit_reason s.risk))

    -- With a position held, `decide` never buys: it sells the whole quantity, or holds, and a stop
    -- that it passes on is the current one, or no lower than the current one and the entry price.
    pub decide-Managed : s.position ≡ some p → Managed p (decide e s)
    unfolding decide
    decide-Managed held = rw held choose-Managed
