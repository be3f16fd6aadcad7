-- ===== src/Engine.antt =====
-- src/autobit/core/engine.py and src/autobit/core/models.py: the one policy that orders the
-- exits, sizes the entries and moves the stop. The numeric fields of a position and of the input
-- are the floats and the integer that they are annotated to be; the row holds any values.
pub mod Entering
pub mod Exits
pub mod Leaving
mod Tests
use auto_bit.Prelude.{
  Bool, true, false, ◌&&◌, ◌||◌, not, Option, none, some, List, any, is_some, if◌then◌else◌,
}
use auto_bit.Prelude.Int.{ℤ, pos, ltb_ℤ, leb_ℤ}
use auto_bit.Double.{Double, ◌≼◌, ◌≺◌, ◌⊕◌, ◌⊖◌, ◌⊗◌, ◌⊘◌, max, nought}
use auto_bit.Python.{Value, number, numpy_number, other}
use auto_bit.Risk.Snapshot.{
  RiskReason, drawdown_halt, system_unhealthy, invalid_input, invalid_config, RiskDecision,
}
use auto_bit.Sizing.{SizeDecision, CostConfig, SizeRequest, calculate_size}
use auto_bit.Strategy.{
  StrategyConfig, Column, Row, high, close, atr, baseline_atr_pct, PositionSnapshot,
  initial_stop_price, evaluate_entry, evaluate_close_exit, next_stop,
}

pub record PositionContext {ℓ} (F : Type ℓ) : Type ℓ where
  pub entry_price : F
  pub initial_stop : F
  pub current_stop : F
  pub high_water : F
  pub quantity : F
  pub held_bars : ℤ

pub record DecisionInput {ℓ} (F : Type ℓ) : Type ℓ where
  pub row : Row F
  pub cash : F
  pub equity : F
  pub position : Option (PositionContext F)
  pub has_pending_order : Bool
  pub risk : RiskDecision F

pub data Action : Type 0 where
  hold buy sell : Action

pub data Reason : Type 0 where
  risk_exit system_exit close_exit stagnant_exit max_hold_exit entry : Reason

pub record Decision {ℓ} (F : Type ℓ) : Type ℓ where
  pub action : Action
  pub reason : Option Reason
  pub quantity : F
  pub next_stop : Option F
  pub risk : RiskDecision F

-- `StrategyEngine`
pub record StrategyEngine {ℓ} (F : Type ℓ) : Type ℓ where
  pub strategy : StrategyConfig F
  pub costs : CostConfig F

abbrev pub is_drawdown_halt : RiskReason → Bool
is_drawdown_halt drawdown_halt = true
is_drawdown_halt _ = false

abbrev pub is_system : RiskReason → Bool
is_system system_unhealthy = true
is_system invalid_input = true
is_system invalid_config = true
is_system _ = false

module _ {ℓ} {F : Type ℓ} where
  unfoldable pub forced_exit_reason : RiskDecision F → Option Reason
  forced_exit_reason risk =
      if any is_drawdown_halt risk.reasons
      then some risk_exit
      else if any is_system risk.reasons
      then some system_exit
      else none

  -- The value, if it is a `Real` and no `bool`.
  abbrev pub real : Option (Value F) → Option F
  real (some (number x)) = some x
  real (some (numpy_number x)) = some x
  real _ = none

module _ {ℓ} {F : Type ℓ} ⦃d : Double F⦄ where
  -- `_nonnegative` and `_positive`, of a float
  abbrev pub nonnegative : F → Bool
  nonnegative x = d.is_finite x && nought ≼ x

  abbrev pub positive : F → Bool
  positive x = nonnegative x && nought ≺ x

  -- `float(value)`, where `_positive(value)` holds.
  abbrev pub positive_only : Option F → Option F
  positive_only none = none
  positive_only (some x) = if positive x then some x else none

  abbrev pub positive_value : Row F → Column → Option F
  positive_value row column = positive_only (real (row column))

  unfoldable pub valid_position : PositionContext F → Bool
  valid_position p =
      positive p.entry_price
      && positive p.initial_stop
      && positive p.current_stop
      && positive p.high_water
      && positive p.quantity
      && p.initial_stop ≺ p.entry_price
      && p.initial_stop ≼ p.current_stop
      && leb_ℤ (pos 0) p.held_bars

  unfoldable pub protect : PositionContext F → F → Bool
  unfolding valid_position
  protect p observed_price =
      not (valid_position p) || not (positive observed_price) || observed_price ≼ p.current_stop

  -- `Decision("hold", None, 0., None, risk)`
  abbrev pub hold_still : RiskDecision F → Decision F
  hold_still risk = record {
    action = hold;
    reason = none;
    quantity = nought;
    next_stop = none;
    risk = risk;
  }

  abbrev pub sell_all : Reason → PositionContext F → RiskDecision F → Decision F
  sell_all reason p risk = record {
    action = sell;
    reason = some reason;
    quantity = p.quantity;
    next_stop = none;
    risk = risk;
  }

  -- `high_water` of `decide`.
  abbrev pub peak : PositionContext F → Option F → F
  peak p none = p.high_water
  peak p (some h) = max p.high_water h

  abbrev pub tracked : PositionContext F → F → PositionSnapshot F
  tracked p high_water = record {
    entry_price = p.entry_price;
    initial_stop = p.initial_stop;
    current_stop = p.current_stop;
    high_water = high_water;
  }

  abbrev pub is_stagnant : StrategyConfig F → PositionContext F → F → Bool
  is_stagnant config p high_water =
      let risk_unit = p.entry_price ⊖ p.initial_stop in
      leb_ℤ (pos config.stagnant_bars) p.held_bars
      && nought ≺ risk_unit
      && high_water ≺ p.entry_price ⊕ config.stagnant_min_r ⊗ risk_unit

  -- The exits by the row and the age of a valid position, and the new stop.
  unfoldable pub manage : StrategyEngine F → DecisionInput F → PositionContext F → Decision F
  manage e s p =
      let high_water = peak p (positive_value s.row high) in
      if evaluate_close_exit s.row
      then sell_all close_exit p s.risk
      else if is_stagnant e.strategy p high_water
      then sell_all stagnant_exit p s.risk
      else if leb_ℤ (pos e.strategy.max_holding_bars) p.held_bars
      then sell_all max_hold_exit p s.risk
      else record (hold_still s.risk) {
        next_stop = some (next_stop (tracked p high_water) s.row e.strategy);
      }

  -- `decide` where there is a position, by the forced exit.
  abbrev pub leave :
      StrategyEngine F → DecisionInput F → PositionContext F → Option Reason → Decision F
  leave e s p (some reason) = sell_all reason p s.risk
  leave e s p none =
      if not (valid_position p)
      then sell_all system_exit p s.risk
      else if s.has_pending_order
      then hold_still s.risk
      else manage e s p

  -- The guard of an entry.
  abbrev pub may_enter : StrategyEngine F → DecisionInput F → Bool
  may_enter e s = not (
      s.has_pending_order
      || not (nonnegative s.cash)
      || not (positive s.equity)
      || is_some s.risk.halted_until
      || s.risk.risk_rate ≼ nought
      || s.risk.exposure_cap ≼ nought
      || not (evaluate_entry s.row true e.strategy))

  -- `row.get(column)`, where the row lacks it too.
  abbrev pub get : Row F → Column → Value F
  get row column = elim (row column) [ none ↦ other none | some v ↦ v ]

  abbrev pub entry_stop : StrategyEngine F → F → F → F
  entry_stop e price range =
      initial_stop_price (number price) (number range) (number e.strategy.initial_atr_mult)

  abbrev pub size_request : StrategyEngine F → DecisionInput F → F → F → SizeRequest F
  size_request e s price range = record {
    equity = number s.equity;
    cash = number s.cash;
    entry = number price;
    stop = number (entry_stop e price range);
    current_atr_pct = number (range ⊘ price);
    baseline_atr_pct = get s.row baseline_atr_pct;
    risk_rate = number s.risk.risk_rate;
    exposure_cap = number s.risk.exposure_cap;
  }

  abbrev pub place : StrategyEngine F → DecisionInput F → F → SizeDecision F → Decision F
  place e s stop size =
      if nought ≺ size.quantity
      then record {
        action = buy;
        reason = some entry;
        quantity = size.quantity;
        next_stop = some stop;
        risk = s.risk;
      }
      else hold_still s.risk

  -- The end of `decide`, by the close and the ATR.
  abbrev pub enter : StrategyEngine F → DecisionInput F → Option F → Option F → Decision F
  enter e s (some price) (some range) =
      place e s (entry_stop e price range) (calculate_size (size_request e s price range) e.costs)
  enter e s _ _ = hold_still s.risk

  -- `decide`, by whether there is a position.
  abbrev pub choose : StrategyEngine F → DecisionInput F → Option (PositionContext F) → Decision F
  choose e s (some p) =
      if not (positive p.quantity)
      then hold_still s.risk
      else leave e s p (forced_exit_reason s.risk)
  choose e s none =
      if not (may_enter e s)
      then hold_still s.risk
      else enter e s (positive_value s.row close) (positive_value s.row (atr e.strategy.atr_period))

  unfoldable pub decide : StrategyEngine F → DecisionInput F → Decision F
  unfolding manage valid_position
  decide e s = choose e s s.position
