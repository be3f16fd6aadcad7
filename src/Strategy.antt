-- ===== src/Strategy.antt =====
-- src/autobit/strategy/donchian_trend.py: the entry, the exit on a close, and the trailing stop.
-- A row is a function from the columns that the source names, `none` being a column that it
-- lacks. The fields of a position are the floats that they are annotated to be.
pub mod Stops
pub mod Entries
mod Tests
use auto_bit.Prelude.{
  ℕ, Bool, true, false, ◌&&◌, ◌||◌, not, Option, none, some, is_some, if◌then◌else◌,
}
use auto_bit.Double.{Double, ◌≼◌, ◌≺◌, ◌⊕◌, ◌⊖◌, ◌⊗◌, max, nought}
use auto_bit.Python.{Value, boolean, numpy_boolean, other, to_float}

-- `StrategyConfig` of src/autobit/config.py, as far as the strategy and the engine read it.
pub record StrategyConfig {ℓ} (F : Type ℓ) : Type ℓ where
  pub ema_period : ℕ
  pub atr_period : ℕ
  pub initial_atr_mult : F
  pub profit_activation_r : F
  pub trailing_atr_mult : F
  pub stagnant_bars : ℕ
  pub stagnant_min_r : F
  pub max_holding_bars : ℕ

pub data Column : Type 0 where
  close high entry_high exit_low previous_close previous_entry_high baseline_atr_pct warmup_complete
        entry_data_valid :
      Column
  -- `f"ema_{period}"` and `f"atr_{period}"`
  ema atr : ℕ → Column

abbrev pub Row {ℓ} : Type ℓ → Type ℓ
Row F = Column → Option (Value F)

pub record PositionSnapshot {ℓ} (F : Type ℓ) : Type ℓ where
  pub entry_price : F
  pub initial_stop : F
  pub current_stop : F
  pub high_water : F

module _ {ℓ} {F : Type ℓ} ⦃d : Double F⦄ where
  -- `StrategyConfig()`
  abbrev pub default_strategy_config : StrategyConfig F
  default_strategy_config = record {
    ema_period = 200;
    atr_period = 14;
    initial_atr_mult = d.lit 25 10;
    profit_activation_r = d.lit 2 1;
    trailing_atr_mult = d.lit 3 1;
    stagnant_bars = 60;
    stagnant_min_r = d.lit 1 1;
    max_holding_bars = 1095;
  }

  -- `float(value)`, where `_is_finite(value)` holds.
  abbrev pub finite : Option F → Option F
  finite none = none
  finite (some x) = if d.is_finite x then some x else none

  -- `row.get(column)`, if it is finite; the default `None` is not.
  abbrev pub get_finite : Row F → Column → Option F
  get_finite row column = finite (elim (row column) [ none ↦ none | some v ↦ to_float v ])

  abbrev pub is_true_boolean : Value F → Bool
  is_true_boolean (boolean b) = b
  is_true_boolean (numpy_boolean b) = b
  is_true_boolean v = false

  -- The flag, or `True` where the row lacks it.
  abbrev pub flag : Row F → Column → Bool
  flag row column = elim (row column) [ none ↦ true | some v ↦ is_true_boolean v ]

  -- One argument of `initial_stop_price`, if it is usable.
  abbrev pub usable_value : Value F → Option F
  usable_value (boolean b) = none
  usable_value v = elim (finite (to_float v)) [
    | none ↦ none
    | some x ↦ if x ≼ nought then none else some x
  ]

  abbrev stop_below : Option F → Option F → Option F → F
  stop_below (some price) (some range) (some mult) = price ⊖ mult ⊗ range
  stop_below _ _ _ = d.nan

  unfoldable pub initial_stop_price : Value F → Value F → Value F → F
  initial_stop_price entry_price entry_atr initial_atr_mult =
      stop_below (usable_value entry_price) (usable_value entry_atr) (usable_value initial_atr_mult)

  abbrev pub breakout : Option F → Option F → Option F → Option F → Option F → Option F → Bool
  breakout (some c) (some e) (some h) (some pc) (some ph) (some a) = h ≺ c && e ≺ c && pc ≼ ph
  breakout _ _ _ _ _ _ = false

  unfoldable pub evaluate_entry : Row F → Bool → StrategyConfig F → Bool
  evaluate_entry row is_flat config =
      if not is_flat
      then false
      else if not (flag row warmup_complete)
      then false
      else if not (flag row entry_data_valid)
      then false
      else breakout (get_finite row close) (get_finite row (ema config.ema_period))
          (get_finite row entry_high) (get_finite row previous_close)
          (get_finite row previous_entry_high) (get_finite row (atr config.atr_period))

  abbrev below : Option F → Option F → Bool
  below (some c) (some low) = c ≺ low
  below _ _ = false

  unfoldable pub evaluate_close_exit : Row F → Bool
  evaluate_close_exit row = below (get_finite row close) (get_finite row exit_low)

  abbrev pub risk_unit : PositionSnapshot F → F
  risk_unit p = p.entry_price ⊖ p.initial_stop

  -- The profit is short of the activation.
  abbrev pub is_inactive : PositionSnapshot F → StrategyConfig F → F → Bool
  is_inactive p config high_water =
      high_water ≺ p.entry_price ⊕ config.profit_activation_r ⊗ risk_unit p

  abbrev pub is_complete : PositionSnapshot F → Bool
  is_complete p =
      d.is_finite p.entry_price
      && d.is_finite p.initial_stop
      && d.is_finite p.current_stop
      && d.is_finite p.high_water

  -- The end of `next_stop`, by the row's ATR.
  abbrev pub trail : PositionSnapshot F → F → StrategyConfig F → Option F → F
  trail p high_water config none = p.current_stop
  trail p high_water config (some range) =
      if range ≼ nought
      then p.current_stop
      else max (max p.current_stop p.entry_price) (high_water ⊖ config.trailing_atr_mult ⊗ range)

  -- `next_stop`, by the row's high.
  abbrev pub raise_stop : PositionSnapshot F → Row F → StrategyConfig F → Option F → F
  raise_stop p row config none = p.current_stop
  raise_stop p row config (some h) =
      if risk_unit p ≼ nought
      then p.current_stop
      else if is_inactive p config (max p.high_water h)
      then p.current_stop
      else trail p (max p.high_water h) config (get_finite row (atr config.atr_period))

  unfoldable pub next_stop : PositionSnapshot F → Row F → StrategyConfig F → F
  next_stop p row config =
      if not (is_complete p) then p.current_stop else raise_stop p row config (get_finite row high)
