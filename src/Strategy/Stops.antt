-- ===== src/Strategy/Stops.antt =====
-- The stops of src/autobit/strategy/donchian_trend.py.
use auto_bit.Prelude.{
  true, ◌≡◌, ◌⊎◌, inl, inr, refl, Option, none, some, if_both, if_cases, not, arith,
}
use auto_bit.Double.{Double, ◌≼◌, ◌⊖◌, ◌⊗◌, max, nought}
use auto_bit.Double.Laws.{IsDouble, le-max_left, le-max_right}
use auto_bit.Strategy.{
  StrategyConfig, Row, PositionSnapshot, trail, raise_stop, next_stop, risk_unit, is_inactive,
  is_complete, get_finite, atr, high,
}

module _ {ℓ} {F : Type ℓ} ⦃d : Double F⦄ where
  -- The stop stays, or it is at least what it was and at least the entry price.
  abbrev pub Raised : PositionSnapshot F → F → Type ℓ
  Raised p x = (x ≡ p.current_stop) ⊎ (((p.current_stop ≼ x) ≡ true) × ((p.entry_price ≼ x) ≡ true))

module _ {ℓ} {F : Type ℓ} ⦃d : Double F⦄ (w : IsDouble F) (p : PositionSnapshot F)
    (stop : (p.current_stop ≼ p.current_stop) ≡ true)
    (entry : (p.entry_price ≼ p.entry_price) ≡ true) where
  max-Raised : (x : F) → Raised p (max (max p.current_stop p.entry_price) x)
  max-Raised x =
      let base = max p.current_stop p.entry_price in
      let left = le-max_left w p.current_stop p.entry_price stop in
      let right = le-max_right w p.current_stop p.entry_price stop entry in
      let above = le-max_left w base x (w.refl_of_le p.current_stop base left).1 in
      inr (
        w.le_trans p.current_stop base (max base x) left above,
        w.le_trans p.entry_price base (max base x) right above,
      )

  trail-Raised :
      (high_water : F) (config : StrategyConfig F) (range : Option F)
      → Raised p (trail p high_water config range)
  trail-Raised high_water config none = inl refl
  trail-Raised high_water config (some range) =
      if_both (Raised p) (range ≼ nought) (inl refl)
        (max-Raised (high_water ⊖ config.trailing_atr_mult ⊗ range))

  raise_stop-Raised :
      (row : Row F) (config : StrategyConfig F) (h : Option F)
      → Raised p (raise_stop p row config h)
  raise_stop-Raised row config none = inl refl
  raise_stop-Raised row config (some h) = if_both (Raised p) (risk_unit p ≼ nought) (inl refl) (
      if_both (Raised p) (is_inactive p config (max p.high_water h)) (inl refl)
        (trail-Raised (max p.high_water h) config (get_finite row (atr config.atr_period))))

module _ {ℓ} {F : Type ℓ} ⦃d : Double F⦄ (w : IsDouble F) where
  -- The trailing stop never falls, and a stop that moves is not below the entry price: whatever
  -- the position, the row and the configuration hold, `next_stop` is the current stop itself, or
  -- at least the current stop and at least the entry price.
  pub next_stop-Raised :
      (p : PositionSnapshot F) (row : Row F) (config : StrategyConfig F)
      → Raised p (next_stop p row config)
  unfolding next_stop
  next_stop-Raised p row config =
      if_cases (Raised p) (not (is_complete p)) (λ missing. inl refl)
        (λ complete.
          let stop = w.refl_of_finite p.current_stop (ground (arith, complete)) in
          let entry = w.refl_of_finite p.entry_price (ground (arith, complete)) in
          raise_stop-Raised w p stop entry row config (get_finite row high))
