-- ===== src/Strategy/Entries.antt =====
-- The entries of src/autobit/strategy/donchian_trend.py.
use auto_bit.Prelude.{Bool, true, false, ◌≡◌, refl, Option, some, not, arith, if◌then◌else◌}
use auto_bit.Double.{Double, ◌≼◌, ◌≺◌}
use auto_bit.Strategy.{
  StrategyConfig, Row, close, ema, entry_high, previous_close, previous_entry_high, atr,
  warmup_complete, entry_data_valid, flag, get_finite, breakout, evaluate_entry,
}

module _ {ℓ} {F : Type ℓ} ⦃d : Double F⦄ where
  -- What an entry asks of a row: six finite values, of which the close is above the entry channel
  -- and the EMA, and the previous close was not above its channel.
  pub record Breakout (row : Row F) (config : StrategyConfig F) : Type ℓ where
    pub price : F
    pub average : F
    pub channel : F
    pub previous : F
    pub previous_channel : F
    pub range : F
    pub close_found : get_finite row close ≡ some price
    pub ema_found : get_finite row (ema config.ema_period) ≡ some average
    pub entry_high_found : get_finite row entry_high ≡ some channel
    pub previous_close_found : get_finite row previous_close ≡ some previous
    pub previous_entry_high_found : get_finite row previous_entry_high ≡ some previous_channel
    pub atr_found : get_finite row (atr config.atr_period) ≡ some range
    pub above_channel : (channel ≺ price) ≡ true
    pub above_average : (average ≺ price) ≡ true
    pub crossed : (previous ≼ previous_channel) ≡ true

  module _ (row : Row F) (config : StrategyConfig F) where
    breakout-Breakout :
        (c e h p q a : Option F)
        → get_finite row close ≡ c
        → get_finite row (ema config.ema_period) ≡ e
        → get_finite row entry_high ≡ h
        → get_finite row previous_close ≡ p
        → get_finite row previous_entry_high ≡ q
        → get_finite row (atr config.atr_period) ≡ a
        → breakout c e h p q a ≡ true
        → Breakout row config
    breakout-Breakout (some c) (some e) (some h) (some p) (some q) (some a) cf ef hf pf qf af b =
        record {
          price = c;
          average = e;
          channel = h;
          previous = p;
          previous_channel = q;
          range = a;
          close_found = cf;
          ema_found = ef;
          entry_high_found = hf;
          previous_close_found = pf;
          previous_entry_high_found = qf;
          atr_found = af;
          above_channel = ground (arith, b);
          above_average = ground (arith, b);
          crossed = ground (arith, b);
        }
    breakout-Breakout _ _ _ _ _ _ cf ef hf pf qf af b = absurd (ground (arith, b))

    abbrev crossing : Bool
    crossing =
        breakout (get_finite row close) (get_finite row (ema config.ema_period))
          (get_finite row entry_high) (get_finite row previous_close)
          (get_finite row previous_entry_high) (get_finite row (atr config.atr_period))

    guards :
        (f w v b : Bool)
        → (if not f then false else if not w then false else if not v then false else b) ≡ true
        → (f ≡ true) × (w ≡ true) × (v ≡ true) × (b ≡ true)
    guards f w v b h = ground (arith, h)

    -- `evaluate_entry` says yes to a flat account only, with no flag that forbids it, and only to
    -- a breakout of finite values; to those it does say yes.
    pub evaluate_entry-Breakout :
        (is_flat : Bool)
        → (evaluate_entry row is_flat config ≡ true
            → (is_flat ≡ true)
              × (flag row warmup_complete ≡ true)
              × (flag row entry_data_valid ≡ true)
              × Breakout row config)
          × (is_flat ≡ true
              → flag row warmup_complete ≡ true
              → flag row entry_data_valid ≡ true
              → Breakout row config
              → evaluate_entry row is_flat config ≡ true)
    unfolding evaluate_entry
    evaluate_entry-Breakout is_flat = (
      λ yes.
          let g =
            guards is_flat (flag row warmup_complete) (flag row entry_data_valid) crossing yes in
          (g.0, g.1, g.2, breakout-Breakout _ _ _ _ _ _ refl refl refl refl refl refl g.3),
      λ f w v b. simp (
        f, w, v, b.close_found, b.ema_found, b.entry_high_found, b.previous_close_found,
        b.previous_entry_high_found, b.atr_found, b.above_channel, b.above_average, b.crossed,
      ),
    )
