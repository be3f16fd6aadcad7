-- ===== src/Risk/Bounds.antt =====
-- Lemmas on the two ladders and the rules of src/autobit/risk/breakers.py: the range of the rate
-- and the cap, and the reason of a halt.
use auto_bit.Prelude.{
  is_nonempty, ℕ, ◌*◌, ◌≤◌, ◌<◌, Bool, true, false, ◌||◌, ◌≡◌, refl, inl, inr, Option, List, [],
  ◌∷◌, ◌++◌, arith, Bool-cases, any,
}
use auto_bit.Double.{Double, ◌≼◌, ◌≺◌, ◌⊘◌, nought, two}
use auto_bit.Double.Laws.{IsDouble, min-le_left, le-min}
use auto_bit.Risk.Snapshot.{
  RiskReason, system_unhealthy, invalid_input, invalid_config, drawdown_halt, daily_loss_halt,
  weekly_loss_halt, loss_streak_halt, volatility_halt,
}
use auto_bit.Risk.{Draft, halt, note, reduce, start, drawdown_ladder, recovery_ladder}

-- The reasons that stop all new risk.
abbrev pub blocks : RiskReason → Bool
blocks system_unhealthy = true
blocks invalid_input = true
blocks invalid_config = true
blocks drawdown_halt = true
blocks daily_loss_halt = true
blocks weekly_loss_halt = true
blocks loss_streak_halt = true
blocks volatility_halt = true
blocks _ = false

pub any-append {ℓ} :
    {A : Type ℓ} (test : A → Bool) (xs : List A) (y : A)
    → any test (xs ++ y ∷ []) ≡ any test xs || test y
any-append test [] y = ground arith
any-append test (x ∷ xs) y = ground (arith, any-append test xs y)

pub is_nonempty-append {ℓ} : {A : Type ℓ} (xs : List A) (y : A) → is_nonempty (xs ++ y ∷ []) ≡ true
is_nonempty-append [] y = refl
is_nonempty-append (x ∷ xs) y = refl

module _ {ℓ} {F : Type ℓ} ⦃d : Double F⦄ where
  -- 0.00125 and 0.075 are the halves of the lowest recovery step.
  pub record IsSound (s : Draft F) : Type 0 where
    pub rate_low : (d.lit 25 20000 ≼ s.risk_rate) ≡ true
    pub rate_high : (s.risk_rate ≼ d.lit 2 100) ≡ true
    pub cap_low : (d.lit 15 200 ≼ s.exposure_cap) ≡ true
    pub cap_high : (s.exposure_cap ≼ d.lit 70 100) ≡ true
    pub marked : any blocks s.reasons ≡ is_nonempty s.halts

  pub record IsHalf (half : F × F) : Type 0 where
    pub rate_low : (d.lit 25 20000 ≼ half.0) ≡ true
    pub cap_low : (d.lit 15 200 ≼ half.1) ≡ true

  -- What every step of the two ladders satisfies.
  pub record InLadder (step : F × F) : Type 0 where
    pub rate_low : (d.lit 25 10000 ≼ step.0) ≡ true
    pub rate_high : (step.0 ≼ d.lit 2 100) ≡ true
    pub cap_low : (d.lit 15 100 ≼ step.1) ≡ true
    pub cap_high : (step.1 ≼ d.lit 70 100) ≡ true

module _ {ℓ} {F : Type ℓ} ⦃d : Double F⦄ (w : IsDouble F) where
  literal_step-InLadder :
      (n e m f : ℕ)
      → (0 < e)
        × (0 < f)
        × (25 * e ≤ n * 10000)
        × (n * 100 ≤ 2 * e)
        × (15 * f ≤ m * 100)
        × (m * 100 ≤ 70 * f)
      → InLadder (d.lit n e, d.lit m f)
  literal_step-InLadder n e m f h = record {
    rate_low = w.lit_mono 25 10000 n e (omega arith) h.0 h.2;
    rate_high = w.lit_mono n e 2 100 h.0 (omega arith) h.3;
    cap_low = w.lit_mono 15 100 m f (omega arith) h.1 h.4;
    cap_high = w.lit_mono m f 70 100 h.1 (omega arith) h.5;
  }

  pub drawdown_ladder-InLadder : (x : F) → InLadder (drawdown_ladder x)
  unfolding drawdown_ladder
  drawdown_ladder-InLadder x = elim (Bool-cases (d.lit 10 100 ≼ x)) [
    | inl a ↦ rw a (literal_step-InLadder 5 1000 30 100 (omega arith))
    | inr a ↦ rw a (elim (Bool-cases (d.lit 5 100 ≼ x)) [
      | inl b ↦ rw b (literal_step-InLadder 1 100 50 100 (omega arith))
      | inr b ↦ rw b (literal_step-InLadder 2 100 70 100 (omega arith))
    ])
  ]

  pub recovery_ladder-InLadder : (x : F) → InLadder (recovery_ladder x)
  unfolding recovery_ladder
  recovery_ladder-InLadder x = elim (Bool-cases (d.lit 10 100 ≼ x)) [
    | inl a ↦ rw a (literal_step-InLadder 25 10000 15 100 (omega arith))
    | inr a ↦ rw a (elim (Bool-cases (d.lit 5 100 ≼ x)) [
      | inl b ↦ rw b (literal_step-InLadder 5 1000 30 100 (omega arith))
      | inr b ↦ rw b (elim (Bool-cases (nought ≺ x)) [
        | inl c ↦ rw c (literal_step-InLadder 1 100 50 100 (omega arith))
        | inr c ↦ rw c (literal_step-InLadder 2 100 70 100 (omega arith))
      ])
    ])
  ]

  pub InLadder-IsHalf : (step : F × F) → InLadder step → IsHalf (step.0 ⊘ two, step.1 ⊘ two)
  InLadder-IsHalf step v = record {
    rate_low =
        rw (← w.lit_half 25 10000 (omega arith) (omega arith) (omega arith))
          (w.half_mono _ _ v.rate_low);
    cap_low =
        rw (← w.lit_half 15 100 (omega arith) (omega arith) (omega arith))
          (w.half_mono _ _ v.cap_low);
  }

  pub start-IsSound : (step : F × F) → InLadder step → IsSound (start step)
  start-IsSound step v = record {
    rate_low =
        w.le_trans _ _ _ (w.lit_mono 25 20000 25 10000 (omega arith) (omega arith) (omega arith))
          v.rate_low;
    rate_high = v.rate_high;
    cap_low =
        w.le_trans _ _ _ (w.lit_mono 15 200 15 100 (omega arith) (omega arith) (omega arith))
          v.cap_low;
    cap_high = v.cap_high;
    marked = refl;
  }

  pub halt-IsSound :
      (reason : RiskReason) (expiry : Option ℕ) (s : Draft F)
      → blocks reason ≡ true
      → IsSound s
      → IsSound (halt reason expiry s)
  halt-IsSound reason expiry s b v =
      ground (arith, any-append blocks s.reasons reason, is_nonempty-append s.halts expiry)

  pub note-IsSound :
      (reason : RiskReason) (s : Draft F)
      → blocks reason ≡ false
      → IsSound s
      → IsSound (note reason s)
  note-IsSound reason s b v = ground (arith, any-append blocks s.reasons reason)

  pub reduce-IsSound :
      (half : F × F) (reason : RiskReason) (s : Draft F)
      → blocks reason ≡ false
      → IsHalf half
      → IsSound s
      → IsSound (reduce half reason s)
  reduce-IsSound half reason s b h v = record {
    rate_low = le-min w _ _ _ v.rate_low h.rate_low;
    rate_high =
        w.le_trans _ _ _ (min-le_left w _ half.0 (w.refl_of_le _ _ v.rate_high).0) v.rate_high;
    cap_low = le-min w _ _ _ v.cap_low h.cap_low;
    cap_high = w.le_trans _ _ _ (min-le_left w _ half.1 (w.refl_of_le _ _ v.cap_high).0) v.cap_high;
    marked = ground (arith, any-append blocks s.reasons reason);
  }
