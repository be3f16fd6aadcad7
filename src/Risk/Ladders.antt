-- ===== src/Risk/Ladders.antt =====
-- The order of the two ladders of src/autobit/risk/breakers.py.
use auto_bit.Prelude.{ℕ, ◌*◌, ◌≤◌, ◌<◌, true, ◌≡◌, arith}
use auto_bit.Double.{Double, ◌≼◌, nought}
use auto_bit.Double.Laws.{IsDouble, lt_of_lt-le}
use auto_bit.Risk.{drawdown_ladder, recovery_ladder}

module _ {ℓ} {F : Type ℓ} ⦃d : Double F⦄ (w : IsDouble F) where
  lit_le : (n e m f : ℕ) → (0 < e) × (0 < f) × (n * f ≤ m * e) → (d.lit n e ≼ d.lit m f) ≡ true
  lit_le n e m f h = w.lit_mono n e m f h.0 h.1 h.2

  -- On either ladder a deeper drawdown gets no higher rate and no higher cap.
  pub ladders_antitone :
      (x y : F)
      → (x ≼ y) ≡ true
      → (((drawdown_ladder y).0 ≼ (drawdown_ladder x).0) ≡ true)
        × (((drawdown_ladder y).1 ≼ (drawdown_ladder x).1) ≡ true)
        × (((recovery_ladder y).0 ≼ (recovery_ladder x).0) ≡ true)
        × (((recovery_ladder y).1 ≼ (recovery_ladder x).1) ≡ true)
  unfolding drawdown_ladder recovery_ladder
  ladders_antitone x y h = ground (
    arith,
    w.le_trans (d.lit 10 100) x y,
    w.le_trans (d.lit 5 100) x y,
    lt_of_lt-le w nought x y,
    lit_le 25 10000 25 10000 (omega arith),
    lit_le 25 10000 5 1000 (omega arith),
    lit_le 25 10000 1 100 (omega arith),
    lit_le 25 10000 2 100 (omega arith),
    lit_le 5 1000 5 1000 (omega arith),
    lit_le 5 1000 1 100 (omega arith),
    lit_le 5 1000 2 100 (omega arith),
    lit_le 1 100 1 100 (omega arith),
    lit_le 1 100 2 100 (omega arith),
    lit_le 2 100 2 100 (omega arith),
    lit_le 15 100 15 100 (omega arith),
    lit_le 15 100 30 100 (omega arith),
    lit_le 15 100 50 100 (omega arith),
    lit_le 15 100 70 100 (omega arith),
    lit_le 30 100 30 100 (omega arith),
    lit_le 30 100 50 100 (omega arith),
    lit_le 30 100 70 100 (omega arith),
    lit_le 50 100 50 100 (omega arith),
    lit_le 50 100 70 100 (omega arith),
    lit_le 70 100 70 100 (omega arith),
  )
