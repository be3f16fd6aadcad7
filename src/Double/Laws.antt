-- ===== src/Double/Laws.antt =====
-- What IEEE 754 says of the operations, as far as the theorems rest on it. The order is total
-- away from NaN, literals are finite and ordered as the decimals are, and halving a
-- number that is not negative does not raise it.
use auto_bit.Prelude.{ℕ, ◌*◌, ◌≤◌, ◌<◌, true, not, ◌≡◌, arith, Bool-cases, inl, inr}
use auto_bit.Double.{Double, ◌≼◌, ◌≺◌, ◌⊘◌, max, min, nought, two}

pub record IsDouble {ℓ} (F : Type ℓ) ⦃d : Double F⦄ : Type ℓ where
  pub refl_of_le : (x y : F) → (x ≼ y) ≡ true → ((x ≼ x) ≡ true) × ((y ≼ y) ≡ true)
  pub refl_of_lt : (x y : F) → (x ≺ y) ≡ true → ((x ≼ x) ≡ true) × ((y ≼ y) ≡ true)
  pub le_trans : (x y z : F) → (x ≼ y) ≡ true → (y ≼ z) ≡ true → (x ≼ z) ≡ true
  pub lt-eq-not-le : (x y : F) → (x ≼ x) ≡ true → (y ≼ y) ≡ true → (x ≺ y) ≡ not (y ≼ x)
  pub le_of_lt : (x y : F) → (x ≺ y) ≡ true → (x ≼ y) ≡ true
  pub eq_of_refl : (x : F) → (x ≼ x) ≡ true → d.eq x x ≡ true
  pub refl_of_finite : (x : F) → d.is_finite x ≡ true → (x ≼ x) ≡ true
  pub lit_finite : (n e : ℕ) → 0 < e → n ≤ 1000 * e → d.is_finite (d.lit n e) ≡ true
  pub lit_mono : (n e m f : ℕ) → 0 < e → 0 < f → n * f ≤ m * e → (d.lit n e ≼ d.lit m f) ≡ true
  -- A literal with at most six decimals is positive if its decimal is; if it is at most 1000 too, it
  -- halves exactly.
  pub lit_pos : (n e : ℕ) → 0 < n → 0 < e → e ≤ 1000000 → (nought ≺ d.lit n e) ≡ true
  pub lit_half : (n e : ℕ) → 0 < e → e ≤ 1000000 → n ≤ 1000 * e → d.lit n e ⊘ two ≡ d.lit n (e * 2)
  pub half_mono : (x y : F) → (x ≼ y) ≡ true → (x ⊘ two ≼ y ⊘ two) ≡ true
  pub half_le : (x : F) → (nought ≼ x) ≡ true → (x ⊘ two ≼ x) ≡ true
  pub half_nonneg : (x : F) → (nought ≼ x) ≡ true → (nought ≼ x ⊘ two) ≡ true

module _ {ℓ} {F : Type ℓ} ⦃d : Double F⦄ (w : IsDouble F) where
  -- `max` of a number that is no NaN is at least that number, whatever the other argument is.
  pub le-max_left : (x y : F) → (x ≼ x) ≡ true → (x ≼ max x y) ≡ true
  le-max_left x y h = elim (Bool-cases (x ≺ y)) [ inl e ↦ rw e (w.le_of_lt x y e) | inr e ↦ rw e h ]

  pub le-max_right : (x y : F) → (x ≼ x) ≡ true → (y ≼ y) ≡ true → (y ≼ max x y) ≡ true
  le-max_right x y h k = elim (Bool-cases (x ≺ y)) [
    | inl e ↦ rw e k
    | inr e ↦ ground (arith, w.lt-eq-not-le x y)
  ]

  pub min-le_left : (x y : F) → (x ≼ x) ≡ true → (min x y ≼ x) ≡ true
  min-le_left x y h = elim (Bool-cases (y ≺ x)) [ inl e ↦ rw e (w.le_of_lt y x e) | inr e ↦ rw e h ]

  pub min-le_right : (x y : F) → (x ≼ x) ≡ true → (y ≼ y) ≡ true → (min x y ≼ y) ≡ true
  min-le_right x y h k = elim (Bool-cases (y ≺ x)) [
    | inl e ↦ rw e k
    | inr e ↦ ground (arith, w.lt-eq-not-le y x)
  ]

  pub le-min : (z x y : F) → (z ≼ x) ≡ true → (z ≼ y) ≡ true → (z ≼ min x y) ≡ true
  le-min z x y h k = ground (arith, Bool-cases (y ≺ x))

  pub lt_of_lt-le : (x y z : F) → (x ≺ y) ≡ true → (y ≼ z) ≡ true → (x ≺ z) ≡ true
  lt_of_lt-le x y z h k = ground (
    arith,
    w.refl_of_lt x y h,
    w.refl_of_le y z k,
    w.lt-eq-not-le x y,
    w.lt-eq-not-le x z,
    w.le_trans y z x k,
  )
