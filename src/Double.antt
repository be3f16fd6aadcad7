-- ===== src/Double.antt =====
-- Python's `float`, as far as the program uses it: an interface of the comparisons, the
-- arithmetic, the literals and `math.isfinite`. NaN is the value that is not `<=` itself.
pub mod Laws
pub mod Fixed
use auto_bit.Prelude.{ℕ, Bool, if◌then◌else◌}

pub record Double {ℓ} (F : Type ℓ) : Type ℓ where
  -- `lit n d` is the double that the source writes as the decimal n / d.
  pub lit : ℕ → ℕ → F
  pub nan : F
  pub is_finite : F → Bool
  pub le : F → F → Bool
  pub lt : F → F → Bool
  pub eq : F → F → Bool
  pub add : F → F → F
  pub sub : F → F → F
  pub mul : F → F → F
  pub div : F → F → F

module _ {ℓ} {F : Type ℓ} ⦃d : Double F⦄ where
  infix 50 ◌≼◌ ◌≺◌
  infixl 65 ◌⊕◌ ◌⊖◌
  infixl 70 ◌⊗◌ ◌⊘◌
  abbrev pub ◌≼◌ : F → F → Bool
  x ≼ y = d.le x y

  abbrev pub ◌≺◌ : F → F → Bool
  x ≺ y = d.lt x y

  abbrev pub ◌⊕◌ : F → F → F
  x ⊕ y = d.add x y

  abbrev pub ◌⊖◌ : F → F → F
  x ⊖ y = d.sub x y

  abbrev pub ◌⊗◌ : F → F → F
  x ⊗ y = d.mul x y

  abbrev pub ◌⊘◌ : F → F → F
  x ⊘ y = d.div x y

  -- `max(x, y)` and `min(x, y)`: the first argument, unless the second beats it.
  abbrev pub max : F → F → F
  max x y = if x ≺ y then y else x

  abbrev pub min : F → F → F
  min x y = if y ≺ x then y else x

-- 0.0, 1.0 and 2.0
abbrev pub nought {ℓ} : {F : Type ℓ} ⦃d : Double F⦄ → F
nought ⦃d⦄ = d.lit 0 1

abbrev pub one {ℓ} : {F : Type ℓ} ⦃d : Double F⦄ → F
one ⦃d⦄ = d.lit 1 1

abbrev pub two {ℓ} : {F : Type ℓ} ⦃d : Double F⦄ → F
two ⦃d⦄ = d.lit 2 1
