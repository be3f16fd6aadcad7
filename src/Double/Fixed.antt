-- ===== src/Double/Fixed.antt =====
-- Signed decimals of six places with a NaN: a small instance of the interface, on which the
-- definitions run and the laws hold.
use native.Mathlib.Nat.{
  le-div_iff_mul-le, le_of_mul-le-mul_right, div-mul-le_self, mul-le-mul_right, div-div-eq-div-mul,
}
use auto_bit.Prelude.{
  ℕ, ◌+◌, ◌*◌, ◌/◌, ◌≤◌, ◌<◌, Bool, true, false, ◌&&◌, ◌≡◌, ap, arith, ◌==◌, if◌then◌else◌,
}
use auto_bit.Prelude.Int.{ℤ, pos, negsuc, pos_part, neg_part, sub_ℕ, ◌+ℤ◌, ◌-ℤ◌, ltb_ℤ, leb_ℤ}
use auto_bit.Double.{Double}
use auto_bit.Double.Laws.{IsDouble}

pub data Fixed : Type 0 where
  nan : Fixed
  num : ℤ → Fixed

abbrev pub scale : ℕ
scale = 1000000

abbrev on_numbers : (ℤ → ℤ → Bool) → Fixed → Fixed → Bool
on_numbers f (num a) (num b) = f a b
on_numbers f _ _ = false

abbrev lift : (ℤ → ℤ → Fixed) → Fixed → Fixed → Fixed
lift f (num a) (num b) = f a b
lift f _ _ = nan

-- The sign of a product or a quotient, put on its size.
abbrev signed : ℤ → ℤ → ℕ → Fixed
signed (pos a) (pos b) n = num (pos n)
signed (negsuc a) (negsuc b) n = num (pos n)
signed a b n = num (sub_ℕ 0 n)

abbrev pub size : ℤ → ℕ
size a = pos_part a + neg_part a

abbrev times : ℤ → ℤ → Fixed
times a b = signed a b (size a * size b / scale)

abbrev over : ℤ → ℤ → Fixed
over a b = if size b == 0 then nan else signed a b (size a * scale / size b)

abbrev finite : Fixed → Bool
finite nan = false
finite (num a) = true

instance abbrev pub fixed_double : Double Fixed
fixed_double = record {
  lit = λ n e. num (pos (n * scale / e));
  nan = nan;
  is_finite = finite;
  le = on_numbers leb_ℤ;
  lt = on_numbers ltb_ℤ;
  eq = on_numbers λ a b. leb_ℤ a b && leb_ℤ b a;
  add = lift λ a b. num (a +ℤ b);
  sub = lift λ a b. num (a -ℤ b);
  mul = lift times;
  div = lift over;
}

div_mono : (n e m f : ℕ) → 0 < e → 0 < f → n * f ≤ m * e → n * scale / e ≤ m * scale / f
div_mono n e m f p q h = (le-div_iff_mul-le q).1 (
    le_of_mul-le-mul_right
      (omega (arith, mul-le-mul_right f (div-mul-le_self (n * scale) e), mul-le-mul_right scale h))
      p)

lit_pos_lem : (n e : ℕ) → 0 < n → 0 < e → e ≤ scale → 0 < n * scale / e
lit_pos_lem n e p q h = (le-div_iff_mul-le q).1 (omega (arith, mul-le-mul_right scale p))

halve : (n e : ℕ) → 0 < e → (n * scale / e + 0) * scale / (2 * scale / 1) ≡ n * scale / (e * 2)
halve n e p = rw (← div-div-eq-div-mul (n * scale) e 2) (omega arith)

pub Fixed-IsDouble : IsDouble Fixed
Fixed-IsDouble = record {
  refl_of_le = λ x y h. ground arith;
  refl_of_lt = λ x y h. ground arith;
  le_trans = λ x y z h k. ground arith;
  lt-eq-not-le = λ x y h k. ground arith;
  le_of_lt = λ x y h. ground arith;
  eq_of_refl = λ x h. ground arith;
  refl_of_finite = λ x h. ground arith;
  lit_finite = λ n e p h. ground arith;
  lit_mono = λ n e m f p q h. ground (arith, div_mono n e m f p q h);
  lit_pos = λ n e p q h. ground (arith, lit_pos_lem n e p q h);
  lit_half = λ n e p h b. ap (λ k. num (pos k)) (halve n e p);
  half_mono = λ x y h. ground arith;
  half_le = λ x h. ground arith;
  half_nonneg = λ x h. ground arith;
}
