-- ===== src/Store/Plain.antt =====
-- Plain instances of the interfaces of src/autobit/persistence/sqlite_store.py, on fixed-point
-- numbers, for runs.
use auto_bit.Prelude.{true, false, ◌≡◌, refl, none, [], ◌∷◌, Result, ok, err, arith}
use auto_bit.Prelude.Int.{ℤ, pos, negsuc, ◌+ℤ◌, ◌-ℤ◌, ltb_ℤ, leb_ℤ}
use auto_bit.Double.{◌≼◌, ◌⊗◌, ◌⊘◌, nought}
use auto_bit.Double.Fixed.{Fixed, nan, num, fixed_double}
use auto_bit.Python.{aware}
use auto_bit.Schedule.{epoch}
use auto_bit.Store.{StoreError, Texts}
use auto_bit.Store.Payload.{Codec}
use auto_bit.Store.Orders.{Decimal}
use auto_bit.Store.Replay.{start}
use auto_bit.Store.Snapshot.{Store, Renderer, row_of, state_after}
use auto_bit.Store.Accounts.{IsDecimal}

instance abbrev pub plain_texts : Texts
plain_texts = record {
  strip = λ s. s;
  sha256 = λ s. s;
  is_reason = λ s. true;
  is_canonical_utc = λ s. true;
  utc_text = λ t. "time";
}

instance abbrev pub plain_codec : Codec Fixed
plain_codec = record { canonical_json = λ payload. "{}"; parse_float = λ s. none }

instance abbrev pub plain_renderer : Renderer Fixed
plain_renderer = record { envelope_json = λ e digest. digest; snapshot_json = λ s. "{}" }

abbrev pub value_of : Fixed → ℤ
value_of nan = pos 0
value_of (num z) = z

instance abbrev pub integer_decimal : Decimal Fixed
integer_decimal = record {
  D = ℤ;
  of_float = value_of;
  to_float = num;
  zero = pos 0;
  hundred = pos 100000000;
  add = λ a b. a +ℤ b;
  sub = λ a b. a -ℤ b;
  mul = λ a b. value_of (num a ⊗ num b);
  div = λ a b. value_of (num a ⊘ num b);
  lt = ltb_ℤ;
  eq = λ a b. elim (ltb_ℤ a b) [ true ↦ false | false ↦ leb_ℤ a b ];
  close = λ a b. true;
}

sum-nonneg :
    (a b : ℤ) → ltb_ℤ a (pos 0) ≡ false → ltb_ℤ b (pos 0) ≡ false → ltb_ℤ (a +ℤ b) (pos 0) ≡ false
sum-nonneg (pos a) (pos b) h k = ground (arith, h, k)
sum-nonneg (pos a) (negsuc b) h k = absurd (ground (arith, k))
sum-nonneg (negsuc a) b h k = absurd (ground (arith, h))

difference-nonneg : (a b : ℤ) → ltb_ℤ a b ≡ false → ltb_ℤ (a -ℤ b) (pos 0) ≡ false
difference-nonneg (pos a) (pos b) h = ground (arith, h)
difference-nonneg (pos a) (negsuc b) h = ground (arith, h)
difference-nonneg (negsuc a) (pos b) h = absurd (ground (arith, h))
difference-nonneg (negsuc a) (negsuc b) h = ground (arith, h)

positive-nonneg : (x : Fixed) → (x ≼ nought) ≡ false → ltb_ℤ (value_of x) (pos 0) ≡ false
positive-nonneg nan h = refl
positive-nonneg (num (pos n)) h = ground (arith, h)
positive-nonneg (num (negsuc n)) h = absurd (ground (arith, h))

nought-below :
    (x y : Fixed)
    → (y ≼ nought) ≡ false
    → fixed_double.eq x nought ≡ true
    → ltb_ℤ (value_of y) (value_of x) ≡ false
nought-below nan y h k = absurd (ground (arith, k))
nought-below (num (negsuc n)) y h k = absurd (ground (arith, k))
nought-below (num (pos n)) nan h k = ground (arith, k)
nought-below (num (pos n)) (num (pos z)) h k = ground (arith, h, k)
nought-below (num (pos n)) (num (negsuc z)) h k = absurd (ground (arith, h))

pub integer-IsDecimal : IsDecimal Fixed
integer-IsDecimal = record {
  zero_nonneg = refl;
  hundred_nonneg = refl;
  add_nonneg = sum-nonneg;
  sub_nonneg = difference-nonneg;
  positive_nonneg = positive-nonneg;
  nought_below = nought-below;
  round_below = λ x a h. h;
}

-- The state that a call returns, or the one of before.
abbrev pub state_of {ℓ κ} : {A : Type ℓ} {B : Type κ} → A → Result StoreError (A × B) → A
state_of a (ok p) = p.0
state_of a (err e) = a

-- A store without an event.
abbrev pub empty_store : Store Fixed
empty_store = record {
  events = [];
  recorded_tail = 0;
  orders = [];
  snapshots = row_of {F = Fixed} (state_after [] start) (aware epoch) ∷ [];
}
