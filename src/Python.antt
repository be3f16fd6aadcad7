-- ===== src/Python.antt =====
-- Values of Python's dynamic types, as the guards of src/autobit/ tell them apart, and points in
-- time. A time is the number of microseconds since the year 1, so a day starts at a multiple of
-- 86,400,000,000.
use auto_bit.Prelude.{ℕ, Bool, true, false, Option, some}
use auto_bit.Double.{Double, nought, one}

-- `number` is a built-in `int` or `float`, and `numpy_number` any other `numbers.Real` that is no
-- `bool`, with its `float()` value. `other` is anything else, with what `float()` makes of it, if
-- it does not raise. `None` is `other none`. An integer that is too large for `float()` is left
-- out.
pub data Value {ℓ} (F : Type ℓ) : Type ℓ where
  number : F → Value F
  numpy_number : F → Value F
  boolean : Bool → Value F
  numpy_boolean : Bool → Value F
  other : Option F → Value F

-- A time-zone aware `datetime`, in UTC, or a value that is no such thing.
pub data TimeValue : Type 0 where
  aware : ℕ → TimeValue
  unusable : TimeValue

abbrev pub microsecond_minute : ℕ
microsecond_minute = 60000000

abbrev pub microsecond_hour : ℕ
microsecond_hour = 3600000000

abbrev pub microsecond_day : ℕ
microsecond_day = 86400000000

module _ {ℓ} {F : Type ℓ} ⦃d : Double F⦄ where
  abbrev of_bool : Bool → F
  of_bool true = one
  of_bool false = nought

  -- `float(value)`, or `none` where it raises.
  abbrev pub to_float : Value F → Option F
  to_float (number x) = some x
  to_float (numpy_number x) = some x
  to_float (boolean b) = some (of_bool b)
  to_float (numpy_boolean b) = some (of_bool b)
  to_float (other o) = o
