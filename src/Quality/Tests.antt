-- ===== src/Quality/Tests.antt =====
-- A frame with a gap of one slot and one of two, and the theorem there.
use auto_bit.Prelude.{none, [], ◌∷◌, List}
use auto_bit.Prelude.Int.{pos}
use auto_bit.Double.Fixed.{Fixed, num, fixed_double}
use auto_bit.Quality.{Candle, Slot, present, inserted, after_close, flat_candle, fill_gaps}
use auto_bit.Quality.Gaps.{IsFilledFrom, fill_gaps-IsFilledFrom}

abbrev candle : Candle Fixed
candle = flat_candle (num (pos 7000000))

abbrev frame : List (Slot Fixed)
frame = present candle ∷ inserted ∷ present candle ∷ inserted ∷ inserted ∷ present candle ∷ []

fill_gaps-IsFilledFrom_example : IsFilledFrom none frame (fill_gaps (after_close none) 0 frame)
fill_gaps-IsFilledFrom_example = fill_gaps-IsFilledFrom frame
