-- ===== src/Quality.antt =====
-- The gaps of src/autobit/data/quality.py: `_reindex_and_fill_single_gaps` on the four-hour grid,
-- and the candles that an entry may rest on. A frame is the list of the grid's slots, oldest
-- first; the reindexing itself, which finds the slots without a row, is pandas'.
pub mod Gaps
mod Tests
use auto_bit.Prelude.{
  ℕ, suc, ◌+◌, Bool, true, false, not, ◌&&◌, ◌||◌, Option, none, some, List, [], ◌∷◌, ◌==◌,
  if◌then◌else◌, any, keep,
}
use auto_bit.Double.{Double, ◌≼◌, nought}

-- A row after `_quarantine_invalid_values`; NaN is the float that is not `<=` itself.
pub record Candle {ℓ} (F : Type ℓ) : Type ℓ where
  pub open_price : F
  pub high : F
  pub low : F
  pub close : F
  pub volume : F
  pub is_quarantined : Bool

-- A slot of the grid: a row of the frame, or an inserted one.
pub data Slot {ℓ} (F : Type ℓ) : Type ℓ where
  present : Candle F → Slot F
  inserted : Slot F

-- A row of the result.
pub record Bar {ℓ} (F : Type ℓ) : Type ℓ where
  pub candle : Candle F
  pub is_filled : Bool
  pub segment_id : ℕ

-- Where the loop stands: after a slot with a close, which is `none` at the start, or in a gap that
-- is not filled.
pub data Place {ℓ} (F : Type ℓ) : Type ℓ where
  after_close : Option F → Place F
  in_gap : Place F

module _ {ℓ} {F : Type ℓ} ⦃d : Double F⦄ where
  -- `pd.notna`
  abbrev pub is_number : F → Bool
  is_number v = v ≼ v

  abbrev pub empty_candle : Candle F
  empty_candle = record {
    open_price = d.nan;
    high = d.nan;
    low = d.nan;
    close = d.nan;
    volume = d.nan;
    is_quarantined = false;
  }

  abbrev pub flat_candle : F → Candle F
  flat_candle price = record {
    open_price = price;
    high = price;
    low = price;
    close = price;
    volume = nought;
    is_quarantined = false;
  }

  abbrev pub bar : Candle F → Bool → ℕ → Bar F
  bar c filled segment = record { candle = c; is_filled = filled; segment_id = segment }

  -- The close that a gap of one slot is filled with.
  abbrev pub prior_close : Option F → Option F
  prior_close none = none
  prior_close (some price) = if is_number price then some price else none

  -- The loop `while position < len(result)`, from a place and a segment.
  unfoldable pub fill_gaps : Place F → ℕ → List (Slot F) → List (Bar F)
  fill_gaps place segment [] = []
  fill_gaps (after_close close) segment (present c ∷ rest) =
      bar c false segment ∷ fill_gaps (after_close (some c.close)) segment rest
  fill_gaps in_gap segment (present c ∷ rest) =
      bar c false (suc segment) ∷ fill_gaps (after_close (some c.close)) (suc segment) rest
  fill_gaps in_gap segment (inserted ∷ rest) =
      bar empty_candle false segment ∷ fill_gaps in_gap segment rest
  fill_gaps (after_close close) segment (inserted ∷ inserted ∷ rest) =
      bar empty_candle false segment ∷ fill_gaps in_gap segment (inserted ∷ rest)
  fill_gaps (after_close close) segment (inserted ∷ []) = elim (prior_close close) [
    | none ↦ bar empty_candle false segment ∷ []
    | some price ↦ bar (flat_candle price) true segment ∷ []
  ]
  fill_gaps (after_close close) segment (inserted ∷ present c ∷ rest) =
      let lost = fill_gaps in_gap segment (present c ∷ rest) in
      let filled = fill_gaps (after_close close) segment (present c ∷ rest) in
      elim (prior_close close) [
        | none ↦ bar empty_candle false segment ∷ lost
        | some price ↦ bar (flat_candle price) true segment ∷ filled
      ]
