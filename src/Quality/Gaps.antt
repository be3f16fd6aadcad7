-- ===== src/Quality/Gaps.antt =====
-- What the gap filling of src/autobit/data/quality.py makes of a frame.
use auto_bit.Prelude.{
  ℕ, suc, ◌≡◌, ◌⊎◌, inl, inr, refl, sym, ap, ◌∙◌, Bool, true, false, Option, none, some, List, [],
  ◌∷◌, Bool-cases, arith,
}
use mathlib.Core.Path.{subst}
use auto_bit.Double.{Double}
use auto_bit.Quality.{
  Candle, Slot, present, inserted, Bar, Place, after_close, in_gap, is_number, empty_candle,
  flat_candle, bar, prior_close, fill_gaps,
}

abbrev pub starts_present {ℓ} : {F : Type ℓ} → List (Slot F) → Bool
starts_present (inserted ∷ rest) = false
starts_present _ = true

module _ {ℓ} {F : Type ℓ} ⦃d : Double F⦄ where
  -- A bar that stands for a gap: nothing at all, or, in a gap of one slot, the close of the row
  -- just before it.
  pub record IsBlank (b : Bar F) : Type ℓ where
    pub unfilled : b.is_filled ≡ false
    pub empty : b.candle ≡ empty_candle

  pub record IsCarried (before : Option (Slot F)) (after : List (Slot F)) (b : Bar F) : Type ℓ where
    pub filled : b.is_filled ≡ true
    pub row : Candle F
    pub just_before : before ≡ some (present row)
    pub close_known : is_number row.close ≡ true
    pub flat : b.candle ≡ flat_candle row.close
    pub alone : starts_present after ≡ true

  -- The bars of a frame, after a slot: one for each slot, the rows unchanged.
  abbrev pub IsFilledFrom : Option (Slot F) → List (Slot F) → List (Bar F) → Type ℓ
  IsFilledFrom before [] [] = Unit
  IsFilledFrom before [] (b ∷ bars) = b ∷ bars ≡ []
  IsFilledFrom before (s ∷ slots) [] = s ∷ slots ≡ []
  IsFilledFrom before (present c ∷ slots) (b ∷ bars) =
      (b.candle ≡ c) × (b.is_filled ≡ false) × IsFilledFrom (some (present c)) slots bars
  IsFilledFrom before (inserted ∷ slots) (b ∷ bars) =
      (IsBlank b ⊎ IsCarried before slots b) × IsFilledFrom (some inserted) slots bars

  -- The place that the loop is in after a slot.
  abbrev Fits : Place F → Option (Slot F) → Type ℓ
  Fits (after_close none) before = Unit
  Fits (after_close (some price)) before =
      (c : Candle F) × (before ≡ some (present c)) × (c.close ≡ price)
  Fits in_gap before = Unit

  number_prior : (p price : F) → prior_close (some p) ≡ some price → is_number p ≡ true
  number_prior p price h = ground (arith, h, Bool-cases (is_number p))

  same_prior : (p price : F) → prior_close (some p) ≡ some price → p ≡ price
  same_prior p price h = ground (arith, h, Bool-cases (is_number p))

  carried :
      (before : Option (Slot F)) (close : Option F) (price : F) (after : List (Slot F))
      (segment : ℕ)
      → Fits (after_close close) before
      → prior_close close ≡ some price
      → starts_present after ≡ true
      → IsCarried before after
          (record { candle = flat_candle price; is_filled = true; segment_id = segment })
  carried before none price after segment f h alone = absurd (ground (arith, h))
  carried before (some p) price after segment (c, at, e) h alone = record {
    filled = refl;
    row = c;
    just_before = at;
    close_known = subst (λ v. is_number v ≡ true) (sym e) (number_prior p price h);
    flat = ap flat_candle (sym (e ∙ same_prior p price h));
    alone = alone;
  }

  filled_from :
      (place : Place F) (before : Option (Slot F)) (segment : ℕ) (slots : List (Slot F))
      → Fits place before
      → IsFilledFrom before slots (fill_gaps place segment slots)
  unfolding fill_gaps
  filled_from (after_close close) before segment [] f = tt
  filled_from in_gap before segment [] f = tt
  filled_from (after_close close) before segment (present c ∷ rest) f = (
    refl,
    refl,
    filled_from (after_close (some c.close)) (some (present c)) segment rest (c, refl, refl),
  )
  filled_from in_gap before segment (present c ∷ rest) f = (
    refl,
    refl,
    filled_from (after_close (some c.close)) (some (present c)) (suc segment) rest (c, refl, refl),
  )
  filled_from in_gap before segment (inserted ∷ rest) f = (
    inl (record { unfilled = refl; empty = refl }),
    filled_from in_gap (some inserted) segment rest tt,
  )
  filled_from (after_close close) before segment (inserted ∷ inserted ∷ rest) f = (
    inl (record { unfilled = refl; empty = refl }),
    filled_from in_gap (some inserted) segment (inserted ∷ rest) tt,
  )
  filled_from (after_close close) before segment (inserted ∷ []) f =
      elim (prior_close close)
          as (λ o.
            prior_close close ≡ o
            → IsFilledFrom before (inserted ∷ []) (elim o [
              | none ↦ bar empty_candle false segment ∷ []
              | some price ↦ bar (flat_candle price) true segment ∷ []
            ])) [
              | none ↦ λ h. (inl (record { unfilled = refl; empty = refl }), tt)
              | some price ↦ λ h. (inr (carried before close price [] segment f h refl), tt)
            ]
        refl
  filled_from (after_close close) before segment (inserted ∷ present c ∷ rest) f =
      let lost = fill_gaps in_gap segment (present c ∷ rest) in
      let filled = fill_gaps (after_close close) segment (present c ∷ rest) in
      elim (prior_close close)
          as (λ o.
            prior_close close ≡ o
            → IsFilledFrom before (inserted ∷ present c ∷ rest) (elim o [
              | none ↦ bar empty_candle false segment ∷ lost
              | some price ↦ bar (flat_candle price) true segment ∷ filled
            ])) [
              | none ↦ λ h. (
                inl (record { unfilled = refl; empty = refl }),
                (
                  refl,
                  refl,
                  filled_from (after_close (some c.close)) (some (present c)) (suc segment) rest
                      (c, refl, refl),
                ),
              )
              | some price ↦ λ h. (
                inr (carried before close price (present c ∷ rest) segment f h refl),
                (
                  refl,
                  refl,
                  filled_from (after_close (some c.close)) (some (present c)) segment rest
                      (c, refl, refl),
                ),
              )
            ]
        refl

  -- The result has one bar for each slot of the grid: each row unchanged, and for an inserted slot
  -- nothing, or, in a gap of one slot, the close of the row just before it, which is no NaN.
  pub fill_gaps-IsFilledFrom :
      (slots : List (Slot F)) → IsFilledFrom none slots (fill_gaps (after_close none) 0 slots)
  fill_gaps-IsFilledFrom slots = filled_from (after_close none) none 0 slots tt
