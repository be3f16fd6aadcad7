-- ===== src/Broker/Stops/Trigger.antt =====
-- The stop that `process_intrabar_stop` of src/autobit/execution/paper_broker.py triggers, of the
-- open stops that the ledger has.
use mathlib.Core.List.{Mem}
use auto_bit.Prelude.{
  ◌≤◌, leb, keep, refl, All-zip, keep-passes, keep-All, All-Mem, All-keep, All-map, ℕ, ◌≡◌, ap, ◌⊎◌,
  inl, inr, true, false, Option, none, some, List, [], ◌∷◌, All, OnOk, OnOk-map, Option-cases, sym,
  arith, if_cases,
}
use mathlib.Core.Path.{subst}
use auto_bit.Double.{Double, ◌≼◌}
use auto_bit.Double.Laws.{IsDouble}
use auto_bit.Store.{Texts}
use auto_bit.Store.Orders.{Decimal}
use auto_bit.Broker.{Clock, Evidence, PaperStop}
use auto_bit.Broker.Stops.{last_stop, eligible, reference_of, stop_trigger}
use auto_bit.Broker.Stops.Ladder.{IsTighter, IsLadder, IsOrdered, keep-IsLadder, collect-guards}
use auto_bit.Broker.Collect.{Collected, collect, nothing_collected}

abbrev or_else {ℓ} : {A : Type ℓ} → A → Option A → A
or_else a none = a
or_else a (some b) = b

module _ {ℓ} {F : Type ℓ} where
  All-last {κ} :
      (P : PaperStop F → Type κ) (xs : List (PaperStop F)) (s : PaperStop F)
      → All P xs
      → last_stop xs ≡ some s
      → P s
  All-last P [] s h e = absurd (ground (arith, e))
  All-last P (t ∷ []) s (p, h) e = subst P (ap (or_else t) e) p
  All-last P (t ∷ u ∷ rest) s (p, h) e = All-last P (u ∷ rest) s h e

module _ {ℓ} {F : Type ℓ} ⦃m : Decimal F⦄ ⦃d : Double F⦄ where
  ladder_last :
      (xs : List (PaperStop F)) (s : PaperStop F)
      → IsLadder xs
      → last_stop xs ≡ some s
      → All (λ t. (t ≡ s) ⊎ IsTighter t s) xs
  ladder_last [] s h e = tt
  ladder_last (t ∷ []) s h e = (inl (ap (or_else t) e), tt)
  ladder_last (t ∷ u ∷ rest) s ((p, h)) e =
      (inr (All-last (IsTighter t) (u ∷ rest) s p e), ladder_last (u ∷ rest) s h e)

  no_last : (P : PaperStop F → Type 0) (xs : List (PaperStop F)) → last_stop xs ≡ none → All P xs
  no_last P [] e = tt
  no_last P (t ∷ []) e = absurd (ground (arith, e))
  no_last P (t ∷ u ∷ rest) e = absurd (ground (arith, (no_last (λ _. true ≡ false) (u ∷ rest) e).0))

-- The stops that are eligible are the open ones that are active by the time.
eligible-open {ℓ} :
    {F : Type ℓ} (candle_time : ℕ) (stops : List (PaperStop F))
    → All (λ t. (t.active_after ≤ candle_time) × Mem t stops) (eligible candle_time stops)
eligible-open {F = F} candle_time stops =
    let test = λ (t : PaperStop F). leb t.active_after candle_time in
    All-zip (keep test stops) (λ t p m. (ground (arith, p), m)) (keep-passes test stops)
      (keep-All (λ t. Mem t stops) test stops (All-Mem stops))

-- What holds of each eligible stop holds of each open one that is active by the time.
All-eligible {ℓ κ} :
    {F : Type ℓ} (P : PaperStop F → Type κ) (candle_time : ℕ) (stops : List (PaperStop F))
    → All P (eligible candle_time stops)
    → All (λ t. t.active_after ≤ candle_time → P t) stops
All-eligible P candle_time stops h =
    All-map stops (λ t f active. f (ground (arith, active)))
      (All-keep P (λ t. leb t.active_after candle_time) stops h)

module _ {ℓ} {F : Type ℓ} ⦃d : Double F⦄ where
  -- What a candle does with the open stops. `kept`: its low is above each stop that is active by
  -- its time. `triggered`: the stop is an open one that is active by that time, and no other such
  -- stop is above it. The reference is the open if that is not above the stop, and the stop else;
  -- it is from the low to the open.
  pub data Fires (stops : List (PaperStop F)) (candle_time : ℕ) (open_price low_price : F)
      : Option (PaperStop F × F) → Type ℓ where
    kept :
        All (λ t. t.active_after ≤ candle_time → (low_price ≼ t.stop_price) ≡ false) stops
        → Fires stops candle_time open_price low_price none
    triggered :
        (s : PaperStop F) (reference : F)
        → Mem s stops
        → s.active_after ≤ candle_time
        → All (λ t. t.active_after ≤ candle_time → (t.stop_price ≼ s.stop_price) ≡ true) stops
        → (low_price ≼ reference) ≡ true
        → (reference ≼ open_price) ≡ true
        → ((reference ≡ open_price) × ((open_price ≼ s.stop_price) ≡ true))
          ⊎ ((reference ≡ s.stop_price) × ((open_price ≼ s.stop_price) ≡ false))
        → Fires stops candle_time open_price low_price (some (s, reference))

-- What `decimal` says of `<` on converted floats: it is the order of the floats.
pub record IsReflected {ℓ} (F : Type ℓ) ⦃m : Decimal F⦄ ⦃d : Double F⦄ : Type ℓ where
  pub le_of_lt : (x y : F) → m.lt (m.of_float x) (m.of_float y) ≡ true → (x ≼ y) ≡ true

module _ {ℓ} {F : Type ℓ} ⦃m : Decimal F⦄ ⦃d : Double F⦄ (u : IsOrdered F) (w : IsReflected F)
    (v : IsDouble F) where
  none_above :
      (xs : List (PaperStop F)) (s : PaperStop F)
      → IsLadder xs
      → last_stop xs ≡ some s
      → (s.stop_price ≼ s.stop_price) ≡ true
      → All (λ t. (t.stop_price ≼ s.stop_price) ≡ true) xs
  none_above xs s h e r =
      All-map xs
        (λ t k. elim k [
          | inl p ↦ subst (λ u. (u.stop_price ≼ s.stop_price) ≡ true) (sym p) r
          | inr p ↦ w.le_of_lt t.stop_price s.stop_price p.0
        ])
        (ladder_last xs s h e)

  below_both : (t s low : F) → (t ≼ s) ≡ true → (low ≼ s) ≡ false → (low ≼ t) ≡ false
  below_both t s low h k = ground (arith, h, k, v.le_trans low t s)

  module _ (stops : List (PaperStop F)) (candle_time : ℕ) (open_price low_price : F)
      (low : (low_price ≼ open_price) ≡ true) where
    reference_of-Fires :
        (s : PaperStop F)
        → IsLadder (eligible candle_time stops)
        → last_stop (eligible candle_time stops) ≡ some s
        → Fires stops candle_time open_price low_price (reference_of (some s) open_price low_price)
    reference_of-Fires s h e =
        let xs = eligible candle_time stops in
        let P = Fires stops candle_time open_price low_price in
        let (active, member) = All-last _ xs s (eligible-open candle_time stops) e in
        let above = λ (r : (s.stop_price ≼ s.stop_price) ≡ true).
          All-eligible (λ t. (t.stop_price ≼ s.stop_price) ≡ true) candle_time stops
            (none_above xs s h e r) in
        if_cases P (open_price ≼ s.stop_price)
          (λ a.
            triggered s open_price member active (above (v.refl_of_le open_price s.stop_price a).1)
              low (v.refl_of_le low_price open_price low).1 (inl (refl, a)))
          (λ a.
            if_cases P (low_price ≼ s.stop_price)
              (λ b.
                let r = (v.refl_of_le low_price s.stop_price b).1 in
                let under : (s.stop_price ≼ open_price) ≡ true = ground (
                  arith,
                  v.le_of_lt s.stop_price open_price,
                  v.lt-eq-not-le s.stop_price open_price r,
                  v.refl_of_le low_price open_price low,
                ) in
                triggered s s.stop_price member active (above r) b under (inr (refl, a)))
              (λ b. kept (
                All-eligible (λ t. (low_price ≼ t.stop_price) ≡ false) candle_time stops
                  (All-map xs
                    (λ t k. elim k [
                      | inl p ↦ subst (λ u. (low_price ≼ u.stop_price) ≡ false) (sym p) b
                      | inr p ↦
                          below_both t.stop_price s.stop_price low_price
                            (w.le_of_lt t.stop_price s.stop_price p.0) b
                    ])
                    (ladder_last xs s h e)))))

    stop_trigger-Fires :
        IsLadder stops
        → Fires stops candle_time open_price low_price
            (stop_trigger candle_time open_price low_price stops)
    unfolding stop_trigger
    stop_trigger-Fires h =
        let xs = eligible candle_time stops in
        elim (Option-cases (last_stop xs)) [
          | inl e ↦ rw e (kept (All-eligible _ candle_time stops (no_last _ xs e)))
          | inr (s, e) ↦ rw e (reference_of-Fires s (keep-IsLadder _ stops h) e)
        ]

  -- Whatever the events are, if the first loop of `_build_ledger` accepts them, then a candle with
  -- a low that is no higher than its open triggers nothing only if its low is above every open
  -- stop that is active by the candle's time. What it triggers is an open stop, active by that
  -- time, that no other such stop is above. The reference is the open if the open is not above the
  -- stop, and the price of the stop if it is; it is from the low to the open.
  pub collect-triggers :
      ⦃x : Texts⦄ ⦃c : Clock⦄ (evidence : List (Evidence F)) (candle_time : ℕ)
      (open_price low_price : F)
      → (low_price ≼ open_price) ≡ true
      → OnOk
          (λ (s : Collected F).
            Fires s.stops.open_stops candle_time open_price low_price
              (stop_trigger candle_time open_price low_price s.stops.open_stops))
          (collect evidence nothing_collected)
  collect-triggers evidence candle_time open_price low_price low =
      OnOk-map (collect evidence nothing_collected)
        (λ s g. stop_trigger-Fires s.stops.open_stops candle_time open_price low_price low g.ladder)
        (collect-guards u evidence)
