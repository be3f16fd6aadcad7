-- ===== src/Validation/Policy.antt =====
-- What `classify_validation` of src/autobit/validation/policy.py decides.
use auto_bit.Prelude.{
  ℕ, ◌*◌, ◌≤◌, ◌<◌, ◌≡◌, ◌↔◌, refl, sym, ◌∙◌, ap, Bool, true, false, not, ◌&&◌, ◌||◌, Option, none,
  some, List, [], ◌∷◌, Result, ok, err, arith, All, Bool-cases, is_nonempty, any, ◌==◌,
  raise_if-pass,
}
use auto_bit.Prelude.Int.{ltb_ℤ, pos}
use auto_bit.Double.{Double, ◌≼◌, ◌≺◌, nought, one}
use auto_bit.Double.Laws.{IsDouble, lt_of_lt-le}
use auto_bit.Validation.{
  ValidationInputs, Status, pass, Reason, ValidationDecision, failures, hard_reject, reasons_of,
  status_of, status_from, value_error, Invalid, all_unique, validation_decision,
  classify_validation, at_least_half, pbo_failure, ratio_failure, code, is_pass,
}

-- No entry of the code's list is a miss.
abbrev NoFailure {ℓ} : {F : Type ℓ} ⦃d : Double F⦄ → ValidationInputs F → Type 0
NoFailure v = All (λ (f : Reason × Bool). f.1 ≡ false) (failures v)

-- A value is given, and the predicate holds of it.
abbrev Given {ℓ} : {F : Type ℓ} → (F → Type 0) → Option F → Type 0
Given P none = ⊥
Given P (some x) = P x

-- The eleven thresholds. A bound that a value must pass strictly is written as the failure of the
-- comparison the other way, which is the same for finite values.
pub record AllMet {ℓ} {F : Type ℓ} ⦃d : Double F⦄ (v : ValidationInputs F) : Type 0 where
  pub net_return : (v.oos_net_return ≺ nought) ≡ false
  pub sharpe_over_one : (v.sharpe ≼ one) ≡ false
  pub profit_over_three_halves : (v.profit_factor ≼ d.lit 15 10) ≡ false
  pub drawdown_within : (d.lit 15 100 ≺ v.max_drawdown) ≡ false
  pub hundred_trades : ltb_ℤ v.trade_count (pos 100) ≡ false
  pub deflated_sharpe : (v.dsr ≺ d.lit 95 100) ≡ false
  pub overfitting_under : Given (λ p. (d.lit 30 100 ≼ p) ≡ false) v.pbo
  pub positive_folds : (v.positive_expectancy_fold_ratio ≺ d.lit 60 100) ≡ false
  pub share_under_half : (d.lit 50 100 ≼ v.max_fold_profit_share) ≡ false
  pub sharpes_alike : Given (λ r. (d.lit 2 1 ≼ r) ≡ false) v.train_test_sharpe_ratio
  pub survived : v.stress_survived ≡ true

reasons_none :
    (fs : List (Reason × Bool))
    → All (λ (f : Reason × Bool). f.1 ≡ false) fs
    → is_nonempty (reasons_of fs) ≡ false
unfolding reasons_of
reasons_none [] h = refl
reasons_none ((r, true) ∷ fs) (h, hs) = absurd (ground (arith, h))
reasons_none ((r, false) ∷ fs) (h, hs) = reasons_none fs hs

none_met :
    (fs : List (Reason × Bool))
    → is_nonempty (reasons_of fs) ≡ false
    → All (λ (f : Reason × Bool). f.1 ≡ false) fs
unfolding reasons_of
none_met [] h = tt
none_met ((r, true) ∷ fs) h = absurd (ground (arith, h))
none_met ((r, false) ∷ fs) h = (refl, none_met fs h)

-- A reason of a list of failures stands in that list.
any_reason :
    (test : Reason → Bool) (fs : List (Reason × Bool))
    → any (λ (f : Reason × Bool). test f.0) fs ≡ false
    → any test (reasons_of fs) ≡ false
unfolding reasons_of
any_reason test [] h = refl
any_reason test ((r, true) ∷ fs) h = ground (arith, h, any_reason test fs)
any_reason test ((r, false) ∷ fs) h = any_reason test fs (ground (arith, h))

distinct : List (Reason × Bool) → Bool
distinct [] = true
distinct ((r, b) ∷ fs) = not (any (λ (f : Reason × Bool). code f.0 == code r) fs) && distinct fs

reasons_unique :
    (fs : List (Reason × Bool)) → distinct fs ≡ true → all_unique (reasons_of fs) ≡ true
unfolding distinct reasons_of
reasons_unique [] h = refl
reasons_unique ((r, true) ∷ fs) h =
    ground (arith, h, any_reason (λ s. code s == code r) fs, reasons_unique fs)
reasons_unique ((r, false) ∷ fs) h = reasons_unique fs (ground (arith, h))

pass_none : (hard small missed : Bool) → (is_pass (status_from hard small missed) && missed) ≡ false
pass_none hard small missed = ground arith

none_of_six :
    (a b c d e f : Bool)
    → a ≡ false
    → b ≡ false
    → c ≡ false
    → d ≡ false
    → e ≡ false
    → f ≡ false
    → (a || b || c || d || e || f) ≡ false
none_of_six a b c d e f p q r s t u = ground (arith, p, q, r, s, t, u)

passes :
    (hard small missed : Bool)
    → hard ≡ false
    → small ≡ false
    → missed ≡ false
    → status_from hard small missed ≡ pass
passes hard small missed p q r = ground (arith, p, q, r)

nonempty-nil : (rs : List Reason) → is_nonempty rs ≡ false → rs ≡ []
nonempty-nil [] h = refl
nonempty-nil (r ∷ rs) h = absurd (ground (arith, h))

decision_path :
    (status : Status) (reasons : List Reason)
    → status ≡ pass
    → reasons ≡ []
    → ◌≡◌ {A = ValidationDecision}
        (record { status = status; reasons = reasons })
        (record { status = pass; reasons = [] })
decision_path status reasons p q = rw p (rw q refl)

abbrev has_reasons : Result Invalid ValidationDecision → Bool
has_reasons (ok decision) = is_nonempty decision.reasons
has_reasons (err e) = true

module _ {ℓ} {F : Type ℓ} ⦃d : Double F⦄ where
  pbo_met : (p : Option F) → ((pbo_failure p).1 ≡ false) ↔ Given (λ x. (d.lit 30 100 ≼ x) ≡ false) p
  pbo_met none = (λ h. absurd (ground (arith, h)), λ h. absurd h)
  pbo_met (some p) = (λ h. h, λ h. h)

  ratio_met :
      (r : Option F) → ((ratio_failure r).1 ≡ false) ↔ Given (λ x. (d.lit 2 1 ≼ x) ≡ false) r
  ratio_met none = (λ h. absurd (ground (arith, h)), λ h. absurd h)
  ratio_met (some r) = (λ h. h, λ h. h)

  -- The code's list of failures has no miss exactly if the eleven thresholds are met.
  NoFailure-AllMet : (v : ValidationInputs F) → NoFailure v ↔ AllMet v
  unfolding failures
  NoFailure-AllMet v = (
    λ (a, (b, (c, (e, (f, (g, (h, (i, (j, (k, (l, u))))))))))). record {
      net_return = a;
      sharpe_over_one = b;
      profit_over_three_halves = c;
      drawdown_within = e;
      hundred_trades = f;
      deflated_sharpe = g;
      overfitting_under = (pbo_met v.pbo).0 h;
      positive_folds = i;
      share_under_half = j;
      sharpes_alike = (ratio_met v.train_test_sharpe_ratio).0 k;
      survived = ground (arith, l);
    },
    λ met. (
      met.net_return,
      (
        met.sharpe_over_one,
        (
          met.profit_over_three_halves,
          (
            met.drawdown_within,
            (
              met.hundred_trades,
              (
                met.deflated_sharpe,
                (
                  (pbo_met v.pbo).1 met.overfitting_under,
                  (
                    met.positive_folds,
                    (
                      met.share_under_half,
                      (
                        (ratio_met v.train_test_sharpe_ratio).1 met.sharpes_alike,
                        (ap not met.survived, tt),
                      ),
                    ),
                  ),
                ),
              ),
            ),
          ),
        ),
      ),
    ),
  )

  count_met : (v : ValidationInputs F) → NoFailure v → ltb_ℤ v.trade_count (pos 100) ≡ false
  unfolding failures
  count_met v (net, (ratio, (factor, (drawdown, (count, more))))) = count

  failures-distinct :
      (v : ValidationInputs F) (p q : Option F)
      → v.pbo ≡ p
      → v.train_test_sharpe_ratio ≡ q
      → distinct (failures v) ≡ true
  unfolding distinct failures
  failures-distinct v none none e f = rw e (rw f refl)
  failures-distinct v none (some q) e f = rw e (rw f refl)
  failures-distinct v (some p) none e f = rw e (rw f refl)
  failures-distinct v (some p) (some q) e f = rw e (rw f refl)

  -- The constructor of the decision never raises: the reasons are distinct, and PASS has none.
  pub classify_validation-returns :
      (v : ValidationInputs F)
      → classify_validation v
        ≡ ok (record { status = status_of v; reasons = reasons_of (failures v) })
  unfolding classify_validation validation_decision
  classify_validation-returns v =
      let unique =
        reasons_unique (failures v)
          (failures-distinct v v.pbo v.train_test_sharpe_ratio refl refl) in
      raise_if-pass (not (all_unique (reasons_of (failures v)))) value_error _ (ap not unique) (
        raise_if-pass (is_pass (status_of v) && is_nonempty (reasons_of (failures v))) value_error _
          (pass_none (hard_reject v) (ltb_ℤ v.trade_count (pos 100))
            (is_nonempty (reasons_of (failures v))))
          refl)

  module _ (w : IsDouble F) where
    -- Above the higher bound is above the lower one.
    above :
        (n e k f : ℕ) (x : F)
        → 0 < e
        → 0 < f
        → n * f ≤ k * e
        → (x ≼ d.lit k f) ≡ false
        → (x ≼ d.lit n e) ≡ false
    above n e k f x p q h g = ground (
      arith,
      Bool-cases (x ≼ d.lit n e),
      w.le_trans x (d.lit n e) (d.lit k f),
      w.lit_mono n e k f p q h,
      g,
    )

    below :
        (n e k f : ℕ) (x : F)
        → 0 < e
        → 0 < f
        → n * f ≤ k * e
        → (d.lit n e ≼ x) ≡ false
        → (d.lit k f ≼ x) ≡ false
    below n e k f x p q h g = ground (
      arith,
      Bool-cases (d.lit k f ≼ x),
      w.le_trans (d.lit n e) (d.lit k f) x,
      w.lit_mono n e k f p q h,
      g,
    )

    under : (x : F) → (x ≺ d.lit 95 100) ≡ false → (x ≺ d.lit 50 100) ≡ false
    under x g = ground (
      arith,
      Bool-cases (x ≺ d.lit 50 100),
      lt_of_lt-le w x (d.lit 50 100) (d.lit 95 100),
      w.lit_mono 50 100 95 100 (omega arith) (omega arith) (omega arith),
      g,
    )

    half_missed : (p : Option F) → (pbo_failure p).1 ≡ false → at_least_half p ≡ false
    half_missed none h = refl
    half_missed (some p) h = below 30 100 50 100 p (omega arith) (omega arith) (omega arith) h

    NoFailure-accepted : (v : ValidationInputs F) → NoFailure v → hard_reject v ≡ false
    unfolding hard_reject failures
    NoFailure-accepted v
          (net, (ratio, (factor, (drawdown, (count, (deflated, (overfit, more))))))) =
        none_of_six (v.oos_net_return ≺ nought) (v.sharpe ≼ nought) (v.profit_factor ≼ one)
          (d.lit 15 100 ≺ v.max_drawdown) (v.dsr ≺ d.lit 50 100) (at_least_half v.pbo) net
          (above 0 1 1 1 v.sharpe (omega arith) (omega arith) (omega arith) ratio)
          (above 1 1 15 10 v.profit_factor (omega arith) (omega arith) (omega arith) factor)
          drawdown (under v.dsr deflated) (half_missed v.pbo overfit)

    NoFailure-passes :
        (v : ValidationInputs F)
        → NoFailure v
        → classify_validation v ≡ ok (record { status = pass; reasons = [] })
    NoFailure-passes v h =
        classify_validation-returns v
        ∙ ap ok (
            decision_path (status_of v) (reasons_of (failures v))
              (passes (hard_reject v) (ltb_ℤ v.trade_count (pos 100))
                (is_nonempty (reasons_of (failures v))) (NoFailure-accepted v h) (count_met v h)
                (reasons_none (failures v) h))
              (nonempty-nil (reasons_of (failures v)) (reasons_none (failures v) h)))

    -- PASS without a reason is exactly for inputs that meet the eleven thresholds: a net return of
    -- 0 or more, Sharpe ratio over 1, profit factor over 1.5, drawdown of at most 0.15, at least
    -- 100 trades, deflated Sharpe ratio of at least 0.95, a given PBO under 0.30, at least 0.60 of
    -- the folds positive, a fold's share of the profit under 0.50, a given ratio of the Sharpe
    -- ratios under 2, and the stress survived. The hard rejections and the test of the sample
    -- never turn such inputs away.
    pub classify_validation-pass :
        (v : ValidationInputs F)
        → (classify_validation v ≡ ok (record { status = pass; reasons = [] })) ↔ AllMet v
    classify_validation-pass v = (
      λ h. (NoFailure-AllMet v).0 (
          none_met (failures v) (
            ap (λ (r : Result Invalid ValidationDecision). has_reasons r)
              (sym (classify_validation-returns v) ∙ h))),
      λ met. NoFailure-passes v ((NoFailure-AllMet v).1 met),
    )
