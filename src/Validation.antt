-- ===== src/Validation.antt =====
-- src/autobit/validation/policy.py: the inputs of the validation after the out-of-sample run, and
-- the status that the fixed thresholds give them.
pub mod Policy
mod Tests
use auto_bit.Prelude.{
  ℕ, Bool, true, false, not, ◌&&◌, ◌||◌, Option, none, some, List, [], ◌∷◌, Result, ok, err, ◌>>=◌,
  ◌>>◌, raise_if, or_raise, if◌then◌else◌, ◌==◌, any, is_nonempty, map,
}
use auto_bit.Prelude.Int.{ℤ, pos, ltb_ℤ}
use auto_bit.Double.{Double, ◌≼◌, ◌≺◌, ◌⊖◌, nought, one, two}
use auto_bit.Python.{Value, number, numpy_number, boolean, numpy_boolean, other}

-- `trade_count` before its guard: an `Integral` that is no `bool`, or another value.
pub data Count : Type 0 where
  integral : ℤ → Count
  no_integral : Count

-- The arguments of `ValidationInputs`; `None` is `none` where it is allowed.
pub record Evidence {ℓ} (F : Type ℓ) : Type ℓ where
  pub oos_net_return : Value F
  pub sharpe : Value F
  pub profit_factor : Value F
  pub max_drawdown : Value F
  pub trade_count : Count
  pub dsr : Value F
  pub pbo : Option (Value F)
  pub positive_expectancy_fold_ratio : Value F
  pub max_fold_profit_share : Value F
  pub train_test_sharpe_ratio : Option (Value F)
  pub stress_survived : Value F

-- A `ValidationInputs` whose `__post_init__` has returned.
pub record ValidationInputs {ℓ} (F : Type ℓ) : Type ℓ where
  pub oos_net_return : F
  pub sharpe : F
  pub profit_factor : F
  pub max_drawdown : F
  pub trade_count : ℤ
  pub dsr : F
  pub pbo : Option F
  pub positive_expectancy_fold_ratio : F
  pub max_fold_profit_share : F
  pub train_test_sharpe_ratio : Option F
  pub stress_survived : Bool

-- `ValueError`
pub data Invalid : Type 0 where
  value_error : Invalid

pub data Status : Type 0 where
  pass review reject insufficient_statistics : Status

-- The reason codes.
pub data Reason : Type 0 where
  oos_net_return_failed sharpe_failed profit_factor_failed max_drawdown_failed trade_count_failed
        dsr_failed pbo_unavailable pbo_failed positive_expectancy_fold_ratio_failed
        max_fold_profit_share_failed train_test_sharpe_ratio_unavailable
        train_test_sharpe_ratio_failed stress_survived_failed :
      Reason

pub record ValidationDecision : Type 0 where
  pub status : Status
  pub reasons : List Reason

abbrev require_count : Count → Result Invalid ℤ
require_count no_integral = err value_error
require_count (integral n) = raise_if (ltb_ℤ n (pos 0)) value_error >> ok n

module _ {ℓ} {F : Type ℓ} ⦃d : Double F⦄ where
  abbrev real : Value F → Option F
  real (number v) = some v
  real (numpy_number v) = some v
  real _ = none

  -- `_require_finite_real`
  unfoldable pub require_finite_real : Value F → Result Invalid F
  require_finite_real value = do
    converted ← or_raise (real value) value_error
    raise_if (not (d.is_finite converted)) value_error
    ok converted

  abbrev require_nonnegative : Value F → Result Invalid F
  require_nonnegative raw = do
    value ← require_finite_real raw
    raise_if (value ≺ nought) value_error
    ok value

  abbrev require_unit : Value F → Result Invalid F
  require_unit raw = do
    value ← require_finite_real raw
    raise_if (not (nought ≼ value && value ≼ one)) value_error
    ok value

  abbrev if_given : (Value F → Result Invalid F) → Option (Value F) → Result Invalid (Option F)
  if_given require none = ok none
  if_given require (some raw) = do value ← require raw; ok (some value)

  abbrev require_bool : Value F → Result Invalid Bool
  require_bool (boolean b) = ok b
  require_bool _ = err value_error

  -- `ValidationInputs.__post_init__`
  unfoldable pub validation_inputs : Evidence F → Result Invalid (ValidationInputs F)
  unfolding require_finite_real
  validation_inputs e = do
    net ← require_finite_real e.oos_net_return
    raise_if (net ≺ nought ⊖ one) value_error
    ratio ← require_finite_real e.sharpe
    factor ← require_nonnegative e.profit_factor
    train_test ← if_given require_nonnegative e.train_test_sharpe_ratio
    drawdown ← require_unit e.max_drawdown
    deflated ← require_unit e.dsr
    folds ← require_unit e.positive_expectancy_fold_ratio
    share ← require_unit e.max_fold_profit_share
    overfit ← if_given require_unit e.pbo
    count ← require_count e.trade_count
    survived ← require_bool e.stress_survived
    ok (record {
      oos_net_return = net;
      sharpe = ratio;
      profit_factor = factor;
      max_drawdown = drawdown;
      trade_count = count;
      dsr = deflated;
      pbo = overfit;
      positive_expectancy_fold_ratio = folds;
      max_fold_profit_share = share;
      train_test_sharpe_ratio = train_test;
      stress_survived = survived;
    })

  abbrev pub pbo_failure : Option F → Reason × Bool
  pbo_failure none = (pbo_unavailable, true)
  pbo_failure (some p) = (pbo_failed, d.lit 30 100 ≼ p)

  abbrev pub ratio_failure : Option F → Reason × Bool
  ratio_failure none = (train_test_sharpe_ratio_unavailable, true)
  ratio_failure (some r) = (train_test_sharpe_ratio_failed, two ≼ r)

  -- Every threshold with whether it is missed.
  unfoldable pub failures : ValidationInputs F → List (Reason × Bool)
  failures v =
      (oos_net_return_failed, v.oos_net_return ≺ nought)
      ∷ (sharpe_failed, v.sharpe ≼ one)
      ∷ (profit_factor_failed, v.profit_factor ≼ d.lit 15 10)
      ∷ (max_drawdown_failed, d.lit 15 100 ≺ v.max_drawdown)
      ∷ (trade_count_failed, ltb_ℤ v.trade_count (pos 100))
      ∷ (dsr_failed, v.dsr ≺ d.lit 95 100)
      ∷ pbo_failure v.pbo
      ∷ (positive_expectancy_fold_ratio_failed, v.positive_expectancy_fold_ratio ≺ d.lit 60 100)
      ∷ (max_fold_profit_share_failed, d.lit 50 100 ≼ v.max_fold_profit_share)
      ∷ ratio_failure v.train_test_sharpe_ratio
      ∷ (stress_survived_failed, not v.stress_survived)
      ∷ []

  abbrev pub at_least_half : Option F → Bool
  at_least_half none = false
  at_least_half (some p) = d.lit 50 100 ≼ p

  unfoldable pub hard_reject : ValidationInputs F → Bool
  hard_reject v =
      v.oos_net_return ≺ nought
      || v.sharpe ≼ nought
      || v.profit_factor ≼ one
      || d.lit 15 100 ≺ v.max_drawdown
      || v.dsr ≺ d.lit 50 100
      || at_least_half v.pbo

unfoldable pub reasons_of : List (Reason × Bool) → List Reason
reasons_of [] = []
reasons_of ((reason, failed) ∷ rest) = elim failed [
  | true ↦ reason ∷ reasons_of rest
  | false ↦ reasons_of rest
]

-- The status, from the hard rejection, a sample under 100 trades, and a missed threshold.
abbrev pub status_from : Bool → Bool → Bool → Status
status_from hard small missed =
    if hard
    then reject
    else if small
    then insufficient_statistics
    else if missed
    then review
    else pass

module _ {ℓ} {F : Type ℓ} ⦃d : Double F⦄ where
  abbrev pub status_of : ValidationInputs F → Status
  status_of v =
      status_from (hard_reject v) (ltb_ℤ v.trade_count (pos 100))
        (is_nonempty (reasons_of (failures v)))

abbrev pub code : Reason → ℕ
code oos_net_return_failed = 0
code sharpe_failed = 1
code profit_factor_failed = 2
code max_drawdown_failed = 3
code trade_count_failed = 4
code dsr_failed = 5
code pbo_unavailable = 6
code pbo_failed = 7
code positive_expectancy_fold_ratio_failed = 8
code max_fold_profit_share_failed = 9
code train_test_sharpe_ratio_unavailable = 10
code train_test_sharpe_ratio_failed = 11
code stress_survived_failed = 12

-- `len(set(reasons)) == len(reasons)`
abbrev pub all_unique : List Reason → Bool
all_unique [] = true
all_unique (r ∷ rest) = not (any (λ s. code s == code r) rest) && all_unique rest

abbrev pub is_pass : Status → Bool
is_pass pass = true
is_pass _ = false

-- `ValidationDecision.__post_init__`; the status and the codes are known ones by their types.
unfoldable pub validation_decision : Status → List Reason → Result Invalid ValidationDecision
validation_decision status reasons = do
  raise_if (not (all_unique reasons)) value_error
  raise_if (is_pass status && is_nonempty reasons) value_error
  ok (record { status = status; reasons = reasons })

unfoldable pub classify_validation {ℓ} :
    {F : Type ℓ} ⦃d : Double F⦄ → ValidationInputs F → Result Invalid ValidationDecision
unfolding validation_decision
classify_validation v = validation_decision (status_of v) (reasons_of (failures v))
