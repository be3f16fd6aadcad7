-- ===== src/Sizing.antt =====
-- src/autobit/risk/position_sizer.py: the size of a long entry, as the least of four limits. A
-- missing attribute of `costs` is left out, since `costs` is a `CostConfig`.
pub mod Limits
mod Tests
use auto_bit.Prelude.{
  Bool, true, false, ◌&&◌, ◌||◌, not, Option, none, some, List, [], ◌∷◌, any, Result, ok, err,
  ◌>>=◌, ◌>>◌, raise_if, or_raise, if◌then◌else◌,
}
use auto_bit.Double.{Double, ◌≼◌, ◌≺◌, ◌⊕◌, ◌⊖◌, ◌⊗◌, ◌⊘◌, min, nought, one}
use auto_bit.Python.{Value, boolean, to_float}

pub data Constraint : Type 0 where
  fixed volatility exposure cash invalid_input : Constraint

-- `SizeDecision`
pub record SizeDecision {ℓ} (F : Type ℓ) : Type ℓ where
  pub quantity : F
  pub binding_constraint : Constraint
  pub estimated_loss : F

-- `CostConfig` of src/autobit/config.py
pub record CostConfig {ℓ} (F : Type ℓ) : Type ℓ where
  pub fee_rate : Value F
  pub slippage_rate : Value F

-- The keyword arguments of `calculate_size`, `costs` aside.
pub record SizeRequest {ℓ} (F : Type ℓ) : Type ℓ where
  pub equity : Value F
  pub cash : Value F
  pub entry : Value F
  pub stop : Value F
  pub current_atr_pct : Value F
  pub baseline_atr_pct : Value F
  pub risk_rate : Value F
  pub exposure_cap : Value F

-- The arguments after `_finite_values` and the guards, the two costs among them.
pub record Sizes {ℓ} (F : Type ℓ) : Type ℓ where
  pub equity : F
  pub cash : F
  pub entry : F
  pub stop : F
  pub current_atr : F
  pub baseline_atr : F
  pub risk_rate : F
  pub exposure_cap : F
  pub fee_rate : F
  pub slippage_rate : F

module _ {ℓ} {F : Type ℓ} ⦃d : Double F⦄ where
  -- One value of `_finite_values`.
  abbrev pub finite_value : Value F → Option F
  finite_value (boolean b) = none
  finite_value v = elim (to_float v) [
    | none ↦ none
    | some x ↦ if d.is_finite x then some x else none
  ]

  -- `_invalid_decision`
  abbrev pub invalid_decision : SizeDecision F
  invalid_decision = record {
    quantity = nought;
    binding_constraint = invalid_input;
    estimated_loss = nought;
  }

  -- The guards of `calculate_size` up to the effective loss, in its order.
  unfoldable pub accept : SizeRequest F → CostConfig F → Result (SizeDecision F) (Sizes F)
  accept r c = do
    equity ← or_raise (finite_value r.equity) invalid_decision
    cash_value ← or_raise (finite_value r.cash) invalid_decision
    entry ← or_raise (finite_value r.entry) invalid_decision
    stop ← or_raise (finite_value r.stop) invalid_decision
    current_atr ← or_raise (finite_value r.current_atr_pct) invalid_decision
    baseline_atr ← or_raise (finite_value r.baseline_atr_pct) invalid_decision
    risk_rate ← or_raise (finite_value r.risk_rate) invalid_decision
    exposure_cap ← or_raise (finite_value r.exposure_cap) invalid_decision
    raise_if (any (λ x. x ≺ nought) (equity ∷ cash_value ∷ risk_rate ∷ exposure_cap ∷ []))
        invalid_decision
    raise_if (any (λ x. x ≼ nought) (entry ∷ stop ∷ current_atr ∷ baseline_atr ∷ []))
        invalid_decision
    raise_if (entry ≼ stop) invalid_decision
    fee_rate ← or_raise (finite_value c.fee_rate) invalid_decision
    slippage_rate ← or_raise (finite_value c.slippage_rate) invalid_decision
    raise_if (not (nought ≼ fee_rate && fee_rate ≺ one)) invalid_decision
    raise_if (not (nought ≼ slippage_rate && slippage_rate ≺ one)) invalid_decision
    ok (record {
      equity = equity;
      cash = cash_value;
      entry = entry;
      stop = stop;
      current_atr = current_atr;
      baseline_atr = baseline_atr;
      risk_rate = risk_rate;
      exposure_cap = exposure_cap;
      fee_rate = fee_rate;
      slippage_rate = slippage_rate;
    })

  abbrev pub expected_buy_fill : Sizes F → F
  expected_buy_fill s = s.entry ⊗ (one ⊕ s.slippage_rate)

  abbrev pub expected_stop_fill : Sizes F → F
  expected_stop_fill s = s.stop ⊗ (one ⊖ s.slippage_rate)

  abbrev pub effective_loss : Sizes F → F
  effective_loss s =
      expected_buy_fill s
      ⊖ expected_stop_fill s
      ⊕ expected_buy_fill s ⊗ s.fee_rate
      ⊕ expected_stop_fill s ⊗ s.fee_rate

  abbrev pub fixed_limit : Sizes F → F
  fixed_limit s = s.equity ⊗ s.risk_rate ⊘ effective_loss s

  abbrev pub volatility_limit : Sizes F → F
  volatility_limit s = fixed_limit s ⊗ min one (s.baseline_atr ⊘ s.current_atr)

  abbrev pub exposure_limit : Sizes F → F
  exposure_limit s = s.equity ⊗ s.exposure_cap ⊘ expected_buy_fill s

  abbrev pub cash_limit : Sizes F → F
  cash_limit s = s.cash ⊘ (expected_buy_fill s ⊗ (one ⊕ s.fee_rate))

  abbrev pub unusable : F → Bool
  unusable x = not (d.is_finite x) || x ≺ nought

  abbrev pub other_limits : Sizes F → List (Constraint × F)
  other_limits s =
      (volatility, volatility_limit s) ∷ (exposure, exposure_limit s) ∷ (cash, cash_limit s) ∷ []

  -- `candidates`
  abbrev pub limits : Sizes F → List (Constraint × F)
  limits s = (fixed, fixed_limit s) ∷ other_limits s

  -- `min(candidates, key=…)`: the first of the least.
  abbrev pub least : Constraint × F → List (Constraint × F) → Constraint × F
  least best [] = best
  least best (p ∷ rest) = least (if p.1 ≺ best.1 then p else best) rest

  abbrev pub binding : Sizes F → Constraint × F
  binding s = least (fixed, fixed_limit s) (other_limits s)

  -- The decision on a binding limit; a quantity that equals 0.0 becomes 0.0, also if it is -0.0.
  abbrev pub rounded : F → Constraint × F → SizeDecision F
  rounded loss (constraint, quantity) =
      if d.eq quantity nought
      then record { quantity = nought; binding_constraint = constraint; estimated_loss = nought }
      else record {
        quantity = quantity;
        binding_constraint = constraint;
        estimated_loss = quantity ⊗ loss;
      }

  abbrev pub bad_loss : Sizes F → Bool
  bad_loss s = not (d.is_finite (effective_loss s)) || effective_loss s ≼ nought

  abbrev pub bad_limit : Sizes F → Bool
  bad_limit s = any (λ p. unusable p.1) (limits s)

  abbrev pub bad_estimate : Sizes F → Bool
  bad_estimate s = not (d.is_finite ((binding s).1 ⊗ effective_loss s))

  -- The body of `calculate_size` after the effective loss is computed.
  unfoldable pub settle : Sizes F → Result (SizeDecision F) (SizeDecision F)
  settle s = do
    raise_if (bad_loss s) invalid_decision
    raise_if (bad_limit s) invalid_decision
    raise_if (bad_estimate s) invalid_decision
    ok (rounded (effective_loss s) (binding s))

  abbrev pub returned : Result (SizeDecision F) (SizeDecision F) → SizeDecision F
  returned (ok decision) = decision
  returned (err decision) = decision

  unfoldable pub calculate_size : SizeRequest F → CostConfig F → SizeDecision F
  unfolding accept settle
  calculate_size r c = returned (accept r c >>= settle)
