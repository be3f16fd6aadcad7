-- ===== src/Engine/Entering.antt =====
-- The entries of `StrategyEngine.decide` (src/autobit/core/engine.py), with the sizer and the
-- breakers under it.
use auto_bit.Prelude.{
  true, false, not, ◌≡◌, ◌≢◌, inl, inr, refl, Option, none, some, arith, ok, if_cases,
}
use auto_bit.Double.{Double, ◌≼◌, ◌≺◌, nought}
use auto_bit.Double.Laws.{IsDouble}
use auto_bit.Risk.Snapshot.{RiskSnapshot, RiskConfig}
use auto_bit.Risk.{evaluate_risk}
use auto_bit.Risk.Outcome.{Blocks}
use auto_bit.Sizing.{Sizes, SizeDecision, accept, calculate_size}
use auto_bit.Sizing.Limits.{Sized, calculate_size-outcome}
use auto_bit.Strategy.{close, atr}
use auto_bit.Engine.Leaving.{Managed, sold, untouched, moved, choose-Managed}
use auto_bit.Engine.{
  PositionContext, DecisionInput, Decision, buy, StrategyEngine, decide, choose, enter, place,
  may_enter, positive_value, entry_stop, size_request,
}

module _ {ℓ} {F : Type ℓ} ⦃d : Double F⦄ where
  -- A purchase: the guard lets an entry through, the row has a usable close and ATR, and the
  -- quantity is positive and is the sizer's, on values that the sizer accepts.
  pub record Bought (e : StrategyEngine F) (s : DecisionInput F) (r : Decision F) : Type ℓ where
    pub price : F
    pub range : F
    pub sizes : Sizes F
    pub flat : s.position ≡ none
    pub allowed : may_enter e s ≡ true
    pub accepted : accept (size_request e s price range) e.costs ≡ ok sizes
    pub bounded : Sized sizes (calculate_size (size_request e s price range) e.costs)
    pub sized : r.quantity ≡ (calculate_size (size_request e s price range) e.costs).quantity
    pub more : (nought ≺ r.quantity) ≡ true
    pub stop : r.next_stop ≡ some (entry_stop e price range)

  Managed-not-buy : (p : PositionContext F) (r : Decision F) → Managed p r → r.action ≢ buy
  Managed-not-buy p r (sold a q n) b = ground (arith, a, b)
  Managed-not-buy p r (untouched a q n) b = ground (arith, a, b)
  Managed-not-buy p r (moved x a q n m) b = ground (arith, a, b)

  module _ (w : IsDouble F) (e : StrategyEngine F) (s : DecisionInput F) where
    zero_not_positive : ◌≺◌ {F = F} nought nought ≡ false
    zero_not_positive =
        let zero = w.lit_mono 0 1 0 1 (omega arith) (omega arith) (omega arith) in
        rw (w.lt-eq-not-le nought nought zero zero) (rw zero refl)

    place-hold :
        (stop : F) (size : SizeDecision F)
        → size.quantity ≡ nought
        → (place e s stop size).action ≡ buy
        → ⊥
    place-hold stop size q b = ground (arith, q, b, zero_not_positive)

    place-more :
        (stop : F) (size : SizeDecision F)
        → (place e s stop size).action ≡ buy
        → ((place e s stop size).quantity ≡ size.quantity)
          × ((nought ≺ (place e s stop size).quantity) ≡ true)
          × ((place e s stop size).next_stop ≡ some stop)
    place-more stop size b = ground (arith, b)

    enter-Bought :
        (price range : Option F)
        → s.position ≡ none
        → may_enter e s ≡ true
        → (enter e s price range).action ≡ buy
        → Bought e s (enter e s price range)
    enter-Bought (some price) (some range) flat allowed b =
        let size = calculate_size (size_request e s price range) e.costs in
        let more = place-more (entry_stop e price range) size b in
        elim (calculate_size-outcome w (size_request e s price range) e.costs) [
          | inl invalid ↦ absurd (place-hold (entry_stop e price range) size (simp (invalid)) b)
          | inr (sizes, accepted, bounded) ↦ record {
            price = price;
            range = range;
            sizes = sizes;
            flat = flat;
            allowed = allowed;
            accepted = accepted;
            bounded = bounded;
            sized = more.0;
            more = more.1;
            stop = more.2;
          }
        ]
    enter-Bought _ _ flat allowed b = absurd (ground (arith, b))

    choose-Bought :
        (position : Option (PositionContext F))
        → s.position ≡ position
        → (choose e s position).action ≡ buy
        → Bought e s (choose e s position)
    choose-Bought none flat b =
        let P = λ (r : Decision F). r.action ≡ buy → Bought e s r in
        if_cases P (not (may_enter e s)) (λ refused b. absurd (ground (arith, b)))
          (λ allowed.
            enter-Bought (positive_value s.row close)
              (positive_value s.row (atr e.strategy.atr_period)) flat (ground (arith, allowed)))
          b
    choose-Bought (some p) held b = absurd (Managed-not-buy p _ (choose-Managed w e s p) b)

    -- Every purchase goes through the sizer: `decide` buys for a flat account only, when the entry
    -- guard holds, and then a positive quantity that is within all the sizer's limits.
    pub decide-Bought : (decide e s).action ≡ buy → Bought e s (decide e s)
    unfolding decide
    decide-Bought b = choose-Bought s.position refl b

  -- While `evaluate_risk` blocks new risk, `decide` on its decision buys nothing, whatever the
  -- row, the cash and the position are.
  pub blocked_never_buys :
      (w : IsDouble F) (e : StrategyEngine F) (s : DecisionInput F) (facts : RiskSnapshot F)
      (config : RiskConfig F)
      → s.risk ≡ evaluate_risk facts config
      → Blocks (evaluate_risk facts config)
      → (decide e s).action ≢ buy
  blocked_never_buys w e s facts config same blocks b =
      let bought = decide-Bought w e s b in
      let zero = w.lit_mono 0 1 0 1 (omega arith) (omega arith) (omega arith) in
      let rate : s.risk.risk_rate ≡ nought = rw same blocks.no_rate in
      let low : (s.risk.risk_rate ≼ nought) ≡ true = rw rate zero in
      ground (arith, bought.allowed, low)
