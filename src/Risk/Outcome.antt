-- ===== src/Risk/Outcome.antt =====
-- What a decision of `evaluate_risk` (src/autobit/risk/breakers.py) amounts to.
use auto_bit.Prelude.{
  ℕ, Bool, true, false, ◌≡◌, refl, ◌⊎◌, inl, inr, Option, none, some, List, [], ◌∷◌, arith, any,
  if_both, OnError, OnError->>=, OnError-raise_if, OnError-or_raise, Result, ok, err,
}
use auto_bit.Double.{Double, ◌≼◌, nought}
use auto_bit.Double.Laws.{IsDouble}
use auto_bit.Risk.{
  RiskReason, RiskDecision, RiskConfig, RiskSnapshot, Accepted, Draft, drawdown_rules, reduced,
  daily_rules, weekly_rules, streak_rules, volatility_rules, conclude, accept, restrict, decision,
  evaluate_risk,
}
use auto_bit.Risk.Bounds.{
  blocks, IsSound, IsHalf, InLadder, drawdown_ladder-InLadder, recovery_ladder-InLadder,
  InLadder-IsHalf, start-IsSound, halt-IsSound, note-IsSound, reduce-IsSound,
}

module _ {ℓ} {F : Type ℓ} ⦃d : Double F⦄ where
  -- No new risk: both limits are zero and a reason says why.
  pub record Blocks (decision : RiskDecision F) : Type ℓ where
    pub no_rate : decision.risk_rate ≡ nought
    pub no_cap : decision.exposure_cap ≡ nought
    pub named : any blocks decision.reasons ≡ true

  -- Some risk, between the lowest reduced step and the approved limits, with no halt in force.
  pub record Allows (decision : RiskDecision F) : Type 0 where
    pub rate_low : (d.lit 25 20000 ≼ decision.risk_rate) ≡ true
    pub rate_high : (decision.risk_rate ≼ d.lit 2 100) ≡ true
    pub cap_low : (d.lit 15 200 ≼ decision.exposure_cap) ≡ true
    pub cap_high : (decision.exposure_cap ≼ d.lit 70 100) ≡ true
    pub unhalted : decision.halted_until ≡ none
    pub unnamed : any blocks decision.reasons ≡ false

  conclude-cases : (s : Draft F) → IsSound s → Blocks (conclude s) ⊎ Allows (conclude s)
  unfolding conclude
  conclude-cases s v = cases s.halts refl
    where
      cases :
          (halts : List (Option ℕ)) → s.halts ≡ halts → Blocks (conclude s) ⊎ Allows (conclude s)
      cases [] e = inr (ground (arith, v, e))
      cases (h ∷ rest) e = inl (ground (arith, v, e))

module _ {ℓ} {F : Type ℓ} ⦃d : Double F⦄ (w : IsDouble F) where
  drawdown_rules-InLadder :
      (now : ℕ) (x : F) (started : Option ℕ)
      → let s = drawdown_rules now x started in InLadder (s.risk_rate, s.exposure_cap)
  unfolding drawdown_rules
  drawdown_rules-InLadder now x none = ground (arith, drawdown_ladder-InLadder w x)
  drawdown_rules-InLadder now x (some t) =
      ground (arith, drawdown_ladder-InLadder w x, recovery_ladder-InLadder w x)

  drawdown_rules-IsSound :
      (now : ℕ) (x : F) (started : Option ℕ) → IsSound (drawdown_rules now x started)
  unfolding drawdown_rules
  drawdown_rules-IsSound now x none =
      let base = start-IsSound w _ (drawdown_ladder-InLadder w x) in
      if_both IsSound _ (halt-IsSound w _ _ _ refl base) base
  drawdown_rules-IsSound now x (some t) =
      let recovering = start-IsSound w _ (recovery_ladder-InLadder w x) in
      if_both IsSound _
        (halt-IsSound w _ _ _ refl (start-IsSound w _ (drawdown_ladder-InLadder w x)))
        (if_both IsSound _ (note-IsSound w _ _ refl recovering) recovering)

  module _ (half : F × F) (s : Draft F) (h : IsHalf half) (v : IsSound s) where
    daily_rules-IsSound :
        (now : ℕ) (x : F) (started : Option ℕ) → IsSound (daily_rules now x started half s)
    unfolding daily_rules
    daily_rules-IsSound now x none = if_both IsSound _ (halt-IsSound w _ _ s refl v) v
    daily_rules-IsSound now x (some t) =
        if_both IsSound _ (halt-IsSound w _ _ s refl v)
          (if_both IsSound _ (reduce-IsSound w half _ s refl h v) v)

    weekly_rules-IsSound :
        (now : ℕ) (x : F) (started : Option ℕ) → IsSound (weekly_rules now x started half s)
    unfolding weekly_rules
    weekly_rules-IsSound now x none =
        if_both IsSound _ (halt-IsSound w _ _ s refl v)
          (if_both IsSound _ (reduce-IsSound w half _ s refl h v) v)
    weekly_rules-IsSound now x (some t) =
        if_both IsSound _ (halt-IsSound w _ _ s refl v)
          (if_both IsSound _ (reduce-IsSound w half _ s refl h v) v)

    streak_rules-IsSound :
        (now losses profitable : ℕ) (started : Option ℕ)
        → IsSound (streak_rules now losses profitable started half s)
    unfolding streak_rules
    streak_rules-IsSound now losses profitable none =
        if_both IsSound _ (halt-IsSound w _ _ s refl v)
          (if_both IsSound _ (reduce-IsSound w half _ s refl h v) v)
    streak_rules-IsSound now losses profitable (some t) =
        if_both IsSound _ (halt-IsSound w _ _ s refl v)
          (if_both IsSound _ (reduce-IsSound w half _ s refl h v) v)

    volatility_rules-IsSound :
        (halted : Bool) (ratio : F) (stable : ℕ)
        → IsSound (volatility_rules halted ratio stable half s)
    unfolding volatility_rules
    volatility_rules-IsSound true ratio stable = if_both IsSound _ (halt-IsSound w _ _ s refl v) v
    volatility_rules-IsSound false ratio stable =
        if_both IsSound _ (halt-IsSound w _ _ s refl v)
          (if_both IsSound _ (reduce-IsSound w half _ s refl h v) v)

  restrict-IsSound : (a : Accepted F) → IsSound (restrict a)
  unfolding restrict
  restrict-IsSound a =
      let base = drawdown_rules a.now a.drawdown a.recovery_started_at in
      let half = reduced base in
      let h =
        InLadder-IsHalf w _ (drawdown_rules-InLadder a.now a.drawdown a.recovery_started_at) in
      let v = drawdown_rules-IsSound a.now a.drawdown a.recovery_started_at in
      let v = daily_rules-IsSound half _ h v a.now a.daily_loss a.daily_halt_started_at in
      let v = weekly_rules-IsSound half _ h v a.now a.weekly_loss a.weekly_halt_started_at in
      let v =
        streak_rules-IsSound half _ h v a.now a.consecutive_losses
          a.profitable_trades_since_streak_halt a.streak_halt_started_at in
      volatility_rules-IsSound half _ h v a.volatility_halted a.volatility_ratio
        a.volatility_stable_bars

  abbrev IsBlocking : RiskReason → Type 0
  IsBlocking r = blocks r ≡ true

  accept-IsBlocking : (s : RiskSnapshot F) (c : RiskConfig F) → OnError IsBlocking (accept s c)
  unfolding accept
  accept-IsBlocking s c = search (OnError->>=, OnError-raise_if, OnError-or_raise) depth 40

  -- `evaluate_risk` either blocks all new risk, with both limits zero and a reason that says so,
  -- or sets no halt and allows a risk rate from 0.00125 to 0.02 and an exposure cap from 0.075
  -- to 0.70. There is no third outcome, whatever the arguments are.
  pub evaluate_risk-outcome :
      (s : RiskSnapshot F) (config : RiskConfig F)
      → Blocks (evaluate_risk s config) ⊎ Allows (evaluate_risk s config)
  unfolding evaluate_risk
  evaluate_risk-outcome s config = cases (accept s config) (accept-IsBlocking s config)
    where
      cases :
          (r : Result RiskReason (Accepted F))
          → OnError IsBlocking r
          → Blocks (decision r) ⊎ Allows (decision r)
      cases (ok a) h = conclude-cases (restrict a) (restrict-IsSound a)
      cases (err e) h = inl (ground (arith, h))
