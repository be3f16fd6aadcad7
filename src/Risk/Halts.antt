-- ===== src/Risk/Halts.antt =====
-- The reasons that `evaluate_risk` of src/autobit/risk/breakers.py gives for a drawdown halt.
use auto_bit.Prelude.{
  ℕ, ◌+◌, ◌*◌, ◌<◌, ◌≡◌, refl, Bool, true, false, Option, none, some, List, [], ◌∷◌, ◌++◌, ok, any,
  arith,
}
use auto_bit.Double.{Double, ◌≼◌}
use auto_bit.Python.{microsecond_hour}
use auto_bit.Risk.{
  RiskReason, drawdown_halt, daily_loss_halt, daily_loss_reduced, weekly_loss_halt,
  weekly_loss_reduced, loss_streak_halt, loss_streak_reduced, volatility_halt, volatility_reduced,
  RiskConfig, RiskSnapshot, Accepted, Draft, drawdown_rules, reduced, daily_rules, weekly_rules,
  streak_rules, volatility_rules, conclude, accept, restrict, evaluate_risk,
}

any-append :
    (test : RiskReason → Bool) (xs : List RiskReason) (r : RiskReason)
    → any test xs ≡ true
    → any test (xs ++ r ∷ []) ≡ true
any-append test [] r h = absurd (ground (arith, h))
any-append test (x ∷ xs) r h = ground (arith, h, any-append test xs r)

module _ {ℓ} {F : Type ℓ} ⦃d : Double F⦄ where
  -- The drawdown is at the hard limit with no halt started, or a halt is not 72 hours old.
  abbrev pub IsBreached : Accepted F → Option ℕ → Type 0
  IsBreached a none = (d.lit 15 100 ≼ a.drawdown) ≡ true
  IsBreached a (some started) = a.now < started + 72 * microsecond_hour

module _ {ℓ} {F : Type ℓ} ⦃d : Double F⦄ (test : RiskReason → Bool) where
  -- A reason that passes the test was noted.
  abbrev IsNoted : Draft F → Type 0
  IsNoted s = any test s.reasons ≡ true

  module _ (now : ℕ) (half : F × F) (s : Draft F) (h : IsNoted s) where
    daily_rules-IsNoted : (x : F) (started : Option ℕ) → IsNoted (daily_rules now x started half s)
    unfolding daily_rules
    daily_rules-IsNoted x none = ground (
      arith,
      h,
      any-append test s.reasons daily_loss_halt h,
      any-append test s.reasons daily_loss_reduced h,
    )
    daily_rules-IsNoted x (some t) = ground (
      arith,
      h,
      any-append test s.reasons daily_loss_halt h,
      any-append test s.reasons daily_loss_reduced h,
    )

    weekly_rules-IsNoted :
        (x : F) (started : Option ℕ) → IsNoted (weekly_rules now x started half s)
    unfolding weekly_rules
    weekly_rules-IsNoted x none = ground (
      arith,
      h,
      any-append test s.reasons weekly_loss_halt h,
      any-append test s.reasons weekly_loss_reduced h,
    )
    weekly_rules-IsNoted x (some t) = ground (
      arith,
      h,
      any-append test s.reasons weekly_loss_halt h,
      any-append test s.reasons weekly_loss_reduced h,
    )

    streak_rules-IsNoted :
        (losses profitable : ℕ) (started : Option ℕ)
        → IsNoted (streak_rules now losses profitable started half s)
    unfolding streak_rules
    streak_rules-IsNoted losses profitable none = ground (
      arith,
      h,
      any-append test s.reasons loss_streak_halt h,
      any-append test s.reasons loss_streak_reduced h,
    )
    streak_rules-IsNoted losses profitable (some t) = ground (
      arith,
      h,
      any-append test s.reasons loss_streak_halt h,
      any-append test s.reasons loss_streak_reduced h,
    )

    volatility_rules-IsNoted :
        (halted : Bool) (ratio : F) (stable : ℕ)
        → IsNoted (volatility_rules halted ratio stable half s)
    unfolding volatility_rules
    volatility_rules-IsNoted true ratio stable = ground (
      arith,
      h,
      any-append test s.reasons volatility_halt h,
      any-append test s.reasons volatility_reduced h,
    )
    volatility_rules-IsNoted false ratio stable = ground (
      arith,
      h,
      any-append test s.reasons volatility_halt h,
      any-append test s.reasons volatility_reduced h,
    )

  restrict-IsNoted :
      (a : Accepted F)
      → IsNoted (drawdown_rules a.now a.drawdown a.recovery_started_at)
      → IsNoted (restrict a)
  unfolding restrict
  restrict-IsNoted a h =
      let base = drawdown_rules a.now a.drawdown a.recovery_started_at in
      let half = reduced base in
      let h = daily_rules-IsNoted a.now half _ h a.daily_loss a.daily_halt_started_at in
      let h = weekly_rules-IsNoted a.now half _ h a.weekly_loss a.weekly_halt_started_at in
      let h =
        streak_rules-IsNoted a.now half _ h a.consecutive_losses
          a.profitable_trades_since_streak_halt a.streak_halt_started_at in
      volatility_rules-IsNoted a.now half _ h a.volatility_halted a.volatility_ratio
        a.volatility_stable_bars

  conclude-reasons : (s : Draft F) → (conclude s).reasons ≡ s.reasons
  unfolding conclude
  conclude-reasons s = cases s.halts refl
    where
      cases : (halts : List (Option ℕ)) → s.halts ≡ halts → (conclude s).reasons ≡ s.reasons
      cases [] e = ground (arith, e)
      cases (h ∷ rest) e = ground (arith, e)

  drawdown_rules-IsNoted :
      (a : Accepted F) (started : Option ℕ)
      → test drawdown_halt ≡ true
      → IsBreached a started
      → IsNoted (drawdown_rules a.now a.drawdown started)
  unfolding drawdown_rules
  drawdown_rules-IsNoted a none p h = ground (arith, p, h)
  drawdown_rules-IsNoted a (some t) p h = ground (arith, p, h)

  pub breached-IsNoted :
      (facts : RiskSnapshot F) (config : RiskConfig F) (a : Accepted F)
      → test drawdown_halt ≡ true
      → accept facts config ≡ ok a
      → IsBreached a a.recovery_started_at
      → any test (evaluate_risk facts config).reasons ≡ true
  unfolding evaluate_risk
  breached-IsNoted facts config a p h breached = rw h (
      rw (conclude-reasons (restrict a))
        (restrict-IsNoted a (drawdown_rules-IsNoted a a.recovery_started_at p breached)))
