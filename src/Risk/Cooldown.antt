-- ===== src/Risk/Cooldown.antt =====
-- The 72 hours after a drawdown halt in src/autobit/risk/breakers.py.
use auto_bit.Prelude.{
  ℕ, ◌+◌, ◌*◌, ◌≤◌, ◌<◌, Bool, true, false, ◌≡◌, refl, Option, none, some, List, [], ◌∷◌, ◌++◌,
  arith, ltb, ok, if◌then◌else◌,
}
use auto_bit.Double.{Double, nought}
use auto_bit.Python.{microsecond_hour}
use auto_bit.Risk.{
  RiskDecision, RiskConfig, RiskSnapshot, Accepted, Draft, drawdown_rules, reduced, daily_rules,
  weekly_rules, streak_rules, volatility_rules, latest, conclude, accept, restrict, evaluate_risk,
}

-- The first halt that was noted.
abbrev IsFirst : Option ℕ → List (Option ℕ) → Type 0
IsFirst e [] = ⊥
IsFirst e (x ∷ xs) = x ≡ e

IsFirst-append :
    (e : Option ℕ) (xs : List (Option ℕ)) (y : Option ℕ) → IsFirst e xs → IsFirst e (xs ++ y ∷ [])
IsFirst-append e [] y h = absurd h
IsFirst-append e (x ∷ xs) y h = h

latest_ge : (t u : ℕ) (halts : List (Option ℕ)) → latest t halts ≡ some u → t ≤ u
unfolding latest
latest_ge t u [] e = ground arith
latest_ge t u (none ∷ rest) e = cc
latest_ge t u (some v ∷ rest) e = ground (arith, latest_ge (if ltb t v then v else t) u rest e)

module _ {ℓ} {F : Type ℓ} ⦃d : Double F⦄ (e : Option ℕ) where
  module _ (now : ℕ) (half : F × F) (s : Draft F) (h : IsFirst e s.halts) where
    daily_rules-IsFirst :
        (x : F) (started : Option ℕ) → IsFirst e (daily_rules now x started half s).halts
    unfolding daily_rules
    daily_rules-IsFirst x none =
        ground (arith, IsFirst-append e s.halts (some (now + 24 * microsecond_hour)) h)
    daily_rules-IsFirst x (some t) =
        ground (arith, IsFirst-append e s.halts (some (t + 24 * microsecond_hour)) h)

    weekly_rules-IsFirst :
        (x : F) (started : Option ℕ) → IsFirst e (weekly_rules now x started half s).halts
    unfolding weekly_rules
    weekly_rules-IsFirst x none =
        ground (arith, IsFirst-append e s.halts (some (now + 48 * microsecond_hour)) h)
    weekly_rules-IsFirst x (some t) =
        ground (arith, IsFirst-append e s.halts (some (t + 48 * microsecond_hour)) h)

    streak_rules-IsFirst :
        (losses profitable : ℕ) (started : Option ℕ)
        → IsFirst e (streak_rules now losses profitable started half s).halts
    unfolding streak_rules
    streak_rules-IsFirst losses profitable none =
        ground (arith, IsFirst-append e s.halts (some (now + 48 * microsecond_hour)) h)
    streak_rules-IsFirst losses profitable (some t) =
        ground (arith, IsFirst-append e s.halts (some (t + 48 * microsecond_hour)) h)

    volatility_rules-IsFirst :
        (halted : Bool) (ratio : F) (stable : ℕ)
        → IsFirst e (volatility_rules halted ratio stable half s).halts
    unfolding volatility_rules
    volatility_rules-IsFirst true ratio stable = ground (arith, IsFirst-append e s.halts none h)
    volatility_rules-IsFirst false ratio stable = ground (arith, IsFirst-append e s.halts none h)

  restrict-IsFirst :
      (a : Accepted F)
      → IsFirst e (drawdown_rules a.now a.drawdown a.recovery_started_at).halts
      → IsFirst e (restrict a).halts
  unfolding restrict
  restrict-IsFirst a h =
      let base = drawdown_rules a.now a.drawdown a.recovery_started_at in
      let half = reduced base in
      let h = daily_rules-IsFirst a.now half _ h a.daily_loss a.daily_halt_started_at in
      let h = weekly_rules-IsFirst a.now half _ h a.weekly_loss a.weekly_halt_started_at in
      let h =
        streak_rules-IsFirst a.now half _ h a.consecutive_losses
          a.profitable_trades_since_streak_halt a.streak_halt_started_at in
      volatility_rules-IsFirst a.now half _ h a.volatility_halted a.volatility_ratio
        a.volatility_stable_bars

module _ {ℓ} {F : Type ℓ} ⦃d : Double F⦄ where
  -- Both limits are zero, and the halt has no end or ends at `end` at the earliest.
  pub record HaltedUntil (end : ℕ) (decision : RiskDecision F) : Type ℓ where
    pub no_rate : decision.risk_rate ≡ nought
    pub no_cap : decision.exposure_cap ≡ nought
    pub lasts : (t : ℕ) → decision.halted_until ≡ some t → end ≤ t

  conclude-HaltedUntil :
      (end : ℕ) (s : Draft F) → IsFirst (some end) s.halts → HaltedUntil end (conclude s)
  unfolding conclude
  conclude-HaltedUntil end s h = cases s.halts refl
    where
      cases : (halts : List (Option ℕ)) → s.halts ≡ halts → HaltedUntil end (conclude s)
      cases [] e = absurd (rw e at h)
      cases (none ∷ rest) e = let h' : none ≡ some end = rw e at h in absurd (cc)
      cases (some t ∷ rest) e =
          let h' : some t ≡ some end = rw e at h in
          record {
            no_rate = ground (arith, e);
            no_cap = ground (arith, e);
            lasts = λ u q. ground (arith, e, latest_ge t u rest);
          }

  -- For 72 hours after a drawdown halt started, no accepted snapshot gets any risk rate or
  -- exposure, and a halt with an end lasts for the whole of the 72 hours, whatever the other
  -- rules say.
  pub drawdown_cooldown :
      (s : RiskSnapshot F) (config : RiskConfig F) (a : Accepted F) (started : ℕ)
      → accept s config ≡ ok a
      → a.recovery_started_at ≡ some started
      → a.now < started + 72 * microsecond_hour
      → HaltedUntil (started + 72 * microsecond_hour) (evaluate_risk s config)
  unfolding evaluate_risk drawdown_rules
  drawdown_cooldown s config a started e r before =
      let end = started + 72 * microsecond_hour in
      rw e (conclude-HaltedUntil end (restrict a) (restrict-IsFirst (some end) a (ground arith)))
