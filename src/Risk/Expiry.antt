-- ===== src/Risk/Expiry.antt =====
-- When the halts of src/autobit/risk/breakers.py end.
use auto_bit.Prelude.{
  ℕ, ◌+◌, ◌*◌, ◌<◌, Bool, true, false, ◌≡◌, Option, none, some, List, [], ◌∷◌, ◌++◌, arith, ltb,
  if_both, All, ok, if◌then◌else◌,
}
use mathlib.Core.Path.{subst}
use auto_bit.Double.{Double}
use auto_bit.Python.{microsecond_hour}
use auto_bit.Risk.{
  RiskConfig, RiskSnapshot, Accepted, Draft, drawdown_rules, reduced, daily_rules, weekly_rules,
  streak_rules, volatility_rules, latest, latest_end, conclude, accept, restrict, evaluate_risk,
}

-- A halt that has an end ends after `now`.
abbrev EndsAfter : ℕ → Option ℕ → Type 0
EndsAfter now none = Unit
EndsAfter now (some t) = now < t

All-append {ℓ κ} :
    {A : Type ℓ} (P : A → Type κ) (xs : List A) {y : A} → All P xs → P y → All P (xs ++ y ∷ [])
All-append P [] h p = (p, tt)
All-append P (x ∷ xs) h p = (h.0, All-append P xs h.1 p)

latest_after :
    (now t : ℕ) (halts : List (Option ℕ))
    → now < t
    → All (EndsAfter now) halts
    → EndsAfter now (latest t halts)
unfolding latest
latest_after now t [] h a = h
latest_after now t (none ∷ rest) h a = tt
latest_after now t (some u ∷ rest) h a =
    latest_after now (if ltb t u then u else t) rest (if_both (λ v. now < v) (ltb t u) a.0 h) a.1

latest_end_after :
    (now : ℕ) (halts : List (Option ℕ))
    → All (EndsAfter now) halts
    → EndsAfter now (latest_end halts)
latest_end_after now [] a = tt
latest_end_after now (none ∷ rest) a = tt
latest_end_after now (some t ∷ rest) a = latest_after now t rest a.0 a.1

halted_until-conclude {ℓ} :
    {F : Type ℓ} ⦃d : Double F⦄ (s : Draft F) → (conclude s).halted_until ≡ latest_end s.halts
unfolding conclude
halted_until-conclude s = ground arith

module _ {ℓ} {F : Type ℓ} ⦃d : Double F⦄ (now : ℕ) where
  abbrev AllLater : Draft F → Type 0
  AllLater s = All (EndsAfter now) s.halts

  drawdown_rules-AllLater : (x : F) (started : Option ℕ) → AllLater (drawdown_rules now x started)
  unfolding drawdown_rules
  drawdown_rules-AllLater x none = ground arith
  drawdown_rules-AllLater x (some t) = ground arith

  module _ (half : F × F) (s : Draft F) (v : AllLater s) where
    appended :
        (expiry : Option ℕ) → EndsAfter now expiry → All (EndsAfter now) (s.halts ++ expiry ∷ [])
    appended expiry h = All-append (EndsAfter now) s.halts v h

    daily_rules-AllLater :
        (x : F) (started : Option ℕ) → AllLater (daily_rules now x started half s)
    unfolding daily_rules
    daily_rules-AllLater x none =
        ground (arith, appended (some (now + 24 * microsecond_hour)) (omega arith))
    daily_rules-AllLater x (some t) = ground (arith, appended (some (t + 24 * microsecond_hour)))

    weekly_rules-AllLater :
        (x : F) (started : Option ℕ) → AllLater (weekly_rules now x started half s)
    unfolding weekly_rules
    weekly_rules-AllLater x none =
        ground (arith, appended (some (now + 48 * microsecond_hour)) (omega arith))
    weekly_rules-AllLater x (some t) = ground (arith, appended (some (t + 48 * microsecond_hour)))

    streak_rules-AllLater :
        (losses profitable : ℕ) (started : Option ℕ)
        → AllLater (streak_rules now losses profitable started half s)
    unfolding streak_rules
    streak_rules-AllLater losses profitable none =
        ground (arith, appended (some (now + 48 * microsecond_hour)) (omega arith))
    streak_rules-AllLater losses profitable (some t) =
        ground (arith, appended (some (t + 48 * microsecond_hour)))

    volatility_rules-AllLater :
        (halted : Bool) (ratio : F) (stable : ℕ)
        → AllLater (volatility_rules halted ratio stable half s)
    unfolding volatility_rules
    volatility_rules-AllLater true ratio stable = ground (arith, appended none tt)
    volatility_rules-AllLater false ratio stable = ground (arith, appended none tt)

  conclude_after : (s : Draft F) → AllLater s → EndsAfter now (conclude s).halted_until
  conclude_after s v = rw (halted_until-conclude s) (latest_end_after now s.halts v)

module _ {ℓ} {F : Type ℓ} ⦃d : Double F⦄ where
  restrict-AllLater : (a : Accepted F) → AllLater a.now (restrict a)
  unfolding restrict
  restrict-AllLater a =
      let base = drawdown_rules a.now a.drawdown a.recovery_started_at in
      let half = reduced base in
      let v = drawdown_rules-AllLater a.now a.drawdown a.recovery_started_at in
      let v = daily_rules-AllLater a.now half _ v a.daily_loss a.daily_halt_started_at in
      let v = weekly_rules-AllLater a.now half _ v a.weekly_loss a.weekly_halt_started_at in
      let v =
        streak_rules-AllLater a.now half _ v a.consecutive_losses
          a.profitable_trades_since_streak_halt a.streak_halt_started_at in
      volatility_rules-AllLater a.now half _ v a.volatility_halted a.volatility_ratio
        a.volatility_stable_bars

  -- The halt of an accepted snapshot ends strictly after the snapshot's own time, if it has an
  -- end: no decision reports a halt that is already over.
  pub halted_until_future :
      (s : RiskSnapshot F) (config : RiskConfig F) (a : Accepted F) (t : ℕ)
      → accept s config ≡ ok a
      → (evaluate_risk s config).halted_until ≡ some t
      → a.now < t
  unfolding evaluate_risk
  halted_until_future s config a t e h =
      subst (EndsAfter a.now) (rw e at h) (conclude_after a.now (restrict a) (restrict-AllLater a))
