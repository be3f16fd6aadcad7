-- ===== src/Risk/Rules.antt =====
-- The rules of `evaluate_risk`, one for each family of restrictions, in the order in which the
-- function applies them. A `Draft` holds its local variables.
use auto_bit.Prelude.{
  ℕ, ◌+◌, ◌*◌, Bool, true, false, not, ◌&&◌, Option, none, some, List, [], ◌∷◌, ◌++◌, ltb, leb,
  if◌then◌else◌,
}
use auto_bit.Double.{Double, ◌≼◌, ◌≺◌, ◌⊘◌, min, nought, two}
use auto_bit.Python.{microsecond_hour}
use auto_bit.Risk.Snapshot.{
  RiskReason, drawdown_halt, recovery, daily_loss_halt, daily_loss_reduced, weekly_loss_halt,
  weekly_loss_reduced, loss_streak_halt, loss_streak_reduced, volatility_halt, volatility_reduced,
  RiskDecision, approved_base_risk_rate, approved_max_exposure, approved_hard_drawdown,
  approved_daily_loss_limit, approved_weekly_reduce_limit, approved_weekly_halt_limit,
}

pub record Draft {ℓ} (F : Type ℓ) : Type ℓ where
  pub risk_rate : F
  pub exposure_cap : F
  pub reasons : List RiskReason
  pub halts : List (Option ℕ)

-- `max(finite_halts)`, if every halt has an end.
unfoldable pub latest : ℕ → List (Option ℕ) → Option ℕ
latest t [] = some t
latest t (none ∷ rest) = none
latest t (some u ∷ rest) = latest (if ltb t u then u else t) rest

abbrev pub latest_end : List (Option ℕ) → Option ℕ
latest_end [] = none
latest_end (none ∷ rest) = none
latest_end (some t ∷ rest) = latest t rest

module _ {ℓ} {F : Type ℓ} ⦃d : Double F⦄ where
  unfoldable pub drawdown_ladder : F → F × F
  drawdown_ladder drawdown =
      if d.lit 10 100 ≼ drawdown
      then (d.lit 5 1000, d.lit 30 100)
      else if d.lit 5 100 ≼ drawdown
      then (d.lit 1 100, d.lit 50 100)
      else (approved_base_risk_rate, approved_max_exposure)

  unfoldable pub recovery_ladder : F → F × F
  recovery_ladder drawdown =
      if d.lit 10 100 ≼ drawdown
      then (d.lit 25 10000, d.lit 15 100)
      else if d.lit 5 100 ≼ drawdown
      then (d.lit 5 1000, d.lit 30 100)
      else if nought ≺ drawdown
      then (d.lit 1 100, d.lit 50 100)
      else (approved_base_risk_rate, approved_max_exposure)

  -- `reasons.append(reason)` with `halts.append(expiry)`
  abbrev pub halt : RiskReason → Option ℕ → Draft F → Draft F
  halt reason expiry s = record s {
    reasons = s.reasons ++ reason ∷ [];
    halts = s.halts ++ expiry ∷ [];
  }

  abbrev pub note : RiskReason → Draft F → Draft F
  note reason s = record s { reasons = s.reasons ++ reason ∷ [] }

  -- `min(risk_rate, reduced_risk_rate)`, the same of the cap, and the reason.
  abbrev pub reduce : F × F → RiskReason → Draft F → Draft F
  reduce (rate, cap) reason s = record s {
    risk_rate = min s.risk_rate rate;
    exposure_cap = min s.exposure_cap cap;
    reasons = s.reasons ++ reason ∷ [];
  }

  abbrev pub start : F × F → Draft F
  start (rate, cap) = record { risk_rate = rate; exposure_cap = cap; reasons = []; halts = [] }

  unfoldable pub drawdown_rules : ℕ → F → Option ℕ → Draft F
  unfolding drawdown_ladder recovery_ladder
  drawdown_rules now drawdown none =
      let s = start (drawdown_ladder drawdown) in
      if approved_hard_drawdown ≼ drawdown
      then halt drawdown_halt (some (now + 72 * microsecond_hour)) s
      else s
  drawdown_rules now drawdown (some started) =
      let expiry = started + 72 * microsecond_hour in
      if ltb now expiry
      then halt drawdown_halt (some expiry) (start (drawdown_ladder drawdown))
      else let s = start (recovery_ladder drawdown) in
        if nought ≺ drawdown then note recovery s else s

  -- `reduced_risk_rate` and `reduced_exposure_cap`, fixed right after the drawdown rules.
  abbrev pub reduced : Draft F → F × F
  reduced s = (s.risk_rate ⊘ two, s.exposure_cap ⊘ two)

  unfoldable pub daily_rules : ℕ → F → Option ℕ → F × F → Draft F → Draft F
  daily_rules now loss none half s =
      if approved_daily_loss_limit ≼ loss
      then halt daily_loss_halt (some (now + 24 * microsecond_hour)) s
      else s
  daily_rules now loss (some started) half s =
      let expiry = started + 24 * microsecond_hour in
      if ltb now expiry
      then halt daily_loss_halt (some expiry) s
      else if approved_daily_loss_limit ≼ loss
      then reduce half daily_loss_reduced s
      else s

  unfoldable pub weekly_rules : ℕ → F → Option ℕ → F × F → Draft F → Draft F
  weekly_rules now loss none half s =
      if approved_weekly_halt_limit ≼ loss
      then halt weekly_loss_halt (some (now + 48 * microsecond_hour)) s
      else if approved_weekly_reduce_limit ≼ loss
      then reduce half weekly_loss_reduced s
      else s
  weekly_rules now loss (some started) half s =
      let expiry = started + 48 * microsecond_hour in
      if ltb now expiry
      then halt weekly_loss_halt (some expiry) s
      else if approved_weekly_reduce_limit ≼ loss
      then reduce half weekly_loss_reduced s
      else s

  unfoldable pub streak_rules : ℕ → ℕ → ℕ → Option ℕ → F × F → Draft F → Draft F
  streak_rules now losses profitable none half s =
      if leb 5 losses
      then halt loss_streak_halt (some (now + 48 * microsecond_hour)) s
      else if leb 3 losses
      then reduce half loss_streak_reduced s
      else s
  streak_rules now losses profitable (some started) half s =
      let expiry = started + 48 * microsecond_hour in
      if ltb now expiry
      then halt loss_streak_halt (some expiry) s
      else if ltb profitable 2
      then reduce half loss_streak_reduced s
      else s

  unfoldable pub volatility_rules : Bool → F → ℕ → F × F → Draft F → Draft F
  volatility_rules true ratio stable half s =
      if not ((ratio ≼ d.lit 15 10) && leb 3 stable) then halt volatility_halt none s else s
  volatility_rules false ratio stable half s =
      if d.lit 3 1 ≺ ratio
      then halt volatility_halt none s
      else if two ≺ ratio
      then reduce half volatility_reduced s
      else s

  unfoldable pub conclude : Draft F → RiskDecision F
  unfolding latest
  conclude s = elim s.halts [
    | [] ↦ record {
      risk_rate = s.risk_rate;
      exposure_cap = s.exposure_cap;
      halted_until = none;
      reasons = s.reasons;
    }
    | h ∷ rest ↦ record {
      risk_rate = nought;
      exposure_cap = nought;
      halted_until = latest_end (h ∷ rest);
      reasons = s.reasons;
    }
  ]
