-- ===== src/Accumulation.antt =====
-- src/autobit/core/risk_state.py: the state that the breakers accumulate from bar to bar. The
-- records and the checks are in Accumulation/Facts.antt. The upper end of `datetime`'s range is
-- left out.
pub mod Facts
pub mod Streak
pub mod Advance
pub mod Recovery
mod Tests
use auto_bit.Prelude.{
  ℕ, ◌+◌, ◌*◌, ◌/◌, Bool, true, false, not, ◌&&◌, ◌||◌, Option, none, some, List, [], ◌∷◌, ◌++◌,
  Result, ok, err, ◌>>=◌, ◌>>◌, raise_if, or_raise, length, drop, keep, ltb, leb, ◌==◌, is_some,
  if◌then◌else◌,
}
use auto_bit.Prelude.Int.{ℤ, pos, ◌+ℤ◌, leb_ℤ}
use auto_bit.Double.{Double, ◌≼◌, ◌≺◌, ◌⊖◌, ◌⊘◌, max, nought, one, two}
use auto_bit.Python.{Value, number, boolean, TimeValue, aware, microsecond_day}
use auto_bit.Risk.Snapshot.{
  RiskReason, system_unhealthy, health_recovery_reduced, RiskDecision, RiskConfig, RiskSnapshot,
  refuse,
}
use auto_bit.Risk.{evaluate_risk}
use auto_bit.Accumulation.Facts.{
  RiskState, ClosedTrade, RiskObservation, RiskStateError, date_overflow, no_history, Checked, week,
  follows, set_start, clear_start, validate_observation,
}

-- `prior.daily_date or bar_at.date()`, and the same of `risk_started_at`.
abbrev pub or_bar : Option ℕ → ℕ → ℕ
or_bar none bar = bar
or_bar (some t) bar = t

abbrev pub as_argument : Option ℕ → Option TimeValue
as_argument none = none
as_argument (some t) = some (aware t)

module _ {ℓ} {F : Type ℓ} ⦃d : Double F⦄ where
  -- The loop over the new trades, for the streak and for the profitable trades.
  unfoldable pub count_losses : ℤ → List (ClosedTrade F) → ℤ
  count_losses losses [] = losses
  count_losses losses (trade ∷ rest) =
      count_losses (if trade.net_pnl ≺ nought then losses +ℤ pos 1 else pos 0) rest

  unfoldable pub count_profitable : Option ℕ → ℤ → List (ClosedTrade F) → ℤ
  count_profitable start profitable [] = profitable
  count_profitable start profitable (trade ∷ rest) =
      count_profitable start
        (if is_some start && nought ≺ trade.net_pnl && follows trade.exit_time start
          then profitable +ℤ pos 1
          else profitable)
        rest

  unfoldable pub loss_from_baseline : F → F → F
  loss_from_baseline equity baseline =
      if nought ≺ baseline then max nought (one ⊖ equity ⊘ baseline) else nought

  abbrev pub drawdown_from : F → F → F
  drawdown_from equity peak = if nought ≺ peak then max nought (one ⊖ equity ⊘ peak) else d.nan

  abbrev pub is_new_bar : RiskState F → ℕ → Bool
  is_new_bar s bar = elim s.last_risk_at [ none ↦ true | some t ↦ not (t == bar) ]

  abbrev pub history : RiskState F → ℕ → F → List (ℕ × F)
  history s bar equity =
      if is_new_bar s bar then s.equity_history ++ (bar, equity) ∷ [] else s.equity_history

  abbrev pub recent : ℕ → List (ℕ × F) → List (ℕ × F)
  recent bar = keep (λ item. leb bar (item.0 + week))

  abbrev first_equity : List (ℕ × F) → Result RiskStateError F
  first_equity [] = err no_history
  first_equity (item ∷ rest) = ok item.1

  -- `weekly_baseline`
  abbrev pub weekly_baseline : RiskState F → ℕ → F → Result RiskStateError F
  weekly_baseline s bar equity =
      if ltb bar (or_bar s.risk_started_at bar + week)
      then ok s.initial_equity
      else first_equity (recent bar (history s bar equity))

  abbrev pub daily_baseline : RiskState F → ℕ → F
  daily_baseline s bar =
      let today = bar / microsecond_day in
      if today == or_bar s.daily_date today then s.daily_baseline_equity else s.last_equity

  -- `volatility_halted` and `stable_bars` before the decision.
  abbrev pub volatility_step : RiskState F → RiskObservation F → Bool → Bool → Bool × ℤ
  volatility_step s o bar_valid new_bar =
      if s.volatility_halted && new_bar
      then (
        true,
        if bar_valid && o.volatility_ratio ≼ d.lit 15 10
            then s.volatility_stable_bars +ℤ pos 1
            else pos 0,
      )
      else if not s.volatility_halted && d.lit 3 1 ≺ o.volatility_ratio
      then (true, pos 0)
      else (s.volatility_halted, s.volatility_stable_bars)

  -- The state after the checks, with the weekly baseline.
  unfoldable pub commit : RiskState F → RiskObservation F → RiskConfig F → Checked → F → RiskState F
  commit s o config c weekly =
      let bar = c.bar_at in
      let trades = drop c.cursor o.closed_trades in
      let losses = count_losses s.consecutive_losses trades in
      let profits =
        count_profitable s.streak_halt_started_at s.profitable_trades_since_streak_halt trades in
      let peak = max s.equity_peak o.equity in
      let drawdown = drawdown_from o.equity peak in
      let daily_loss = loss_from_baseline o.equity (daily_baseline s bar) in
      let weekly_loss = loss_from_baseline o.equity weekly in
      let recovery = set_start s.recovery_started_at (config.hard_drawdown ≼ drawdown) bar in
      let daily = set_start s.daily_halt_started_at (config.daily_loss_limit ≼ daily_loss) bar in
      let weekly_start =
        set_start s.weekly_halt_started_at (config.weekly_halt_limit ≼ weekly_loss) bar in
      let streak_set = leb_ℤ (pos 5) losses && not (is_some s.streak_halt_started_at) in
      let streak = set_start s.streak_halt_started_at (leb_ℤ (pos 5) losses) bar in
      let profitable = if streak_set then pos 0 else profits in
      let volatility = volatility_step s o c.bar_valid (is_new_bar s bar) in
      let streak_over = clear_start streak 48 bar (leb_ℤ (pos 2) profitable) in
      let volatility_over =
        volatility.0
        && c.bar_valid
        && o.volatility_ratio ≼ d.lit 15 10
        && leb_ℤ (pos 3) volatility.1 in
      record {
        equity_peak = peak;
        daily_date = some (bar / microsecond_day);
        daily_baseline_equity = daily_baseline s bar;
        equity_history = recent bar (history s bar o.equity);
        risk_started_at = some (or_bar s.risk_started_at bar);
        last_equity = o.equity;
        last_risk_at = some bar;
        consecutive_losses = losses;
        processed_trade_count = pos (length o.closed_trades);
        recovery_started_at = clear_start recovery 72 bar (d.eq drawdown nought);
        daily_halt_started_at = clear_start daily 24 bar (daily_loss ≺ config.daily_loss_limit);
        weekly_halt_started_at =
            clear_start weekly_start 48 bar (weekly_loss ≺ config.weekly_halt_limit);
        streak_halt_started_at = streak_over;
        profitable_trades_since_streak_halt =
            if is_some streak && not (is_some streak_over) then pos 0 else profitable;
        volatility_halted = volatility.0 && not volatility_over;
        volatility_stable_bars = if volatility_over then pos 0 else volatility.1;
        decision =
            evaluate_risk
              (record {
                now = aware bar;
                drawdown = number drawdown;
                daily_loss = number daily_loss;
                weekly_loss = number weekly_loss;
                consecutive_losses = losses;
                volatility_ratio = number o.volatility_ratio;
                system_healthy = boolean c.healthy;
                recovery_started_at = as_argument recovery;
                daily_halt_started_at = as_argument daily;
                weekly_halt_started_at = as_argument weekly_start;
                streak_halt_started_at = as_argument streak;
                volatility_halted = boolean volatility.0;
                volatility_stable_bars = volatility.1;
                profitable_trades_since_streak_halt = profitable;
              })
              config;
        initial_equity = s.initial_equity;
      }

  unfoldable pub advance_risk_state :
      RiskState F → RiskObservation F → RiskConfig F → Result RiskStateError (RiskState F)
  unfolding validate_observation commit
  advance_risk_state s o config = do
    c ← validate_observation s o
    raise_if (ltb c.bar_at week) date_overflow
    weekly ← weekly_baseline s c.bar_at o.equity
    ok (commit s o config c weekly)

  -- `apply_health_recovery`, whose `resume_reduced` is the `bool` that it is checked to be.
  unfoldable pub apply_health_recovery : RiskDecision F → Bool → Bool → RiskDecision F
  apply_health_recovery decision system_healthy resume_reduced =
      if not system_healthy
      then refuse system_unhealthy
      else if not resume_reduced
          || is_some decision.halted_until
          || decision.risk_rate ≼ nought
          || decision.exposure_cap ≼ nought
      then decision
      else record decision {
        risk_rate = decision.risk_rate ⊘ two;
        exposure_cap = decision.exposure_cap ⊘ two;
        reasons = decision.reasons ++ health_recovery_reduced ∷ [];
      }
