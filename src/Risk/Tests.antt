-- ===== src/Risk/Tests.antt =====
-- Runs of `evaluate_risk`, and its theorems at concrete snapshots.
use auto_bit.Prelude.{ℕ, ◌*◌, true, false, ◌≡◌, refl, ◌⊎◌, none, some, [], ◌∷◌, arith, ok}
use auto_bit.Prelude.Int.{pos}
use auto_bit.Double.{◌≼◌}
use auto_bit.Double.Fixed.{Fixed, num, fixed_double, Fixed-IsDouble}
use auto_bit.Python.{number, boolean, aware, microsecond_hour}
use auto_bit.Risk.{
  conclude, volatility_rules, streak_rules, weekly_rules, daily_rules, drawdown_rules, RiskSnapshot,
  Accepted, recovery, weekly_loss_reduced, drawdown_halt, default_risk_config, accept,
  evaluate_risk, drawdown_ladder, recovery_ladder,
}
use auto_bit.Risk.Outcome.{Blocks, Allows, evaluate_risk-outcome}
use auto_bit.Risk.Cooldown.{HaltedUntil, drawdown_cooldown}
use auto_bit.Risk.Ladders.{ladders_antitone}

-- n hours after the year 1.
abbrev hour : ℕ → ℕ
hour n = n * microsecond_hour

-- A drawdown of 6 %, a weekly loss of 5.5 %, and a halt that started in hour 100.
abbrev snapshot : ℕ → RiskSnapshot Fixed
snapshot now = record {
  now = aware now;
  drawdown = number (num (pos 60000));
  daily_loss = number (num (pos 0));
  weekly_loss = number (num (pos 55000));
  consecutive_losses = pos 1;
  volatility_ratio = number (num (pos 1000000));
  system_healthy = boolean true;
  recovery_started_at = some (aware (hour 100));
  daily_halt_started_at = none;
  weekly_halt_started_at = none;
  streak_halt_started_at = none;
  volatility_halted = boolean false;
  volatility_stable_bars = pos 0;
  profitable_trades_since_streak_halt = pos 0;
}

abbrev accepted : ℕ → Accepted Fixed
accepted now = record {
  now = now;
  drawdown = num (pos 60000);
  daily_loss = num (pos 0);
  weekly_loss = num (pos 55000);
  consecutive_losses = 1;
  volatility_ratio = num (pos 1000000);
  recovery_started_at = some (hour 100);
  daily_halt_started_at = none;
  weekly_halt_started_at = none;
  streak_halt_started_at = none;
  volatility_halted = false;
  volatility_stable_bars = 0;
  profitable_trades_since_streak_halt = 0;
}

-- 72 hours later the recovery step 0.5 % / 30 % is halved by the weekly loss.
after_cooldown : evaluate_risk (snapshot (hour 172)) default_risk_config ≡ record {
  risk_rate = num (pos 2500);
  exposure_cap = num (pos 150000);
  halted_until = none;
  reasons = recovery ∷ weekly_loss_reduced ∷ [];
}
unfolding evaluate_risk conclude volatility_rules streak_rules weekly_rules daily_rules
    drawdown_rules
after_cooldown = refl

during_cooldown : evaluate_risk (snapshot (hour 171)) default_risk_config ≡ record {
  risk_rate = num (pos 0);
  exposure_cap = num (pos 0);
  halted_until = some (hour 172);
  reasons = drawdown_halt ∷ weekly_loss_reduced ∷ [];
}
unfolding evaluate_risk conclude volatility_rules streak_rules weekly_rules daily_rules
    drawdown_rules
during_cooldown = refl

evaluate_risk-outcome_example :
    Blocks (evaluate_risk (snapshot (hour 172)) default_risk_config)
    ⊎ Allows (evaluate_risk (snapshot (hour 172)) default_risk_config)
evaluate_risk-outcome_example =
    evaluate_risk-outcome Fixed-IsDouble (snapshot (hour 172)) default_risk_config

accepts : accept (snapshot (hour 171)) default_risk_config ≡ ok (accepted (hour 171))
unfolding accept
accepts = refl

drawdown_cooldown_example :
    HaltedUntil (hour 172) (evaluate_risk (snapshot (hour 171)) default_risk_config)
drawdown_cooldown_example =
    drawdown_cooldown (snapshot (hour 171)) default_risk_config (accepted (hour 171)) (hour 100)
      accepts refl (omega arith)

ladders_antitone_example :
    let x = num (pos 20000) in
    let y = num (pos 120000) in
    (((drawdown_ladder y).0 ≼ (drawdown_ladder x).0) ≡ true)
    × (((drawdown_ladder y).1 ≼ (drawdown_ladder x).1) ≡ true)
    × (((recovery_ladder y).0 ≼ (recovery_ladder x).0) ≡ true)
    × (((recovery_ladder y).1 ≼ (recovery_ladder x).1) ≡ true)
ladders_antitone_example = ladders_antitone Fixed-IsDouble (num (pos 20000)) (num (pos 120000)) refl
