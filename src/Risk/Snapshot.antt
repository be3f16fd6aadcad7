-- ===== src/Risk/Snapshot.antt =====
-- The records of src/autobit/risk/breakers.py and `RiskConfig` of src/autobit/config.py.
use auto_bit.Prelude.{ℕ, Bool, ◌&&◌, Option, none, List, [], ◌∷◌}
use auto_bit.Prelude.Int.{ℤ}
use auto_bit.Double.{Double, nought}
use auto_bit.Python.{Value, TimeValue}

pub data RiskReason : Type 0 where
  system_unhealthy invalid_input invalid_config drawdown_halt recovery daily_loss_halt
        daily_loss_reduced weekly_loss_halt weekly_loss_reduced loss_streak_halt loss_streak_reduced
        volatility_halt volatility_reduced health_recovery_reduced :
      RiskReason

pub record RiskDecision {ℓ} (F : Type ℓ) : Type ℓ where
  pub risk_rate : F
  pub exposure_cap : F
  pub halted_until : Option ℕ
  pub reasons : List RiskReason

pub record RiskConfig {ℓ} (F : Type ℓ) : Type ℓ where
  pub base_risk_rate : F
  pub max_exposure : F
  pub hard_drawdown : F
  pub daily_loss_limit : F
  pub weekly_reduce_limit : F
  pub weekly_halt_limit : F

-- The keyword arguments of `evaluate_risk`, `config` aside. The three counters are the integers
-- that they are annotated to be.
pub record RiskSnapshot {ℓ} (F : Type ℓ) : Type ℓ where
  pub now : TimeValue
  pub drawdown : Value F
  pub daily_loss : Value F
  pub weekly_loss : Value F
  pub consecutive_losses : ℤ
  pub volatility_ratio : Value F
  pub system_healthy : Value F
  pub recovery_started_at : Option TimeValue
  pub daily_halt_started_at : Option TimeValue
  pub weekly_halt_started_at : Option TimeValue
  pub streak_halt_started_at : Option TimeValue
  pub volatility_halted : Value F
  pub volatility_stable_bars : ℤ
  pub profitable_trades_since_streak_halt : ℤ

-- The arguments after `evaluate_risk` has converted and accepted them.
pub record Accepted {ℓ} (F : Type ℓ) : Type ℓ where
  pub now : ℕ
  pub drawdown : F
  pub daily_loss : F
  pub weekly_loss : F
  pub consecutive_losses : ℕ
  pub volatility_ratio : F
  pub recovery_started_at : Option ℕ
  pub daily_halt_started_at : Option ℕ
  pub weekly_halt_started_at : Option ℕ
  pub streak_halt_started_at : Option ℕ
  pub volatility_halted : Bool
  pub volatility_stable_bars : ℕ
  pub profitable_trades_since_streak_halt : ℕ

module _ {ℓ} {F : Type ℓ} ⦃d : Double F⦄ where
  abbrev pub approved_base_risk_rate : F
  approved_base_risk_rate = d.lit 2 100

  abbrev pub approved_max_exposure : F
  approved_max_exposure = d.lit 70 100

  abbrev pub approved_hard_drawdown : F
  approved_hard_drawdown = d.lit 15 100

  abbrev pub approved_daily_loss_limit : F
  approved_daily_loss_limit = d.lit 4 100

  abbrev pub approved_weekly_reduce_limit : F
  approved_weekly_reduce_limit = d.lit 5 100

  abbrev pub approved_weekly_halt_limit : F
  approved_weekly_halt_limit = d.lit 7 100

  -- `RiskConfig()`
  abbrev pub default_risk_config : RiskConfig F
  default_risk_config = record {
    base_risk_rate = d.lit 2 100;
    max_exposure = d.lit 70 100;
    hard_drawdown = d.lit 15 100;
    daily_loss_limit = d.lit 4 100;
    weekly_reduce_limit = d.lit 5 100;
    weekly_halt_limit = d.lit 7 100;
  }

  -- `values == _APPROVED_CONFIG`
  abbrev pub valid_config : RiskConfig F → Bool
  valid_config c =
      d.eq c.base_risk_rate approved_base_risk_rate
      && (d.eq c.max_exposure approved_max_exposure
          && (d.eq c.hard_drawdown approved_hard_drawdown
              && (d.eq c.daily_loss_limit approved_daily_loss_limit
                  && (d.eq c.weekly_reduce_limit approved_weekly_reduce_limit
                      && d.eq c.weekly_halt_limit approved_weekly_halt_limit))))

  -- `RiskDecision(0.0, 0.0, None, (reason,))`
  abbrev pub refuse : RiskReason → RiskDecision F
  refuse reason = record {
    risk_rate = nought;
    exposure_cap = nought;
    halted_until = none;
    reasons = reason ∷ [];
  }
