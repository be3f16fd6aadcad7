-- ===== src/Risk.antt =====
-- src/autobit/risk/breakers.py: the decision of the risk breakers on one snapshot. The records
-- are in Risk/Snapshot.antt, the rules in Risk/Rules.antt. A halt's expiry is an `Option ℕ`,
-- where `none` is a halt with no fixed end; the reasons are the source's strings, as
-- constructors.
mod Rules
pub mod Snapshot
pub mod Outcome
pub mod Expiry
pub mod Cooldown
pub mod Halts
pub mod Ladders
pub mod Bounds
mod Tests
pub use Snapshot.*
pub use Rules.{Draft, halt, note, reduce, start}
unfoldable pub use Rules.{
  drawdown_ladder, recovery_ladder, drawdown_rules, reduced, daily_rules, weekly_rules,
  streak_rules, volatility_rules, latest, latest_end, conclude,
}
use auto_bit.Prelude.{
  ℕ, Bool, true, false, not, Option, none, some, Result, ok, err, ◌>>=◌, ◌>>◌, raise_if, or_raise,
  if◌then◌else◌,
}
use auto_bit.Prelude.Int.{ℤ, pos, negsuc}
use auto_bit.Double.{Double, ◌≺◌, nought}
use auto_bit.Python.{Value, boolean, TimeValue, aware, unusable, to_float}

abbrev pub as_utc : TimeValue → Option ℕ
as_utc (aware t) = some t
as_utc unusable = none

-- An optional time argument: `none` is one that is given and is no usable time.
abbrev pub optional_utc : Option TimeValue → Option (Option ℕ)
optional_utc none = some none
optional_utc (some (aware t)) = some (some t)
optional_utc (some unusable) = none

abbrev pub nonnegative_integer : ℤ → Option ℕ
nonnegative_integer (pos n) = some n
nonnegative_integer (negsuc n) = none

module _ {ℓ} {F : Type ℓ} ⦃d : Double F⦄ where
  -- One value of `_finite_nonnegative_values`.
  abbrev pub finite_nonnegative_value : Value F → Option F
  finite_nonnegative_value (boolean b) = none
  finite_nonnegative_value v = elim (to_float v) [
    | none ↦ none
    | some x ↦ if d.is_finite x then (if x ≺ nought then none else some x) else none
  ]

  abbrev is_false : Value F → Bool
  is_false (boolean false) = true
  is_false v = false

  abbrev is_true : Value F → Bool
  is_true (boolean true) = true
  is_true v = false

  -- The value, if `isinstance(value, bool)`.
  abbrev as_bool : Value F → Option Bool
  as_bool (boolean b) = some b
  as_bool v = none

  -- The guards of `evaluate_risk`, in its order.
  unfoldable pub accept : RiskSnapshot F → RiskConfig F → Result RiskReason (Accepted F)
  accept s config = do
    raise_if (is_false s.system_healthy) system_unhealthy
    raise_if (not (is_true s.system_healthy)) invalid_input
    volatility_halted ← or_raise (as_bool s.volatility_halted) invalid_input
    now ← or_raise (as_utc s.now) invalid_input
    recovery_start ← or_raise (optional_utc s.recovery_started_at) invalid_input
    daily_start ← or_raise (optional_utc s.daily_halt_started_at) invalid_input
    weekly_start ← or_raise (optional_utc s.weekly_halt_started_at) invalid_input
    streak_start ← or_raise (optional_utc s.streak_halt_started_at) invalid_input
    drawdown ← or_raise (finite_nonnegative_value s.drawdown) invalid_input
    daily_loss ← or_raise (finite_nonnegative_value s.daily_loss) invalid_input
    weekly_loss ← or_raise (finite_nonnegative_value s.weekly_loss) invalid_input
    volatility_ratio ← or_raise (finite_nonnegative_value s.volatility_ratio) invalid_input
    losses ← or_raise (nonnegative_integer s.consecutive_losses) invalid_input
    stable ← or_raise (nonnegative_integer s.volatility_stable_bars) invalid_input
    profitable ← or_raise (nonnegative_integer s.profitable_trades_since_streak_halt) invalid_input
    raise_if (not (valid_config config)) invalid_config
    ok (record {
      now = now;
      drawdown = drawdown;
      daily_loss = daily_loss;
      weekly_loss = weekly_loss;
      consecutive_losses = losses;
      volatility_ratio = volatility_ratio;
      recovery_started_at = recovery_start;
      daily_halt_started_at = daily_start;
      weekly_halt_started_at = weekly_start;
      streak_halt_started_at = streak_start;
      volatility_halted = volatility_halted;
      volatility_stable_bars = stable;
      profitable_trades_since_streak_halt = profitable;
    })

  -- The body of `evaluate_risk` after its guards.
  pub restrict : Accepted F → Draft F
  restrict a =
      let base = drawdown_rules a.now a.drawdown a.recovery_started_at in
      let half = reduced base in
      volatility_rules a.volatility_halted a.volatility_ratio a.volatility_stable_bars half (
        streak_rules a.now a.consecutive_losses a.profitable_trades_since_streak_halt
          a.streak_halt_started_at half
          (weekly_rules a.now a.weekly_loss a.weekly_halt_started_at half
            (daily_rules a.now a.daily_loss a.daily_halt_started_at half base)))

  -- The decision, by whether the guards let the arguments pass.
  abbrev decision : Result RiskReason (Accepted F) → RiskDecision F
  decision (ok a) = conclude (restrict a)
  decision (err reason) = refuse reason

  unfoldable pub evaluate_risk : RiskSnapshot F → RiskConfig F → RiskDecision F
  unfolding accept restrict
  evaluate_risk s config = decision (accept s config)
