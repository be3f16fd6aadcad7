-- ===== src/Engine/Exits.antt =====
-- `evaluate_risk` (src/autobit/risk/breakers.py) under `StrategyEngine.decide`
-- (src/autobit/core/engine.py), where a position is held.
use auto_bit.Prelude.{
  ◌≡◌, refl, true, false, none, some, ok, err, any, arith, OnError, OnError->>=, OnError-raise_if,
  OnError-or_raise,
}
use mathlib.Core.Path.{subst}
use auto_bit.Double.{Double}
use auto_bit.Risk.{RiskReason, RiskConfig, RiskSnapshot, Accepted, accept, evaluate_risk}
use auto_bit.Risk.Halts.{IsBreached, breached-IsNoted}
use auto_bit.Engine.{
  PositionContext, DecisionInput, Decision, sell, Reason, risk_exit, system_exit, StrategyEngine,
  decide, forced_exit_reason, positive, is_drawdown_halt, is_system,
}

abbrev IsSystem : RiskReason → Type 0
IsSystem r = (is_drawdown_halt r ≡ false) × (is_system r ≡ true)

module _ {ℓ} {F : Type ℓ} ⦃d : Double F⦄ where
  accept-IsSystem : (s : RiskSnapshot F) (c : RiskConfig F) → OnError IsSystem (accept s c)
  unfolding accept
  accept-IsSystem s c = search (OnError->>=, OnError-raise_if, OnError-or_raise) depth 40

  refused-IsSystem :
      (facts : RiskSnapshot F) (config : RiskConfig F) (r : RiskReason)
      → accept facts config ≡ err r
      → (any is_drawdown_halt (evaluate_risk facts config).reasons ≡ false)
        × (any is_system (evaluate_risk facts config).reasons ≡ true)
  unfolding evaluate_risk
  refused-IsSystem facts config r h =
      let (a, b) = subst (OnError IsSystem) h (accept-IsSystem facts config) in
      (rw h (ground (arith, a)), rw h (ground (arith, b)))

  -- The whole quantity is sold for the reason, and no stop is passed on.
  pub record Sold (reason : Reason) (p : PositionContext F) (r : Decision F) : Type ℓ where
    pub action : r.action ≡ sell
    pub reason_given : r.reason ≡ some reason
    pub quantity : r.quantity ≡ p.quantity
    pub no_stop : r.next_stop ≡ none

  forced_risk :
      (e : StrategyEngine F) (s : DecisionInput F) (p : PositionContext F)
      → s.position ≡ some p
      → positive p.quantity ≡ true
      → any is_drawdown_halt s.risk.reasons ≡ true
      → Sold risk_exit p (decide e s)
  unfolding decide forced_exit_reason
  forced_risk e s p held more h = record {
    action = simp (held, more, h);
    reason_given = simp (held, more, h);
    quantity = simp (held, more, h);
    no_stop = simp (held, more, h);
  }

  forced_system :
      (e : StrategyEngine F) (s : DecisionInput F) (p : PositionContext F)
      → s.position ≡ some p
      → positive p.quantity ≡ true
      → any is_drawdown_halt s.risk.reasons ≡ false
      → any is_system s.risk.reasons ≡ true
      → Sold system_exit p (decide e s)
  unfolding decide forced_exit_reason
  forced_system e s p held more h k = record {
    action = simp (held, more, h, k);
    reason_given = simp (held, more, h, k);
    quantity = simp (held, more, h, k);
    no_stop = simp (held, more, h, k);
  }

  -- What forces an exit: a breach of the drawdown limit among accepted facts, or facts that
  -- `evaluate_risk` refuses, an unhealthy system among them.
  pub data Forced (facts : RiskSnapshot F) (config : RiskConfig F) : Reason → Type ℓ where
    breached :
        (a : Accepted F)
        → accept facts config ≡ ok a
        → IsBreached a a.recovery_started_at
        → Forced facts config risk_exit
    refused : (r : RiskReason) → accept facts config ≡ err r → Forced facts config system_exit

  -- `decide` on the decision of `evaluate_risk`, with a positive quantity held. A drawdown of 0.15
  -- or more with no halt started, or a drawdown halt less than 72 hours old, sells the whole
  -- quantity with RISK_EXIT, whatever the other rules find; facts that `evaluate_risk` refuses
  -- sell it with SYSTEM_EXIT. No stop is passed on, and neither the row nor the age of the
  -- position nor a pending order holds the sale back.
  pub breach_exits :
      (e : StrategyEngine F) (s : DecisionInput F) (p : PositionContext F) (facts : RiskSnapshot F)
      (config : RiskConfig F) (reason : Reason)
      → s.risk ≡ evaluate_risk facts config
      → s.position ≡ some p
      → positive p.quantity ≡ true
      → Forced facts config reason
      → Sold reason p (decide e s)
  breach_exits e s p facts config _ same held more (breached a h breach) =
      forced_risk e s p held more
        (rw same (breached-IsNoted is_drawdown_halt facts config a refl h breach))
  breach_exits e s p facts config _ same held more (refused r h) =
      let (quiet, system) = refused-IsSystem facts config r h in
      forced_system e s p held more (rw same quiet) (rw same system)
