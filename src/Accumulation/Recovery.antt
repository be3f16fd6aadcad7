-- ===== src/Accumulation/Recovery.antt =====
-- The health overlay on a decision (src/autobit/core/risk_state.py).
use auto_bit.Prelude.{Bool, true, false, ◌≡◌, arith}
use auto_bit.Double.{Double, ◌≼◌, nought}
use auto_bit.Double.Laws.{IsDouble}
use auto_bit.Risk.Snapshot.{RiskDecision}
use auto_bit.Accumulation.{apply_health_recovery}

module _ {ℓ} {F : Type ℓ} ⦃d : Double F⦄ (w : IsDouble F) where
  -- The health overlay never raises a limit: on a decision whose limits are not negative, both
  -- come out not negative and no higher, and of an unhealthy system both come out 0.
  pub apply_health_recovery-lowers :
      (decision : RiskDecision F) (healthy resume : Bool)
      → (nought ≼ decision.risk_rate) ≡ true
      → (nought ≼ decision.exposure_cap) ≡ true
      → let r = apply_health_recovery decision healthy resume in
        ((r.risk_rate ≼ decision.risk_rate) ≡ true)
        × ((r.exposure_cap ≼ decision.exposure_cap) ≡ true)
        × ((nought ≼ r.risk_rate) ≡ true)
        × ((nought ≼ r.exposure_cap) ≡ true)
        × (healthy ≡ false → (r.risk_rate ≡ nought) × (r.exposure_cap ≡ nought))
  unfolding apply_health_recovery
  apply_health_recovery-lowers decision healthy resume p q =
      let zero = w.lit_mono 0 1 0 1 (omega arith) (omega arith) (omega arith) in
      let rate = w.refl_of_le nought decision.risk_rate p in
      let cap = w.refl_of_le nought decision.exposure_cap q in
      let lower_rate = w.half_le decision.risk_rate p in
      let lower_cap = w.half_le decision.exposure_cap q in
      let nonneg_rate = w.half_nonneg decision.risk_rate p in
      let nonneg_cap = w.half_nonneg decision.exposure_cap q in
      (
        ground (arith, p, q, rate, cap, lower_rate),
        ground (arith, p, q, rate, cap, lower_cap),
        ground (arith, p, q, zero, nonneg_rate),
        ground (arith, p, q, zero, nonneg_cap),
        λ sick. (ground (arith, sick), ground (arith, sick)),
      )
