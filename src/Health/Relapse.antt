-- ===== src/Health/Relapse.antt =====
-- An API failure in the stage `REDUCED` of `HealthMonitor` (src/autobit/paper/health.py).
-- `record_api_failure` clears the successes and leaves the stage, and
-- `_validate_snapshot_relationships` wants three successes in `REDUCED`.
use auto_bit.Prelude.{ℕ, false, ◌≡◌, err, arith, sym}
use auto_bit.Double.{Double}
use auto_bit.Double.Laws.{IsDouble}
use auto_bit.Health.Snapshot.{reduced, HealthSnapshot, derive_reasons, last_api_observation}
use auto_bit.Health.Monitor.{Monitor, settle, failed_api, record_api_failure, is_old}
use auto_bit.Health.Validate.{validate_stage}
use auto_bit.Health.Storage.{to_storage, legacy, from_storage}
use auto_bit.Health.Invariant.{Valid, settle-Sound, derive_reasons-settle}
use auto_bit.Health.Observe.{failed_api-Sound}
use auto_bit.Health.Restart.{from_storage-stage}

module _ {ℓ} {F : Type ℓ} ⦃d : Double F⦄ (w : IsDouble F) where
  -- One failure is too few to latch, so there is no reason to halt.
  relapse_stage :
      (observed : ℕ) (s : HealthSnapshot F)
      → Valid s
      → s.stage ≡ reduced
      → let p = to_storage (settle (failed_api observed s)) in
        validate_stage p.halt_entries p.resume_reduced (legacy p)
        ≡ err "REDUCED health state is contradictory"
  unfolding validate_stage to_storage legacy settle failed_api derive_reasons
  relapse_stage observed s v e = ground (arith, v, v.sound.api, v.reduced_calm e, e)

  -- From a valid monitor in `REDUCED`, one API failure that is newer than the last API
  -- observation leaves a snapshot whose stored payload no restart accepts.
  pub relapse_breaks_restart :
      (observed : ℕ) (m : Monitor F)
      → Valid m.snapshot
      → m.snapshot.stage ≡ reduced
      → is_old (last_api_observation m.snapshot) observed ≡ false
      → from_storage (to_storage (record_api_failure observed m).0.snapshot)
        ≡ err "REDUCED health state is contradictory"
  unfolding record_api_failure
  relapse_breaks_restart observed m v e new =
      let s = failed_api observed m.snapshot in
      let sound = settle-Sound s (failed_api-Sound observed m.snapshot new v.sound) in
      let derived : (settle s).reasons ≡ derive_reasons (settle s) =
        unfold settle in sym (derive_reasons-settle s) in
      rw new (
        rw (from_storage-stage w (settle s) sound derived)
          (rw (relapse_stage observed m.snapshot v e)))
