-- ===== src/Health/Invariant.antt =====
-- The invariant of `HealthMonitor` in src/autobit/paper/health.py: what makes a snapshot one that
-- a restart accepts from its own stored payload.
use auto_bit.Prelude.{◌≤◌, ◌<◌, false, ◌≡◌, refl, arith, ◌&&◌, is_nonempty, sym}
use auto_bit.Double.{Double, ◌≼◌}
use auto_bit.Health.Snapshot.{normal, halted, reduced, HealthSnapshot, derive_reasons}
use auto_bit.Health.Monitor.{settle}
use auto_bit.Health.Fills.{ledger_tolerance, fill_deviation_limit}
use auto_bit.Health.Storage.{is_improper}
use auto_bit.Health.Api.{ApiValid, settle-ApiValid}

module _ {ℓ} {F : Type ℓ} ⦃d : Double F⦄ where
  -- What every observation keeps, whatever the stage is.
  pub record Sound (s : HealthSnapshot F) : Type 0 where
    pub api : ApiValid s
    pub ledger :
        s.ledger_matches
        ≡ s.ledger_cash_difference ≼ ledger_tolerance && s.ledger_btc_difference ≼ ledger_tolerance
    pub fill : s.fill_within_limit ≡ s.fill_deviation ≼ fill_deviation_limit
    pub cash_proper : is_improper s.ledger_cash_difference ≡ false
    pub btc_proper : is_improper s.ledger_btc_difference ≡ false
    pub deviation_proper : is_improper s.fill_deviation ≡ false

  -- A settled snapshot: the stage and the reasons fit the predicates.
  pub record Valid (s : HealthSnapshot F) : Type 0 where
    pub sound : Sound s
    pub reasons_derived : s.reasons ≡ derive_reasons s
    pub normal_calm :
        s.stage ≡ normal → (is_nonempty (derive_reasons s) ≡ false) × (s.retry_attempts ≡ 0)
    pub reduced_calm :
        s.stage ≡ reduced
        → (is_nonempty (derive_reasons s) ≡ false) × (s.retry_attempts ≡ 0) × (3 ≤ s.api_successes)
    pub halted_busy :
        s.stage ≡ halted
        → (0 < s.retry_attempts) × (is_nonempty (derive_reasons s) ≡ false → s.api_successes < 3)

  -- What `_finish_observation` needs: in `REDUCED` with no reason, all successes are there.
  abbrev pub IsSteady : HealthSnapshot F → Type 0
  IsSteady s = s.stage ≡ reduced → is_nonempty (derive_reasons s) ≡ false → 3 ≤ s.api_successes

  pub settle-Sound : (s : HealthSnapshot F) → Sound s → Sound (settle s)
  unfolding settle
  settle-Sound s v = record {
    api = unfold settle in settle-ApiValid s v.api;
    ledger = v.ledger;
    fill = v.fill;
    cash_proper = v.cash_proper;
    btc_proper = v.btc_proper;
    deviation_proper = v.deviation_proper;
  }

  pub derive_reasons-settle : (s : HealthSnapshot F) → derive_reasons (settle s) ≡ derive_reasons s
  unfolding derive_reasons settle
  derive_reasons-settle s = refl

  -- `_finish_observation` makes a sound snapshot valid.
  pub settle-Valid : (s : HealthSnapshot F) → Sound s → IsSteady s → Valid (settle s)
  unfolding settle
  settle-Valid s v steady = record {
    sound = settle-Sound s v;
    reasons_derived = sym (derive_reasons-settle s);
    normal_calm = ground (arith, derive_reasons-settle s);
    reduced_calm = ground (arith, derive_reasons-settle s);
    halted_busy = ground (arith, derive_reasons-settle s);
  }
