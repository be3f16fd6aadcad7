-- ===== src/Health/Restart.antt =====
-- A restart: `HealthSnapshot.from_mapping` on the payload that `_to_storage_mapping` wrote
-- (src/autobit/paper/health.py).
use auto_bit.Prelude.{Bool, true, false, ◌≡◌, refl, ok, arith, ltb, List, [], ◌∷◌, ◌>>◌}
use auto_bit.Double.{Double, nought}
use auto_bit.Double.Laws.{IsDouble}
use auto_bit.Health.Snapshot.{HealthReason, HealthSnapshot, derive_reasons, api_successes_required}
use auto_bit.Health.Validate.{
  validate_predicates, validate_fill, validate_api, validate_stage, validate, same_bool,
  same_reasons,
}
use auto_bit.Health.Storage.{StoredHealth, to_storage, legacy, from_storage, is_improper}
use auto_bit.Health.Latch.{validate_api-pass}
use auto_bit.Health.Invariant.{Sound, Valid}

same_reasons_refl : (rs : List HealthReason) → same_reasons rs rs ≡ true
same_reasons_refl [] = refl
same_reasons_refl (r ∷ rs) = ground (arith, same_reasons_refl rs)

same_bool_refl : (b : Bool) → same_bool b b ≡ true
same_bool_refl b = ground arith

module _ {ℓ} {F : Type ℓ} ⦃d : Double F⦄ (w : IsDouble F) (s : HealthSnapshot F) (v : Sound s)
    (derived : s.reasons ≡ derive_reasons s) where
  abbrev pub reloaded : HealthSnapshot F
  reloaded = legacy (to_storage s)

  predicates_pass : validate_predicates reloaded ≡ ok tt
  unfolding validate_predicates legacy to_storage derive_reasons
  predicates_pass = ground (
    arith,
    derived,
    same_reasons_refl (derive_reasons s),
    v.ledger,
    v.fill,
    same_bool_refl s.ledger_matches,
    same_bool_refl s.fill_within_limit,
  )

  fill_pass : validate_fill reloaded ≡ ok tt
  unfolding validate_fill legacy to_storage
  fill_pass = ground (
    arith,
    v.fill,
    w.eq_of_refl nought (w.lit_mono 0 1 0 1 (omega arith) (omega arith) (omega arith)),
  )

  api_pass : validate_api reloaded ≡ ok tt
  unfolding legacy to_storage
  api_pass = validate_api-pass reloaded (ground (arith, v.api))

  abbrev pub payload : StoredHealth F
  payload = to_storage s

  -- Up to the stage, the payload of a sound snapshot passes every test.
  pub validate-stage :
      (halt resume : Bool) → validate halt resume reloaded ≡ validate_stage halt resume reloaded
  unfolding validate
  validate-stage halt resume =
      let p = predicates_pass in let q = fill_pass in let r = api_pass in simp (p, q, r)

  capped : ltb api_successes_required payload.api_successes ≡ false
  unfolding to_storage
  capped = ground (arith, v.api.capped)

  cash_proper : is_improper payload.ledger_cash_difference ≡ false
  unfolding to_storage
  cash_proper = v.cash_proper

  btc_proper : is_improper payload.ledger_btc_difference ≡ false
  unfolding to_storage
  btc_proper = v.btc_proper

  deviation_proper : is_improper payload.fill_deviation ≡ false
  unfolding to_storage
  deviation_proper = v.deviation_proper

  pub from_storage-stage :
      from_storage payload
      ≡ (validate_stage payload.halt_entries payload.resume_reduced reloaded >> ok reloaded)
  unfolding from_storage
  from_storage-stage = simp (capped, cash_proper, btc_proper, deviation_proper, validate-stage)

module _ {ℓ} {F : Type ℓ} ⦃d : Double F⦄ (w : IsDouble F) (s : HealthSnapshot F) (v : Valid s) where
  stage_pass :
      let p = to_storage s in validate_stage p.halt_entries p.resume_reduced (legacy p) ≡ ok tt
  unfolding validate_stage legacy to_storage derive_reasons
  stage_pass = ground (arith, v)

  -- `from_mapping` accepts the stored payload of a valid snapshot.
  pub restart_accepts : from_storage (to_storage s) ≡ ok (legacy (to_storage s))
  restart_accepts = rw (from_storage-stage w s v.sound v.reasons_derived) (rw stage_pass)
