-- ===== src/Health/Amounts.antt =====
-- Lemmas on the checks of amounts and prices (src/autobit/paper/health.py).
use auto_bit.Prelude.{
  ℕ, Bool, true, false, ◌≡◌, refl, Option, none, some, arith, Bool-cases, inl, inr, if_both,
  if_cases,
}
use auto_bit.Double.{Double, ◌≼◌, nought}
use auto_bit.Double.Laws.{IsDouble}
use auto_bit.Python.{Value, number, boolean}
use auto_bit.Health.Snapshot.{HealthSnapshot, derive_reasons}
use auto_bit.Health.Monitor.{Monitor, Reply, is_old}
use auto_bit.Health.Fills.{
  Decimals, fill_deviation_limit, nonnegative_number, positive_finite, apply_ledger_check,
  record_ledger_check, bad_fill, good_fill, record_fill_check, recovery_check,
  record_flat_fill_recovery_check, ledger_check, fill_check,
}
use auto_bit.Health.Storage.{is_improper}
use auto_bit.Health.Api.{rank-latest}
use auto_bit.Health.Invariant.{Sound, Valid, settle-Valid}
use auto_bit.Health.Observe.{Keeps, fail_schema-Valid}

-- What `decimal.Decimal` and `math.nextafter` document, as far as it is used: the difference of
-- two finite numbers that are not negative is one too; a deviation within the limit is at most
-- the limit after rounding, and finite; the float after the limit is above it.
pub record IsDecimals {ℓ} (F : Type ℓ) ⦃d : Double F⦄ ⦃c : Decimals F⦄ : Type ℓ where
  pub difference_proper :
      (x y : F)
      → is_improper x ≡ false
      → is_improper y ≡ false
      → is_improper (c.difference x y) ≡ false
  pub within-le :
      (x y : F) → c.within_limit x y ≡ true → (c.deviation x y ≼ fill_deviation_limit) ≡ true
  pub next_above : (c.next_after fill_deviation_limit ≼ fill_deviation_limit) ≡ false
  pub next_proper : is_improper (c.next_after fill_deviation_limit) ≡ false

module _ {ℓ} {F : Type ℓ} ⦃d : Double F⦄ ⦃c : Decimals F⦄ where
  -- The relative deviation of the two prices, if both are usable, is a finite float.
  abbrev pub IsComparable : Option F → Option F → Type 0
  IsComparable (some expected) (some actual) = is_improper (c.deviation expected actual) ≡ false
  IsComparable _ _ = Unit

module _ {ℓ} {F : Type ℓ} ⦃d : Double F⦄ ⦃c : Decimals F⦄ (w : IsDouble F) (k : IsDecimals F) where
  apply_ledger_check-Valid :
      (a b e f : F) (observed : Option ℕ)
      → is_improper a ≡ false
      → is_improper b ≡ false
      → is_improper e ≡ false
      → is_improper f ≡ false
      → Keeps (apply_ledger_check a b e f observed)
  unfolding apply_ledger_check
  apply_ledger_check-Valid a b e f observed p q r t m v =
      settle-Valid _
        (record {
          api = ground (arith, v.sound.api, rank-latest m.snapshot.last_observation_at observed);
          ledger = refl;
          fill = v.sound.fill;
          cash_proper = k.difference_proper a b p q;
          btc_proper = k.difference_proper e f r t;
          deviation_proper = v.sound.deviation_proper;
        })
        (unfold derive_reasons in ground (arith, v.reduced_calm))

  abbrev IsProper : Option F → Type 0
  IsProper none = Unit
  IsProper (some x) = is_improper x ≡ false

  nonnegative_number-IsProper : (x : Value F) → IsProper (nonnegative_number x)
  nonnegative_number-IsProper (number x) = ground arith
  nonnegative_number-IsProper _ = tt

  ledger_check-Valid :
      (a b e f : Option F) (observed : Option ℕ)
      → IsProper a
      → IsProper b
      → IsProper e
      → IsProper f
      → Keeps (ledger_check a b e f observed)
  ledger_check-Valid (some a) (some b) (some e) (some f) observed p q r t =
      apply_ledger_check-Valid a b e f observed p q r t
  ledger_check-Valid _ _ _ _ observed p q r t = fail_schema-Valid observed

  pub record_ledger_check-Valid :
      (a b e f : Value F) (observed : Option ℕ) → Keeps (record_ledger_check a b e f observed)
  unfolding record_ledger_check
  record_ledger_check-Valid a b e f observed =
      ledger_check-Valid _ _ _ _ observed (nonnegative_number-IsProper a)
        (nonnegative_number-IsProper b) (nonnegative_number-IsProper e)
        (nonnegative_number-IsProper f)

  bad_fill-Sound :
      (deviation : F) (observed : Option ℕ) (s : HealthSnapshot F)
      → is_improper deviation ≡ false
      → (deviation ≼ fill_deviation_limit) ≡ false
      → Sound s
      → Sound (bad_fill deviation observed s)
  unfolding bad_fill
  bad_fill-Sound deviation observed s p q v =
      ground (arith, v, rank-latest s.last_observation_at observed)

  good_fill-Sound :
      (deviation : F) (observed : Option ℕ) (s : HealthSnapshot F)
      → is_improper deviation ≡ false
      → (deviation ≼ fill_deviation_limit) ≡ true
      → Sound s
      → Sound (good_fill deviation observed s)
  unfolding good_fill
  good_fill-Sound deviation observed s p q v =
      ground (arith, v, rank-latest s.last_observation_at observed)

  fill_check-Valid :
      (expected actual : Option F) (observed : Option ℕ)
      → IsComparable expected actual
      → Keeps (fill_check expected actual observed)
  fill_check-Valid (some e) (some a) observed p m v =
      let s = m.snapshot in
      elim (Bool-cases (c.within_limit e a)) [
        | inl good ↦ rw good (
            settle-Valid _ (good_fill-Sound _ observed s p (k.within-le e a good) v.sound)
              (unfold derive_reasons good_fill in ground (arith, v.reduced_calm)))
        | inr bad ↦ rw bad (
            settle-Valid _
              (bad_fill-Sound _ observed s (ground (arith, p, k.next_proper))
                (ground (arith, k.next_above)) v.sound)
              (unfold derive_reasons bad_fill in ground (arith, v.reduced_calm)))
      ]
  fill_check-Valid _ _ observed p m v = fail_schema-Valid observed m v

  pub record_fill_check-Valid :
      (expected actual : Value F) (observed : Option ℕ)
      → IsComparable (positive_finite expected) (positive_finite actual)
      → Keeps (record_fill_check expected actual observed)
  unfolding record_fill_check
  record_fill_check-Valid expected actual observed p =
      fill_check-Valid (positive_finite expected) (positive_finite actual) observed p

  pub zero_le_zero : (nought ≼ d.lit 0 1) ≡ true
  zero_le_zero = w.lit_mono 0 1 0 1 (omega arith) (omega arith) (omega arith)

  pub zero_proper : is_improper {F = F} nought ≡ false
  zero_proper = ground (
    arith,
    zero_le_zero,
    w.lit_finite 0 1 (omega arith) (omega arith),
    w.lt-eq-not-le nought nought zero_le_zero zero_le_zero,
  )

  recovery_check-Sound :
      (eligible : Bool) (observed : ℕ) (s : HealthSnapshot F)
      → s.fill_within_limit ≡ false
      → Sound s
      → Sound (recovery_check eligible observed s)
  unfolding recovery_check
  recovery_check-Sound eligible observed s active v = ground (
    arith,
    v,
    active,
    zero_proper,
    w.lit_mono 0 1 5 100 (omega arith) (omega arith) (omega arith),
    rank-latest s.last_observation_at (some observed),
  )

  pub record_flat_fill_recovery_check-Valid :
      (value : Value F) (observed : ℕ) → Keeps (record_flat_fill_recovery_check value observed)
  unfolding record_flat_fill_recovery_check
  record_flat_fill_recovery_check-Valid (boolean b) observed m v =
      let s = m.snapshot in
      let P = λ (r : Monitor F × Reply). Valid r.0.snapshot in
      if_cases P s.fill_within_limit (λ fine. v)
        (λ active. if_both P (is_old s.last_fill_recovery_at observed) v (
          settle-Valid _ (recovery_check-Sound b observed s active v.sound)
            (unfold derive_reasons recovery_check in ground (arith, v.reduced_calm, active))))
  record_flat_fill_recovery_check-Valid _ observed m v = fail_schema-Valid (some observed) m v
