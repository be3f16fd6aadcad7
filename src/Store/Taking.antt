-- ===== src/Store/Taking.antt =====
-- When `acquire_cycle_lease_epoch` of src/autobit/persistence/sqlite_store.py grants the lease.
use Prim.Native.String.{String}
use text.Mathlib.Text.{◌==◌ as str_eq}
use mathlib.Core.Path.{subst}
use auto_bit.Prelude.{
  ℕ, ◌+◌, ◌≤◌, ◌<◌, ◌≡◌, ◌⊎◌, inl, inr, refl, ◌&&◌, Option, none, some, Result, ok, leb, arith,
  Bool-cases, >>=-ok, >>=-pass, raise_if,
}
use auto_bit.Python.{aware}
use auto_bit.Store.{StoreError, invalid_value, Texts, nonempty_text}
use auto_bit.Store.Lease.{
  StoredToken, fenced, legacy, Lease, Row, absent, unreadable, held, State, cycle_lease_epoch,
  next_cycle_lease_epoch, cycle_lease_token_epoch, same_token, validate_identity, replay_and_verify,
  choose_epoch, write_epoch, epoch_over, granted, check_row, check_epoch, cycle_lease_storage_token,
  acquire_cycle_lease_epoch, max_cycle_lease_epoch,
}
use auto_bit.Store.Fencing.{known_counter}

-- No lease is live at a time.
abbrev pub IsFreeAt : ℕ → Row → Type 0
IsFreeAt now (held l) = l.expires_at ≤ now
IsFreeAt now _ = Unit

-- An epoch that is granted: from the counter on, and within its range.
record IsGrant (counter e : ℕ) : Type 0 where
  above : counter ≤ e
  positive : 0 < e
  in_range : e ≤ max_cycle_lease_epoch

module _ ⦃x : Texts⦄ where
  next-granted :
      (counter : ℕ)
      → counter < max_cycle_lease_epoch
      → (granted counter ≡ ok (some (counter + 1))) × IsGrant counter (counter + 1)
  unfolding next_cycle_lease_epoch
  next-granted counter h = (
    ground (arith, h),
    record { above = omega arith; positive = omega arith; in_range = omega arith },
  )

  token-current :
      (counter : ℕ) (t : StoredToken) (current : Option ℕ)
      → cycle_lease_token_epoch t ≡ ok current
      → check_epoch counter current ≡ ok tt
      → (current ≡ none) ⊎ ((current ≡ some counter) × (0 < counter))
  unfolding cycle_lease_token_epoch
  token-current counter (legacy t) current h k = ground (arith, h)
  token-current counter (fenced n d) none h k = ground (arith, h)
  token-current counter (fenced n d) (some m) h k = ground (arith, h, k)

  over-grants :
      (owner token : String) (now counter : ℕ) (l : Lease)
      → l.expires_at ≤ now
      → counter < max_cycle_lease_epoch
      → (current : Option ℕ) → (current ≡ none) ⊎ ((current ≡ some counter) × (0 < counter))
      → (e : ℕ) × (epoch_over owner token now counter l current ≡ ok (some e)) × IsGrant counter e
  over-grants owner token now counter l expired room none h =
      let (g, w) = next-granted counter room in (counter + 1, ground (arith, g), w)
  over-grants owner token now counter l expired room (some n) (inl h) = absurd (ground (arith, h))
  over-grants owner token now counter l expired room (some n) (inr (h, p)) =
      let same = str_eq l.owner owner && same_token l.token (cycle_lease_storage_token token n) in
      let (g, w) = next-granted counter room in
      elim (Bool-cases same) [
        | inl q ↦ (
          counter,
          rw q (ground (arith, h)),
          record { above = omega arith; positive = p; in_range = omega arith },
        )
        | inr q ↦ (counter + 1, rw q (ground (arith, h, g)), w)
      ]

  choose-grants :
      (owner token : String) (now counter : ℕ) (row : Row)
      → IsFreeAt now row
      → check_row counter row ≡ ok tt
      → counter < max_cycle_lease_epoch
      → (e : ℕ) × (choose_epoch owner token now counter row ≡ ok (some e)) × IsGrant counter e
  unfolding choose_epoch cycle_lease_token_epoch
  choose-grants owner token now counter absent free valid room =
      let (g, w) = next-granted counter room in (counter + 1, g, w)
  choose-grants owner token now counter unreadable free valid room = absurd (ground (arith, valid))
  choose-grants owner token now counter (held l) free valid room =
      let (current, read, checked) = >>=-ok (cycle_lease_token_epoch l.token) _ valid in
      let (e, q, w) =
        over-grants owner token now counter l free room current
          (token-current counter l.token current read checked) in
      (e, >>=-pass (cycle_lease_token_epoch l.token) _ read q, w)

  written-valid {ℓ} :
      {L : Type ℓ} (owner token : String) (expires counter e : ℕ) (s : State L)
      → IsGrant counter e
      → validate_identity (write_epoch owner token expires (some e) s) ≡ ok tt
  unfolding validate_identity cycle_lease_token_epoch cycle_lease_epoch
  written-valid owner token expires counter e s g = ground (arith, g.positive, g.in_range)

module _ {ℓ} {L : Type ℓ} (verify_ledger : L → Result StoreError (Unit {0})) ⦃x : Texts⦄ where
  granted-call :
      (owner token : String) (now expires counter e : ℕ) (s : State L)
      → nonempty_text owner ≡ ok owner
      → nonempty_text token ≡ ok token
      → now < expires
      → replay_and_verify verify_ledger s ≡ ok tt
      → s.user_version ≡ some counter
      → counter < max_cycle_lease_epoch
      → choose_epoch owner token now counter s.row ≡ ok (some e)
      → IsGrant counter e
      → verify_ledger s.ledger ≡ ok tt
      → acquire_cycle_lease_epoch verify_ledger owner token (aware now) (aware expires) s
        ≡ ok (write_epoch owner token expires (some e) s, some e)
  unfolding acquire_cycle_lease_epoch cycle_lease_epoch
  granted-call owner token now expires counter e s o k later verified known room chosen g ledger =
      let t = write_epoch owner token expires (some e) s in
      >>=-pass (nonempty_text owner) _ o (
        >>=-pass (nonempty_text token) _ k (
          >>=-pass (raise_if (leb expires now) invalid_value) _ (ground (arith, later)) (
            >>=-pass (replay_and_verify verify_ledger s) _ verified (
              >>=-pass (cycle_lease_epoch s.user_version) _ (rw known (ground (arith, room))) (
                >>=-pass (choose_epoch owner token now counter s.row) _ chosen (
                  >>=-pass (replay_and_verify verify_ledger t) _
                    (>>=-pass (validate_identity t) _
                      (written-valid owner token expires counter e s g) ledger)
                    refl))))))

  -- Where no lease is live at the time and the counter has an epoch left, a well-formed call on a
  -- store that verifies is granted the lease, at an epoch from the counter on, and writes the row
  -- and the counter.
  pub acquire_cycle_lease_epoch-granted :
      (owner token : String) (now expires counter : ℕ) (s : State L)
      → nonempty_text owner ≡ ok owner
      → nonempty_text token ≡ ok token
      → now < expires
      → replay_and_verify verify_ledger s ≡ ok tt
      → s.user_version ≡ some counter
      → counter < max_cycle_lease_epoch
      → IsFreeAt now s.row
      → (e : ℕ) × (counter ≤ e)
        × (acquire_cycle_lease_epoch verify_ledger owner token (aware now) (aware expires) s
            ≡ ok (write_epoch owner token expires (some e) s, some e))
  unfolding acquire_cycle_lease_epoch validate_identity cycle_lease_epoch
  acquire_cycle_lease_epoch-granted owner token now expires counter s o k later verified known room
        free =
      let (u, valid, ledger) = >>=-ok (validate_identity s) _ verified in
      let (c, read, checked) = >>=-ok (cycle_lease_epoch s.user_version) _ valid in
      let same : c ≡ counter = ground (arith, known_counter s.user_version read, known) in
      let (e, chosen, grant) =
        choose-grants owner token now counter s.row free
          (subst (λ n. check_row n s.row ≡ ok tt) same checked) room in
      (
        e,
        grant.above,
        granted-call owner token now expires counter e s o k later verified known room chosen grant
            ledger,
      )
