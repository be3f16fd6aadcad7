-- ===== src/Store/Takeover.antt =====
-- Sequences of lease operations of src/autobit/persistence/sqlite_store.py, and what a holder can
-- still do after them.
use Prim.Native.String.{String}
use text.Mathlib.Text.{◌==◌ as str_eq}
use text.Mathlib.TextPositions.{eq_refl}
use mathlib.Core.Path.{subst}
use auto_bit.Prelude.{
  ℕ, ◌≤◌, ◌<◌, ◌≡◌, ◌≢◌, inl, inr, refl, sym, Bool, false, Option, some, Result, ok, raise_if, leb,
  arith, Bool-cases, OnOk, OnOk->>=, OnOk-ok,
}
use auto_bit.Python.{TimeValue}
use auto_bit.Store.{StoreError, invalid_value, Texts, nonempty_text, canonical_timestamp}
use auto_bit.Store.Lease.{
  StoredToken, fenced, legacy, Lease, Row, absent, unreadable, held, State, positive_epoch,
  validate_identity, replay_and_verify, acquire_cycle_lease_epoch, matches, renewed,
  renew_cycle_lease, release_cycle_lease, fence, cycle_lease_transaction,
}
use auto_bit.Store.Fencing.{
  counter_of, positive_epoch-same, row-counter, Acquired, acquire-Acquired, replay-valid,
}
use auto_bit.Store.Holders.{
  IsOwnedBy, Since, still, renew-mild, release-mild, transaction-mild, acquired-Since,
  granted-Since, grant_facts, Mild-Since, Since-le,
}

module _ {ℓ} {L : Type ℓ} (verify_ledger : L → Result StoreError (Unit {0})) ⦃x : Texts⦄ where
  -- One call that returns, of any process.
  pub data Step (s t : State L) : Type ℓ where
    by_acquire :
        (owner token : String) (now expires : TimeValue) (r : Option ℕ)
        → acquire_cycle_lease_epoch verify_ledger owner token now expires s ≡ ok (t, r)
        → Step s t
    by_renew :
        (owner token : String) (epoch : ℕ) (now expires : TimeValue) (r : Bool)
        → renew_cycle_lease verify_ledger owner token epoch now expires s ≡ ok (t, r)
        → Step s t
    by_release :
        (owner token : String) (epoch : Option ℕ) (r : Bool)
        → release_cycle_lease verify_ledger owner token epoch s ≡ ok (t, r)
        → Step s t
    by_transaction :
        (owner token : String) (epoch : ℕ) (now : TimeValue) (body : L → Result StoreError L)
        → cycle_lease_transaction verify_ledger owner token epoch now body s ≡ ok t
        → Step s t

  pub data Steps : State L → State L → Type ℓ where
    here : {s : State L} → Steps s s
    then : {s t u : State L} → Step s t → Steps t u → Steps s u

  step-Since :
      {owner : String} {e : ℕ} (s t : State L) → Step s t → Since owner e s → Since owner e t
  step-Since s t (by_acquire owner token now expires r q) h =
      acquired-Since verify_ledger s t r
        (OnOk-ok _ (acquire_cycle_lease_epoch verify_ledger owner token now expires s)
          (acquire-Acquired verify_ledger owner token now expires s) q)
        h
  step-Since s t (by_renew owner token epoch now expires r q) h =
      Mild-Since s t
        (OnOk-ok _ (renew_cycle_lease verify_ledger owner token epoch now expires s)
          (renew-mild verify_ledger owner token epoch now expires s) q)
        h
  step-Since s t (by_release owner token epoch r q) h =
      Mild-Since s t
        (OnOk-ok _ (release_cycle_lease verify_ledger owner token epoch s)
          (release-mild verify_ledger owner token epoch s) q)
        h
  step-Since s t (by_transaction owner token epoch now body q) h =
      Mild-Since s t
        (OnOk-ok _ (cycle_lease_transaction verify_ledger owner token epoch now body s)
          (transaction-mild verify_ledger owner token epoch now body s) q)
        h

  steps-Since :
      {owner : String} {e : ℕ} {s t : State L} → Steps s t → Since owner e s → Since owner e t
  steps-Since here h = h
  steps-Since (then {s = s} {t = t} p q) h = steps-Since q (step-Since s t p h)

  -- Behind the counter, an epoch matches no row.
  stale-matches :
      (owner token : String) (e : ℕ) (s : State L) (l : Lease) (t : StoredToken)
      → validate_identity s ≡ ok tt
      → s.row ≡ held l
      → l.token ≡ t
      → e < counter_of s.user_version
      → matches owner token e l ≡ false
  stale-matches owner token e s l (legacy u) v r q h =
      ground (arith, q, Bool-cases (str_eq l.owner owner))
  stale-matches owner token e s l (fenced n d) v r q h =
      ground (arith, q, row-counter s l n d v r q, Bool-cases (str_eq l.owner owner))

  stale-fence :
      (owner token : String) (e now : ℕ) (s : State L) (row : Row)
      → validate_identity s ≡ ok tt
      → s.row ≡ row
      → e < counter_of s.user_version
      → OnOk (λ _. ⊥) (fence owner token e now row)
  stale-fence owner token e now s absent v r h = tt
  stale-fence owner token e now s unreadable v r h = tt
  stale-fence owner token e now s (held l) v r h =
      rw (stale-matches owner token e s l l.token v r refl h) tt

  stale_transaction :
      (owner token : String) (e : ℕ) (now_utc : TimeValue) (body : L → Result StoreError L)
      (s : State L)
      → e < counter_of s.user_version
      → OnOk (λ _. ⊥) (cycle_lease_transaction verify_ledger owner token e now_utc body s)
  unfolding cycle_lease_transaction
  stale_transaction owner token e now_utc body s h =
      let P = λ (t : State L). ⊥ in
      OnOk->>= P (nonempty_text owner) _ λ o _. OnOk->>= P (nonempty_text token) _ λ k _.
        OnOk->>= P (positive_epoch e) _ λ e' q. OnOk->>= P (canonical_timestamp now_utc) _ λ now _.
          OnOk->>= P (replay_and_verify verify_ledger s) _ λ _ v.
            OnOk->>= P (fence o k e' now s.row) _ λ u w. absurd (
              OnOk-ok _ (fence o k e' now s.row)
                (stale-fence o k e' now s s.row (replay-valid verify_ledger s v) refl
                  (subst (λ n. n < counter_of s.user_version) (sym (positive_epoch-same e q)) h))
                w)

  stale-renewed :
      (owner token : String) (e expires : ℕ) (s : State L) (row : Row)
      → validate_identity s ≡ ok tt
      → s.row ≡ row
      → e < counter_of s.user_version
      → OnOk (λ p. p.1 ≡ false) (renewed verify_ledger owner token e expires s row)
  stale-renewed owner token e expires s absent v r h =
      OnOk->>= (λ p. p.1 ≡ false) (replay_and_verify verify_ledger s) _ λ _ _. refl
  stale-renewed owner token e expires s unreadable v r h = tt
  stale-renewed owner token e expires s (held l) v r h =
      rw (stale-matches owner token e s l l.token v r refl h)
        (OnOk->>= (λ p. p.1 ≡ false) (replay_and_verify verify_ledger s) _ λ _ _. refl)

  stale_renewal :
      (owner token : String) (e : ℕ) (now_utc expires_at : TimeValue) (s : State L)
      → e < counter_of s.user_version
      → OnOk (λ p. p.1 ≡ false) (renew_cycle_lease verify_ledger owner token e now_utc expires_at s)
  unfolding renew_cycle_lease
  stale_renewal owner token e now_utc expires_at s h =
      let P = λ (p : State L × Bool). p.1 ≡ false in
      OnOk->>= P (nonempty_text owner) _ λ o _. OnOk->>= P (nonempty_text token) _ λ k _.
        OnOk->>= P (positive_epoch e) _ λ e' q. OnOk->>= P (canonical_timestamp now_utc) _ λ now _.
          OnOk->>= P (canonical_timestamp expires_at) _ λ expires _.
            OnOk->>= P (raise_if (leb expires now) invalid_value) _ λ _ _.
              OnOk->>= P (replay_and_verify verify_ledger s) _ λ _ v.
                stale-renewed o k e' expires s s.row (replay-valid verify_ledger s v) refl
                  (subst (λ n. n < counter_of s.user_version) (sym (positive_epoch-same e q)) h)

  -- Past its epoch, a holder's transactions raise and its renewals answer false.
  pub record IsFencedOut (token_owner : String) (e : ℕ) (s : State L) : Type ℓ where
    pub transactions :
        (token : String) (now : TimeValue) (body : L → Result StoreError L)
        → OnOk (λ _. ⊥) (cycle_lease_transaction verify_ledger token_owner token e now body s)
    pub renewals :
        (token : String) (now expires : TimeValue)
        → OnOk
            (λ p. p.1 ≡ false)
            (renew_cycle_lease verify_ledger token_owner token e now expires s)

  holder_now : Row → String
  holder_now (held l) = l.owner
  holder_now _ = ""

  owned_now : (row : Row) → IsOwnedBy (holder_now row) row
  unfolding holder_now
  owned_now absent = tt
  owned_now unreadable = tt
  owned_now (held l) = eq_refl l.owner

  counter_grows :
      {s t : State L} → Steps s t → counter_of s.user_version ≤ counter_of t.user_version
  counter_grows {s} {t} p = Since-le t (steps-Since p (still refl (owned_now s.row)))

  overtaken :
      {first second second_token : String} {e next : ℕ} (u v : State L)
      → first ≢ second
      → Since first e u
      → Acquired verify_ledger second second_token u v (some next)
      → e < counter_of v.user_version
  overtaken {e = e} u v apart h a = elim (grant_facts verify_ledger u v a h) [
    | inl p ↦ subst (λ (t : State L). e < counter_of t.user_version) (sym a.written) p
    | inr (p, q) ↦ absurd (apart (sym q))
  ]

  -- Once another owner has acquired the lease, the owner of before is fenced out, whatever the
  -- processes do in between and after: its transactions at the epoch it was granted raise, and its
  -- renewals of that epoch answer false.
  pub takeover-IsFencedOut :
      (first second first_token second_token : String) (now until then_now then_until : TimeValue)
      (e next : ℕ) (s : State L) {t u v w : State L}
      → first ≢ second
      → acquire_cycle_lease_epoch verify_ledger first first_token now until s ≡ ok (t, some e)
      → Steps t u
      → acquire_cycle_lease_epoch verify_ledger second second_token then_now then_until u
        ≡ ok (v, some next)
      → Steps v w
      → IsFencedOut first e w
  takeover-IsFencedOut first second first_token second_token now until then_now then_until e next s
        {t} {u} {v} {w} apart got between taken after =
      let a =
        OnOk-ok _ (acquire_cycle_lease_epoch verify_ledger first first_token now until s)
          (acquire-Acquired verify_ledger first first_token now until s) got in
      let b =
        OnOk-ok _
          (acquire_cycle_lease_epoch verify_ledger second second_token then_now then_until u)
          (acquire-Acquired verify_ledger second second_token then_now then_until u) taken in
      let since = steps-Since between (granted-Since verify_ledger s t a) in
      let behind : e < counter_of w.user_version =
        omega (arith, overtaken u v apart since b, counter_grows after) in
      record {
        transactions = λ token at body. stale_transaction first token e at body w behind;
        renewals = λ token at end. stale_renewal first token e at end w behind;
      }
