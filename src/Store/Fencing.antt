-- ===== src/Store/Fencing.antt =====
-- Who holds the paper-cycle lease of src/autobit/persistence/sqlite_store.py over a sequence of
-- its operations.
use Prim.Native.String.{String}
use text.Mathlib.Text.{◌==◌ as str_eq}
use auto_bit.Prelude.{
  ℕ, suc, ◌≡◌, ◌⊎◌, inl, inr, refl, true, not, ◌||◌, Option, none, some, Result, ok, raise_if, leb,
  ltb, ◌==◌, arith, >>=-ok, raise_if-ok, Bool-cases, OnOk, OnOk->>=,
}
use auto_bit.Python.{TimeValue}
use auto_bit.Store.{StoreError, invalid_value, Texts, nonempty_text, canonical_timestamp}
use auto_bit.Store.Lease.{
  fenced, Lease, Row, absent, unreadable, held, State, cycle_lease_epoch, next_cycle_lease_epoch,
  positive_epoch, cycle_lease_token_epoch, validate_identity, replay_and_verify, choose_epoch,
  epoch_over, write_epoch, acquire_cycle_lease_epoch, max_cycle_lease_epoch,
}

abbrev pub counter_of : Option ℕ → ℕ
counter_of none = 0
counter_of (some n) = n

pub nonempty_text-same : ⦃x : Texts⦄ (t : String) {u : String} → nonempty_text t ≡ ok u → u ≡ t
nonempty_text-same ⦃x⦄ t h =
    let (p, q) = raise_if-ok (str_eq t "" || not (str_eq t (x.strip t))) invalid_value (ok t) h in
    ground (arith, q)

pub positive_epoch-same : (e : ℕ) {f : ℕ} → positive_epoch e ≡ ok f → f ≡ e
positive_epoch-same e h =
    let (p, q) = raise_if-ok (e == 0) invalid_value (ok e) h in ground (arith, q)

pub known_counter :
    (version : Option ℕ) {counter : ℕ}
    → cycle_lease_epoch version ≡ ok counter
    → version ≡ some counter
unfolding cycle_lease_epoch
known_counter none h = ground (arith, h)
known_counter (some n) h = ground (arith, h)

module _ {ℓ} {L : Type ℓ} where
  -- The row of a valid state is empty, or a lease at the counter, or one of before the epochs.
  pub row-counter :
      (s : State L) (l : Lease) (e : ℕ) (digest : String)
      → validate_identity s ≡ ok tt
      → s.row ≡ held l
      → l.token ≡ fenced e digest
      → counter_of s.user_version ≡ e
  unfolding validate_identity cycle_lease_token_epoch cycle_lease_epoch
  row-counter s l e digest v r t = ground (arith, v, r, t, Bool-cases (ltb max_cycle_lease_epoch e))

module _ ⦃x : Texts⦄ where
  over-facts :
      (owner token : String) (now counter : ℕ) (l : Lease) (current : Option ℕ) (e : ℕ)
      → epoch_over owner token now counter l current ≡ ok (some e)
      → (e ≡ suc counter) ⊎ ((e ≡ counter) × (str_eq l.owner owner ≡ true))
  unfolding next_cycle_lease_epoch
  over-facts owner token now counter l none e h = ground (arith, h)
  over-facts owner token now counter l (some current) e h = ground (arith, h)

  pub choose-facts :
      (owner token : String) (now counter : ℕ) (row : Row) (e : ℕ)
      → choose_epoch owner token now counter row ≡ ok (some e)
      → (e ≡ suc counter)
        ⊎ ((e ≡ counter) × ((l : Lease) × (row ≡ held l) × (str_eq l.owner owner ≡ true)))
  unfolding choose_epoch next_cycle_lease_epoch
  choose-facts owner token now counter absent e h = ground (arith, h)
  choose-facts owner token now counter unreadable e h = ground (arith, h)
  choose-facts owner token now counter (held l) e h =
      let (current, ec, h) = >>=-ok (cycle_lease_token_epoch l.token) _ h in
      elim (over-facts owner token now counter l current e h) [
        | inl p ↦ inl p
        | inr p ↦ inr (p.0, (l, refl, p.1))
      ]

module _ {ℓ} {L : Type ℓ} (verify_ledger : L → Result StoreError (Unit {0})) ⦃x : Texts⦄ where
  pub replay-valid :
      (s : State L) {u : Unit {0}}
      → replay_and_verify verify_ledger s ≡ ok u
      → validate_identity s ≡ ok tt
  replay-valid s h = let (u, v, _) = >>=-ok (validate_identity s) _ h in v

  -- What a call that returns has done, with the epoch it chose.
  pub record Acquired (owner token : String) (s t : State L) (r : Option ℕ) : Type ℓ where
    pub counter : ℕ
    pub holder : String
    pub secret : String
    pub now : ℕ
    pub expires : ℕ
    pub valid : validate_identity s ≡ ok tt
    pub known : s.user_version ≡ some counter
    pub same_owner : holder ≡ owner
    pub chosen : choose_epoch holder secret now counter s.row ≡ ok r
    pub written : t ≡ write_epoch holder secret expires r s

  pub acquire-Acquired :
      (owner token : String) (now_utc expires_at : TimeValue) (s : State L)
      → OnOk
          (λ p. Acquired owner token s p.0 p.1)
          (acquire_cycle_lease_epoch verify_ledger owner token now_utc expires_at s)
  unfolding acquire_cycle_lease_epoch cycle_lease_epoch
  acquire-Acquired owner token now_utc expires_at s =
      let P = λ (p : State L × Option ℕ). Acquired owner token s p.0 p.1 in
      OnOk->>= P (nonempty_text owner) _ λ o eo. OnOk->>= P (nonempty_text token) _ λ k ek.
        OnOk->>= P (canonical_timestamp now_utc) _ λ now en.
          OnOk->>= P (canonical_timestamp expires_at) _ λ expires ee.
            OnOk->>= P (raise_if (leb expires now) invalid_value) _ λ _ later.
              OnOk->>= P (replay_and_verify verify_ledger s) _ λ _ ev.
                OnOk->>= P (cycle_lease_epoch s.user_version) _ λ counter ec.
                  OnOk->>= P (choose_epoch o k now counter s.row) _ λ r er.
                    OnOk->>= P (replay_and_verify verify_ledger (write_epoch o k expires r s)) _
                      λ _ ew. record {
                        counter = counter;
                        holder = o;
                        secret = k;
                        now = now;
                        expires = expires;
                        valid = replay-valid s ev;
                        known = known_counter s.user_version ec;
                        same_owner = nonempty_text-same owner eo;
                        chosen = er;
                        written = refl;
                      }
