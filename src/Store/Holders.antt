-- ===== src/Store/Holders.antt =====
-- Who holds the paper-cycle lease of src/autobit/persistence/sqlite_store.py over a sequence of
-- its operations.
use Prim.Native.String.{String}
use text.Mathlib.Text.{◌==◌ as str_eq}
use text.Mathlib.TextEquality.{eq_iff}
use auto_bit.Prelude.{
  ℕ, ◌≤◌, ◌<◌, ◌≡◌, ◌⊎◌, inl, inr, refl, sym, ◌∙◌, ap, Bool, true, false, Option, none, some,
  Result, raise_if, leb, arith, OnOk, OnOk->>=, if_both,
}
use mathlib.Core.Path.{subst}
use auto_bit.Python.{TimeValue}
use auto_bit.Store.{StoreError, invalid_value, Texts, nonempty_text, canonical_timestamp}
use auto_bit.Store.Lease.{
  Row, absent, unreadable, held, State, positive_epoch, replay_and_verify, commit, matches, renewed,
  renew_cycle_lease, released, release_cycle_lease, optional_epoch, fence, cycle_lease_transaction,
}
use auto_bit.Store.Fencing.{counter_of, Acquired, choose-facts}

-- The counter has passed an epoch, or it stands at it and the row is empty or of the owner.
abbrev pub IsOwnedBy : String → Row → Type 0
IsOwnedBy owner (held l) = str_eq l.owner owner ≡ true
IsOwnedBy owner _ = Unit

pub data Since {ℓ} {L : Type ℓ} (owner : String) (e : ℕ) (s : State L) : Type 0 where
  later : e < counter_of s.user_version → Since owner e s
  still : counter_of s.user_version ≡ e → IsOwnedBy owner s.row → Since owner e s

-- A change that leaves the counter, and gives the lease to nobody.
pub record IsMild {ℓ} {L : Type ℓ} (s t : State L) : Type 0 where
  pub counted : counter_of t.user_version ≡ counter_of s.user_version
  pub owned : (owner : String) → IsOwnedBy owner s.row → IsOwnedBy owner t.row

same_owners : (a b c : String) → str_eq a b ≡ true → str_eq a c ≡ true → c ≡ b
same_owners a b c p q = sym ((eq_iff a c).0 q) ∙ (eq_iff a b).0 p

module _ {ℓ} {L : Type ℓ} where
  pub Since-le :
      {owner : String} {e : ℕ} (s : State L) → Since owner e s → e ≤ counter_of s.user_version
  Since-le s (later h) = omega arith
  Since-le s (still h o) = omega arith

  pub Mild-Since :
      {owner : String} {e : ℕ} (s t : State L) → IsMild s t → Since owner e s → Since owner e t
  Mild-Since s t m (later h) = later (omega (arith, m.counted))
  Mild-Since {owner} s t m (still h o) = still (m.counted ∙ h) (m.owned owner o)

  unchanged : (s : State L) → IsMild s s
  unchanged s = record { counted = refl; owned = λ owner h. h }

module _ {ℓ} {L : Type ℓ} (verify_ledger : L → Result StoreError (Unit {0})) ⦃x : Texts⦄ where
  commit-mild :
      {A : Type 0} (s t : State L) (a : A)
      → IsMild s t
      → OnOk (λ p. IsMild s p.0) (commit verify_ledger t a)
  commit-mild s t a m = OnOk->>= (λ p. IsMild s p.0) (replay_and_verify verify_ledger t) _ λ _ _. m

  renewed-mild :
      (owner token : String) (epoch expires : ℕ) (s : State L) (row : Row)
      → s.row ≡ row
      → OnOk (λ p. IsMild s p.0) (renewed verify_ledger owner token epoch expires s row)
  renewed-mild owner token epoch expires s absent e = commit-mild s s false (unchanged s)
  renewed-mild owner token epoch expires s unreadable e = tt
  renewed-mild owner token epoch expires s (held l) e =
      if_both (OnOk (λ p. IsMild s p.0)) (matches owner token epoch l)
        (commit-mild s _ true
          (record { counted = refl; owned = λ other h. subst (IsOwnedBy other) e h }))
        (commit-mild s s false (unchanged s))

  released-mild :
      (owner token : String) (epoch : Option ℕ) (s : State L) (row : Row)
      → OnOk (λ p. IsMild s p.0) (released verify_ledger owner token epoch s row)
  released-mild owner token epoch s absent = commit-mild s s false (unchanged s)
  released-mild owner token epoch s unreadable = tt
  released-mild owner token epoch s (held l) =
      if_both (OnOk (λ p. IsMild s p.0)) (_)
        (commit-mild s _ true (record { counted = refl; owned = λ other h. tt }))
        (commit-mild s s false (unchanged s))

  pub renew-mild :
      (owner token : String) (epoch : ℕ) (now_utc expires_at : TimeValue) (s : State L)
      → OnOk
          (λ p. IsMild s p.0)
          (renew_cycle_lease verify_ledger owner token epoch now_utc expires_at s)
  unfolding renew_cycle_lease
  renew-mild owner token epoch now_utc expires_at s =
      let P = λ (p : State L × Bool). IsMild s p.0 in
      OnOk->>= P (nonempty_text owner) _ λ o _. OnOk->>= P (nonempty_text token) _ λ k _.
        OnOk->>= P (positive_epoch epoch) _ λ e _.
          OnOk->>= P (canonical_timestamp now_utc) _ λ now _.
            OnOk->>= P (canonical_timestamp expires_at) _ λ expires _.
              OnOk->>= P (raise_if (leb expires now) invalid_value) _ λ _ _.
                OnOk->>= P (replay_and_verify verify_ledger s) _
                  λ _ _. renewed-mild o k e expires s s.row refl

  pub release-mild :
      (owner token : String) (epoch : Option ℕ) (s : State L)
      → OnOk (λ p. IsMild s p.0) (release_cycle_lease verify_ledger owner token epoch s)
  unfolding release_cycle_lease
  release-mild owner token epoch s =
      let P = λ (p : State L × Bool). IsMild s p.0 in
      OnOk->>= P (nonempty_text owner) _ λ o _. OnOk->>= P (nonempty_text token) _ λ k _.
        OnOk->>= P (optional_epoch epoch) _
          λ e _. OnOk->>= P (replay_and_verify verify_ledger s) _ λ _ _. released-mild o k e s s.row

  pub transaction-mild :
      (owner token : String) (epoch : ℕ) (now_utc : TimeValue) (body : L → Result StoreError L)
      (s : State L)
      → OnOk (IsMild s) (cycle_lease_transaction verify_ledger owner token epoch now_utc body s)
  unfolding cycle_lease_transaction
  transaction-mild owner token epoch now_utc body s =
      OnOk->>= (IsMild s) (nonempty_text owner) _ λ o _.
        OnOk->>= (IsMild s) (nonempty_text token) _ λ k _.
          OnOk->>= (IsMild s) (positive_epoch epoch) _ λ e _.
            OnOk->>= (IsMild s) (canonical_timestamp now_utc) _ λ now _.
              OnOk->>= (IsMild s) (replay_and_verify verify_ledger s) _ λ _ _.
                OnOk->>= (IsMild s) (fence o k e now s.row) _ λ _ _.
                  OnOk->>= (IsMild s) (body s.ledger) _ λ ledger _.
                    OnOk->>= (IsMild s)
                      (replay_and_verify verify_ledger (record s { ledger = ledger })) _
                      λ _ _. record { counted = refl; owned = λ other h. h }

  -- A lease that is granted: the counter stands past the old epoch, or the holder has it again.
  pub grant_facts :
      {owner other token : String} {e next : ℕ} (s t : State L)
      → Acquired verify_ledger other token s t (some next)
      → Since owner e s
      → (e < next) ⊎ ((next ≡ e) × (other ≡ owner))
  grant_facts {owner} s t a h =
      elim (choose-facts a.holder a.secret a.now a.counter s.row _ a.chosen) [
        | inl p ↦ inl (omega (arith, Since-le s h, ap counter_of a.known))
        | inr (p, (l, r, q)) ↦ elim h [
          | later k ↦ inl (omega (arith, ap counter_of a.known))
          | still k o ↦ inr (
            p ∙ (sym (ap counter_of a.known) ∙ k),
            sym a.same_owner ∙ same_owners l.owner owner a.holder (subst (IsOwnedBy owner) r o) q,
          )
        ]
      ]

  pub acquired-Since :
      {owner other token : String} {e : ℕ} (s t : State L) (r : Option ℕ)
      → Acquired verify_ledger other token s t r
      → Since owner e s
      → Since owner e t
  acquired-Since {owner} {e = e} s t none a h = subst (Since owner e) (sym a.written) h
  acquired-Since {owner} {e = e} s t (some next) a h =
      subst (Since owner e) (sym a.written) (elim (grant_facts s t a h) [
        | inl p ↦ later p
        | inr (p, q) ↦ still p ((eq_iff a.holder owner).1 (a.same_owner ∙ q))
      ])

  pub granted-Since :
      {owner token : String} {e : ℕ} (s t : State L)
      → Acquired verify_ledger owner token s t (some e)
      → Since owner e t
  granted-Since {owner} {e = e} s t a =
      subst (Since owner e) (sym a.written) (still refl ((eq_iff a.holder owner).1 a.same_owner))
