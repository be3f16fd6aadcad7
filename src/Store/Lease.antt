-- ===== src/Store/Lease.antt =====
-- The paper-cycle lease of src/autobit/persistence/sqlite_store.py: the row `paper_cycle_lease`
-- of the metadata, the counter in `PRAGMA user_version`, and the methods that move them. The rest
-- of the store is a parameter with its verification. A transaction that raises is rolled back, so
-- a method that raises has no new state.
use Prim.Native.String.{String}
use text.Mathlib.Text.{◌==◌ as str_eq}
use auto_bit.Prelude.{
  ℕ, ◌+◌, Bool, true, false, not, ◌&&◌, ◌||◌, Option, none, some, Result, ok, err, ◌>>=◌, ◌>>◌,
  raise_if, leb, ltb, ◌==◌, if◌then◌else◌,
}
use auto_bit.Python.{TimeValue}
use auto_bit.Store.{
  StoreError, store_error, corruption, invalid_value, lease_lost, Texts, nonempty_text,
  canonical_timestamp,
}

-- A stored token: the prefix, an epoch and a digest, or a text that the pattern does not match.
pub data StoredToken : Type 0 where
  fenced : ℕ → String → StoredToken
  legacy : String → StoredToken

pub record Lease : Type 0 where
  pub owner : String
  pub token : StoredToken
  pub expires_at : ℕ

-- The metadata row; `unreadable` is a text that is no canonical lease.
pub data Row : Type 0 where
  absent unreadable : Row
  held : Lease → Row

-- `user_version` is `none` where it is negative or no integer.
pub record State {ℓ} (L : Type ℓ) : Type ℓ where
  pub ledger : L
  pub user_version : Option ℕ
  pub row : Row

abbrev pub max_cycle_lease_epoch : ℕ
max_cycle_lease_epoch = 2147483647

-- `_cycle_lease_epoch`
unfoldable pub cycle_lease_epoch : Option ℕ → Result StoreError ℕ
cycle_lease_epoch none = err corruption
cycle_lease_epoch (some epoch) = do raise_if (ltb max_cycle_lease_epoch epoch) corruption; ok epoch

-- `_next_cycle_lease_epoch`
unfoldable pub next_cycle_lease_epoch : ℕ → Result StoreError ℕ
next_cycle_lease_epoch counter = do
  raise_if (leb max_cycle_lease_epoch counter) store_error
  ok (counter + 1)

-- `_positive_epoch`
abbrev pub positive_epoch : ℕ → Result StoreError ℕ
positive_epoch value = do raise_if (value == 0) invalid_value; ok value

-- `_cycle_lease_token_epoch`, whose exceptions `_cycle_lease_metadata` turns into corruption.
unfoldable pub cycle_lease_token_epoch : StoredToken → Result StoreError (Option ℕ)
cycle_lease_token_epoch (legacy t) = ok none
cycle_lease_token_epoch (fenced e digest) = do
  raise_if (e == 0 || ltb max_cycle_lease_epoch e) corruption
  ok (some e)

abbrev pub same_token : StoredToken → StoredToken → Bool
same_token (fenced a x) (fenced b y) = a == b && str_eq x y
same_token (legacy x) (legacy y) = str_eq x y
same_token _ _ = false

-- `_cycle_lease_storage_token`, at a positive epoch.
abbrev pub cycle_lease_storage_token : ⦃x : Texts⦄ → String → ℕ → StoredToken
cycle_lease_storage_token ⦃x⦄ token epoch = fenced epoch (x.sha256 token)

-- `_validate_schema_and_identity`: the row against the counter.
abbrev pub check_epoch : ℕ → Option ℕ → Result StoreError (Unit {0})
check_epoch counter none = ok tt
check_epoch counter (some e) = raise_if (not (e == counter)) corruption

abbrev pub check_row : ℕ → Row → Result StoreError (Unit {0})
check_row counter absent = ok tt
check_row counter unreadable = err corruption
check_row counter (held l) = do epoch ← cycle_lease_token_epoch l.token; check_epoch counter epoch

unfoldable pub validate_identity {ℓ} : {L : Type ℓ} → State L → Result StoreError (Unit {0})
unfolding cycle_lease_epoch cycle_lease_token_epoch
validate_identity s = do counter ← cycle_lease_epoch s.user_version; check_row counter s.row

module _ ⦃x : Texts⦄ where
  abbrev pub granted : ℕ → Result StoreError (Option ℕ)
  granted counter = do epoch ← next_cycle_lease_epoch counter; ok (some epoch)

  -- The holder's epoch, the next one, or `none` where another holder's lease is live.
  abbrev pub epoch_over : String → String → ℕ → ℕ → Lease → Option ℕ → Result StoreError (Option ℕ)
  epoch_over owner token now counter l (some e) =
      let same = str_eq l.owner owner && same_token l.token (cycle_lease_storage_token token e) in
      let next = granted counter in
      if not same && ltb now l.expires_at
      then ok none
      else if not (counter == e)
      then err corruption
      else if same
      then ok (some e)
      else next
  epoch_over owner token now counter l none =
      let same = str_eq l.owner owner && same_token l.token (legacy token) in
      if not same && ltb now l.expires_at then ok none else granted counter

  unfoldable pub choose_epoch : String → String → ℕ → ℕ → Row → Result StoreError (Option ℕ)
  choose_epoch owner token now counter absent = granted counter
  choose_epoch owner token now counter unreadable = err corruption
  choose_epoch owner token now counter (held l) = do
    current ← cycle_lease_token_epoch l.token
    epoch_over owner token now counter l current

  -- The writes: the row, and the counter to the epoch.
  abbrev pub write_epoch {ℓ} : {L : Type ℓ} → String → String → ℕ → Option ℕ → State L → State L
  write_epoch owner token expires none s = s
  write_epoch owner token expires (some e) s = record s {
    user_version = some e;
    row =
        held (record {
          owner = owner;
          token = cycle_lease_storage_token token e;
          expires_at = expires;
        });
  }

  -- The row is a lease of the owner at the epoch with the token's digest.
  abbrev pub matches : String → String → ℕ → Lease → Bool
  matches owner token epoch l =
      str_eq l.owner owner && same_token l.token (cycle_lease_storage_token token epoch)

  abbrev pub holder_token : String → StoredToken → StoredToken
  holder_token token (fenced e digest) = cycle_lease_storage_token token e
  holder_token token (legacy t) = legacy token

  -- The epoch of the stored token is the one asked for, if one is.
  abbrev pub epoch_agrees : Option ℕ → StoredToken → Bool
  epoch_agrees none t = true
  epoch_agrees (some epoch) (fenced e digest) = e == epoch
  epoch_agrees (some epoch) (legacy t) = false

  abbrev pub optional_epoch : Option ℕ → Result StoreError (Option ℕ)
  optional_epoch none = ok none
  optional_epoch (some e) = do epoch ← positive_epoch e; ok (some epoch)

  abbrev pub fence : String → String → ℕ → ℕ → Row → Result StoreError (Unit {0})
  fence owner token epoch now absent = err lease_lost
  fence owner token epoch now unreadable = err corruption
  fence owner token epoch now (held l) =
      raise_if (not (matches owner token epoch l) || leb l.expires_at now) lease_lost

module _ {ℓ} {L : Type ℓ} (verify_ledger : L → Result StoreError (Unit {0})) ⦃x : Texts⦄ where
  -- `_replay_and_verify`
  abbrev pub replay_and_verify : State L → Result StoreError (Unit {0})
  replay_and_verify s = validate_identity s >> verify_ledger s.ledger

  -- The end of `_mutation_transaction`.
  abbrev pub commit {κ} : {A : Type κ} → State L → A → Result StoreError (State L × A)
  commit s a = do replay_and_verify s; ok (s, a)

  unfoldable pub acquire_cycle_lease_epoch :
      String → String → TimeValue → TimeValue → State L → Result StoreError (State L × Option ℕ)
  unfolding choose_epoch
  acquire_cycle_lease_epoch owner token now_utc expires_at_utc s = do
    normalized_owner ← nonempty_text owner
    normalized_token ← nonempty_text token
    now ← canonical_timestamp now_utc
    expires ← canonical_timestamp expires_at_utc
    raise_if (leb expires now) invalid_value
    replay_and_verify s
    counter ← cycle_lease_epoch s.user_version
    epoch ← choose_epoch normalized_owner normalized_token now counter s.row
    commit (write_epoch normalized_owner normalized_token expires epoch s) epoch

  abbrev pub renewed : String → String → ℕ → ℕ → State L → Row → Result StoreError (State L × Bool)
  renewed owner token epoch expires s absent = commit s false
  renewed owner token epoch expires s unreadable = err corruption
  renewed owner token epoch expires s (held l) =
      if matches owner token epoch l
      then commit (record s { row = held (record l { expires_at = expires }) }) true
      else commit s false

  unfoldable pub renew_cycle_lease :
      String → String → ℕ → TimeValue → TimeValue → State L → Result StoreError (State L × Bool)
  renew_cycle_lease owner token epoch now_utc expires_at_utc s = do
    normalized_owner ← nonempty_text owner
    normalized_token ← nonempty_text token
    normalized_epoch ← positive_epoch epoch
    now ← canonical_timestamp now_utc
    expires ← canonical_timestamp expires_at_utc
    raise_if (leb expires now) invalid_value
    replay_and_verify s
    renewed normalized_owner normalized_token normalized_epoch expires s s.row

  abbrev pub released :
      String → String → Option ℕ → State L → Row → Result StoreError (State L × Bool)
  released owner token epoch s absent = commit s false
  released owner token epoch s unreadable = err corruption
  released owner token epoch s (held l) =
      if str_eq l.owner owner
        && same_token l.token (holder_token token l.token)
        && epoch_agrees epoch l.token
      then commit (record s { row = absent }) true
      else commit s false

  unfoldable pub release_cycle_lease :
      String → String → Option ℕ → State L → Result StoreError (State L × Bool)
  release_cycle_lease owner token epoch s = do
    normalized_owner ← nonempty_text owner
    normalized_token ← nonempty_text token
    normalized_epoch ← optional_epoch epoch
    replay_and_verify s
    released normalized_owner normalized_token normalized_epoch s s.row

  -- The body is a parameter that changes the ledger or raises.
  unfoldable pub cycle_lease_transaction :
      String
      → String
      → ℕ
      → TimeValue
      → (L → Result StoreError L)
      → State L
      → Result StoreError (State L)
  cycle_lease_transaction owner token epoch now_utc body s = do
    normalized_owner ← nonempty_text owner
    normalized_token ← nonempty_text token
    normalized_epoch ← positive_epoch epoch
    now ← canonical_timestamp now_utc
    replay_and_verify s
    fence normalized_owner normalized_token normalized_epoch now s.row
    ledger ← body s.ledger
    let after = record s { ledger = ledger }
    replay_and_verify after
    ok after
