-- ===== src/Store.antt =====
-- src/autobit/persistence/sqlite_store.py: the exceptions, texts and times that the parts of the
-- event store share.
pub mod Lease
pub mod Fencing
pub mod Holders
pub mod Takeover
pub mod Taking
pub mod Payload
pub mod Known
pub mod Orders
pub mod Replay
pub mod Snapshot
pub mod Append
pub mod Record
pub mod Accounts
pub mod Solvency
pub mod Lifecycle
pub mod Evolution
pub mod Written
pub mod Retry
pub mod Chronicle
pub mod Plain
mod Tests
use Prim.Native.String.{String}
use text.Mathlib.Text.{◌==◌ as str_eq}
use auto_bit.Prelude.{ℕ, Bool, not, ◌||◌, Result, ok, err, ◌>>◌, raise_if}
use auto_bit.Python.{TimeValue, aware, unusable}

-- `ValueError`, `StoreError`, the three exceptions below it, and `sqlite3.IntegrityError`.
pub data StoreError : Type 0 where
  invalid_value store_error corruption conflict lease_lost integrity_error : StoreError

-- What the store asks of `str`, `hashlib`, `re` and `datetime`: `strip`, the hexadecimal SHA-256,
-- the pattern of a reason, whether a text is a canonical UTC time, and the text of an instant.
pub record Texts : Type 0 where
  pub strip : String → String
  pub sha256 : String → String
  pub is_reason : String → Bool
  pub is_canonical_utc : String → Bool
  pub utc_text : ℕ → String

-- `_nonempty_text`, of a text.
abbrev pub nonempty_text : ⦃x : Texts⦄ → String → Result StoreError String
nonempty_text ⦃x⦄ value = do
  raise_if (str_eq value "" || not (str_eq value (x.strip value))) invalid_value
  ok value

-- `_canonical_timestamp`, of a `datetime`: the instant, if it is aware with offset 0.
abbrev pub canonical_timestamp : TimeValue → Result StoreError ℕ
canonical_timestamp (aware t) = ok t
canonical_timestamp unusable = err invalid_value
