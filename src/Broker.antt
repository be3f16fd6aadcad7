-- ===== src/Broker.antt =====
-- src/autobit/execution/paper_broker.py: the orders, fills and stops that the paper broker reads
-- from the events of the store, its identities and its boundaries. The broker has no state of its
-- own: it is its store.
pub mod Readers
pub mod Costs
pub mod Trades
pub mod Rounds
pub mod Execution
pub mod Stops
pub mod Collect
pub mod Orders
pub mod Entries
pub mod Executions
pub mod Positions
pub mod Fills
pub mod Ledger
pub mod Submission
pub mod Submit
pub mod Attempts
pub mod Process
pub mod Protect
pub mod View
mod Tests
use Prim.Native.String.{String, ◌++◌ as str_append}
use text.Mathlib.Text.{◌==◌ as str_eq}
use auto_bit.Prelude.{
  ℕ, ◌+◌, ◌%◌, Bool, true, false, not, ◌&&◌, ◌||◌, Option, none, some, List, [], ◌∷◌, Result, ok,
  err, ◌>>=◌, ◌>>◌, raise_if, or_raise, if◌then◌else◌, leb, ◌==◌,
}
use auto_bit.Prelude.Int.{pos}
use auto_bit.Double.{Double, ◌≼◌, ◌≺◌, nought, one}
use auto_bit.Domain.{OrderStatus}
use auto_bit.Schedule.{four_hours, end_of_time}
use auto_bit.Store.{StoreError, invalid_value, conflict, Texts}
use auto_bit.Store.Payload.{
  Json, integer, number, string, Payload, Side, buy, sell, side_text, field, has_exactly,
}
use auto_bit.Store.Orders.{Decimal}

-- `PaperReconciliationError`, an exception of the store or a `ValueError`, `OverflowError`, and
-- `IndexError` or `StopIteration`. `diverged` stands for a loop that does not end.
pub data BrokerError : Type 0 where
  reconciliation : BrokerError
  raised : StoreError → BrokerError
  overflow : BrokerError
  index_error : BrokerError
  diverged : BrokerError

abbrev pub invalid : BrokerError
invalid = raised invalid_value

-- An exception of the store, as it passes through the broker.
abbrev pub lift {κ} : {A : Type κ} → Result StoreError A → Result BrokerError A
lift (ok a) = ok a
lift (err e) = err (raised e)

-- What the broker asks of `re` and `datetime`: the instant of a text that `_timestamp` accepts.
pub record Clock : Type 0 where
  pub instant : String → Option ℕ

-- What it asks of `repr` and `math`: the text of a float, the fields of an inner object, the
-- items of an inner list that are lists of two, the float below a positive one, and the number of
-- floats from 0 up to one.
pub record Platform {ℓ} (F : Type ℓ) : Type ℓ where
  pub repr : F → String
  pub inner : String → Payload F
  pub pairs : String → List (Option (Json F × Json F))
  pub nextafter : F → F
  pub rank : F → ℕ

-- `StoredEvent`
pub record Evidence {ℓ} (F : Type ℓ) : Type ℓ where
  pub sequence : ℕ
  pub event_id : String
  pub event_type : String
  pub occurred_at : ℕ
  pub payload : Payload F

-- `_entry_context`, checked
pub record EntryContext {ℓ} (F : Type ℓ) : Type ℓ where
  pub signal_price : F
  pub entry_atr : F
  pub initial_atr_mult : F
  pub baseline_atr_pct : F
  pub risk_rate : F
  pub exposure_cap : F
  pub risk_event_id : String

pub data OrderKind : Type 0 where
  market stop : OrderKind

abbrev pub kind_text : OrderKind → String
kind_text market = "MARKET"
kind_text stop = "STOP"

pub record PaperOrder {ℓ} (F : Type ℓ) : Type ℓ where
  pub order_id : String
  pub idempotency_key : String
  pub side : Side
  pub reason : String
  pub signal_at : ℕ
  pub requested_quantity : F
  pub filled_quantity : F
  pub remainder_quantity : F
  pub status : OrderStatus
  pub order_kind : OrderKind
  pub parent_order_id : Option String
  pub eligible_open : ℕ
  pub fee_rate : F
  pub slippage_rate : F
  pub execution_context : Option (EntryContext F)

pub record PaperFill {ℓ} (F : Type ℓ) : Type ℓ where
  pub fill_id : String
  pub order_id : String
  pub side : Side
  pub reason : String
  pub quantity : F
  pub reference_price : F
  pub fill_price : F
  pub fee : F
  pub slippage : F
  pub fill_time : ℕ

pub record PaperStop {ℓ} (F : Type ℓ) : Type ℓ where
  pub stop_id : String
  pub stop_price : F
  pub reason : String
  pub observed_at : ℕ
  pub active_after : ℕ
  pub source_id : String
  pub fee_rate : F
  pub slippage_rate : F

-- `_require_boundary` and `_next_boundary`: a day is a multiple of four hours.
abbrev pub require_boundary : ℕ → BrokerError → Result BrokerError (Unit {0})
require_boundary t error = raise_if (not (t % four_hours == 0)) error

abbrev pub next_boundary : ℕ → Result BrokerError ℕ
next_boundary t = do
  require_boundary t invalid
  raise_if (leb end_of_time (t + four_hours)) overflow
  ok (t + four_hours)

abbrev pub joined : String → String → String
joined a b = str_append a b

abbrev parent_text : Option String → String
parent_text none = "ROOT"
parent_text (some id) = if str_eq id "" then "ROOT" else id

abbrev pub order_key : String → Side → String → Option String → String
order_key signal_at side reason parent = joined "KRW-BTC:" (
    joined signal_at (
      joined ":"
        (joined (side_text side) (joined ":" (joined reason (joined ":" (parent_text parent)))))))

abbrev pub evidence_timestamp : ⦃c : Clock⦄ → String → Result BrokerError ℕ
evidence_timestamp ⦃c⦄ value = or_raise (c.instant value) reconciliation

module _ ⦃x : Texts⦄ where
  -- A text of the form `prefix:sha256`.
  abbrev pub digest_id : String → String → String
  digest_id prefix material = joined prefix (x.sha256 material)

  -- `_order_identity`
  unfoldable pub order_identity : String → Side → String → Option String → String × String
  order_identity signal_at side reason parent =
      let key = order_key signal_at side reason parent in (key, digest_id "paper-order:" key)

  abbrev pub stop_identity : String → String → String → String
  stop_identity source_id observed reason =
      digest_id "paper-stop:"
        (joined "KRW-BTC|" (joined source_id (joined "|" (joined observed (joined "|" reason)))))

  abbrev pub stop_set_id : String → String
  stop_set_id stop_id = digest_id "paper-stop-set:" stop_id

  abbrev pub order_meta_id : String → String
  order_meta_id order_id = digest_id "paper-order-meta:" order_id

  abbrev pub fill_meta_id : String → String
  fill_meta_id fill_id = digest_id "paper-fill-meta:" fill_id

  abbrev pub execution_id : String → String
  execution_id order_id = digest_id "paper-execution:" order_id

  abbrev pub entry_context_id : String → String
  entry_context_id order_id = digest_id "paper-entry-context:" order_id

  -- `_reason`, as the guard of a call and of evidence.
  abbrev pub valid_reason : String → BrokerError → Result BrokerError String
  valid_reason value error = do
    raise_if (str_eq value "" || not (x.is_reason value)) error
    ok value
