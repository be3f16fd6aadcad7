-- ===== src/Store/Append.antt =====
-- `append_event` of `SQLiteStore` in src/autobit/persistence/sqlite_store.py, and the writes that
-- the mutations share. A transaction that raises is rolled back.
use Prim.Native.String.{String}
use text.Mathlib.Text.{◌==◌ as str_eq}
use auto_bit.Prelude.{
  ℕ, ◌+◌, Bool, true, false, not, ◌&&◌, ◌||◌, Option, none, some, List, [], ◌∷◌, Result, ok, err,
  ◌>>=◌, ◌>>◌, raise_if, if◌then◌else◌, ltb, all, ◌==◌, is_some,
}
use auto_bit.Double.{Double, ◌≼◌, ◌≺◌, nought}
use auto_bit.Python.{TimeValue, aware, unusable}
use auto_bit.Store.{
  StoreError, conflict, invalid_value, integrity_error, Texts, nonempty_text, canonical_timestamp,
}
use auto_bit.Store.Payload.{Json, number, Payload, Codec}
use auto_bit.Store.Known.{validate_known_state_payload}
use auto_bit.Store.Orders.{Decimal, StoredOrder}
use auto_bit.Store.Replay.{Event}
use auto_bit.Store.Snapshot.{
  Store, Renderer, row_of, state_after, rebuild_from_events, replay_and_verify,
}

abbrev pub same_time : TimeValue → ℕ → Bool
same_time (aware u) t = u == t
same_time unusable t = false

module _ {ℓ} {F : Type ℓ} where
  abbrev pub find_event : String → List (Event F) → Option (Event F)
  find_event id [] = none
  find_event id (e ∷ older) = elim (str_eq e.event_id id) [
    | true ↦ some e
    | false ↦ find_event id older
  ]

  abbrev pub find_key : String → List (StoredOrder F) → Option (StoredOrder F)
  find_key key [] = none
  find_key key (o ∷ rest) = elim (str_eq o.idempotency_key key) [
    | true ↦ some o
    | false ↦ find_key key rest
  ]

  -- `_validate_timestamp_order`
  abbrev pub validate_timestamp_order : List (Event F) → ℕ → Result StoreError (Unit {0})
  validate_timestamp_order [] t = ok tt
  validate_timestamp_order (e ∷ older) t = do
    latest ← canonical_timestamp e.occurred_at
    raise_if (ltb t latest) invalid_value

  module _ ⦃d : Double F⦄ where
    abbrev pub is_json_number : Json F → Bool
    is_json_number (number v) = d.is_finite v
    is_json_number _ = true

    -- `_positive_number` and `_nonnegative_number`
    abbrev pub positive_number : F → Result StoreError F
    positive_number v = raise_if (not (d.is_finite v) || v ≼ nought) invalid_value >> ok v

    abbrev pub nonnegative_number : F → Result StoreError F
    nonnegative_number v = raise_if (not (d.is_finite v) || v ≺ nought) invalid_value >> ok v

  module _ ⦃j : Codec F⦄ where
    abbrev pub same_json : Option (Payload F) → Payload F → Bool
    same_json none payload = false
    same_json (some stored) payload = str_eq (j.canonical_json stored) (j.canonical_json payload)

    -- The stored event is the one that the call would append.
    abbrev pub same_evidence : Event F → String → ℕ → Payload F → Bool
    same_evidence e event_type t payload =
        str_eq e.event_type event_type && same_time e.occurred_at t && same_json e.payload payload

    -- An exact retry returns `False`, another use of the identity raises.
    abbrev pub retry :
        Store F → Event F → String → ℕ → Payload F → Result StoreError (Store F × Bool)
    retry s e event_type t payload =
        if same_evidence e event_type t payload then ok (s, false) else err conflict

  abbrev pub new_event : Store F → String → String → ℕ → Payload F → Event F
  new_event s id event_type t payload = record {
    sequence = s.recorded_tail + 1;
    event_id = id;
    event_type = event_type;
    occurred_at = aware t;
    payload = some payload;
  }

module _ {ℓ} {F : Type ℓ} ⦃m : Decimal F⦄ ⦃d : Double F⦄ ⦃j : Codec F⦄ ⦃n : Renderer F⦄
    ⦃x : Texts⦄ where
  -- The writes: the event, the orders and the snapshot of the replay.
  unfoldable pub write : Event F → List (StoredOrder F) → Store F → Result StoreError (Store F)
  write e orders s = do
    raise_if (is_some (find_event e.event_id s.events)) integrity_error
    let written = record s { events = e ∷ s.events; recorded_tail = e.sequence; orders = orders }
    r ← rebuild_from_events written
    let after = record written {
      snapshots = row_of (state_after written.events r) e.occurred_at ∷ s.snapshots;
    }
    checked ← replay_and_verify after
    ok after

  unfoldable pub append_event :
      String → String → TimeValue → Payload F → Store F → Result StoreError (Store F × ℕ)
  append_event event_id event_type occurred_at payload s = do
    id ← nonempty_text event_id
    name ← nonempty_text event_type
    t ← canonical_timestamp occurred_at
    validate_known_state_payload invalid_value name payload
    raise_if (not (all (λ entry. is_json_number entry.1) payload)) invalid_value
    r ← replay_and_verify s
    raise_if (is_some (find_event id s.events)) conflict
    validate_timestamp_order s.events t
    let e = new_event s id name t payload
    after ← write e s.orders s
    ok (after, e.sequence)
