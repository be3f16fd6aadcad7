-- ===== src/Store/Snapshot.antt =====
-- `PaperSnapshot` of src/autobit/persistence/sqlite_store.py, the digest of the events, and the
-- verification of the two mutable projections, the orders and the snapshots, against the replay.
use Prim.Native.String.{String, compare}
use Prim.Native.Nat.{Ordering}
use text.Mathlib.Text.{◌==◌ as str_eq}
use auto_bit.Prelude.{
  ℕ, Bool, true, false, not, ◌&&◌, ◌||◌, Option, none, some, List, [], ◌∷◌, Result, ok, err, ◌>>=◌,
  ◌>>◌, raise_if, if◌then◌else◌, ◌==◌, ltb, any, all, keep, is_nonempty,
}
use auto_bit.Double.{Double, ◌≼◌, ◌≺◌, nought}
use auto_bit.Domain.{PositionState, flat, entry_pending, long, exit_pending, halted, OrderStatus}
use auto_bit.Python.{TimeValue, aware, unusable}
use auto_bit.Schedule.{epoch}
use auto_bit.Store.{StoreError, corruption, Texts}
use auto_bit.Store.Payload.{Json, boolean, Payload, Codec, buy, sell, same_side, status_text, field}
use auto_bit.Store.Orders.{Decimal, StoredOrder, is_active_status}
use auto_bit.Store.Replay.{
  Event, Ledger, find_order, has_order, has_key, stored_text, start, replay,
}

-- `PaperSnapshot` without the constants `market` and `initial_equity` and without the events.
pub record Snapshot {ℓ} (F : Type ℓ) : Type ℓ where
  pub cash : F
  pub btc_quantity : F
  pub equity : F
  pub btc_cost_basis : F
  pub average_entry_price : Option F
  pub last_price : Option F
  pub position_state : PositionState
  pub pending_orders : List (StoredOrder F)
  pub last_sequence : ℕ
  pub breaker_state : Payload F
  pub health_state : Payload F
  pub event_digest : String

-- The JSON texts of an event's envelope over the digest before it, and of a snapshot.
pub record Renderer {ℓ} (F : Type ℓ) : Type ℓ where
  pub envelope_json : Event F → String → String
  pub snapshot_json : Snapshot F → String

pub record SnapshotRow : Type 0 where
  pub sequence : ℕ
  pub state_json : String
  pub created_at : TimeValue

module _ {ℓ} {F : Type ℓ} where
  -- The order by `(updated_at_utc, order_id)`.
  abbrev comes_before : StoredOrder F → StoredOrder F → Bool
  comes_before a b =
      ltb a.updated_at b.updated_at
      || a.updated_at == b.updated_at
        && elim (compare a.order_id b.order_id) [ Ordering.lt ↦ true | _ ↦ false ]

  abbrev insert_order : StoredOrder F → List (StoredOrder F) → List (StoredOrder F)
  insert_order o [] = o ∷ []
  insert_order o (p ∷ rest) = elim (comes_before p o) [
    | true ↦ p ∷ insert_order o rest
    | false ↦ o ∷ p ∷ rest
  ]

  abbrev sort_orders : List (StoredOrder F) → List (StoredOrder F)
  sort_orders [] = []
  sort_orders (o ∷ rest) = insert_order o (sort_orders rest)

  abbrev is_true : Option (Json F) → Bool
  is_true (some (boolean b)) = b
  is_true _ = false

  unfoldable pub position_state :
      ⦃d : Double F⦄ → F → List (StoredOrder F) → Payload F → PositionState
  position_state btc_quantity pending breaker =
      if is_true (field "halt_entries" breaker)
      then halted
      else if any (λ o. same_side o.side sell) pending
      then exit_pending
      else if nought ≺ btc_quantity
      then long
      else if any (λ o. same_side o.side buy) pending
      then entry_pending
      else flat

module _ {ℓ} {F : Type ℓ} ⦃m : Decimal F⦄ ⦃d : Double F⦄ where
  abbrev float_price : Option m.D → Option F
  float_price none = none
  float_price (some p) = some (m.to_float p)

  abbrev value_at : Option m.D → Ledger F → m.D
  value_at none r = m.zero
  value_at (some price) r = m.mul r.btc_quantity price

  unfoldable pub snapshot_from_components : Ledger F → String → Snapshot F
  unfolding position_state
  snapshot_from_components r digest =
      let pending = sort_orders (keep (λ o. is_active_status o.status) r.orders) in
      record {
        cash = m.to_float r.cash;
        btc_quantity = m.to_float r.btc_quantity;
        equity = m.to_float (m.add r.cash (value_at r.last_price r));
        btc_cost_basis = m.to_float r.btc_cost_basis;
        average_entry_price =
            if m.lt m.zero r.btc_quantity
            then some (m.to_float (m.div r.btc_cost_basis r.btc_quantity))
            else none;
        last_price = float_price r.last_price;
        position_state = position_state (m.to_float r.btc_quantity) pending r.breaker_state;
        pending_orders = pending;
        last_sequence = r.last_sequence;
        breaker_state = r.breaker_state;
        health_state = r.health_state;
        event_digest = digest;
      }

module _ {ℓ} {F : Type ℓ} ⦃n : Renderer F⦄ ⦃x : Texts⦄ where
  unfoldable pub event_digest : List (Event F) → String
  event_digest [] = x.sha256 ""
  event_digest (e ∷ older) = x.sha256 (n.envelope_json e (event_digest older))

  abbrev is_row_of : SnapshotRow → Snapshot F → ℕ → Bool
  is_row_of row state t =
      row.sequence == state.last_sequence
      && str_eq row.state_json (n.snapshot_json state)
      && elim (row.created_at) [ aware u ↦ u == t | unusable ↦ false ]

abbrev time_or_epoch : Option ℕ → ℕ
time_or_epoch none = epoch
time_or_epoch (some t) = t

module _ {ℓ} {F : Type ℓ} ⦃m : Decimal F⦄ ⦃d : Double F⦄ ⦃j : Codec F⦄ ⦃n : Renderer F⦄
    ⦃x : Texts⦄ where
  abbrev pub state_after : List (Event F) → Ledger F → Snapshot F
  state_after events r = snapshot_from_components r (event_digest events)

  -- The rows of the snapshots against the replay of every prefix, newest first.
  unfoldable pub check_snapshots : List (Event F) → List SnapshotRow → Result StoreError (Unit {0})
  check_snapshots [] [] = err corruption
  check_snapshots [] (row ∷ rest) =
      raise_if (not (is_row_of row (state_after [] start) epoch) || is_nonempty rest) corruption
  check_snapshots (e ∷ older) [] = err corruption
  check_snapshots (e ∷ older) (row ∷ rest) = do
    check_snapshots older rest
    r ← replay (e ∷ older)
    raise_if (not (is_row_of row (state_after (e ∷ older) r) (time_or_epoch r.previous_timestamp)))
        corruption

  abbrev pub row_of : Snapshot F → TimeValue → SnapshotRow
  row_of state created_at = record {
    sequence = state.last_sequence;
    state_json = n.snapshot_json state;
    created_at = created_at;
  }

-- The tables `events`, newest first, with the last number that SQLite gave out; `orders`; and
-- `snapshots`, newest first.
pub record Store {ℓ} (F : Type ℓ) : Type ℓ where
  pub events : List (Event F)
  pub recorded_tail : ℕ
  pub orders : List (StoredOrder F)
  pub snapshots : List SnapshotRow

abbrev same_status : OrderStatus → OrderStatus → Bool
same_status a b = str_eq (status_text a) (status_text b)

module _ {ℓ} {F : Type ℓ} ⦃m : Decimal F⦄ ⦃d : Double F⦄ ⦃x : Texts⦄ where
  abbrev orders_match : StoredOrder F → StoredOrder F → Bool
  orders_match a b =
      str_eq a.order_id b.order_id
      && str_eq a.idempotency_key b.idempotency_key
      && same_side a.side b.side
      && d.eq a.requested_quantity b.requested_quantity
      && d.eq a.filled_quantity b.filled_quantity
      && same_status a.status b.status
      && a.updated_at == b.updated_at

  -- One row of `orders`, with the rows that stand before it.
  abbrev check_projected : StoredOrder F → List (StoredOrder F) → Result StoreError (Unit {0})
  check_projected o rest = do
    id ← stored_text o.order_id
    key ← stored_text o.idempotency_key
    raise_if (has_order id rest || has_key key rest) corruption
    raise_if (not (d.is_finite o.requested_quantity) || o.requested_quantity ≼ nought) corruption
    raise_if (not (d.is_finite o.filled_quantity) || o.filled_quantity ≺ nought) corruption
    raise_if (o.requested_quantity ≺ o.filled_quantity) corruption

  abbrev check_rows : List (StoredOrder F) → Result StoreError (Unit {0})
  check_rows [] = ok tt
  check_rows (o ∷ rest) = check_rows rest >> check_projected o rest

  abbrev matches_one : Option (StoredOrder F) → StoredOrder F → Bool
  matches_one none expected = false
  matches_one (some actual) expected = orders_match expected actual

  unfoldable pub verify_order_projection :
      List (StoredOrder F) → List (StoredOrder F) → Result StoreError (Unit {0})
  verify_order_projection projected replayed = do
    check_rows projected
    raise_if (not (all (λ o. has_order o.order_id replayed) projected)) corruption
    raise_if (not (all (λ o. matches_one (find_order o.order_id projected) o) replayed)) corruption

  module _ ⦃j : Codec F⦄ ⦃n : Renderer F⦄ where
    unfoldable pub rebuild_from_events : Store F → Result StoreError (Ledger F)
    rebuild_from_events s = do
      r ← replay s.events
      raise_if (not (s.recorded_tail == r.last_sequence)) corruption
      verify_order_projection s.orders r.orders
      ok r

    -- `_replay_and_verify`, without the schema.
    unfoldable pub replay_and_verify : Store F → Result StoreError (Ledger F)
    replay_and_verify s = do r ← rebuild_from_events s; check_snapshots s.events s.snapshots; ok r
