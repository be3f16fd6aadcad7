-- ===== src/Store/Replay.antt =====
-- `_rebuild_from_events` of src/autobit/persistence/sqlite_store.py: the fold over the immutable
-- events. A list of events stands with the newest first, so the replay of a list replays its
-- tail first.
use Prim.Native.String.{String, ◌++◌ as str_append}
use text.Mathlib.Text.{◌==◌ as str_eq}
use auto_bit.Prelude.{
  ℕ, ◌+◌, Bool, true, false, not, ◌||◌, Option, none, some, List, [], ◌∷◌, Result, ok, err, ◌>>=◌,
  ◌>>◌, raise_if, or_raise, if◌then◌else◌, ◌==◌, ltb, any,
}
use auto_bit.Double.{Double}
use auto_bit.Domain.{partial, completed}
use auto_bit.Python.{TimeValue, aware, unusable}
use auto_bit.Store.{StoreError, corruption, Texts, nonempty_text}
use auto_bit.Store.Payload.{Payload, Codec, Side, buy, sell, same_side, as_corruption}
use auto_bit.Store.Known.{validate_known_state_payload}
use auto_bit.Store.Orders.{
  Decimal, StoredOrder, is_active_status, validate_order_status_transition, Fill, StatusChange,
  order_from_created_payload, fill_from_payload, order_status_from_payload,
}

-- A row of `events`; the payload is `none` where its text is no canonical JSON object.
pub record Event {ℓ} (F : Type ℓ) : Type ℓ where
  pub sequence : ℕ
  pub event_id : String
  pub event_type : String
  pub occurred_at : TimeValue
  pub payload : Option (Payload F)

-- The event types that the replay knows.
pub data Kind : Type 0 where
  order_created filled order_status breaker_state health_state unknown : Kind

abbrev pub kind_of : String → Kind
kind_of event_type =
    if str_eq event_type "ORDER_CREATED"
    then order_created
    else if str_eq event_type "FILL"
    then filled
    else if str_eq event_type "ORDER_STATUS"
    then order_status
    else if str_eq event_type "BREAKER_STATE"
    then breaker_state
    else if str_eq event_type "HEALTH_STATE"
    then health_state
    else unknown

-- The variables of the loop. The keys in `idempotency_keys` are those of the orders.
pub record Ledger {ℓ} (F : Type ℓ) ⦃m : Decimal F⦄ : Type ℓ where
  pub cash : m.D
  pub btc_quantity : m.D
  pub btc_cost_basis : m.D
  pub last_price : Option m.D
  pub breaker_state : Payload F
  pub health_state : Payload F
  pub orders : List (StoredOrder F)
  pub previous_timestamp : Option ℕ
  pub last_sequence : ℕ

module _ {ℓ} {F : Type ℓ} where
  abbrev pub find_order : String → List (StoredOrder F) → Option (StoredOrder F)
  find_order id [] = none
  find_order id (o ∷ rest) = elim (str_eq o.order_id id) [
    | true ↦ some o
    | false ↦ find_order id rest
  ]

  -- `orders[order.order_id] = order`, of an identity that is there.
  abbrev pub replace_order : StoredOrder F → List (StoredOrder F) → List (StoredOrder F)
  replace_order order [] = []
  replace_order order (o ∷ rest) = elim (str_eq o.order_id order.order_id) [
    | true ↦ order ∷ rest
    | false ↦ o ∷ replace_order order rest
  ]

  abbrev pub has_key : String → List (StoredOrder F) → Bool
  has_key key orders = any (λ o. str_eq o.idempotency_key key) orders

abbrev pub has_order {ℓ} : {F : Type ℓ} → String → List (StoredOrder F) → Bool
has_order id orders = any (λ o. str_eq o.order_id id) orders

abbrev pub stored_text : ⦃x : Texts⦄ → String → Result StoreError String
stored_text s = as_corruption (nonempty_text s)

abbrev pub stored_timestamp : TimeValue → Result StoreError ℕ
stored_timestamp (aware t) = ok t
stored_timestamp unusable = err corruption

abbrev pub is_reversal : Option ℕ → ℕ → Bool
is_reversal none t = false
is_reversal (some p) t = ltb t p

abbrev pub order_created_id : ⦃x : Texts⦄ → String → String
order_created_id ⦃x⦄ key = str_append "order-created:" (x.sha256 key)

abbrev pub order_status_id : ⦃x : Texts⦄ → String → String
order_status_id ⦃x⦄ key = str_append "order-status:" (x.sha256 key)

module _ {ℓ} {F : Type ℓ} ⦃m : Decimal F⦄ where
  unfoldable pub start : Ledger F
  start = record {
    cash = m.hundred;
    btc_quantity = m.zero;
    btc_cost_basis = m.zero;
    last_price = none;
    breaker_state = [];
    health_state = [];
    orders = [];
    previous_timestamp = none;
    last_sequence = 0;
  }

  -- The account after a fill.
  abbrev pub pay : Fill F → Ledger F → Ledger F
  pay f r =
      let quantity = m.of_float f.quantity in
      let spent = m.add (m.mul quantity (m.of_float f.price)) (m.of_float f.fee) in
      record r {
        cash = m.sub r.cash spent;
        btc_quantity = m.add r.btc_quantity quantity;
        btc_cost_basis = m.add r.btc_cost_basis spent;
        last_price = some (m.of_float f.price);
      }

  abbrev pub earn : Fill F → Ledger F → Ledger F
  earn f r =
      let quantity = m.of_float f.quantity in
      let share = m.mul r.btc_cost_basis (m.div quantity r.btc_quantity) in
      let kept =
        if m.lt m.zero r.btc_quantity then m.sub r.btc_cost_basis share else r.btc_cost_basis in
      let earned = m.sub (m.mul quantity (m.of_float f.price)) (m.of_float f.fee) in
      record r {
        cash = m.add r.cash earned;
        btc_quantity = m.sub r.btc_quantity quantity;
        btc_cost_basis = if m.eq (m.sub r.btc_quantity quantity) m.zero then m.zero else kept;
        last_price = some (m.of_float f.price);
      }

  unfoldable pub account : Side → Fill F → Ledger F → Result StoreError (Ledger F)
  account buy f r = do raise_if (m.lt (pay f r).cash m.zero) corruption; ok (pay f r)
  account sell f r = do
    raise_if (m.lt r.btc_quantity (m.of_float f.quantity)) corruption
    raise_if (m.lt (earn f r).cash m.zero) corruption
    ok (earn f r)

  -- The order of a fill, as it stands after it.
  abbrev pub filled_order : m.D → ℕ → StoredOrder F → StoredOrder F
  filled_order total t o = record o {
    filled_quantity = m.to_float total;
    status = if m.eq total (m.of_float o.requested_quantity) then completed else partial;
    updated_at = t;
  }

  unfoldable pub fill_order :
      StoreError → Side → F → ℕ → StoredOrder F → Result StoreError (StoredOrder F)
  fill_order error side quantity t o = do
    let total = m.add (m.of_float o.filled_quantity) (m.of_float quantity)
    raise_if (not (same_side o.side side)) error
    raise_if (not (is_active_status o.status)) error
    raise_if (m.lt (m.of_float o.requested_quantity) total) error
    ok (filled_order total t o)

  abbrev pub fill_orders :
      Option (StoredOrder F)
      → Fill F
      → ℕ
      → List (StoredOrder F)
      → Result StoreError (List (StoredOrder F))
  fill_orders none f t orders = ok orders
  fill_orders (some existing) f t orders = do
    order ← fill_order corruption f.side f.quantity t existing
    ok (replace_order order orders)

  abbrev pub change_status :
      Option (StoredOrder F)
      → StatusChange
      → ℕ
      → List (StoredOrder F)
      → Result StoreError (List (StoredOrder F))
  change_status none c t orders = err corruption
  change_status (some existing) c t orders = do
    validate_order_status_transition corruption existing.status c.status existing.requested_quantity
        existing.filled_quantity
    ok (replace_order (record existing { status = c.status; updated_at = t }) orders)

  module _ ⦃d : Double F⦄ ⦃j : Codec F⦄ ⦃x : Texts⦄ where
    -- The branch of an event type: the event's id, its payload and its time.
    unfoldable pub apply : Kind → String → Payload F → ℕ → Ledger F → Result StoreError (Ledger F)
    apply order_created id payload t r = do
      order ← order_from_created_payload payload t
      raise_if (not (str_eq id (order_created_id order.idempotency_key))) corruption
      raise_if (has_order order.order_id r.orders || has_key order.idempotency_key r.orders)
          corruption
      ok (record r { orders = order ∷ r.orders })
    apply filled id payload t r = do
      f ← fill_from_payload payload
      paid ← account f.side f r
      orders ← fill_orders (find_order f.order_id r.orders) f t r.orders
      ok (record paid { orders = orders })
    apply order_status id payload t r = do
      c ← order_status_from_payload payload
      raise_if (not (str_eq id (order_status_id c.idempotency_key))) corruption
      orders ← change_status (find_order c.order_id r.orders) c t r.orders
      ok (record r { orders = orders })
    apply breaker_state id payload t r = ok (record r { breaker_state = payload })
    apply health_state id payload t r = ok (record r { health_state = payload })
    apply unknown id payload t r = ok r

    -- One turn of the loop.
    unfoldable pub replay_event : Event F → Ledger F → Result StoreError (Ledger F)
    replay_event e r = do
      raise_if (not (e.sequence == r.last_sequence + 1)) corruption
      event_id ← stored_text e.event_id
      event_type ← stored_text e.event_type
      t ← stored_timestamp e.occurred_at
      raise_if (is_reversal r.previous_timestamp t) corruption
      payload ← or_raise e.payload corruption
      validate_known_state_payload corruption event_type payload
      after ← apply (kind_of event_type) event_id payload t r
      ok (record after { previous_timestamp = some t; last_sequence = e.sequence })

    unfoldable pub replay : List (Event F) → Result StoreError (Ledger F)
    replay [] = ok start
    replay (e ∷ older) = do r ← replay older; replay_event e r
