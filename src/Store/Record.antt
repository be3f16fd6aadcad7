-- ===== src/Store/Record.antt =====
-- The methods of `SQLiteStore` in src/autobit/persistence/sqlite_store.py that write orders and
-- fills. Each verifies the store, checks its own guards, appends one event with the change of the
-- order projection and the snapshot, and verifies again. A transaction that raises is rolled back.
-- The time of an order is the argument, not the default that the key is searched for.
use Prim.Native.String.{String, ◌++◌ as str_append}
use text.Mathlib.Text.{◌==◌ as str_eq}
use auto_bit.Prelude.{
  ℕ, Bool, true, false, not, ◌&&◌, Option, none, some, List, [], ◌∷◌, Result, ok, err, ◌>>=◌, ◌>>◌,
  raise_if, if◌then◌else◌,
}
use auto_bit.Double.{Double, ◌≺◌, nought}
use auto_bit.Domain.{OrderStatus}
use auto_bit.Python.{TimeValue}
use auto_bit.Store.{StoreError, conflict, invalid_value, Texts, nonempty_text, canonical_timestamp}
use auto_bit.Store.Payload.{
  Json, null, number, string, Payload, Codec, Side, buy, sell, same_side, side_text, status_text,
}
use auto_bit.Store.Orders.{
  Decimal, StoredOrder, is_seed_status, validate_order_status_transition, Fill, StatusChange,
}
use auto_bit.Store.Replay.{
  Event, Ledger, find_order, has_order, replace_order, fill_order, order_created_id,
  order_status_id,
}
use auto_bit.Store.Snapshot.{Store, Renderer, replay_and_verify}
use auto_bit.Store.Append.{
  find_event, find_key, validate_timestamp_order, positive_number, nonnegative_number,
  same_evidence, retry, new_event, write,
}

abbrev pub optional_reason : ⦃x : Texts⦄ → Option String → Result StoreError (Option String)
optional_reason ⦃x⦄ none = ok none
optional_reason ⦃x⦄ (some reason) = do normalized ← nonempty_text reason; ok (some normalized)

module _ {ℓ} {F : Type ℓ} ⦃m : Decimal F⦄ ⦃d : Double F⦄ ⦃j : Codec F⦄ ⦃n : Renderer F⦄
    ⦃x : Texts⦄ where
  abbrev created_payload : StoredOrder F → Payload F
  created_payload o =
      ("filled_quantity", number nought)
      ∷ ("idempotency_key", string o.idempotency_key)
      ∷ ("order_id", string o.order_id)
      ∷ ("requested_quantity", number o.requested_quantity)
      ∷ ("side", string (side_text o.side))
      ∷ ("status", string (status_text o.status))
      ∷ []

  -- The whole order and its event are the ones of the call.
  abbrev same_order : StoredOrder F → Option (Event F) → StoredOrder F → Bool
  same_order existing none o = false
  same_order existing (some e) o =
      str_eq existing.order_id o.order_id
      && same_side existing.side o.side
      && m.close existing.requested_quantity o.requested_quantity
      && same_evidence e "ORDER_CREATED" o.updated_at (created_payload o)

  abbrev exceeds : Side → F → F → Bool
  exceeds buy quantity held = false
  exceeds sell quantity held = held ≺ quantity

  abbrev pub record_new :
      Option (StoredOrder F)
      → StoredOrder F
      → Ledger F
      → Store F
      → Result StoreError (Store F × Bool)
  record_new (some existing) o r s =
      if same_order existing (find_event (order_created_id o.idempotency_key) s.events) o
      then ok (s, false)
      else err conflict
  record_new none o r s = do
    raise_if (has_order o.order_id s.orders) conflict
    raise_if (exceeds o.side o.requested_quantity (m.to_float r.btc_quantity)) invalid_value
    validate_timestamp_order s.events o.updated_at
    let id = order_created_id o.idempotency_key
    after ← write (new_event s id "ORDER_CREATED" o.updated_at (created_payload o)) (o ∷ s.orders) s
    ok (after, true)

  abbrev order_seed : String → String → Side → F → OrderStatus → ℕ → StoredOrder F
  order_seed id key side quantity status t = record {
    order_id = id;
    idempotency_key = key;
    side = side;
    requested_quantity = quantity;
    filled_quantity = nought;
    status = status;
    updated_at = t;
  }

  unfoldable pub record_order_once :
      String
      → Side
      → F
      → String
      → TimeValue
      → OrderStatus
      → Store F
      → Result StoreError (Store F × Bool)
  record_order_once idempotency_key side requested_quantity order_id occurred_at status s = do
    key ← nonempty_text idempotency_key
    id ← nonempty_text order_id
    quantity ← positive_number requested_quantity
    raise_if (not (is_seed_status status)) invalid_value
    t ← canonical_timestamp occurred_at
    r ← replay_and_verify s
    record_new (find_key key s.orders) (order_seed id key side quantity status t) r s

  abbrev pub fill_payload : Fill F → Payload F
  fill_payload f =
      ("fee", number f.fee)
      ∷ ("order_id", string f.order_id)
      ∷ ("price", number f.price)
      ∷ ("quantity", number f.quantity)
      ∷ ("side", string (side_text f.side))
      ∷ []

  -- `fill_id`, or the digest of the time and the payload.
  abbrev pub fill_event_id : Option String → ℕ → Fill F → Result StoreError String
  fill_event_id (some id) t f = nonempty_text id
  fill_event_id none t f = ok (
      str_append "fill:" (x.sha256 (str_append (x.utc_text t) (j.canonical_json (fill_payload f)))))

  -- The cash and the inventory of the verified state, as the floats it has.
  abbrev pub check_account : Side → Fill F → Ledger F → Result StoreError (Unit {0})
  check_account buy f r =
      raise_if
        (m.lt
          (m.sub (m.of_float (m.to_float r.cash))
            (m.add (m.mul (m.of_float f.quantity) (m.of_float f.price)) (m.of_float f.fee)))
          m.zero)
        invalid_value
  check_account sell f r = do
    raise_if (m.lt (m.of_float (m.to_float r.btc_quantity)) (m.of_float f.quantity)) invalid_value
    raise_if
        (m.lt
          (m.add (m.of_float (m.to_float r.cash))
            (m.sub (m.mul (m.of_float f.quantity) (m.of_float f.price)) (m.of_float f.fee)))
          m.zero)
        invalid_value

  abbrev pub project_fill :
      Option (StoredOrder F)
      → Fill F
      → ℕ
      → List (StoredOrder F)
      → Result StoreError (List (StoredOrder F))
  project_fill none f t orders = ok orders
  project_fill (some existing) f t orders = do
    order ← fill_order invalid_value f.side f.quantity t existing
    ok (replace_order order orders)

  abbrev pub fill_new :
      Option (Event F)
      → String
      → Fill F
      → ℕ
      → Ledger F
      → Store F
      → Result StoreError (Store F × Bool)
  fill_new (some e) id f t r s = retry s e "FILL" t (fill_payload f)
  fill_new none id f t r s = do
    validate_timestamp_order s.events t
    check_account f.side f r
    orders ← project_fill (find_order f.order_id s.orders) f t s.orders
    after ← write (new_event s id "FILL" t (fill_payload f)) orders s
    ok (after, true)

  unfoldable pub append_fill :
      String
      → Side
      → F
      → F
      → F
      → TimeValue
      → Option String
      → Store F
      → Result StoreError (Store F × Bool)
  append_fill order_id side quantity price fee occurred_at fill_id s = do
    o ← nonempty_text order_id
    q ← positive_number quantity
    p ← positive_number price
    c ← nonnegative_number fee
    t ← canonical_timestamp occurred_at
    let f : Fill F = record { fee = c; order_id = o; price = p; quantity = q; side = side }
    id ← fill_event_id fill_id t f
    r ← replay_and_verify s
    fill_new (find_event id s.events) id f t r s

  abbrev json_reason : Option String → Json F
  json_reason none = null
  json_reason (some reason) = string reason

  abbrev pub status_payload : StatusChange → Payload F
  status_payload c =
      ("idempotency_key", string c.idempotency_key)
      ∷ ("order_id", string c.order_id)
      ∷ ("reason", json_reason c.reason)
      ∷ ("status", string (status_text c.status))
      ∷ []

  abbrev pub project_status :
      Option (StoredOrder F) → StatusChange → Result StoreError (StoredOrder F)
  project_status none c = err invalid_value
  project_status (some o) c = do
    validate_order_status_transition invalid_value o.status c.status o.requested_quantity
        o.filled_quantity
    ok o

  abbrev pub status_new :
      Option (Event F) → String → StatusChange → ℕ → Store F → Result StoreError (Store F × Bool)
  status_new (some e) id c t s = retry s e "ORDER_STATUS" t (status_payload c)
  status_new none id c t s = do
    o ← project_status (find_order c.order_id s.orders) c
    validate_timestamp_order s.events t
    after ←
        write (new_event s id "ORDER_STATUS" t (status_payload c))
          (replace_order (record o { status = c.status; updated_at = t }) s.orders) s
    ok (after, true)

  unfoldable pub transition_order_status :
      String
      → String
      → OrderStatus
      → TimeValue
      → Option String
      → Store F
      → Result StoreError (Store F × Bool)
  transition_order_status order_id idempotency_key status occurred_at reason s = do
    o ← nonempty_text order_id
    key ← nonempty_text idempotency_key
    why ← optional_reason reason
    t ← canonical_timestamp occurred_at
    let c : StatusChange = record {
      idempotency_key = key;
      order_id = o;
      reason = why;
      status = status;
    }
    r ← replay_and_verify s
    status_new (find_event (order_status_id key) s.events) (order_status_id key) c t s
