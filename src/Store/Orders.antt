-- ===== src/Store/Orders.antt =====
-- The orders of src/autobit/persistence/sqlite_store.py: the stored order, the legal transitions
-- of its status, and the three payloads that the replay reads.
use Prim.Native.String.{String}
use auto_bit.Prelude.{
  ℕ, Bool, true, false, not, ◌&&◌, ◌||◌, Option, none, some, List, [], ◌∷◌, Result, ok, err, ◌>>=◌,
  ◌>>◌, raise_if,
}
use auto_bit.Double.{Double, nought}
use auto_bit.Domain.{
  OrderStatus, created, submitted, accepted, partial, completed, canceled, expired,
  insufficient_cash, rejected,
}
use auto_bit.Store.{StoreError, corruption, Texts}
use auto_bit.Store.Payload.{
  Json, null, Payload, Codec, Side, has_exactly, stored_positive_number, stored_nonnegative_number,
  stored_nonempty_text, stored_side, stored_order_status, read,
}

-- What the store asks of `decimal.Decimal`, where `of_float` is `Decimal(str(x))`, and of
-- `math.isclose`, where `close` has the absolute tolerance 1e-10 and no relative one.
pub record Decimal {ℓ} (F : Type ℓ) : Type (ℓ ⊔ 1) where
  pub D : Type 0
  pub of_float : F → D
  pub to_float : D → F
  pub zero : D
  pub hundred : D
  pub add : D → D → D
  pub sub : D → D → D
  pub mul : D → D → D
  pub div : D → D → D
  pub lt : D → D → Bool
  pub eq : D → D → Bool
  pub close : F → F → Bool

pub record StoredOrder {ℓ} (F : Type ℓ) : Type ℓ where
  pub order_id : String
  pub idempotency_key : String
  pub side : Side
  pub requested_quantity : F
  pub filled_quantity : F
  pub status : OrderStatus
  pub updated_at : ℕ

-- `_ORDER_SEED_STATUSES`, `_ACTIVE_ORDER_STATUSES` and `_LEGAL_ORDER_TRANSITIONS`
abbrev pub is_seed_status : OrderStatus → Bool
is_seed_status created = true
is_seed_status submitted = true
is_seed_status accepted = true
is_seed_status _ = false

abbrev pub is_active_status : OrderStatus → Bool
is_active_status partial = true
is_active_status s = is_seed_status s

unfoldable pub legal_order_transitions : OrderStatus → OrderStatus → Bool
legal_order_transitions created submitted = true
legal_order_transitions created canceled = true
legal_order_transitions created insufficient_cash = true
legal_order_transitions created rejected = true
legal_order_transitions submitted accepted = true
legal_order_transitions submitted canceled = true
legal_order_transitions submitted expired = true
legal_order_transitions submitted insufficient_cash = true
legal_order_transitions submitted rejected = true
legal_order_transitions accepted canceled = true
legal_order_transitions accepted expired = true
legal_order_transitions accepted insufficient_cash = true
legal_order_transitions accepted rejected = true
legal_order_transitions partial canceled = true
legal_order_transitions partial expired = true
legal_order_transitions partial insufficient_cash = true
legal_order_transitions partial rejected = true
legal_order_transitions _ _ = false

abbrev pub is_partial : OrderStatus → Bool
is_partial partial = true
is_partial _ = false

abbrev pub is_completed : OrderStatus → Bool
is_completed completed = true
is_completed _ = false

module _ {ℓ} {F : Type ℓ} ⦃m : Decimal F⦄ where
  -- `filled < 0 or filled > requested` and the comparisons of the two quantities.
  abbrev pub quantities_invalid : F → F → Bool
  quantities_invalid requested filled =
      m.lt (m.of_float filled) m.zero || m.lt (m.of_float requested) (m.of_float filled)

  abbrev pub partly_filled : F → F → Bool
  partly_filled requested filled =
      m.lt m.zero (m.of_float filled) && m.lt (m.of_float filled) (m.of_float requested)

  abbrev pub wholly_filled : F → F → Bool
  wholly_filled requested filled = m.eq (m.of_float filled) (m.of_float requested)

  abbrev pub check_target :
      StoreError → OrderStatus → OrderStatus → F → F → Result StoreError (Unit {0})
  check_target error current created requested filled = err error
  check_target error current partial requested filled =
      raise_if (not (is_partial current && partly_filled requested filled)) error
  check_target error current completed requested filled =
      raise_if (not (is_completed current && wholly_filled requested filled)) error
  check_target error current target requested filled =
      raise_if (not (legal_order_transitions current target)) error

  unfoldable pub validate_order_status_transition :
      StoreError → OrderStatus → OrderStatus → F → F → Result StoreError (Unit {0})
  unfolding legal_order_transitions
  validate_order_status_transition error current target requested_quantity filled_quantity = do
    raise_if (quantities_invalid requested_quantity filled_quantity) error
    check_target error current target requested_quantity filled_quantity

pub record Fill {ℓ} (F : Type ℓ) : Type ℓ where
  pub fee : F
  pub order_id : String
  pub price : F
  pub quantity : F
  pub side : Side

pub record StatusChange : Type 0 where
  pub idempotency_key : String
  pub order_id : String
  pub reason : Option String
  pub status : OrderStatus

abbrev pub created_keys : List String
created_keys =
    "filled_quantity" ∷ "idempotency_key" ∷ "order_id" ∷ "requested_quantity" ∷ "side" ∷ "status"
    ∷ []

abbrev pub fill_keys : List String
fill_keys = "fee" ∷ "order_id" ∷ "price" ∷ "quantity" ∷ "side" ∷ []

abbrev pub status_keys : List String
status_keys = "idempotency_key" ∷ "order_id" ∷ "reason" ∷ "status" ∷ []

module _ {ℓ} {F : Type ℓ} ⦃d : Double F⦄ ⦃j : Codec F⦄ ⦃x : Texts⦄ where
  unfoldable pub order_from_created_payload : Payload F → ℕ → Result StoreError (StoredOrder F)
  order_from_created_payload payload occurred_at = do
    let keys =
        "filled_quantity" ∷ "idempotency_key" ∷ "order_id" ∷ "requested_quantity" ∷ "side"
        ∷ "status" ∷ []
    raise_if (not (has_exactly keys payload)) corruption
    order_id ← read stored_nonempty_text "order_id" payload
    key ← read stored_nonempty_text "idempotency_key" payload
    side ← read stored_side "side" payload
    requested ← read stored_positive_number "requested_quantity" payload
    filled ← read stored_nonnegative_number "filled_quantity" payload
    raise_if (not (d.eq filled nought)) corruption
    status ← read stored_order_status "status" payload
    raise_if (not (is_seed_status status)) corruption
    ok (record {
      order_id = order_id;
      idempotency_key = key;
      side = side;
      requested_quantity = requested;
      filled_quantity = filled;
      status = status;
      updated_at = occurred_at;
    })

  unfoldable pub fill_from_payload : Payload F → Result StoreError (Fill F)
  fill_from_payload payload = do
    raise_if (not (has_exactly fill_keys payload)) corruption
    fee ← read stored_nonnegative_number "fee" payload
    order_id ← read stored_nonempty_text "order_id" payload
    price ← read stored_positive_number "price" payload
    quantity ← read stored_positive_number "quantity" payload
    side ← read stored_side "side" payload
    ok (record { fee = fee; order_id = order_id; price = price; quantity = quantity; side = side })

  abbrev optional_text : Json F → Result StoreError (Option String)
  optional_text null = ok none
  optional_text value = do reason ← stored_nonempty_text value; ok (some reason)

  unfoldable pub order_status_from_payload : Payload F → Result StoreError StatusChange
  order_status_from_payload payload = do
    raise_if (not (has_exactly status_keys payload)) corruption
    reason ← read optional_text "reason" payload
    key ← read stored_nonempty_text "idempotency_key" payload
    order_id ← read stored_nonempty_text "order_id" payload
    status ← read stored_order_status "status" payload
    ok (record { idempotency_key = key; order_id = order_id; reason = reason; status = status })
