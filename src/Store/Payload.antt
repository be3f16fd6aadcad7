-- ===== src/Store/Payload.antt =====
-- The event payloads of src/autobit/persistence/sqlite_store.py: JSON objects, the guards on
-- their fields, and what the replay reads of them.
use Prim.Native.String.{String}
use text.Mathlib.Text.{◌==◌ as str_eq}
use auto_bit.Prelude.{
  Bool, true, false, not, ◌&&◌, Option, none, some, List, [], ◌∷◌, Result, ok, err, ◌>>=◌, ◌>>◌,
  raise_if, or_raise, any, all, is_some,
}
use auto_bit.Prelude.Int.{ℤ}
use auto_bit.Double.{Double, ◌≼◌, ◌≺◌, nought}
use auto_bit.Domain.{
  OrderStatus, created, submitted, accepted, partial, completed, canceled, expired,
  insufficient_cash, rejected,
}
use auto_bit.Store.{StoreError, corruption, Texts, nonempty_text}

-- An integer stands with its `float()` value, a list with its texts and its JSON text, an inner
-- object with its JSON text.
pub data Json {ℓ} (F : Type ℓ) : Type ℓ where
  null : Json F
  boolean : Bool → Json F
  integer : ℤ → F → Json F
  number : F → Json F
  string : String → Json F
  items : List (Option String) → String → Json F
  object : String → Json F

abbrev pub Payload {ℓ} : Type ℓ → Type ℓ
Payload F = List (String × Json F)

-- What the store asks of `json` and `float`: the text of a payload, and the value of a numeral.
pub record Codec {ℓ} (F : Type ℓ) : Type ℓ where
  pub canonical_json : Payload F → String
  pub parse_float : String → Option F

pub data Side : Type 0 where
  buy sell : Side

abbrev pub side_text : Side → String
side_text buy = "BUY"
side_text sell = "SELL"

abbrev pub same_side : Side → Side → Bool
same_side buy buy = true
same_side sell sell = true
same_side _ _ = false

abbrev pub status_text : OrderStatus → String
status_text created = "CREATED"
status_text submitted = "SUBMITTED"
status_text accepted = "ACCEPTED"
status_text partial = "PARTIAL"
status_text completed = "COMPLETED"
status_text canceled = "CANCELED"
status_text expired = "EXPIRED"
status_text insufficient_cash = "INSUFFICIENT_CASH"
status_text rejected = "REJECTED"

abbrev all_statuses : List OrderStatus
all_statuses =
    created ∷ submitted ∷ accepted ∷ partial ∷ completed ∷ canceled ∷ expired ∷ insufficient_cash
    ∷ rejected ∷ []

-- The first of the values whose text it is.
abbrev pub find_by {ℓ} : {A : Type ℓ} → (A → String) → String → List A → Option A
find_by name wanted [] = none
find_by name wanted (a ∷ rest) = elim (str_eq (name a) wanted) [
  | true ↦ some a
  | false ↦ find_by name wanted rest
]

abbrev pub field {ℓ} : {F : Type ℓ} → String → Payload F → Option (Json F)
field key [] = none
field key ((k, v) ∷ rest) = elim (str_eq k key) [ true ↦ some v | false ↦ field key rest ]

-- `set(payload) == expected_keys`
abbrev pub has_exactly {ℓ} : {F : Type ℓ} → List String → Payload F → Bool
has_exactly expected payload =
    all (λ key. is_some (field key payload)) expected
    && all (λ entry. any (str_eq entry.0) expected) payload

abbrev pub as_corruption : Result StoreError String → Result StoreError String
as_corruption (ok s) = ok s
as_corruption (err e) = err corruption

module _ {ℓ} {F : Type ℓ} ⦃d : Double F⦄ ⦃j : Codec F⦄ ⦃x : Texts⦄ where
  abbrev pub float_of : Json F → Option F
  float_of (integer n v) = some v
  float_of (number v) = some v
  float_of (string s) = j.parse_float s
  float_of _ = none

  abbrev pub finite : Option F → Result StoreError F
  finite none = err corruption
  finite (some v) = raise_if (not (d.is_finite v)) corruption >> ok v

  abbrev pub required : Option (Json F) → Result StoreError (Json F)
  required value = or_raise value corruption

  -- `_stored_positive_number`, `_stored_nonnegative_number`, `_stored_nonempty_text`,
  -- `_stored_side` and `_stored_order_status`, of a field.
  abbrev pub stored_positive_number : Json F → Result StoreError F
  stored_positive_number value = do
    v ← finite (float_of value)
    raise_if (v ≼ nought) corruption
    ok v

  abbrev pub stored_nonnegative_number : Json F → Result StoreError F
  stored_nonnegative_number value = do
    v ← finite (float_of value)
    raise_if (v ≺ nought) corruption
    ok v

  abbrev pub stored_nonempty_text : Json F → Result StoreError String
  stored_nonempty_text (string s) = as_corruption (nonempty_text s)
  stored_nonempty_text _ = err corruption

  abbrev pub stored_side : Json F → Result StoreError Side
  stored_side (string s) = or_raise (find_by side_text s (buy ∷ sell ∷ [])) corruption
  stored_side _ = err corruption

  abbrev pub stored_order_status : Json F → Result StoreError OrderStatus
  stored_order_status (string s) = or_raise (find_by status_text s all_statuses) corruption
  stored_order_status _ = err corruption

  abbrev pub read {κ} :
      {A : Type κ} → (Json F → Result StoreError A) → String → Payload F → Result StoreError A
  read convert key payload = do value ← required (field key payload); convert value
