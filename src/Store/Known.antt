-- ===== src/Store/Known.antt =====
-- `_validate_known_state_payload` of src/autobit/persistence/sqlite_store.py: the fields of the
-- breaker and health states that the store knows.
use Prim.Native.String.{String}
use text.Mathlib.Text.{◌==◌ as str_eq}
use auto_bit.Prelude.{
  Bool, true, false, not, ◌&&◌, ◌||◌, Option, none, some, List, [], ◌∷◌, Result, ok, ◌>>◌, raise_if,
  if◌then◌else◌, any, all,
}
use auto_bit.Prelude.Int.{pos, ltb_ℤ}
use auto_bit.Double.{Double, ◌≺◌, nought}
use auto_bit.Store.{StoreError, Texts}
use auto_bit.Store.Payload.{Json, null, boolean, integer, number, string, items, Payload, field}

abbrev known_boolean_state_fields : List String
known_boolean_state_fields =
    "halt_entries" ∷ "ledger_matches" ∷ "timestamps_monotonic" ∷ "latest_candle_valid" ∷ []

abbrev known_count_state_fields : List String
known_count_state_fields = "api_failures" ∷ "api_successes" ∷ "unresolved_orders" ∷ []

abbrev proper_reason : ⦃x : Texts⦄ → Option String → Bool
proper_reason ⦃x⦄ none = false
proper_reason ⦃x⦄ (some reason) = x.is_reason reason

abbrev same_item : Option String → Option String → Bool
same_item (some a) (some b) = str_eq a b
same_item _ _ = false

abbrev all_distinct : List (Option String) → Bool
all_distinct [] = true
all_distinct (r ∷ rest) = not (any (same_item r) rest) && all_distinct rest

module _ {ℓ} {F : Type ℓ} where
  abbrev proper_boolean : Option (Json F) → Bool
  proper_boolean none = true
  proper_boolean (some (boolean b)) = true
  proper_boolean (some _) = false

  abbrev proper_count : Option (Json F) → Bool
  proper_count none = true
  proper_count (some (integer n v)) = not (ltb_ℤ n (pos 0))
  proper_count (some _) = false

  module _ ⦃d : Double F⦄ ⦃x : Texts⦄ where
    abbrev proper_reasons : Option (Json F) → Bool
    proper_reasons none = true
    proper_reasons (some (items reasons s)) = all proper_reason reasons && all_distinct reasons
    proper_reasons (some _) = false

    abbrev proper_deviation : Option (Json F) → Bool
    proper_deviation none = true
    proper_deviation (some (integer n v)) = not (ltb_ℤ n (pos 0))
    proper_deviation (some (number v)) = d.is_finite v && not (v ≺ nought)
    proper_deviation (some _) = false

    abbrev proper_time : Option (Json F) → Bool
    proper_time none = true
    proper_time (some null) = true
    proper_time (some (string s)) = x.is_canonical_utc s
    proper_time (some _) = false

    -- The exception is a `StoreCorruptionError` or a `ValueError`, as the caller asks.
    unfoldable pub validate_known_state_payload :
        StoreError → String → Payload F → Result StoreError (Unit {0})
    validate_known_state_payload error event_type payload =
        if not (str_eq event_type "BREAKER_STATE" || str_eq event_type "HEALTH_STATE")
        then ok tt
        else do
          raise_if
              (not (all (λ key. proper_boolean (field key payload)) known_boolean_state_fields))
              error
          raise_if (not (all (λ key. proper_count (field key payload)) known_count_state_fields))
              error
          raise_if (not (proper_reasons (field "reasons" payload))) error
          raise_if (not (proper_deviation (field "fill_deviation" payload))) error
          raise_if (not (proper_time (field "last_success_at_utc" payload))) error
          raise_if (not (proper_time (field "last_failure_at_utc" payload))) error
