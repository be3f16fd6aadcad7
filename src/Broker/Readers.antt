-- ===== src/Broker/Readers.antt =====
-- The readers of payloads in src/autobit/execution/paper_broker.py, and the guards on numbers.
use Prim.Native.String.{String}
use text.Mathlib.Text.{◌==◌ as str_eq}
use auto_bit.Prelude.{
  Bool, false, not, ◌||◌, Option, some, List, Result, ok, err, ◌>>=◌, ◌>>◌, raise_if, if◌then◌else◌,
  ◌==◌,
}
use auto_bit.Prelude.Int.{pos}
use auto_bit.Double.{Double, ◌≼◌, ◌≺◌, nought}
use auto_bit.Store.Payload.{
  Json, integer, number, string, Payload, Side, buy, sell, field, has_exactly,
}
use auto_bit.Broker.{BrokerError, reconciliation, invalid}

module _ {ℓ} {F : Type ℓ} where
  abbrev pub require_evidence_keys : List String → Payload F → Result BrokerError (Unit {0})
  require_evidence_keys expected payload =
      raise_if (not (has_exactly expected payload)) reconciliation

  abbrev pub nonempty_string : Option (Json F) → Result BrokerError String
  nonempty_string (some (string s)) = raise_if (str_eq s "") reconciliation >> ok s
  nonempty_string _ = err reconciliation

  -- `type(payload["version"]) is int and payload["version"] == 1`
  abbrev pub is_version_one : Payload F → Bool
  is_version_one payload = elim (field "version" payload) [
    | some (integer (pos n) v) ↦ n == 1
    | _ ↦ false
  ]

  abbrev pub is_text : Option (Json F) → String → Bool
  is_text (some (string s)) text = str_eq s text
  is_text _ text = false

  -- `_payload_text`
  abbrev pub payload_text : Payload F → String → Result BrokerError String
  payload_text payload key = nonempty_string (field key payload)

  abbrev pub payload_side : Payload F → Result BrokerError Side
  payload_side payload = do
    side ← payload_text payload "side"
    if str_eq side "BUY" then ok buy else if str_eq side "SELL" then ok sell else err reconciliation

module _ {ℓ} {F : Type ℓ} ⦃d : Double F⦄ where
  abbrev pub finite_number : Option (Json F) → Result BrokerError F
  finite_number (some (integer n v)) = raise_if (not (d.is_finite v)) reconciliation >> ok v
  finite_number (some (number v)) = raise_if (not (d.is_finite v)) reconciliation >> ok v
  finite_number _ = err reconciliation

  -- `_payload_number`
  abbrev pub payload_number : Payload F → String → Result BrokerError F
  payload_number payload key = finite_number (field key payload)

  abbrev pub is_number : Option (Json F) → F → Bool
  is_number (some (integer n v)) x = d.eq v x
  is_number (some (number v)) x = d.eq v x
  is_number _ x = false

  -- `_positive` and `_nonnegative`, of a float.
  abbrev pub positive : F → Result BrokerError F
  positive v = raise_if (not (d.is_finite v) || v ≼ nought) invalid >> ok v

  abbrev pub nonnegative : F → Result BrokerError F
  nonnegative v = raise_if (not (d.is_finite v) || v ≺ nought) invalid >> ok v
