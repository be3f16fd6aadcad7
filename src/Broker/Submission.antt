-- ===== src/Broker/Submission.antt =====
-- What a submission of src/autobit/execution/paper_broker.py is and what it writes: its arguments,
-- the payloads of its events, and the comparisons with an order that is there.
use Prim.Native.String.{String}
use text.Mathlib.Text.{◌==◌ as str_eq}
use auto_bit.Prelude.{
  ℕ, Bool, true, false, not, ◌&&◌, Option, none, some, [], ◌∷◌, Result, raise_if, ◌==◌,
}
use auto_bit.Prelude.Int.{pos}
use auto_bit.Double.{Double, nought, one}
use auto_bit.Domain.{accepted}
use auto_bit.Store.{Texts, conflict}
use auto_bit.Store.Payload.{
  Json, null, integer, number, string, Payload, Side, same_side, side_text,
}
use auto_bit.Store.Orders.{Decimal}
use auto_bit.Broker.{BrokerError, raised, EntryContext, OrderKind, kind_text, PaperOrder}
use auto_bit.Broker.Costs.{exact}

-- The two rates of the broker.
pub record Costs {ℓ} (F : Type ℓ) : Type ℓ where
  pub fee_rate : F
  pub slippage_rate : F

-- The arguments of `_submit_order_in_transaction`.
pub record Submission {ℓ} (F : Type ℓ) : Type ℓ where
  pub signal_at : ℕ
  pub occurred_at : ℕ
  pub side : Side
  pub quantity : F
  pub reason : String
  pub parent_order_id : Option String
  pub order_kind : OrderKind
  pub eligible_open : ℕ
  pub fee_rate : F
  pub slippage_rate : F

abbrev pub same_optional : Option String → Option String → Bool
same_optional none none = true
same_optional (some a) (some b) = str_eq a b
same_optional _ _ = false

module _ {ℓ} {F : Type ℓ} where
  abbrev pub optional_json : Option String → Json F
  optional_json none = null
  optional_json (some s) = string s

  abbrev pub one_json : ⦃d : Double F⦄ → Json F
  one_json = integer (pos 1) one

  abbrev pub order_payload : ⦃x : Texts⦄ → String → String → Submission F → Payload F
  order_payload ⦃x⦄ key order_id q =
      ("idempotency_key", string key)
      ∷ ("eligible_open_utc", string (x.utc_text q.eligible_open))
      ∷ ("fee_rate", number q.fee_rate)
      ∷ ("order_id", string order_id)
      ∷ ("order_kind", string (kind_text q.order_kind))
      ∷ ("parent_order_id", optional_json q.parent_order_id)
      ∷ ("reason", string q.reason)
      ∷ ("requested_quantity", number q.quantity)
      ∷ ("side", string (side_text q.side))
      ∷ ("signal_at_utc", string (x.utc_text q.signal_at))
      ∷ ("slippage_rate", number q.slippage_rate)
      ∷ []

  abbrev pub accepted_order : ⦃d : Double F⦄ → String → String → Submission F → PaperOrder F
  accepted_order key order_id q = record {
    order_id = order_id;
    idempotency_key = key;
    side = q.side;
    reason = q.reason;
    signal_at = q.signal_at;
    requested_quantity = q.quantity;
    filled_quantity = nought;
    remainder_quantity = q.quantity;
    status = accepted;
    order_kind = q.order_kind;
    parent_order_id = q.parent_order_id;
    eligible_open = q.eligible_open;
    fee_rate = q.fee_rate;
    slippage_rate = q.slippage_rate;
    execution_context = none;
  }

  -- `_assert_same_order`
  unfoldable pub assert_same_order :
      ⦃m : Decimal F⦄
      → PaperOrder F
      → String
      → Side
      → String
      → ℕ
      → F
      → Option String
      → Result BrokerError (Unit {0})
  assert_same_order order key side reason signal_at quantity parent =
      raise_if
        (not (
          str_eq order.idempotency_key key
          && same_side order.side side
          && str_eq order.reason reason
          && order.signal_at == signal_at
          && exact order.requested_quantity quantity
          && same_optional order.parent_order_id parent))
        (raised conflict)

  abbrev pub context_payload : EntryContext F → Payload F
  context_payload k =
      ("signal_price", number k.signal_price)
      ∷ ("entry_atr", number k.entry_atr)
      ∷ ("initial_atr_mult", number k.initial_atr_mult)
      ∷ ("baseline_atr_pct", number k.baseline_atr_pct)
      ∷ ("risk_rate", number k.risk_rate)
      ∷ ("exposure_cap", number k.exposure_cap)
      ∷ ("risk_event_id", string k.risk_event_id)
      ∷ []

  abbrev pub same_context : ⦃d : Double F⦄ → EntryContext F → EntryContext F → Bool
  same_context ⦃d⦄ a b =
      d.eq a.signal_price b.signal_price
      && d.eq a.entry_atr b.entry_atr
      && d.eq a.initial_atr_mult b.initial_atr_mult
      && d.eq a.baseline_atr_pct b.baseline_atr_pct
      && d.eq a.risk_rate b.risk_rate
      && d.eq a.exposure_cap b.exposure_cap
      && str_eq a.risk_event_id b.risk_event_id
