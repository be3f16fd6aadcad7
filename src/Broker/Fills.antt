-- ===== src/Broker/Fills.antt =====
-- `_paper_fill_from_evidence` of src/autobit/execution/paper_broker.py: a fill, read from the event
-- of the store and the metadata of the broker, with its costs computed again.
use Prim.Native.String.{String}
use text.Mathlib.Text.{◌==◌ as str_eq}
use auto_bit.Prelude.{not, ◌&&◌, List, [], ◌∷◌, Result, ok, ◌>>=◌, ◌>>◌, raise_if, ◌==◌}
use auto_bit.Double.{Double}
use auto_bit.Store.{Texts}
use auto_bit.Store.Payload.{side_text}
use auto_bit.Store.Orders.{Decimal}
use auto_bit.Broker.{
  BrokerError, reconciliation, Platform, Evidence, PaperOrder, PaperFill, digest_id, joined,
  fill_meta_id,
}
use auto_bit.Broker.Readers.{require_evidence_keys, payload_text, payload_number}
use auto_bit.Broker.Costs.{exact, computed_fill_price, computed_fee, computed_slippage}

abbrev fill_metadata_keys : List String
fill_metadata_keys =
    "fee" ∷ "fee_rate" ∷ "fill_id" ∷ "fill_price" ∷ "order_id" ∷ "quantity" ∷ "reason"
    ∷ "reference_price" ∷ "side" ∷ "slippage" ∷ "slippage_rate" ∷ []

abbrev pub paper_fill_id : ⦃x : Texts⦄ → String → String → String → String
paper_fill_id order_id time quantity =
    digest_id "paper-fill:" (joined order_id (joined "|" (joined time (joined "|" quantity))))

module _ {ℓ} {F : Type ℓ} ⦃m : Decimal F⦄ ⦃d : Double F⦄ ⦃p : Platform F⦄ ⦃x : Texts⦄ where
  unfoldable pub paper_fill_from_evidence :
      Evidence F → Evidence F → PaperOrder F → Result BrokerError (PaperFill F)
  paper_fill_from_evidence raw metadata_event order = do
    let metadata = metadata_event.payload
    require_evidence_keys fill_metadata_keys metadata
    raise_if (not (str_eq metadata_event.event_id (fill_meta_id raw.event_id))) reconciliation
    raise_if (not (metadata_event.occurred_at == raw.occurred_at)) reconciliation
    quantity ← payload_number raw.payload "quantity"
    fill_price ← payload_number raw.payload "price"
    fee ← payload_number raw.payload "fee"
    side ← payload_text raw.payload "side"
    order_id ← payload_text raw.payload "order_id"
    raise_if
        (not (
          str_eq raw.event_id
            (paper_fill_id order_id (x.utc_text raw.occurred_at) (p.repr quantity))))
        reconciliation
    meta_id ← payload_text metadata "fill_id"
    meta_order ← payload_text metadata "order_id"
    meta_side ← payload_text metadata "side"
    meta_reason ← payload_text metadata "reason"
    meta_quantity ← payload_number metadata "quantity"
    meta_price ← payload_number metadata "fill_price"
    meta_fee ← payload_number metadata "fee"
    meta_fee_rate ← payload_number metadata "fee_rate"
    meta_slippage_rate ← payload_number metadata "slippage_rate"
    raise_if
        (not (
          str_eq meta_id raw.event_id
          && str_eq meta_order order_id
          && str_eq order_id order.order_id
          && str_eq meta_side side
          && str_eq side (side_text order.side)
          && str_eq meta_reason order.reason
          && exact meta_quantity quantity
          && exact meta_price fill_price
          && exact meta_fee fee
          && exact meta_fee_rate order.fee_rate
          && exact meta_slippage_rate order.slippage_rate))
        reconciliation
    reference ← payload_number metadata "reference_price"
    let expected_price = computed_fill_price reference order.slippage_rate order.side
    let expected_slippage = computed_slippage quantity expected_price reference
    meta_slippage ← payload_number metadata "slippage"
    raise_if
        (not (
          exact fill_price expected_price
          && exact fee (computed_fee quantity expected_price order.fee_rate)
          && exact meta_slippage expected_slippage))
        reconciliation
    ok (record {
      fill_id = raw.event_id;
      order_id = order_id;
      side = order.side;
      reason = order.reason;
      quantity = quantity;
      reference_price = reference;
      fill_price = fill_price;
      fee = fee;
      slippage = expected_slippage;
      fill_time = raw.occurred_at;
    })
