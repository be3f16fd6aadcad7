-- ===== src/Broker/Orders.antt =====
-- `_paper_order_from_evidence` of src/autobit/execution/paper_broker.py: an order, read from its
-- creation, its statuses, its fill and the metadata of the broker, each checked against the others.
pub mod Status
use Prim.Native.String.{String}
use text.Mathlib.Text.{◌==◌ as str_eq, starts_with}
use auto_bit.Prelude.{
  ℕ, Bool, true, false, not, ◌&&◌, ◌||◌, Option, none, some, List, [], ◌∷◌, Result, ok, err, ◌>>=◌,
  ◌>>◌, raise_if, if◌then◌else◌, ltb, ◌==◌,
}
use auto_bit.Double.{Double, ◌≼◌, ◌≺◌, nought}
use auto_bit.Store.{Texts}
use auto_bit.Store.Payload.{
  Json, null, string, Payload, Codec, Side, buy, sell, same_side, side_text, field,
}
use auto_bit.Store.Orders.{Decimal}
use auto_bit.Broker.{
  BrokerError, reconciliation, Clock, Evidence, EntryContext, OrderKind, market, stop, PaperOrder,
  valid_reason, order_identity, order_meta_id, require_boundary, next_boundary, evidence_timestamp,
}
use auto_bit.Broker.Readers.{require_evidence_keys, payload_text, payload_number, payload_side}
use auto_bit.Broker.Costs.{exact}
use auto_bit.Broker.Orders.Status.{check_acceptance, read_statuses, Life, final_status}

-- The fields of the metadata.
pub record Metadata {ℓ} (F : Type ℓ) : Type ℓ where
  pub key : String
  pub side : Side
  pub reason : String
  pub requested : F
  pub fee_rate : F
  pub slippage_rate : F
  pub parent : Option String
  pub signal_text : String
  pub signal_at : ℕ
  pub eligible_text : String
  pub eligible_open : ℕ
  pub order_kind : OrderKind

abbrev metadata_keys : List String
metadata_keys =
    "eligible_open_utc" ∷ "fee_rate" ∷ "idempotency_key" ∷ "order_id" ∷ "order_kind"
    ∷ "parent_order_id" ∷ "reason" ∷ "requested_quantity" ∷ "side" ∷ "signal_at_utc"
    ∷ "slippage_rate" ∷ []

abbrev creation_keys : List String
creation_keys =
    "filled_quantity" ∷ "idempotency_key" ∷ "order_id" ∷ "requested_quantity" ∷ "side" ∷ "status"
    ∷ []

abbrev read_kind : String → Result BrokerError OrderKind
read_kind name =
    if str_eq name "MARKET"
    then ok market
    else if str_eq name "STOP"
    then ok stop
    else err reconciliation

abbrev is_stop_id : Option String → Bool
is_stop_id none = false
is_stop_id (some id) = starts_with id "paper-stop:"

abbrev same_kind : OrderKind → OrderKind → Bool
same_kind market market = true
same_kind stop stop = true
same_kind _ _ = false

-- What the kind asks of the two boundaries and of the time of the creation.
abbrev check_times : OrderKind → Side → Option String → ℕ → ℕ → ℕ → Result BrokerError (Unit {0})
check_times market side parent signal_at eligible_open created_at = do
  next ← next_boundary signal_at
  raise_if (not (eligible_open == next)) reconciliation
  raise_if (not (created_at == signal_at)) reconciliation
check_times stop side parent signal_at eligible_open created_at = do
  raise_if (not (same_side side sell) || not (is_stop_id parent)) reconciliation
  raise_if (ltb eligible_open signal_at) reconciliation
  raise_if (not (created_at == eligible_open)) reconciliation

module _ {ℓ} {F : Type ℓ} where
  abbrev read_parent : Option (Json F) → Result BrokerError (Option String)
  read_parent (some null) = ok none
  read_parent (some (string id)) = do raise_if (str_eq id "") reconciliation; ok (some id)
  read_parent _ = err reconciliation

module _ {ℓ} {F : Type ℓ} ⦃d : Double F⦄ ⦃x : Texts⦄ ⦃c : Clock⦄ where
  unfoldable pub read_metadata : String → ℕ → Evidence F → Result BrokerError (Metadata F)
  unfolding order_identity
  read_metadata order_id created_at e = do
    require_evidence_keys metadata_keys e.payload
    raise_if (not (str_eq e.event_id (order_meta_id order_id))) reconciliation
    same_id ← payload_text e.payload "order_id"
    raise_if (not (str_eq same_id order_id)) reconciliation
    key ← payload_text e.payload "idempotency_key"
    side ← payload_side e.payload
    reason_text ← payload_text e.payload "reason"
    reason ← valid_reason reason_text reconciliation
    requested ← payload_number e.payload "requested_quantity"
    raise_if (requested ≼ nought) reconciliation
    fee_rate ← payload_number e.payload "fee_rate"
    slippage_rate ← payload_number e.payload "slippage_rate"
    raise_if (fee_rate ≺ nought || slippage_rate ≺ nought) reconciliation
    parent ← read_parent (field "parent_order_id" e.payload)
    signal_text ← payload_text e.payload "signal_at_utc"
    signal_at ← evidence_timestamp signal_text
    eligible_text ← payload_text e.payload "eligible_open_utc"
    eligible_open ← evidence_timestamp eligible_text
    kind_name ← payload_text e.payload "order_kind"
    order_kind ← read_kind kind_name
    require_boundary signal_at reconciliation
    require_boundary eligible_open reconciliation
    check_times order_kind side parent signal_at eligible_open created_at
    let expected = order_identity signal_text side reason parent
    raise_if (not (str_eq key expected.0) || not (str_eq order_id expected.1)) reconciliation
    ok (record {
      key = key;
      side = side;
      reason = reason;
      requested = requested;
      fee_rate = fee_rate;
      slippage_rate = slippage_rate;
      parent = parent;
      signal_text = signal_text;
      signal_at = signal_at;
      eligible_text = eligible_text;
      eligible_open = eligible_open;
      order_kind = order_kind;
    })

module _ {ℓ} {F : Type ℓ} ⦃m : Decimal F⦄ ⦃d : Double F⦄ ⦃x : Texts⦄ ⦃c : Clock⦄ where
  unfoldable pub check_creation :
      String → Metadata F → Evidence F → Evidence F → Result BrokerError (Unit {0})
  check_creation order_id f creation metadata_event = do
    require_evidence_keys creation_keys creation.payload
    key ← payload_text creation.payload "idempotency_key"
    id ← payload_text creation.payload "order_id"
    side ← payload_text creation.payload "side"
    status ← payload_text creation.payload "status"
    requested ← payload_number creation.payload "requested_quantity"
    filled ← payload_number creation.payload "filled_quantity"
    raise_if
        (not (
          str_eq key f.key
          && str_eq id order_id
          && str_eq side (side_text f.side)
          && str_eq status "CREATED"
          && exact requested f.requested
          && exact filled nought))
        reconciliation
    raise_if (not (metadata_event.occurred_at == creation.occurred_at)) reconciliation

  -- The fill of an order, if it has one, and the filled quantity.
  abbrev pub one_fill : List (Evidence F) → Result BrokerError (Option (Evidence F))
  one_fill [] = ok none
  one_fill (e ∷ []) = ok (some e)
  one_fill _ = err reconciliation

  abbrev pub accumulated_quantity : Option (Evidence F) → Metadata F → Result BrokerError F
  accumulated_quantity none f = ok nought
  accumulated_quantity (some e) f = do
    raise_if
        (ltb e.occurred_at f.signal_at
          || same_kind f.order_kind market && e.occurred_at == f.signal_at)
        reconciliation
    raise_if (not (e.occurred_at == f.eligible_open)) reconciliation
    accumulated ← payload_number e.payload "quantity"
    raise_if (m.lt (m.of_float f.requested) (m.of_float accumulated)) reconciliation
    ok accumulated

  unfoldable pub paper_order_from_evidence :
      ⦃j : Codec F⦄
      → String
      → Evidence F
      → List (Evidence F)
      → List (Evidence F)
      → Evidence F
      → List (String × Evidence F)
      → Option (EntryContext F)
      → Result BrokerError (PaperOrder F)
  unfolding read_metadata check_creation
  paper_order_from_evidence order_id creation status_events raw_fill_events metadata_event
        fill_metadata context =
      do
        f ← read_metadata order_id creation.occurred_at metadata_event
        check_creation order_id f creation metadata_event
        raw_fill ← one_fill raw_fill_events
        accumulated ← accumulated_quantity raw_fill f
        statuses ← read_statuses order_id status_events
        let life : Life = record {
          key = f.key;
          reason = f.reason;
          eligible_text = f.eligible_text;
          eligible_open = f.eligible_open;
          metadata_sequence = metadata_event.sequence;
        }
        later ← check_acceptance life creation statuses
        status ←
            final_status life raw_fill (exact accumulated f.requested) fill_metadata context later
        ok (record {
          order_id = order_id;
          idempotency_key = f.key;
          side = f.side;
          reason = f.reason;
          signal_at = f.signal_at;
          requested_quantity = f.requested;
          filled_quantity = accumulated;
          remainder_quantity = m.to_float (m.sub (m.of_float f.requested) (m.of_float accumulated));
          status = status;
          order_kind = f.order_kind;
          parent_order_id = f.parent;
          eligible_open = f.eligible_open;
          fee_rate = f.fee_rate;
          slippage_rate = f.slippage_rate;
          execution_context = context;
        })
