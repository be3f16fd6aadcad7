-- ===== src/Broker/Collect.antt =====
-- The first loop of `_build_ledger` in src/autobit/execution/paper_broker.py: the events of the
-- store by their types. A dict stands as a list of keys and values in insertion order.
use Prim.Native.String.{String}
use text.Mathlib.Text.{◌==◌ as str_eq}
use auto_bit.Prelude.{
  Bool, true, false, not, Option, none, some, List, [], ◌∷◌, ◌++◌, Result, ok, ◌>>=◌, ◌>>◌,
  raise_if, if◌then◌else◌, any, is_some,
}
use auto_bit.Double.{Double}
use auto_bit.Store.{Texts}
use auto_bit.Store.Orders.{Decimal}
use auto_bit.Broker.{BrokerError, reconciliation, Clock, Evidence}
use auto_bit.Broker.Readers.{payload_text}
use auto_bit.Broker.Stops.{Stops, no_stops, stop_event}

pub record Collected {ℓ} (F : Type ℓ) : Type ℓ where
  pub created : List (String × Evidence F)
  pub status_events : List (String × Evidence F)
  pub raw_fills : List (Evidence F)
  pub fills_by_order : List (String × Evidence F)
  pub order_metadata : List (String × Evidence F)
  pub fill_metadata : List (String × Evidence F)
  pub entry_contexts : List (String × Evidence F)
  pub executions : List (String × Evidence F)
  pub stops : Stops F

-- The event types that the loop tells apart.
pub data EvidenceKind : Type 0 where
  order_created order_status fill paper_order paper_fill paper_entry_context : EvidenceKind
  paper_execution paper_stop other_kind : EvidenceKind

abbrev pub evidence_kind : String → EvidenceKind
evidence_kind event_type =
    if str_eq event_type "ORDER_CREATED"
    then order_created
    else if str_eq event_type "ORDER_STATUS"
    then order_status
    else if str_eq event_type "FILL"
    then fill
    else if str_eq event_type "PAPER_ORDER"
    then paper_order
    else if str_eq event_type "PAPER_FILL"
    then paper_fill
    else if str_eq event_type "PAPER_ENTRY_CONTEXT"
    then paper_entry_context
    else if str_eq event_type "PAPER_EXECUTION"
    then paper_execution
    else if str_eq event_type "PAPER_STOP"
    then paper_stop
    else other_kind

module _ {ℓ} {F : Type ℓ} where
  abbrev pub nothing_collected : Collected F
  nothing_collected = record {
    created = [];
    status_events = [];
    raw_fills = [];
    fills_by_order = [];
    order_metadata = [];
    fill_metadata = [];
    entry_contexts = [];
    executions = [];
    stops = no_stops;
  }

  abbrev pub find_evidence : String → List (String × Evidence F) → Option (Evidence F)
  find_evidence key [] = none
  find_evidence key ((k, e) ∷ rest) = elim (str_eq k key) [
    | true ↦ some e
    | false ↦ find_evidence key rest
  ]

  -- `dict.get(key, ())` of a dict of lists.
  abbrev pub all_evidence : String → List (String × Evidence F) → List (Evidence F)
  all_evidence key [] = []
  all_evidence key ((k, e) ∷ rest) = elim (str_eq k key) [
    | true ↦ e ∷ all_evidence key rest
    | false ↦ all_evidence key rest
  ]

  abbrev pub has_evidence : String → List (String × Evidence F) → Bool
  has_evidence key entries = is_some (find_evidence key entries)

  -- A key that is there already raises.
  abbrev pub add_once :
      String
      → Evidence F
      → List (String × Evidence F)
      → Result BrokerError (List (String × Evidence F))
  add_once key e entries = do
    raise_if (has_evidence key entries) reconciliation
    ok (entries ++ ((key, e) ∷ []))

  module _ ⦃m : Decimal F⦄ ⦃d : Double F⦄ ⦃x : Texts⦄ ⦃c : Clock⦄ where
    abbrev pub collect_kind :
        EvidenceKind → Evidence F → Collected F → Result BrokerError (Collected F)
    collect_kind order_created e s = do
      order_id ← payload_text e.payload "order_id"
      entries ← add_once order_id e s.created
      ok (record s { created = entries })
    collect_kind order_status e s = do
      order_id ← payload_text e.payload "order_id"
      raise_if (not (has_evidence order_id s.created)) reconciliation
      ok (record s { status_events = s.status_events ++ ((order_id, e) ∷ []) })
    collect_kind fill e s = do
      raise_if (any (λ f. str_eq f.event_id e.event_id) s.raw_fills) reconciliation
      order_id ← payload_text e.payload "order_id"
      ok (record s {
        raw_fills = s.raw_fills ++ (e ∷ []);
        fills_by_order = s.fills_by_order ++ ((order_id, e) ∷ []);
      })
    collect_kind paper_order e s = do
      order_id ← payload_text e.payload "order_id"
      entries ← add_once order_id e s.order_metadata
      ok (record s { order_metadata = entries })
    collect_kind paper_fill e s = do
      fill_id ← payload_text e.payload "fill_id"
      entries ← add_once fill_id e s.fill_metadata
      ok (record s { fill_metadata = entries })
    collect_kind paper_entry_context e s = do
      order_id ← payload_text e.payload "order_id"
      entries ← add_once order_id e s.entry_contexts
      ok (record s { entry_contexts = entries })
    collect_kind paper_execution e s = do
      order_id ← payload_text e.payload "order_id"
      entries ← add_once order_id e s.executions
      ok (record s { executions = entries })
    collect_kind paper_stop e s = do stops ← stop_event e s.stops; ok (record s { stops = stops })
    collect_kind other_kind e s = ok s

    unfoldable pub collect : List (Evidence F) → Collected F → Result BrokerError (Collected F)
    collect [] s = ok s
    collect (e ∷ rest) s = do
      next ← collect_kind (evidence_kind e.event_type) e s
      collect rest next
