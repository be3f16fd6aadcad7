-- ===== src/Broker/Ledger.antt =====
-- `_build_ledger` of src/autobit/execution/paper_broker.py: the broker's view of the store, read
-- from the immutable events alone and checked against the projections of the store.
pub mod Ancestry
pub mod Protection
pub mod Money
pub mod Paid
pub mod Sound
use Prim.Native.String.{String}
use text.Mathlib.Text.{◌==◌ as str_eq}
use auto_bit.Prelude.{
  ℕ, Bool, true, false, not, ◌&&◌, ◌||◌, Option, none, some, List, [], ◌∷◌, ◌++◌, Result, ok, err,
  ◌>>=◌, ◌>>◌, raise_if, or_raise, if◌then◌else◌, ltb, ◌==◌, any, all, keep, length, is_some,
  is_nonempty,
}
use auto_bit.Double.{Double}
use auto_bit.Domain.{
  PositionState, flat, entry_pending, long, exit_pending, halted, OrderStatus, created, submitted,
  accepted, partial,
}
use auto_bit.Python.{TimeValue, aware, unusable}
use auto_bit.Store.{Texts, corruption}
use auto_bit.Store.Payload.{Json, Payload, Codec, Side, buy, sell, same_side, status_text, field}
use auto_bit.Store.Orders.{Decimal, StoredOrder, is_active_status}
use auto_bit.Store.Replay.{Event}
use auto_bit.Store.Snapshot.{Store, Snapshot, Renderer, replay_and_verify, state_after}
use auto_bit.Broker.{
  BrokerError, reconciliation, raised, index_error, lift, Clock, Platform, Evidence, EntryContext,
  PaperOrder, PaperFill, PaperStop,
}
use auto_bit.Broker.Readers.{payload_text}
use auto_bit.Broker.Costs.{exact}
use auto_bit.Broker.Trades.{PaperTrade, completed_trades}
use auto_bit.Broker.Stops.{Stops}
use auto_bit.Broker.Collect.{
  Collected, nothing_collected, collect, find_evidence, all_evidence, has_evidence,
}
use auto_bit.Broker.Orders.{paper_order_from_evidence}
use auto_bit.Broker.Entries.{Account, stored_entry_context, validate_entry_context_binding}
use auto_bit.Broker.Executions.{find_paper_order, validate_executions}
use auto_bit.Broker.Positions.{validated_position_observations}
use auto_bit.Broker.Ledger.Ancestry.{validate_ancestry}
use auto_bit.Broker.Ledger.Protection.{same_members, validate_stops}
use auto_bit.Broker.Ledger.Money.{Balance, first_balance, balance_of, sorted_fills}

pub record PaperLedger {ℓ} (F : Type ℓ) : Type ℓ where
  pub snapshot : Snapshot F
  pub evidence : List (Evidence F)
  pub orders : List (PaperOrder F)
  pub active_orders : List (PaperOrder F)
  pub fills : List (PaperFill F)
  pub trades : List (PaperTrade F)
  pub active_stop : Option (PaperStop F)
  pub open_stops : List (PaperStop F)
  pub total_fees : F
  pub total_slippage : F
  pub position_observations : List (String × Evidence F)

abbrev same_status : OrderStatus → OrderStatus → Bool
same_status a b = str_eq (status_text a) (status_text b)

abbrev pub same_state : PositionState → PositionState → Bool
same_state flat flat = true
same_state entry_pending entry_pending = true
same_state long long = true
same_state exit_pending exit_pending = true
same_state halted halted = true
same_state _ _ = false

module _ {ℓ} {F : Type ℓ} where
  -- The events of a verified store have a time and a payload.
  abbrev evidence_from : Event F → TimeValue → Option (Payload F) → Result BrokerError (Evidence F)
  evidence_from e (aware t) (some payload) = ok (record {
    sequence = e.sequence;
    event_id = e.event_id;
    event_type = e.event_type;
    occurred_at = t;
    payload = payload;
  })
  evidence_from e _ _ = err (raised corruption)

  -- `event_evidence`, the oldest first, of events with the newest first.
  unfoldable pub event_evidence : List (Event F) → Result BrokerError (List (Evidence F))
  event_evidence [] = ok []
  event_evidence (e ∷ older) = do
    before ← event_evidence older
    last ← evidence_from e e.occurred_at e.payload
    ok (before ++ (last ∷ []))

  module _ ⦃m : Decimal F⦄ ⦃d : Double F⦄ ⦃j : Codec F⦄ ⦃x : Texts⦄ ⦃c : Clock⦄
      ⦃p : Platform F⦄ where
    abbrev read_context : Option (Evidence F) → Result BrokerError (Option (EntryContext F))
    read_context none = ok none
    read_context (some e) = do
      context ← stored_entry_context (field "context" e.payload)
      ok (some context)

    unfoldable pub read_orders :
        Collected F → List (String × Evidence F) → Result BrokerError (List (PaperOrder F))
    read_orders s [] = ok []
    read_orders s ((order_id, metadata) ∷ rest) = do
      creation ← or_raise (find_evidence order_id s.created) reconciliation
      context ← read_context (find_evidence order_id s.entry_contexts)
      order ←
          paper_order_from_evidence order_id creation (all_evidence order_id s.status_events)
            (all_evidence order_id s.fills_by_order) metadata s.fill_metadata context
      orders ← read_orders s rest
      ok (order ∷ orders)

    abbrev pub check_contexts :
        Collected F
        → List (PaperOrder F)
        → List (Evidence F)
        → List (String × Evidence F)
        → Result BrokerError (Unit {0})
    check_contexts s orders evidence [] = ok tt
    check_contexts s orders evidence ((order_id, e) ∷ rest) = do
      order ← or_raise (find_paper_order order_id orders) reconciliation
      context ← or_raise order.execution_context index_error
      metadata ← or_raise (find_evidence order_id s.order_metadata) index_error
      validate_entry_context_binding e context order evidence metadata
      check_contexts s orders evidence rest

  abbrev pub has_id : List (PaperOrder F) → String → Bool
  has_id orders id = is_some (find_paper_order id orders)

  abbrev pub fill_ids : List (PaperOrder F) → List (String × Evidence F) → List String
  fill_ids orders [] = []
  fill_ids orders ((order_id, e) ∷ rest) = elim (has_id orders order_id) [
    | true ↦ e.event_id ∷ fill_ids orders rest
    | false ↦ fill_ids orders rest
  ]

  abbrev pub keys : List (String × Evidence F) → List String
  keys [] = []
  keys ((k, e) ∷ rest) = k ∷ keys rest

  abbrev find_projected : String → List (StoredOrder F) → Option (StoredOrder F)
  find_projected id [] = none
  find_projected id (o ∷ rest) = elim (str_eq o.order_id id) [
    | true ↦ some o
    | false ↦ find_projected id rest
  ]

  module _ ⦃m : Decimal F⦄ where
    abbrev is_projected : PaperOrder F → Option (StoredOrder F) → Bool
    is_projected o none = false
    is_projected o (some projected) =
        str_eq projected.idempotency_key o.idempotency_key
        && same_side projected.side o.side
        && same_status projected.status o.status
        && exact projected.requested_quantity o.requested_quantity
        && exact projected.filled_quantity o.filled_quantity

    -- The active orders and the pending orders of the snapshot are the same.
    unfoldable pub check_projection :
        List (PaperOrder F)
        → List (PaperOrder F)
        → List (StoredOrder F)
        → Result BrokerError (Unit {0})
    check_projection orders active pending = do
      raise_if (any (λ o. has_id orders o.order_id && not (has_id active o.order_id)) pending)
          reconciliation
      raise_if (any (λ o. not (is_projected o (find_projected o.order_id pending))) active)
          reconciliation

    abbrev pub reserved : m.D → List (PaperOrder F) → m.D
    reserved total [] = total
    reserved total (o ∷ rest) =
        reserved
          (if same_side o.side sell then m.add total (m.of_float o.remainder_quantity) else total)
          rest

    abbrev pub derived_position : List (PaperOrder F) → Account F → PositionState
    derived_position (o ∷ rest) a = if same_side o.side buy then entry_pending else exit_pending
    derived_position [] a = if m.lt m.zero a.btc then long else flat

    -- The checks between the orders, the account and the stop.
    unfoldable pub check_account :
        List (PaperOrder F) → Account F → Option (PaperStop F) → Result BrokerError (Unit {0})
    check_account active a stop = do
      raise_if (ltb 1 (length active)) reconciliation
      raise_if (m.lt a.btc (reserved m.zero active)) reconciliation
      raise_if (any (λ o. same_side o.side buy) active && m.lt m.zero a.btc) reconciliation
      raise_if (is_some stop && not (m.lt m.zero a.btc)) reconciliation

  -- Evidence of orders or fills that are not the broker's.
  abbrev pub generic_evidence : Collected F → List (PaperOrder F) → Bool
  generic_evidence s orders =
      any (λ id. not (has_id orders id)) (keys s.created)
      || any (λ id. not (has_id orders id)) (keys s.fills_by_order)

  module _ ⦃m : Decimal F⦄ ⦃d : Double F⦄ ⦃j : Codec F⦄ ⦃n : Renderer F⦄ ⦃x : Texts⦄ ⦃c : Clock⦄
      ⦃p : Platform F⦄ where
    -- The ledger of a snapshot and its evidence.
    unfoldable pub ledger_of : Snapshot F → List (Evidence F) → Result BrokerError (PaperLedger F)
    unfolding read_orders check_projection check_account
    ledger_of snapshot evidence = do
      s ← collect evidence nothing_collected
      orders ← read_orders s s.order_metadata
      check_contexts s orders evidence s.entry_contexts
      validate_executions evidence orders s.executions s.entry_contexts s.fills_by_order
          s.status_events
      raise_if (not (same_members (keys s.fill_metadata) (fill_ids orders s.fills_by_order)))
          reconciliation
      validate_ancestry evidence s orders
      b ← balance_of s orders s.raw_fills first_balance
      raise_if (not (d.eq (m.to_float b.account.cash) snapshot.cash)) reconciliation
      raise_if (not (d.eq (m.to_float b.account.btc) snapshot.btc_quantity)) reconciliation
      let active = keep (λ o. is_active_status o.status) orders
      check_projection orders active snapshot.pending_orders
      check_account active b.account s.stops.active_stop
      let fills = sorted_fills b.fills
      trades ← completed_trades fills
      raise_if
          (not (generic_evidence s orders)
            && not (same_state snapshot.position_state halted)
            && not (same_state snapshot.position_state (derived_position active b.account)))
          reconciliation
      validate_stops evidence s orders fills
      observations ← validated_position_observations evidence orders fills
      ok (record {
        snapshot = snapshot;
        evidence = evidence;
        orders = orders;
        active_orders = active;
        fills = fills;
        trades = trades;
        active_stop = s.stops.active_stop;
        open_stops = s.stops.open_stops;
        total_fees = m.to_float b.total_fees;
        total_slippage = m.to_float b.total_slippage;
        position_observations = observations;
      })

    unfoldable pub build_ledger : Store F → Result BrokerError (PaperLedger F)
    build_ledger s = do
      r ← lift (replay_and_verify s)
      evidence ← event_evidence s.events
      ledger_of (state_after s.events r) evidence
