-- ===== src/Broker/Ledger/Ancestry.antt =====
-- The parents of orders in `_build_ledger` of src/autobit/execution/paper_broker.py: a remainder
-- follows a partial exit, and a stop order its stop.
use Prim.Native.String.{String}
use text.Mathlib.Text.{◌==◌ as str_eq, starts_with}
use auto_bit.Prelude.{
  Bool, true, false, not, ◌&&◌, ◌||◌, Option, none, some, List, [], ◌∷◌, Result, ok, err, ◌>>=◌,
  ◌>>◌, raise_if, or_raise, leb, ◌==◌, any,
}
use auto_bit.Double.{Double, ◌≼◌, ◌≺◌, nought}
use auto_bit.Domain.{OrderStatus, completed, canceled}
use auto_bit.Store.Payload.{sell, same_side}
use auto_bit.Store.Orders.{Decimal}
use auto_bit.Broker.{
  BrokerError, reconciliation, Evidence, OrderKind, market, stop, PaperOrder, PaperStop,
}
use auto_bit.Broker.Readers.{payload_number}
use auto_bit.Broker.Costs.{exact}
use auto_bit.Broker.Trades.{inventory_before_sequence}
use auto_bit.Broker.Stops.{find_stop}
use auto_bit.Broker.Collect.{Collected, find_evidence, all_evidence}
use auto_bit.Broker.Executions.{find_paper_order}

abbrev pub is_canceled : OrderStatus → Bool
is_canceled canceled = true
is_canceled _ = false

abbrev pub is_whole : OrderStatus → Bool
is_whole completed = true
is_whole _ = false

abbrev pub is_stop_order : OrderKind → Bool
is_stop_order stop = true
is_stop_order market = false

abbrev pub is_order_id : Option String → Bool
is_order_id none = false
is_order_id (some id) = starts_with id "paper-order:"

-- `len(items) != 1` for a parent with a child.
abbrev has_twins : List String → Bool
has_twins [] = false
has_twins (id ∷ rest) = any (str_eq id) rest || has_twins rest

module _ {ℓ} {F : Type ℓ} where
  abbrev pub single : List (Evidence F) → Result BrokerError (Evidence F)
  single (e ∷ []) = ok e
  single _ = err reconciliation

  module _ ⦃m : Decimal F⦄ ⦃d : Double F⦄ where
    unfoldable pub check_remainder :
        Collected F → PaperOrder F → PaperOrder F → Result BrokerError (Unit {0})
    check_remainder c parent order = do
      raise_if (is_order_id parent.parent_order_id) reconciliation
      raise_if (not (same_side parent.side sell) || not (same_side order.side sell)) reconciliation
      raise_if (not (is_canceled parent.status) || parent.filled_quantity ≼ nought) reconciliation
      raise_if (not (str_eq order.reason parent.reason)) reconciliation
      fill ← single (all_evidence parent.order_id c.fills_by_order)
      raise_if (not (order.signal_at == fill.occurred_at)) reconciliation
      raise_if (not (exact order.requested_quantity parent.remainder_quantity)) reconciliation
      raise_if
          (not (
            exact order.fee_rate parent.fee_rate && exact order.slippage_rate parent.slippage_rate))
          reconciliation

    unfoldable pub check_stop_order :
        List (Evidence F) → Collected F → PaperStop F → PaperOrder F → Result BrokerError (Unit {0})
    check_stop_order evidence c s order = do
      raise_if (not (is_stop_order order.order_kind)) reconciliation
      raise_if
          (not (
            str_eq order.reason s.reason
            && order.signal_at == s.observed_at
            && leb s.active_after order.eligible_open
            && exact order.fee_rate s.fee_rate
            && exact order.slippage_rate s.slippage_rate))
          reconciliation
      raise_if (not (is_whole order.status)) reconciliation
      fill ← single (all_evidence order.order_id c.fills_by_order)
      inventory ← inventory_before_sequence fill.sequence evidence
      quantity ← payload_number fill.payload "quantity"
      raise_if
          (not (m.eq (m.of_float order.requested_quantity) inventory)
            || not (m.eq (m.of_float quantity) inventory)
            || not (m.eq (m.sub inventory (m.of_float quantity)) m.zero))
          reconciliation
      meta ← or_raise (find_evidence fill.event_id c.fill_metadata) reconciliation
      reference ← payload_number meta.payload "reference_price"
      raise_if (m.lt (m.of_float s.stop_price) (m.of_float reference)) reconciliation

    -- The parents that have a child, one for each remainder.
    unfoldable pub check_parents :
        List (Evidence F)
        → Collected F
        → List (PaperOrder F)
        → List (PaperOrder F)
        → Result BrokerError (List String)
    unfolding check_remainder check_stop_order
    check_parents evidence c orders [] = ok []
    check_parents evidence c orders (order ∷ rest) = elim (order.parent_order_id) [
      | none ↦ check_parents evidence c orders rest
      | some parent_id ↦ elim (starts_with parent_id "paper-order:") [
        | true ↦ do
          parent ← or_raise (find_paper_order parent_id orders) reconciliation
          check_remainder c parent order
          parents ← check_parents evidence c orders rest
          ok (parent_id ∷ parents)
        | false ↦ elim (starts_with parent_id "paper-stop:") [
          | true ↦ do
            s ← or_raise (find_stop parent_id c.stops.known) reconciliation
            check_stop_order evidence c s order
            check_parents evidence c orders rest
          | false ↦ err reconciliation
        ]
      ]
    ]

    -- A partial exit without its remainder.
    abbrev lacks_child : List String → PaperOrder F → Bool
    lacks_child parents o =
        same_side o.side sell
        && is_canceled o.status
        && nought ≺ o.filled_quantity
        && nought ≺ o.remainder_quantity
        && not (any (str_eq o.order_id) parents)

    unfoldable pub validate_ancestry :
        List (Evidence F) → Collected F → List (PaperOrder F) → Result BrokerError (Unit {0})
    unfolding check_parents
    validate_ancestry evidence c orders = do
      parents ← check_parents evidence c orders orders
      raise_if (has_twins parents) reconciliation
      raise_if (any (lacks_child parents) orders) reconciliation
