-- ===== src/Broker/Ledger/Protection.antt =====
-- The evidence of stops in `_build_ledger` of src/autobit/execution/paper_broker.py: the source of
-- each stop, and the exit that ends it.
use Prim.Native.String.{String}
use text.Mathlib.Text.{◌==◌ as str_eq}
use auto_bit.Prelude.{
  ℕ, Bool, true, false, not, ◌&&◌, ◌||◌, Option, none, some, List, [], ◌∷◌, ◌++◌, Result, ok, err,
  ◌>>=◌, ◌>>◌, raise_if, or_raise, if◌then◌else◌, ltb, leb, ◌==◌, any, all, keep,
}
use auto_bit.Double.{Double, ◌≼◌, nought}
use auto_bit.Store.Payload.{buy, sell, same_side, field}
use auto_bit.Store.Orders.{Decimal}
use auto_bit.Broker.{
  BrokerError, reconciliation, index_error, Evidence, PaperOrder, PaperFill, PaperStop,
}
use auto_bit.Broker.Readers.{is_text, payload_text}
use auto_bit.Broker.Trades.{paper_source_at_sequence, inventory_before_sequence}
use auto_bit.Broker.Stops.{last_stop}
use auto_bit.Broker.Collect.{Collected, find_evidence, all_evidence}
use auto_bit.Broker.Executions.{find_paper_order}
use auto_bit.Broker.Positions.{is_source}
use auto_bit.Broker.Ledger.Ancestry.{is_whole, is_stop_order, single}

abbrev pub same_members : List String → List String → Bool
same_members xs ys = all (λ a. any (str_eq a) ys) xs && all (λ b. any (str_eq b) xs) ys

abbrev is_parent : Option String → String → Bool
is_parent none id = false
is_parent (some parent) id = str_eq parent id

module _ {ℓ} {F : Type ℓ} where
  abbrev pub single_fill : List (PaperFill F) → Result BrokerError (PaperFill F)
  single_fill (f ∷ []) = ok f
  single_fill _ = err reconciliation

  -- A stop from the boundary of its entry's fill.
  abbrev check_boundary_stop :
      Collected F → List (PaperFill F) → PaperStop F → ℕ → Result BrokerError (Unit {0})
  check_boundary_stop c fills s set_sequence = do
    raise_if (not (str_eq s.reason "HARD_STOP")) reconciliation
    fill ← single_fill (keep (λ f. str_eq f.order_id s.source_id) fills)
    raise_if (not (same_side fill.side buy) || not (fill.fill_time == s.observed_at)) reconciliation
    raw ← single (all_evidence s.source_id c.fills_by_order)
    meta ← or_raise (find_evidence raw.event_id c.fill_metadata) index_error
    raise_if (leb set_sequence meta.sequence) reconciliation

  module _ ⦃m : Decimal F⦄ ⦃d : Double F⦄ where
    unfoldable pub check_stop_source :
        List (Evidence F)
        → Collected F
        → List (PaperOrder F)
        → List (PaperFill F)
        → PaperStop F
        → Result BrokerError (Unit {0})
    check_stop_source evidence c orders fills s = do
      source ← or_raise (find_paper_order s.source_id orders) reconciliation
      raise_if (not (same_side source.side buy) || source.filled_quantity ≼ nought) reconciliation
      set_event ← or_raise (find_evidence s.stop_id c.stops.set_events) index_error
      held ← paper_source_at_sequence set_event.sequence evidence orders
      raise_if (not (is_source held s.source_id)) reconciliation
      if s.active_after == s.observed_at
          then check_boundary_stop c fills s set_event.sequence
          else ok tt

    abbrev each_stop :
        List (Evidence F)
        → Collected F
        → List (PaperOrder F)
        → List (PaperFill F)
        → List (PaperStop F)
        → Result BrokerError (Unit {0})
    each_stop evidence c orders fills [] = ok tt
    each_stop evidence c orders fills (s ∷ rest) = do
      check_stop_source evidence c orders fills s
      each_stop evidence c orders fills rest

    abbrev set_before : Collected F → ℕ → PaperStop F → Bool
    set_before c sequence s = elim (find_evidence s.stop_id c.stops.set_events) [
      | none ↦ false
      | some e ↦ ltb e.sequence sequence
    ]

    abbrev ended_before : Collected F → ℕ → PaperStop F → Bool
    ended_before c sequence s =
        any (λ e. ltb e.sequence sequence && is_text (field "stop_id" e.payload) s.stop_id)
          c.stops.terminals

    -- The last stop that was set, not ended, and active at a fill.
    abbrev eligible_version : Collected F → Evidence F → Option (PaperStop F)
    eligible_version c fill = last_stop (
        keep
          (λ s.
            set_before c fill.sequence s
            && not (ended_before c fill.sequence s)
            && leb s.active_after fill.occurred_at)
          c.stops.known)

    abbrev is_version : Option (PaperStop F) → String → Bool
    is_version none stop_id = false
    is_version (some s) stop_id = str_eq s.stop_id stop_id

    -- One terminal event; the orders that were triggered.
    unfoldable pub check_terminal :
        List (Evidence F)
        → Collected F
        → List (PaperOrder F)
        → Evidence F
        → Result BrokerError (List String)
    check_terminal evidence c orders e = do
      identity ← payload_text e.payload "identity"
      related ← or_raise (find_paper_order identity orders) reconciliation
      raise_if (not (same_side related.side sell)) reconciliation
      raise_if (not (is_whole related.status)) reconciliation
      fill ← single (all_evidence identity c.fills_by_order)
      meta ← or_raise (find_evidence fill.event_id c.fill_metadata) reconciliation
      order_meta ← or_raise (find_evidence identity c.order_metadata) index_error
      raise_if
          (not (
            ltb order_meta.sequence fill.sequence
            && ltb fill.sequence meta.sequence
            && ltb meta.sequence e.sequence))
          reconciliation
      raise_if (not (e.occurred_at == fill.occurred_at)) reconciliation
      inventory ← inventory_before_sequence e.sequence evidence
      raise_if (not (m.eq inventory m.zero)) reconciliation
      action ← payload_text e.payload "action"
      stop_id ← payload_text e.payload "stop_id"
      let bound = is_parent related.parent_order_id stop_id
      raise_if
          (str_eq action "TRIGGERED"
            && (not bound || not (is_version (eligible_version c fill) stop_id)))
          reconciliation
      raise_if (str_eq action "CANCELED" && bound) reconciliation
      ok (if str_eq action "TRIGGERED" then identity ∷ [] else [])

    abbrev each_terminal :
        List (Evidence F)
        → Collected F
        → List (PaperOrder F)
        → List (Evidence F)
        → Result BrokerError (List String)
    each_terminal evidence c orders [] = ok []
    each_terminal evidence c orders (e ∷ rest) = do
      triggered ← check_terminal evidence c orders e
      later ← each_terminal evidence c orders rest
      ok (triggered ++ later)

    abbrev stop_order_ids : List (PaperOrder F) → List String
    stop_order_ids [] = []
    stop_order_ids (o ∷ rest) = elim (is_stop_order o.order_kind) [
      | true ↦ o.order_id ∷ stop_order_ids rest
      | false ↦ stop_order_ids rest
    ]

    unfoldable pub validate_stops :
        List (Evidence F)
        → Collected F
        → List (PaperOrder F)
        → List (PaperFill F)
        → Result BrokerError (Unit {0})
    unfolding check_stop_source check_terminal
    validate_stops evidence c orders fills = do
      each_stop evidence c orders fills c.stops.known
      triggered ← each_terminal evidence c orders c.stops.terminals
      raise_if (not (same_members triggered (stop_order_ids orders))) reconciliation
