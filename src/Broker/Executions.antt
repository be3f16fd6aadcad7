-- ===== src/Broker/Executions.antt =====
-- `_validate_executions` of src/autobit/execution/paper_broker.py: the evidence of each attempt to
-- fill an entry at its open, against the account, the fill and the last status.
use Prim.Native.String.{String}
use text.Mathlib.Text.{◌==◌ as str_eq}
use auto_bit.Prelude.{
  ℕ, Bool, true, false, not, ◌&&◌, ◌||◌, Option, none, some, List, [], ◌∷◌, Result, ok, err, ◌>>=◌,
  ◌>>◌, raise_if, or_raise, if◌then◌else◌, leb, ◌==◌, is_some, is_nonempty, any,
}
use auto_bit.Double.{Double, ◌≼◌, ◌≺◌, min, nought}
use auto_bit.Domain.{OrderStatus, accepted, rejected}
use auto_bit.Store.{Texts}
use auto_bit.Store.Payload.{buy, same_side, field}
use auto_bit.Store.Orders.{Decimal}
use auto_bit.Broker.{
  BrokerError, reconciliation, index_error, diverged, Platform, Evidence, PaperOrder, execution_id,
}
use auto_bit.Broker.Readers.{
  require_evidence_keys, is_version_one, is_text, payload_number, is_number,
}
use auto_bit.Broker.Costs.{computed_fill_price}
use auto_bit.Broker.Execution.{execution_quantity}
use auto_bit.Broker.Entries.{first_account, account_before}
use auto_bit.Broker.Collect.{find_evidence, all_evidence, has_evidence}

abbrev pub is_accepted : OrderStatus → Bool
is_accepted accepted = true
is_accepted _ = false

abbrev is_rejected : OrderStatus → Bool
is_rejected rejected = true
is_rejected _ = false

module _ {ℓ} {F : Type ℓ} where
  abbrev pub find_paper_order : String → List (PaperOrder F) → Option (PaperOrder F)
  find_paper_order id [] = none
  find_paper_order id (o ∷ rest) = elim (str_eq o.order_id id) [
    | true ↦ some o
    | false ↦ find_paper_order id rest
  ]

  -- `entries[-1]`
  abbrev pub last_evidence : List (Evidence F) → Result BrokerError (Evidence F)
  last_evidence [] = err index_error
  last_evidence (e ∷ []) = ok e
  last_evidence (e ∷ f ∷ rest) = last_evidence (f ∷ rest)

  module _ ⦃d : Double F⦄ where
    abbrev check_one_fill : ℕ → F → F → List (Evidence F) → Result BrokerError (Unit {0})
    check_one_fill sequence quantity price (f ∷ []) =
        raise_if
          (leb f.sequence sequence
            || not (is_number (field "quantity" f.payload) quantity)
            || not (is_number (field "price" f.payload) price))
          reconciliation
    check_one_fill sequence quantity price _ = err reconciliation

    -- The outcome of an attempt at a quantity with a cap.
    unfoldable pub check_outcome :
        Evidence F
        → PaperOrder F
        → F
        → F
        → F
        → List (Evidence F)
        → Evidence F
        → Result BrokerError (Unit {0})
    check_outcome e order attempted cap price fills terminal =
        let quantity = min attempted cap in
        let reason = field "reason" terminal.payload in
        if quantity ≼ nought
        then raise_if
            (is_nonempty fills
              || not (is_rejected order.status)
              || not (is_text reason "EXECUTION_CAP"))
            reconciliation
        else check_one_fill e.sequence quantity price fills
          >> raise_if
              (quantity ≺ order.requested_quantity
                && not (
                    is_text reason
                      (if cap ≺ attempted then "EXECUTION_CAP" else "PARTIAL_REMAINDER")))
              reconciliation

  module _ ⦃m : Decimal F⦄ ⦃d : Double F⦄ ⦃p : Platform F⦄ ⦃x : Texts⦄ where
    unfoldable pub validate_execution :
        List (Evidence F)
        → List (PaperOrder F)
        → List (String × Evidence F)
        → List (String × Evidence F)
        → List (String × Evidence F)
        → String
        → Evidence F
        → Result BrokerError (Unit {0})
    unfolding check_outcome account_before
    validate_execution evidence orders contexts fills statuses order_id e = do
      require_evidence_keys ("version" ∷ "order_id" ∷ "reference_price" ∷ "attempted_quantity" ∷ [])
          e.payload
      order ← or_raise (find_paper_order order_id orders) reconciliation
      context_event ← or_raise (find_evidence order_id contexts) reconciliation
      raise_if
          (not (same_side order.side buy)
            || not (is_version_one e.payload)
            || not (str_eq e.event_id (execution_id order_id))
            || not (e.occurred_at == order.eligible_open)
            || leb e.sequence context_event.sequence)
          reconciliation
      reference ← payload_number e.payload "reference_price"
      attempted ← payload_number e.payload "attempted_quantity"
      raise_if
          (reference ≼ nought || not (nought ≺ attempted && attempted ≼ order.requested_quantity))
          reconciliation
      account ← account_before e.sequence evidence first_account
      raise_if (not (m.eq account.btc m.zero)) reconciliation
      let price = computed_fill_price reference order.slippage_rate buy
      context ← or_raise order.execution_context reconciliation
      cap ←
          or_raise (execution_quantity order.fee_rate context price (m.to_float account.cash))
            diverged
      terminal ← last_evidence (all_evidence order_id statuses)
      raise_if (leb terminal.sequence e.sequence) reconciliation
      check_outcome e order attempted cap price (all_evidence order_id fills) terminal

    abbrev each_execution :
        List (Evidence F)
        → List (PaperOrder F)
        → List (String × Evidence F)
        → List (String × Evidence F)
        → List (String × Evidence F)
        → List (String × Evidence F)
        → Result BrokerError (Unit {0})
    each_execution evidence orders contexts fills statuses [] = ok tt
    each_execution evidence orders contexts fills statuses ((order_id, e) ∷ rest) = do
      validate_execution evidence orders contexts fills statuses order_id e
      each_execution evidence orders contexts fills statuses rest

    -- A bound entry that is over without an attempt.
    abbrev lacks_execution : List (String × Evidence F) → PaperOrder F → Bool
    lacks_execution executions o =
        is_some o.execution_context
        && not (is_accepted o.status)
        && not (has_evidence o.order_id executions)

    unfoldable pub validate_executions :
        List (Evidence F)
        → List (PaperOrder F)
        → List (String × Evidence F)
        → List (String × Evidence F)
        → List (String × Evidence F)
        → List (String × Evidence F)
        → Result BrokerError (Unit {0})
    unfolding validate_execution
    validate_executions evidence orders executions contexts fills statuses = do
      each_execution evidence orders contexts fills statuses executions
      raise_if (any (lacks_execution executions) orders) reconciliation
