-- ===== src/Broker/Ledger/Money.antt =====
-- The loop of `_build_ledger` in src/autobit/execution/paper_broker.py over the fills: the cash,
-- the coins, the costs, and the fills of the broker's own orders.
use auto_bit.Prelude.{
  ℕ, Bool, true, false, not, ◌&&◌, ◌||◌, Option, none, some, List, [], ◌∷◌, ◌++◌, Result, ok, ◌>>=◌,
  ◌>>◌, raise_if, or_raise, ltb, leb, ◌==◌,
}
use auto_bit.Double.{Double, ◌≺◌, min}
use auto_bit.Store.{Texts}
use auto_bit.Store.Payload.{field}
use auto_bit.Store.Orders.{Decimal}
use auto_bit.Broker.{
  BrokerError, reconciliation, index_error, diverged, Platform, Evidence, EntryContext, PaperOrder,
  PaperFill,
}
use auto_bit.Broker.Readers.{is_text, payload_text, payload_number, payload_side}
use auto_bit.Broker.Execution.{execution_quantity}
use auto_bit.Broker.Entries.{Account, first_account, settled}
use auto_bit.Broker.Executions.{find_paper_order, last_evidence}
use auto_bit.Broker.Fills.{paper_fill_from_evidence}
use auto_bit.Broker.Collect.{Collected, find_evidence, all_evidence}

-- The variables of the loop; a fill stands with the sequence of its event.
pub record Balance {ℓ} (F : Type ℓ) ⦃m : Decimal F⦄ : Type ℓ where
  pub account : Account F
  pub total_fees : m.D
  pub total_slippage : m.D
  pub fills : List (PaperFill F × ℕ)

module _ {ℓ} {F : Type ℓ} ⦃m : Decimal F⦄ where
  abbrev pub first_balance : Balance F
  first_balance = record {
    account = first_account;
    total_fees = m.zero;
    total_slippage = m.zero;
    fills = [];
  }

  abbrev pub is_negative : Account F → Bool
  is_negative a = m.lt a.cash m.zero || m.lt a.btc m.zero

  module _ ⦃d : Double F⦄ ⦃p : Platform F⦄ where
    -- The fill of a bound entry, against its context and its cap.
    unfoldable pub check_bound_fill :
        Collected F
        → PaperOrder F
        → Evidence F
        → F
        → F
        → Account F
        → Option (EntryContext F)
        → Result BrokerError (Unit {0})
    check_bound_fill c order raw quantity price a none = ok tt
    check_bound_fill c order raw quantity price a (some context) = do
      context_event ← or_raise (find_evidence order.order_id c.entry_contexts) index_error
      raise_if (leb raw.sequence context_event.sequence || not (m.eq a.btc m.zero)) reconciliation
      cap ← or_raise (execution_quantity order.fee_rate context price (m.to_float a.cash)) diverged
      raise_if (m.lt (m.of_float (min order.requested_quantity cap)) (m.of_float quantity))
          reconciliation
      terminal ← last_evidence (all_evidence order.order_id c.status_events)
      raise_if
          (is_text (field "reason" terminal.payload) "EXECUTION_CAP"
            && not (cap ≺ order.requested_quantity && m.eq (m.of_float quantity) (m.of_float cap)))
          reconciliation

    abbrev pub read_fill :
        ⦃x : Texts⦄
        → Collected F
        → Option (PaperOrder F)
        → Evidence F
        → Balance F
        → Result BrokerError (Balance F)
    read_fill c none raw b = ok b
    read_fill c (some order) raw b = do
      meta ← or_raise (find_evidence raw.event_id c.fill_metadata) index_error
      fill ← paper_fill_from_evidence raw meta order
      ok (record {
        account = b.account;
        total_fees = m.add b.total_fees (m.of_float fill.fee);
        total_slippage = m.add b.total_slippage (m.of_float fill.slippage);
        fills = b.fills ++ ((fill, raw.sequence) ∷ []);
      })

    abbrev pub check_bound :
        Collected F
        → Option (PaperOrder F)
        → Evidence F
        → F
        → F
        → Account F
        → Result BrokerError (Unit {0})
    check_bound c none raw quantity price a = ok tt
    check_bound c (some order) raw quantity price a =
        check_bound_fill c order raw quantity price a order.execution_context

    unfoldable pub add_fill :
        ⦃x : Texts⦄
        → Collected F
        → List (PaperOrder F)
        → Evidence F
        → Balance F
        → Result BrokerError (Balance F)
    unfolding check_bound_fill
    add_fill c orders raw b = do
      quantity ← payload_number raw.payload "quantity"
      price ← payload_number raw.payload "price"
      fee ← payload_number raw.payload "fee"
      side ← payload_side raw.payload
      order_id ← payload_text raw.payload "order_id"
      let order = find_paper_order order_id orders
      check_bound c order raw quantity price b.account
      let after = settled side quantity price fee b.account
      raise_if (is_negative after) reconciliation
      read_fill c order raw (record b { account = after })

    unfoldable pub balance_of :
        ⦃x : Texts⦄
        → Collected F
        → List (PaperOrder F)
        → List (Evidence F)
        → Balance F
        → Result BrokerError (Balance F)
    unfolding add_fill
    balance_of c orders [] b = ok b
    balance_of c orders (raw ∷ rest) b = do
      next ← add_fill c orders raw b
      balance_of c orders rest next

module _ {ℓ} {F : Type ℓ} where
  abbrev fills_before : PaperFill F × ℕ → PaperFill F × ℕ → Bool
  fills_before (f, i) (g, j) = ltb f.fill_time g.fill_time || f.fill_time == g.fill_time && ltb i j

  abbrev insert_fill : PaperFill F × ℕ → List (PaperFill F × ℕ) → List (PaperFill F × ℕ)
  insert_fill f [] = f ∷ []
  insert_fill f (g ∷ rest) = elim (fills_before g f) [
    | true ↦ g ∷ insert_fill f rest
    | false ↦ f ∷ g ∷ rest
  ]

  abbrev sort_fills : List (PaperFill F × ℕ) → List (PaperFill F × ℕ)
  sort_fills [] = []
  sort_fills (f ∷ rest) = insert_fill f (sort_fills rest)

  abbrev drop_sequences : List (PaperFill F × ℕ) → List (PaperFill F)
  drop_sequences [] = []
  drop_sequences ((f, i) ∷ rest) = f ∷ drop_sequences rest

  -- `paper_fills.sort(...)`
  abbrev pub sorted_fills : List (PaperFill F × ℕ) → List (PaperFill F)
  sorted_fills fills = drop_sequences (sort_fills fills)
