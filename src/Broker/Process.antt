-- ===== src/Broker/Process.antt =====
-- The filling of orders in src/autobit/execution/paper_broker.py: `process_open` and
-- `_process_order_in_transaction`. The fault hook of the
-- tests is left out.
pub mod Bounds
use Prim.Native.String.{String}
use text.Mathlib.Text.{◌==◌ as str_eq}
use auto_bit.Prelude.{
  ℕ, Bool, true, false, not, ◌&&◌, ◌||◌, Option, none, some, List, [], ◌∷◌, Result, ok, err, ◌>>=◌,
  ◌>>◌, raise_if, or_raise, if◌then◌else◌, leb, ◌==◌,
}
use auto_bit.Double.{Double, ◌≼◌, ◌≺◌, min, nought}
use auto_bit.Domain.{OrderStatus, completed, partial, canceled, insufficient_cash, rejected}
use auto_bit.Python.{aware}
use auto_bit.Store.{Texts}
use auto_bit.Store.Payload.{
  Json, number, string, Payload, Codec, Side, buy, sell, same_side, side_text,
}
use auto_bit.Store.Orders.{Decimal, is_active_status}
use auto_bit.Store.Snapshot.{Store, Snapshot, Renderer}
use auto_bit.Store.Append.{append_event}
use auto_bit.Store.Record.{append_fill, transition_order_status}
use auto_bit.Broker.{
  BrokerError, reconciliation, invalid, diverged, lift, Clock, Platform, EntryContext, OrderKind,
  market, PaperOrder, PaperFill, PaperStop, execution_id, fill_meta_id, joined, next_boundary,
}
use auto_bit.Broker.Readers.{positive}
use auto_bit.Broker.Costs.{exact, computed_fill_price, computed_fee, computed_slippage}
use auto_bit.Broker.Stops.{stop_end_id}
use auto_bit.Broker.Execution.{execution_quantity, cost}
use auto_bit.Broker.Executions.{find_paper_order}
use auto_bit.Broker.Fills.{paper_fill_id}
use auto_bit.Broker.Ledger.{PaperLedger, build_ledger}
use auto_bit.Broker.Ledger.Ancestry.{is_order_id, is_stop_order}
use auto_bit.Broker.Submit.{replay_state, submit_order}
use auto_bit.Broker.Submission.{Submission, one_json}
use auto_bit.Broker.Attempts.{
  Attempt, attempt_of, change, deactivate_all, deactivate_stop, fill_suffix, leaves_part,
}

module _ {ℓ} {F : Type ℓ} ⦃m : Decimal F⦄ ⦃d : Double F⦄ ⦃j : Codec F⦄ ⦃n : Renderer F⦄ ⦃x : Texts⦄
    ⦃c : Clock⦄ ⦃p : Platform F⦄ where
  abbrev pub paper_fill : PaperOrder F → ℕ → F → F → F → F → PaperFill F
  paper_fill o t reference price fee quantity = record {
    fill_id = paper_fill_id o.order_id (x.utc_text t) (p.repr quantity);
    order_id = o.order_id;
    side = o.side;
    reason = o.reason;
    quantity = quantity;
    reference_price = reference;
    fill_price = price;
    fee = fee;
    slippage = computed_slippage quantity price reference;
    fill_time = t;
  }

  abbrev pub metadata_payload : PaperOrder F → PaperFill F → Payload F
  metadata_payload o f =
      ("fee", number f.fee)
      ∷ ("fee_rate", number o.fee_rate)
      ∷ ("fill_id", string f.fill_id)
      ∷ ("fill_price", number f.fill_price)
      ∷ ("order_id", string o.order_id)
      ∷ ("quantity", number f.quantity)
      ∷ ("reason", string o.reason)
      ∷ ("reference_price", number f.reference_price)
      ∷ ("side", string (side_text o.side))
      ∷ ("slippage", number f.slippage)
      ∷ ("slippage_rate", number o.slippage_rate)
      ∷ []

  abbrev child_of : PaperOrder F → ℕ → F → ℕ → Submission F
  child_of o t remaining next = record {
    signal_at = t;
    occurred_at = t;
    side = sell;
    quantity = remaining;
    reason = o.reason;
    parent_order_id = some o.order_id;
    order_kind = market;
    eligible_open = next;
    fee_rate = o.fee_rate;
    slippage_rate = o.slippage_rate;
  }

  -- The remainder of a partial fill: canceled, and for a sale submitted again.
  unfoldable pub cancel_remainder :
      PaperOrder F → Attempt F → ℕ → Store F → Result BrokerError (Store F)
  cancel_remainder o a t s = do
    after ←
        change o ":cancel-remainder:" canceled t
          (if a.capped then "EXECUTION_CAP" else "PARTIAL_REMAINDER") s
    elim (o.side) [
      | buy ↦ ok after
      | sell ↦ do
        raise_if (is_order_id o.parent_order_id) reconciliation
        let left = m.sub (m.of_float o.remainder_quantity) (m.of_float a.quantity)
        raise_if (not (m.lt m.zero left)) reconciliation
        next ← next_boundary t
        child ← submit_order (child_of o t (m.to_float left) next) after
        ok child.0
    ]

  -- An exit that leaves nothing cancels the protective stops.
  unfoldable pub cancel_stops :
      PaperOrder F → ℕ → List (PaperStop F) → Store F → Result BrokerError (Store F)
  unfolding deactivate_stop
  cancel_stops o t stops s = elim (same_side o.side sell && not (is_stop_order o.order_kind)) [
    | false ↦ ok s
    | true ↦ do
      current ← replay_state s
      elim (m.eq (m.of_float current.btc_quantity) m.zero) [
        | false ↦ ok s
        | true ↦ deactivate_all (λ stop. "CANCELED") t o.order_id stops s
      ]
  ]

  abbrev pub fill_status : PaperOrder F → F → OrderStatus
  fill_status o quantity = if exact quantity o.remainder_quantity then completed else partial

  -- The writes of a fill that the store has taken.
  unfoldable pub finish_fill :
      PaperOrder F
      → Attempt F
      → PaperFill F
      → List (PaperStop F)
      → Store F
      → Result BrokerError (Store F × Option (PaperFill F))
  unfolding cancel_remainder cancel_stops
  finish_fill o a f stops s = do
    let status = fill_status o f.quantity
    changed ← change o (fill_suffix status) status f.fill_time o.reason s
    e ← lift (
        append_event (fill_meta_id f.fill_id) "PAPER_FILL" (aware f.fill_time)
          (metadata_payload o f) changed)
    after ← if leaves_part status then cancel_remainder o a f.fill_time e.0 else ok e.0
    ended ← cancel_stops o f.fill_time stops after
    ok (ended, some f)

  unfoldable pub write_fill :
      PaperOrder F
      → Attempt F
      → PaperFill F
      → List (PaperStop F)
      → Store F
      → Result BrokerError (Store F × Option (PaperFill F))
  unfolding finish_fill
  write_fill o a f stops s = do
    appended ← lift (
        append_fill o.order_id o.side f.quantity f.fill_price f.fee (aware f.fill_time)
          (some f.fill_id) s)
    if appended.1 then finish_fill o a f stops appended.0 else ok (appended.0, none)

  abbrev pub lacks_cash : PaperOrder F → F → Snapshot F → Attempt F → Bool
  lacks_cash o price current a =
      same_side o.side buy && m.lt (m.of_float current.cash) (cost o.fee_rate price a.quantity)

  abbrev pub lacks_coins : PaperOrder F → Snapshot F → Attempt F → Bool
  lacks_coins o current a =
      same_side o.side sell && m.lt (m.of_float current.btc_quantity) (m.of_float a.quantity)

  -- The checks on the account before the fill.
  unfoldable pub fill_attempt :
      PaperOrder F
      → ℕ
      → F
      → F
      → List (PaperStop F)
      → Snapshot F
      → Attempt F
      → Result BrokerError (Store F × Option (PaperFill F))
  unfolding write_fill
  fill_attempt o t reference price stops current a =
      if lacks_cash o price current a
      then change o ":insufficient:" insufficient_cash t "INSUFFICIENT_CASH" a.store
        >>= (λ after. ok (after, none))
      else raise_if (lacks_coins o current a) invalid
        >> write_fill o a
            (paper_fill o t reference price (computed_fee a.quantity price o.fee_rate) a.quantity)
            stops a.store

  abbrev pub after_attempt :
      PaperOrder F
      → ℕ
      → F
      → F
      → List (PaperStop F)
      → Snapshot F
      → Store F × Option (Attempt F)
      → Result BrokerError (Store F × Option (PaperFill F))
  after_attempt o t reference price stops current (s, none) = ok (s, none)
  after_attempt o t reference price stops current (s, some a) =
      fill_attempt o t reference price stops current a

  -- `_process_order_in_transaction`
  unfoldable pub process_order :
      PaperOrder F
      → ℕ
      → F
      → Option F
      → List (PaperStop F)
      → Store F
      → Result BrokerError (Store F × Option (PaperFill F))
  unfolding attempt_of fill_attempt
  process_order o t reference actual stops s = do
    let quantity : F = elim actual [ none ↦ o.remainder_quantity | some q ↦ q ]
    raise_if (m.lt (m.of_float o.remainder_quantity) (m.of_float quantity)) invalid
    let price = computed_fill_price reference o.slippage_rate o.side
    raise_if (not (d.is_finite price) || price ≼ nought) invalid
    current ← replay_state s
    attempt ← attempt_of o o.execution_context t reference price quantity current s
    after_attempt o t reference price stops current attempt

  abbrev pub positive_optional : Option F → Result BrokerError (Option F)
  positive_optional none = ok none
  positive_optional (some q) = do v ← positive q; ok (some v)

  -- A remainder with another quantity than its own.
  abbrev pub splits_remainder : PaperOrder F → Option F → Bool
  splits_remainder o none = false
  splits_remainder o (some q) = is_order_id o.parent_order_id && not (exact q o.remainder_quantity)

  unfoldable pub process_open :
      String → ℕ → F → Option F → Store F → Result BrokerError (Store F × Option (PaperFill F))
  unfolding process_order
  process_open order_id candle_time open_price actual_quantity s = do
    raise_if (str_eq order_id "") invalid
    reference ← positive open_price
    actual ← positive_optional actual_quantity
    ledger ← build_ledger s
    o ← or_raise (find_paper_order order_id ledger.orders) invalid
    elim (is_active_status o.status) [
      | false ↦ ok (s, none)
      | true ↦ do
        raise_if (leb candle_time o.signal_at) invalid
        raise_if (is_stop_order o.order_kind) invalid
        raise_if (not (candle_time == o.eligible_open)) invalid
        raise_if (splits_remainder o actual) invalid
        process_order o candle_time reference actual ledger.open_stops s
    ]
