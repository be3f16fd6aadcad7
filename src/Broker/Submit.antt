-- ===== src/Broker/Submit.antt =====
-- The submission of orders in src/autobit/execution/paper_broker.py: `submit_entry`, `submit_exit`,
-- `submit`, `bind_entry_context`, and the events that they append. A call that raises is rolled
-- back. The fault hook of the tests is left out; it changes nothing unless it raises.
use Prim.Native.String.{String}
use text.Mathlib.Text.{◌==◌ as str_eq}
use auto_bit.Prelude.{
  ℕ, Bool, true, false, not, ◌||◌, Option, none, some, [], ◌∷◌, Result, ok, ◌>>=◌, ◌>>◌, raise_if,
  or_raise, is_some, is_nonempty,
}
use auto_bit.Double.{Double, ◌≺◌, nought}
use auto_bit.Domain.{created, submitted, accepted}
use auto_bit.Python.{aware}
use auto_bit.Store.{Texts, conflict}
use auto_bit.Store.Payload.{string, object, Payload, Codec, Side, buy, sell, same_side}
use auto_bit.Store.Orders.{Decimal}
use auto_bit.Store.Snapshot.{Store, Snapshot, Renderer, replay_and_verify, state_after}
use auto_bit.Store.Append.{append_event}
use auto_bit.Store.Record.{record_order_once, transition_order_status}
use auto_bit.Broker.{
  BrokerError, reconciliation, raised, invalid, lift, Clock, Platform, EntryContext, market,
  PaperOrder, order_identity, order_meta_id, entry_context_id, joined, next_boundary, valid_reason,
}
use auto_bit.Broker.Readers.{positive, nonnegative}
use auto_bit.Broker.Costs.{exact}
use auto_bit.Broker.Entries.{entry_context, later}
use auto_bit.Broker.Executions.{find_paper_order, last_evidence, is_accepted}
use auto_bit.Broker.Ledger.{PaperLedger, build_ledger}
use auto_bit.Broker.Submission.{
  Costs, Submission, accepted_order, assert_same_order, context_payload, one_json, order_payload,
  same_context,
}

module _ {ℓ} {F : Type ℓ} ⦃m : Decimal F⦄ ⦃d : Double F⦄ ⦃j : Codec F⦄ ⦃n : Renderer F⦄ ⦃x : Texts⦄
    ⦃c : Clock⦄ ⦃p : Platform F⦄ where
  -- `replay_state`, without the evidence.
  unfoldable pub replay_state : Store F → Result BrokerError (Snapshot F)
  replay_state s = do r ← lift (replay_and_verify s); ok (state_after s.events r)

  abbrev pub identity_of : Submission F → String × String
  identity_of q = order_identity (x.utc_text q.signal_at) q.side q.reason q.parent_order_id

  abbrev submit_created :
      Submission F → Bool → Store F → Result BrokerError (Store F × PaperOrder F)
  submit_created q false s = do
    ledger ← build_ledger s
    existing ← or_raise (find_paper_order (identity_of q).1 ledger.orders) reconciliation
    ok (s, existing)
  submit_created q true s = do
    let (key, order_id) = identity_of q
    a ← lift (
        transition_order_status order_id (joined key ":submitted") submitted (aware q.occurred_at)
          none s)
    b ← lift (
        transition_order_status order_id (joined key ":accepted") accepted (aware q.occurred_at)
          none a.0)
    e ← lift (
        append_event (order_meta_id order_id) "PAPER_ORDER" (aware q.occurred_at)
          (order_payload key order_id q) b.0)
    ok (e.0, accepted_order key order_id q)

  -- `_submit_order_in_transaction`
  unfoldable pub submit_order : Submission F → Store F → Result BrokerError (Store F × PaperOrder F)
  submit_order q s = do
    let (key, order_id) = identity_of q
    done ← lift (record_order_once key q.side q.quantity order_id (aware q.occurred_at) created s)
    submit_created q done.1 done.0

  unfoldable pub order : String → Store F → Result BrokerError (PaperOrder F)
  order order_id s = do
    raise_if (str_eq order_id "") invalid
    ledger ← build_ledger s
    or_raise (find_paper_order order_id ledger.orders) invalid

  abbrev bind_new :
      PaperOrder F
      → EntryContext F
      → Option (EntryContext F)
      → Store F
      → Result BrokerError (Store F × PaperOrder F)
  bind_new o context (some bound) s = do
    raise_if (not (same_context bound context)) (raised conflict)
    ok (s, o)
  bind_new o context none s = do
    raise_if (not (same_side o.side buy) || not (is_accepted o.status)) invalid
    ledger ← build_ledger s
    last ← last_evidence ledger.evidence
    e ← lift (
        append_event (entry_context_id o.order_id) "PAPER_ENTRY_CONTEXT"
          (aware (later o.signal_at last.occurred_at))
          (("order_id", string o.order_id)
            ∷ ("context", object (j.canonical_json (context_payload context)))
            ∷ ("version", one_json)
            ∷ [])
          s)
    bound ← order o.order_id e.0
    ok (e.0, bound)

  unfoldable pub bind_entry_context :
      String → Payload F → Store F → Result BrokerError (Store F × PaperOrder F)
  bind_entry_context order_id context s = do
    normalized ← entry_context context
    o ← order order_id s
    bind_new o normalized o.execution_context s

  abbrev bind_if :
      Option (Payload F) → PaperOrder F → Store F → Result BrokerError (Store F × PaperOrder F)
  bind_if none o s = ok (s, o)
  bind_if (some context) o s = bind_entry_context o.order_id context s

  abbrev entry_of :
      Option (PaperOrder F)
      → Submission F
      → Option (Payload F)
      → PaperLedger F
      → Store F
      → Result BrokerError (Store F × PaperOrder F)
  entry_of (some existing) q context ledger s = do
    assert_same_order existing (identity_of q).0 buy q.reason q.signal_at q.quantity none
    bind_if context existing s
  entry_of none q context ledger s = do
    raise_if (nought ≺ ledger.snapshot.btc_quantity || is_nonempty ledger.snapshot.pending_orders)
        invalid
    eligible_open ← next_boundary q.signal_at
    submitted_order ← submit_order (record q { eligible_open = eligible_open }) s
    bind_if context submitted_order.1 submitted_order.0

  -- The call's submission; the eligible open is computed where the order is new.
  abbrev request : Costs F → Side → ℕ → F → String → Option String → Submission F
  request costs side signal_at quantity reason parent = record {
    signal_at = signal_at;
    occurred_at = signal_at;
    side = side;
    quantity = quantity;
    reason = reason;
    parent_order_id = parent;
    order_kind = market;
    eligible_open = signal_at;
    fee_rate = costs.fee_rate;
    slippage_rate = costs.slippage_rate;
  }

  unfoldable pub submit_entry :
      Costs F
      → ℕ
      → F
      → String
      → Option (Payload F)
      → Store F
      → Result BrokerError (Store F × PaperOrder F)
  submit_entry costs signal_at quantity reason context s = do
    normalized_quantity ← positive quantity
    normalized_reason ← valid_reason reason invalid
    let q = request costs buy signal_at normalized_quantity normalized_reason none
    ledger ← build_ledger s
    entry_of (find_paper_order (identity_of q).1 ledger.orders) q context ledger s

  abbrev exit_of :
      Option (PaperOrder F)
      → Submission F
      → F
      → PaperLedger F
      → Store F
      → Result BrokerError (Store F × PaperOrder F)
  exit_of (some existing) q owned ledger s = do
    assert_same_order existing (identity_of q).0 sell q.reason q.signal_at q.quantity
        q.parent_order_id
    ok (s, existing)
  exit_of none q owned ledger s = do
    raise_if (is_some q.parent_order_id) invalid
    raise_if (not (exact owned ledger.snapshot.btc_quantity)) invalid
    raise_if (m.lt (m.of_float owned) (m.of_float q.quantity)) invalid
    raise_if (is_nonempty ledger.snapshot.pending_orders) invalid
    eligible_open ← next_boundary q.signal_at
    submit_order (record q { eligible_open = eligible_open }) s

  unfoldable pub submit_exit :
      Costs F
      → ℕ
      → F
      → F
      → String
      → Option String
      → Store F
      → Result BrokerError (Store F × PaperOrder F)
  submit_exit costs signal_at quantity owned_quantity reason parent s = do
    normalized_quantity ← positive quantity
    normalized_owned ← nonnegative owned_quantity
    normalized_reason ← valid_reason reason invalid
    let q = request costs sell signal_at normalized_quantity normalized_reason parent
    ledger ← build_ledger s
    exit_of (find_paper_order (identity_of q).1 ledger.orders) q normalized_owned ledger s

  abbrev owned_or_held : Option F → Store F → Result BrokerError F
  owned_or_held (some owned) s = ok owned
  owned_or_held none s = do snapshot ← replay_state s; ok snapshot.btc_quantity

  unfoldable pub submit :
      Costs F
      → ℕ
      → Side
      → F
      → String
      → Option F
      → Option String
      → Store F
      → Result BrokerError (Store F × PaperOrder F)
  submit costs signal_at buy quantity reason owned parent s = do
    raise_if (is_some owned) invalid
    submit_entry costs signal_at quantity reason none s
  submit costs signal_at sell quantity reason owned parent s = do
    held ← owned_or_held owned s
    submit_exit costs signal_at quantity held reason parent s
