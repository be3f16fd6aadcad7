-- ===== src/Broker/Protect.antt =====
-- `set_stop` and `process_intrabar_stop` of src/autobit/execution/paper_broker.py: a stop is set or
-- tightened, and a candle triggers one that was active before it.
pub mod Tighten
use Prim.Native.String.{String}
use text.Mathlib.Text.{◌==◌ as str_eq}
use auto_bit.Prelude.{
  ℕ, Bool, true, false, not, ◌&&◌, ◌||◌, Option, none, some, List, [], ◌∷◌, Result, ok, err, ◌>>=◌,
  ◌>>◌, raise_if, or_raise, if◌then◌else◌, ◌==◌, is_some, is_nonempty, keep,
}
use auto_bit.Double.{Double, ◌≼◌, ◌≺◌, nought}
use auto_bit.Python.{aware}
use auto_bit.Store.{Texts, conflict}
use auto_bit.Store.Payload.{Json, number, string, Payload, Codec, buy, sell, same_side}
use auto_bit.Store.Orders.{Decimal}
use auto_bit.Store.Snapshot.{Store, Renderer}
use auto_bit.Store.Append.{append_event}
use auto_bit.Broker.{
  BrokerError, reconciliation, raised, invalid, lift, Clock, Platform, Evidence, OrderKind, stop,
  PaperFill, PaperStop, stop_identity, stop_set_id, require_boundary, next_boundary, valid_reason,
}
use auto_bit.Broker.Readers.{positive}
use auto_bit.Broker.Costs.{exact}
use auto_bit.Broker.Trades.{open_entry_identity}
use auto_bit.Broker.Stops.{stop_from_event, stop_trigger}
use auto_bit.Broker.Entries.{find_event_id}
use auto_bit.Broker.Ledger.{PaperLedger, build_ledger}
use auto_bit.Broker.Submit.{submit_order}
use auto_bit.Broker.Submission.{Costs, Submission}
use auto_bit.Broker.Process.{process_order}
use auto_bit.Broker.Attempts.{deactivate_all}

abbrev pub active_time : Option ℕ → ℕ → ℕ → Result BrokerError ℕ
active_time none observed required = ok required
active_time (some t) observed required = do
  raise_if (not (t == observed || t == required)) invalid
  ok t

abbrev pub source_of : Option String → String → Result BrokerError String
source_of none open_entry = ok open_entry
source_of (some id) open_entry = do
  raise_if (str_eq id "" || not (str_eq id open_entry)) invalid
  ok id

module _ {ℓ} {F : Type ℓ} where
  abbrev pub stop_payload : ⦃x : Texts⦄ → PaperStop F → Payload F
  stop_payload ⦃x⦄ s =
      ("action", string "SET")
      ∷ ("active_after_utc", string (x.utc_text s.active_after))
      ∷ ("fee_rate", number s.fee_rate)
      ∷ ("reason", string s.reason)
      ∷ ("source_id", string s.source_id)
      ∷ ("stop_id", string s.stop_id)
      ∷ ("stop_price", number s.stop_price)
      ∷ ("slippage_rate", number s.slippage_rate)
      ∷ []

  -- `len(source_fills) == 1` and its time.
  abbrev pub filled_at : ℕ → List (PaperFill F) → Bool
  filled_at t (f ∷ []) = f.fill_time == t
  filled_at t _ = false

  abbrev pub source_fills : String → List (PaperFill F) → List (PaperFill F)
  source_fills id fills = keep (λ f. str_eq f.order_id id && same_side f.side buy) fills

module _ {ℓ} {F : Type ℓ} ⦃m : Decimal F⦄ where
  abbrev pub same_stop : PaperStop F → PaperStop F → Bool
  same_stop a b =
      str_eq a.stop_id b.stop_id
      && exact a.stop_price b.stop_price
      && str_eq a.reason b.reason
      && a.observed_at == b.observed_at
      && a.active_after == b.active_after
      && str_eq a.source_id b.source_id

module _ {ℓ} {F : Type ℓ} ⦃m : Decimal F⦄ ⦃d : Double F⦄ ⦃j : Codec F⦄ ⦃n : Renderer F⦄ ⦃x : Texts⦄
    ⦃c : Clock⦄ ⦃p : Platform F⦄ where
  abbrev pub append_stop : PaperStop F → Store F → Result BrokerError (Store F × PaperStop F)
  append_stop candidate s = do
    e ← lift (
        append_event (stop_set_id candidate.stop_id) "PAPER_STOP" (aware candidate.observed_at)
          (stop_payload candidate) s)
    ok (e.0, candidate)

  -- A stop against the active one.
  unfoldable pub tighten :
      Option (PaperStop F) → PaperStop F → Store F → Result BrokerError (Store F × PaperStop F)
  tighten none candidate s = append_stop candidate s
  tighten (some active) candidate s = do
    raise_if (m.lt (m.of_float candidate.stop_price) (m.of_float active.stop_price)) invalid
    elim (exact candidate.stop_price active.stop_price) [
      | true ↦ ok (s, active)
      | false ↦ append_stop candidate s
    ]

  unfoldable pub set_or_retry :
      Option (Evidence F)
      → PaperStop F
      → PaperLedger F
      → Store F
      → Result BrokerError (Store F × PaperStop F)
  unfolding tighten
  set_or_retry (some e) candidate ledger s = do
    persisted ← stop_from_event e
    raise_if (not (same_stop persisted candidate)) (raised conflict)
    ok (s, persisted)
  set_or_retry none candidate ledger s = do
    raise_if (ledger.snapshot.btc_quantity ≼ nought) invalid
    tighten ledger.active_stop candidate s

  unfoldable pub set_stop :
      Costs F
      → ℕ
      → F
      → Option ℕ
      → String
      → Option String
      → Store F
      → Result BrokerError (Store F × PaperStop F)
  unfolding set_or_retry
  set_stop costs observed_at stop_price active_after reason source_id s = do
    require_boundary observed_at invalid
    required ← next_boundary observed_at
    active ← active_time active_after observed_at required
    price ← positive stop_price
    normalized_reason ← valid_reason reason invalid
    ledger ← build_ledger s
    open_entry ← open_entry_identity ledger.fills
    source ← source_of source_id open_entry
    raise_if
        (active == observed_at
          && (not (str_eq normalized_reason "HARD_STOP")
              || is_some ledger.active_stop
              || not (filled_at observed_at (source_fills source ledger.fills))))
        invalid
    let stop_id = stop_identity source (x.utc_text observed_at) normalized_reason
    set_or_retry (find_event_id (stop_set_id stop_id) ledger.evidence)
        (record {
          stop_id = stop_id;
          stop_price = price;
          reason = normalized_reason;
          observed_at = observed_at;
          active_after = active;
          source_id = source;
          fee_rate = costs.fee_rate;
          slippage_rate = costs.slippage_rate;
        })
        ledger s

  abbrev stop_exit : PaperStop F → ℕ → F → Submission F
  stop_exit s t quantity = record {
    signal_at = s.observed_at;
    occurred_at = t;
    side = sell;
    quantity = quantity;
    reason = s.reason;
    parent_order_id = some s.stop_id;
    order_kind = stop;
    eligible_open = t;
    fee_rate = s.fee_rate;
    slippage_rate = s.slippage_rate;
  }

  -- The exit at a triggered stop; it ends all open stops.
  unfoldable pub trigger_stop :
      Option (PaperStop F × F)
      → ℕ
      → PaperLedger F
      → Store F
      → Result BrokerError (Store F × Option (PaperFill F))
  trigger_stop none candle_time ledger s = ok (s, none)
  trigger_stop (some (triggered, reference)) candle_time ledger s = do
    raise_if (ledger.snapshot.btc_quantity ≼ nought) reconciliation
    raise_if (is_nonempty ledger.snapshot.pending_orders) reconciliation
    o ← submit_order (stop_exit triggered candle_time ledger.snapshot.btc_quantity) s
    f ← process_order o.1 candle_time reference none [] o.0
    ended ←
        deactivate_all (λ t. if str_eq t.stop_id triggered.stop_id then "TRIGGERED" else "CANCELED")
          candle_time o.1.order_id ledger.open_stops f.0
    ok (ended, f.1)

  unfoldable pub process_intrabar_stop :
      ℕ → F → F → Store F → Result BrokerError (Store F × Option (PaperFill F))
  unfolding trigger_stop
  process_intrabar_stop candle_time open_price low_price s = do
    require_boundary candle_time invalid
    open_value ← positive open_price
    low_value ← positive low_price
    raise_if (open_value ≺ low_value) invalid
    ledger ← build_ledger s
    trigger_stop (stop_trigger candle_time open_value low_value ledger.open_stops) candle_time
        ledger s
