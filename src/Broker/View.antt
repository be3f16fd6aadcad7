-- ===== src/Broker/View.antt =====
-- The views of src/autobit/execution/paper_broker.py: its creation, `active_stop`,
-- `position_observation`, `initial_stop`, `observe_position` and `reconcile`.
use Prim.Native.String.{String}
use text.Mathlib.Text.{◌==◌ as str_eq}
use auto_bit.Prelude.{
  ℕ, Bool, true, false, ◌&&◌, Option, none, some, List, [], ◌∷◌, Result, ok, err, ◌>>=◌, or_raise,
  keep,
}
use auto_bit.Double.{Double, max}
use auto_bit.Domain.{PositionState}
use auto_bit.Python.{aware}
use auto_bit.Store.{Texts}
use auto_bit.Store.Payload.{Json, float_of, number, string, items, Codec, field}
use auto_bit.Store.Orders.{Decimal, is_active_status}
use auto_bit.Store.Snapshot.{Store, Renderer}
use auto_bit.Store.Append.{append_event}
use auto_bit.Broker.{
  BrokerError, reconciliation, invalid, index_error, evidence_timestamp, lift, Clock, Platform,
  Evidence, PaperOrder, PaperFill, PaperStop,
}
use auto_bit.Broker.Readers.{is_text, payload_number, nonnegative}
use auto_bit.Broker.Trades.{PaperTrade}
use auto_bit.Broker.Collect.{find_evidence}
use auto_bit.Broker.Positions.{position_observation_id}
use auto_bit.Broker.Ledger.{build_ledger}
use auto_bit.Broker.Submission.{Costs, one_json, optional_json}

pub record PaperReconciliation {ℓ} (F : Type ℓ) : Type ℓ where
  pub cash : F
  pub btc_quantity : F
  pub equity : F
  pub position_state : PositionState
  pub active_orders : List (PaperOrder F)
  pub fills : List (PaperFill F)
  pub completed_trades : List (PaperTrade F)
  pub total_fees : F
  pub total_slippage : F
  pub active_stop : Option (PaperStop F)

module _ {ℓ} {F : Type ℓ} where
  abbrev find_order_fill : String → List (PaperFill F) → Option (PaperFill F)
  find_order_fill id [] = none
  find_order_fill id (f ∷ rest) = elim (str_eq f.order_id id) [
    | true ↦ some f
    | false ↦ find_order_fill id rest
  ]

  abbrev is_first_stop : String → Evidence F → Bool
  is_first_stop id e =
      str_eq e.event_type "PAPER_STOP"
      && is_text (field "action" e.payload) "SET"
      && is_text (field "source_id" e.payload) id
      && is_text (field "reason" e.payload) "HARD_STOP"

  abbrev first_stop : ⦃d : Double F⦄ → String → List (Evidence F) → Result BrokerError (Option F)
  first_stop id [] = ok none
  first_stop id (e ∷ rest) = elim (is_first_stop id e) [
    | true ↦ do price ← payload_number e.payload "stop_price"; ok (some price)
    | false ↦ first_stop id rest
  ]

  abbrev optional_id : Option (Evidence F) → Option String
  optional_id none = none
  optional_id (some e) = some e.event_id

-- `rates`, checked
unfoldable pub new_broker {ℓ} : {F : Type ℓ} ⦃d : Double F⦄ → F → F → Result BrokerError (Costs F)
new_broker fee_rate slippage_rate = do
  fee ← nonnegative fee_rate
  slippage ← nonnegative slippage_rate
  ok (record { fee_rate = fee; slippage_rate = slippage })

module _ {ℓ} {F : Type ℓ} ⦃m : Decimal F⦄ ⦃d : Double F⦄ ⦃j : Codec F⦄ ⦃n : Renderer F⦄ ⦃x : Texts⦄
    ⦃c : Clock⦄ ⦃p : Platform F⦄ where
  unfoldable pub active_stop : Store F → Result BrokerError (Option (PaperStop F))
  active_stop s = do ledger ← build_ledger s; ok ledger.active_stop

  unfoldable pub position_observation : String → Store F → Result BrokerError (Option (Evidence F))
  position_observation order_id s = do
    ledger ← build_ledger s
    ok (find_evidence order_id ledger.position_observations)

  unfoldable pub initial_stop : String → Store F → Result BrokerError (Option F)
  initial_stop order_id s = do ledger ← build_ledger s; first_stop order_id ledger.evidence

  abbrev observed_high : Option (Evidence F) → F → Result BrokerError F
  observed_high none high = ok high
  observed_high (some prior) high = do
    before ← payload_number prior.payload "high_water"
    ok (max high before)

  -- `candle_highs[-1][0]`, and `max(float(item[1]) for item in candle_highs)`.
  abbrev last_time : List (Option (Json F × Json F)) → Result BrokerError ℕ
  last_time [] = err index_error
  last_time (some (string text, value) ∷ []) = evidence_timestamp text
  last_time (_ ∷ []) = err reconciliation
  last_time (_ ∷ p ∷ rest) = last_time (p ∷ rest)

  abbrev pair_high : Option (Json F × Json F) → Result BrokerError F
  pair_high none = err index_error
  pair_high (some (text, value)) = or_raise (float_of value) invalid

  abbrev highest : F → List (Option (Json F × Json F)) → Result BrokerError F
  highest best [] = ok best
  highest best (p ∷ rest) = do high ← pair_high p; highest (max best high) rest

  abbrev highest_of : List (Option (Json F × Json F)) → Result BrokerError F
  highest_of [] = err index_error
  highest_of (p ∷ rest) = do high ← pair_high p; highest high rest

  -- The candles stand as their JSON text.
  unfoldable pub observe_position : String → String → F → Store F → Result BrokerError (Store F)
  observe_position order_id candle_highs initial s = do
    ledger ← build_ledger s
    let prior = find_evidence order_id ledger.position_observations
    fill ← or_raise (find_order_fill order_id ledger.fills) index_error
    at ← last_time (p.pairs candle_highs)
    high ← highest_of (p.pairs candle_highs)
    high_water ← observed_high prior high
    e ← lift (
        append_event (position_observation_id order_id at) "PAPER_POSITION" (aware at)
          (("version", one_json)
            ∷ ("order_id", string order_id)
            ∷ ("fill_id", string fill.fill_id)
            ∷ ("previous_event_id", optional_json (optional_id prior))
            ∷ ("initial_stop", number initial)
            ∷ ("high_water", number high_water)
            ∷ ("candle_highs", items [] candle_highs)
            ∷ [])
          s)
    checked ← build_ledger e.0
    ok e.0

  -- A ledger has one active order at most, so that sorting them changes nothing.
  unfoldable pub reconcile : Store F → Result BrokerError (PaperReconciliation F)
  reconcile s = do
    ledger ← build_ledger s
    ok (record {
      cash = ledger.snapshot.cash;
      btc_quantity = ledger.snapshot.btc_quantity;
      equity = ledger.snapshot.equity;
      position_state = ledger.snapshot.position_state;
      active_orders = keep (λ o. is_active_status o.status) ledger.orders;
      fills = ledger.fills;
      completed_trades = ledger.trades;
      total_fees = ledger.total_fees;
      total_slippage = ledger.total_slippage;
      active_stop = ledger.active_stop;
    })
