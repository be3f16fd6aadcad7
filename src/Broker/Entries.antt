-- ===== src/Broker/Entries.antt =====
-- The sizing evidence of an entry in src/autobit/execution/paper_broker.py: `_entry_context` and
-- `_validate_entry_context_binding`. The payload of a fill is one that the store has verified, so
-- its fields are there.
use Prim.Native.String.{String}
use text.Mathlib.Text.{◌==◌ as str_eq}
use auto_bit.Prelude.{
  ℕ, ◌-◌, true, false, not, ◌&&◌, ◌||◌, Option, none, some, List, [], ◌∷◌, Result, ok, err, ◌>>=◌,
  ◌>>◌, raise_if, or_raise, if◌then◌else◌, ltb, leb, ◌==◌, any,
}
use auto_bit.Double.{Double, ◌≼◌, ◌≺◌, ◌⊕◌, ◌⊘◌, nought}
use auto_bit.Python.{number}
use auto_bit.Store.{Texts}
use auto_bit.Store.Payload.{Json, object, Payload, Side, buy, sell, same_side, field}
use auto_bit.Store.Orders.{Decimal}
use auto_bit.Strategy.{initial_stop_price}
use auto_bit.Sizing.{calculate_size}
use auto_bit.Broker.{
  BrokerError, reconciliation, index_error, Platform, Evidence, EntryContext, PaperOrder,
  entry_context_id,
}
use auto_bit.Broker.Readers.{
  require_evidence_keys, is_version_one, is_text, payload_text, payload_number, payload_side,
  is_number,
}

abbrev context_keys : List String
context_keys =
    "signal_price" ∷ "entry_atr" ∷ "initial_atr_mult" ∷ "baseline_atr_pct" ∷ "risk_rate"
    ∷ "exposure_cap" ∷ "risk_event_id" ∷ []

-- `max(a, b)`, of two times.
abbrev pub later : ℕ → ℕ → ℕ
later a b = if ltb a b then b else a

module _ {ℓ} {F : Type ℓ} where
  abbrev pub find_event_id : String → List (Evidence F) → Option (Evidence F)
  find_event_id id [] = none
  find_event_id id (e ∷ rest) = elim (str_eq e.event_id id) [
    | true ↦ some e
    | false ↦ find_event_id id rest
  ]

  abbrev pub find_sequence : ℕ → List (Evidence F) → Option (Evidence F)
  find_sequence n [] = none
  find_sequence n (e ∷ rest) = elim (e.sequence == n) [
    | true ↦ some e
    | false ↦ find_sequence n rest
  ]

  module _ ⦃d : Double F⦄ where
    unfoldable pub entry_context : Payload F → Result BrokerError (EntryContext F)
    entry_context value = do
      require_evidence_keys context_keys value
      signal_price ← payload_number value "signal_price"
      entry_atr ← payload_number value "entry_atr"
      initial_atr_mult ← payload_number value "initial_atr_mult"
      baseline_atr_pct ← payload_number value "baseline_atr_pct"
      risk_rate ← payload_number value "risk_rate"
      exposure_cap ← payload_number value "exposure_cap"
      raise_if
          (any (λ v. v ≼ nought)
            (signal_price ∷ entry_atr ∷ initial_atr_mult ∷ baseline_atr_pct ∷ risk_rate
              ∷ exposure_cap ∷ []))
          reconciliation
      raise_if (d.lit 2 100 ≺ risk_rate || d.lit 70 100 ≺ exposure_cap) reconciliation
      risk_event_id ← payload_text value "risk_event_id"
      ok (record {
        signal_price = signal_price;
        entry_atr = entry_atr;
        initial_atr_mult = initial_atr_mult;
        baseline_atr_pct = baseline_atr_pct;
        risk_rate = risk_rate;
        exposure_cap = exposure_cap;
        risk_event_id = risk_event_id;
      })

    -- Of a field of evidence.
    abbrev pub stored_entry_context :
        ⦃p : Platform F⦄ → Option (Json F) → Result BrokerError (EntryContext F)
    stored_entry_context ⦃p⦄ (some (object text)) = entry_context (p.inner text)
    stored_entry_context ⦃p⦄ _ = err reconciliation

-- The cash and the coins of the fills.
pub record Account {ℓ} (F : Type ℓ) ⦃m : Decimal F⦄ : Type 0 where
  pub cash : m.D
  pub btc : m.D

module _ {ℓ} {F : Type ℓ} ⦃m : Decimal F⦄ where
  abbrev pub first_account : Account F
  first_account = record { cash = m.hundred; btc = m.zero }

  abbrev pub settled : Side → F → F → F → Account F → Account F
  settled buy quantity price fee a = record {
    cash = m.sub a.cash (m.add (m.mul (m.of_float quantity) (m.of_float price)) (m.of_float fee));
    btc = m.add a.btc (m.of_float quantity);
  }
  settled sell quantity price fee a = record {
    cash = m.add a.cash (m.sub (m.mul (m.of_float quantity) (m.of_float price)) (m.of_float fee));
    btc = m.sub a.btc (m.of_float quantity);
  }

  module _ ⦃d : Double F⦄ where
    abbrev pub settle_event : Evidence F → Account F → Result BrokerError (Account F)
    settle_event e a = do
      quantity ← payload_number e.payload "quantity"
      price ← payload_number e.payload "price"
      fee ← payload_number e.payload "fee"
      side ← payload_side e.payload
      ok (settled side quantity price fee a)

    -- The loops over the fills before an event.
    unfoldable pub account_before :
        ℕ → List (Evidence F) → Account F → Result BrokerError (Account F)
    account_before sequence [] a = ok a
    account_before sequence (e ∷ rest) a = elim (leb sequence e.sequence) [
      | true ↦ ok a
      | false ↦ elim (str_eq e.event_type "FILL") [
        | true ↦ do next ← settle_event e a; account_before sequence rest next
        | false ↦ account_before sequence rest a
      ]
    ]

    abbrev check_risk :
        ⦃x : Texts⦄
        → Option (Evidence F)
        → EntryContext F
        → PaperOrder F
        → Evidence F
        → Result BrokerError (Unit {0})
    check_risk none context order metadata = err reconciliation
    check_risk ⦃x⦄ (some risk) context order metadata =
        raise_if
          (not (str_eq risk.event_type "BREAKER_STATE")
            || not (ltb risk.sequence metadata.sequence)
            || not (is_text (field "last_risk_at_utc" risk.payload) (x.utc_text order.signal_at))
            || not (is_number (field "decision_risk_rate" risk.payload) context.risk_rate)
            || not (is_number (field "decision_exposure_cap" risk.payload) context.exposure_cap))
          reconciliation

    -- The size at the signal.
    abbrev signal_size : EntryContext F → PaperOrder F → F → F
    signal_size context order cash =
        let close = context.signal_price in
        (calculate_size
          (record {
            equity = number cash;
            cash = number cash;
            entry = number close;
            stop = number (
                initial_stop_price (number close) (number context.entry_atr)
                  (number context.initial_atr_mult));
            current_atr_pct = number (context.entry_atr ⊘ close);
            baseline_atr_pct = number context.baseline_atr_pct;
            risk_rate = number context.risk_rate;
            exposure_cap = number context.exposure_cap;
          })
          (record {
            fee_rate = number order.fee_rate;
            slippage_rate = number order.slippage_rate;
          })).quantity

    unfoldable pub validate_entry_context_binding :
        ⦃x : Texts⦄
        → Evidence F
        → EntryContext F
        → PaperOrder F
        → List (Evidence F)
        → Evidence F
        → Result BrokerError (Unit {0})
    unfolding account_before
    validate_entry_context_binding e context order evidence metadata = do
      require_evidence_keys ("order_id" ∷ "context" ∷ "version" ∷ []) e.payload
      raise_if
          (not (is_version_one e.payload)
            || not (str_eq e.event_id (entry_context_id order.order_id))
            || not (leb order.signal_at e.occurred_at && leb e.occurred_at order.eligible_open)
            || not (same_side order.side buy)
            || leb e.sequence metadata.sequence)
          reconciliation
      previous ← or_raise (find_sequence (e.sequence - 1) evidence) index_error
      raise_if (not (e.occurred_at == later order.signal_at previous.occurred_at)) reconciliation
      check_risk (find_event_id context.risk_event_id evidence) context order metadata
      account ← account_before metadata.sequence evidence first_account
      let size = signal_size context order (m.to_float account.cash)
      raise_if
          (not (m.eq account.btc m.zero) || size ⊕ d.lit 1 1000000000000 ≺ order.requested_quantity)
          reconciliation
