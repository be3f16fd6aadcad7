-- ===== src/Broker/Stops.antt =====
-- The protective stops of src/autobit/execution/paper_broker.py: what the broker reads of the
-- events `PAPER_STOP`, which stop a candle triggers, and how a stop ends.
pub mod Ladder
pub mod Trigger
use Prim.Native.String.{String}
use text.Mathlib.Text.{◌==◌ as str_eq}
use auto_bit.Prelude.{
  ℕ, Bool, true, false, not, ◌&&◌, ◌||◌, Option, none, some, List, [], ◌∷◌, ◌++◌, Result, ok, err,
  ◌>>=◌, ◌>>◌, raise_if, or_raise, if◌then◌else◌, ltb, leb, ◌==◌, any, keep,
}
use auto_bit.Double.{Double, ◌≼◌, ◌≺◌, nought}
use auto_bit.Store.{Texts}
use auto_bit.Store.Payload.{Payload}
use auto_bit.Store.Orders.{Decimal}
use auto_bit.Broker.{
  BrokerError, reconciliation, invalid, Clock, Evidence, PaperStop, digest_id, stop_identity,
  stop_set_id, joined, valid_reason, require_boundary, next_boundary, evidence_timestamp,
}
use auto_bit.Broker.Readers.{require_evidence_keys, payload_text, payload_number}

abbrev stop_keys : List String
stop_keys =
    "action" ∷ "active_after_utc" ∷ "fee_rate" ∷ "reason" ∷ "slippage_rate" ∷ "source_id"
    ∷ "stop_id" ∷ "stop_price" ∷ []

-- `action.lower()`, of the two actions that end a stop.
abbrev lowered : String → String
lowered action = if str_eq action "TRIGGERED" then "triggered" else "canceled"

abbrev pub stop_end_id : ⦃x : Texts⦄ → String → String → String → String
stop_end_id action stop_id identity =
    digest_id (joined "paper-stop-" (joined (lowered action) ":"))
      (joined stop_id (joined "|" identity))

module _ {ℓ} {F : Type ℓ} ⦃d : Double F⦄ ⦃x : Texts⦄ ⦃c : Clock⦄ where
  unfoldable pub stop_from_event : Evidence F → Result BrokerError (PaperStop F)
  stop_from_event e = do
    require_evidence_keys stop_keys e.payload
    action ← payload_text e.payload "action"
    raise_if (not (str_eq action "SET")) reconciliation
    text_reason ← payload_text e.payload "reason"
    reason ← valid_reason text_reason reconciliation
    source_id ← payload_text e.payload "source_id"
    require_boundary e.occurred_at reconciliation
    active_text ← payload_text e.payload "active_after_utc"
    active_after ← evidence_timestamp active_text
    next ← next_boundary e.occurred_at
    raise_if (not (active_after == e.occurred_at || active_after == next)) reconciliation
    stop_id ← payload_text e.payload "stop_id"
    raise_if
        (not (str_eq stop_id (stop_identity source_id (x.utc_text e.occurred_at) reason))
          || not (str_eq e.event_id (stop_set_id stop_id)))
        reconciliation
    stop_price ← payload_number e.payload "stop_price"
    fee_rate ← payload_number e.payload "fee_rate"
    slippage_rate ← payload_number e.payload "slippage_rate"
    raise_if (stop_price ≼ nought) reconciliation
    raise_if (fee_rate ≺ nought || slippage_rate ≺ nought) reconciliation
    ok (record {
      stop_id = stop_id;
      stop_price = stop_price;
      reason = reason;
      observed_at = e.occurred_at;
      active_after = active_after;
      source_id = source_id;
      fee_rate = fee_rate;
      slippage_rate = slippage_rate;
    })

-- The variables of the loop of `_build_ledger` on stops. The dicts are in insertion order;
-- `set_events` has the event of each known stop.
pub record Stops {ℓ} (F : Type ℓ) : Type ℓ where
  pub known : List (PaperStop F)
  pub open_stops : List (PaperStop F)
  pub active_stop : Option (PaperStop F)
  pub set_events : List (String × Evidence F)
  pub terminals : List (Evidence F)

module _ {ℓ} {F : Type ℓ} where
  unfoldable pub validate_stop_terminal :
      ⦃x : Texts⦄ → Evidence F → PaperStop F → Result BrokerError (Unit {0})
  validate_stop_terminal e stop = do
    require_evidence_keys ("action" ∷ "identity" ∷ "stop_id" ∷ []) e.payload
    action ← payload_text e.payload "action"
    identity ← payload_text e.payload "identity"
    stop_id ← payload_text e.payload "stop_id"
    raise_if (not (str_eq stop_id stop.stop_id)) reconciliation
    raise_if (not (str_eq e.event_id (stop_end_id action stop.stop_id identity))) reconciliation
    raise_if (ltb e.occurred_at stop.observed_at) reconciliation
    raise_if (str_eq action "TRIGGERED" && ltb e.occurred_at stop.active_after) reconciliation

  abbrev pub no_stops : Stops F
  no_stops = record {
    known = [];
    open_stops = [];
    active_stop = none;
    set_events = [];
    terminals = [];
  }

  abbrev pub find_stop : String → List (PaperStop F) → Option (PaperStop F)
  find_stop id [] = none
  find_stop id (s ∷ rest) = elim (str_eq s.stop_id id) [ true ↦ some s | false ↦ find_stop id rest ]

  abbrev pub without : String → List (PaperStop F) → List (PaperStop F)
  without id stops = keep (λ s. not (str_eq s.stop_id id)) stops

  -- `next(reversed(stops), None)`
  abbrev pub last_stop : List (PaperStop F) → Option (PaperStop F)
  last_stop [] = none
  last_stop (s ∷ []) = some s
  last_stop (s ∷ t ∷ rest) = last_stop (t ∷ rest)

  abbrev pub eligible : ℕ → List (PaperStop F) → List (PaperStop F)
  eligible candle_time stops = keep (λ s. leb s.active_after candle_time) stops

  -- What `process_intrabar_stop` does with the last eligible stop: the stop and its reference.
  abbrev pub reference_of : ⦃d : Double F⦄ → Option (PaperStop F) → F → F → Option (PaperStop F × F)
  reference_of none open_price low_price = none
  reference_of (some s) open_price low_price =
      if open_price ≼ s.stop_price
      then some (s, open_price)
      else if low_price ≼ s.stop_price
      then some (s, s.stop_price)
      else none

  unfoldable pub stop_trigger :
      ⦃d : Double F⦄ → ℕ → F → F → List (PaperStop F) → Option (PaperStop F × F)
  stop_trigger candle_time open_price low_price open_stops =
      reference_of (last_stop (eligible candle_time open_stops)) open_price low_price

  module _ ⦃m : Decimal F⦄ where
    abbrev pub check_update : Option (PaperStop F) → PaperStop F → Result BrokerError (Unit {0})
    check_update none candidate = ok tt
    check_update (some active) candidate = do
      raise_if (not (str_eq candidate.source_id active.source_id)) reconciliation
      raise_if (not (m.lt (m.of_float active.stop_price) (m.of_float candidate.stop_price)))
          reconciliation

    unfoldable pub set_open : Evidence F → PaperStop F → Stops F → Result BrokerError (Stops F)
    set_open e candidate s = do
      raise_if (any (λ k. str_eq k.stop_id candidate.stop_id) s.known) reconciliation
      check_update s.active_stop candidate
      ok (record {
        known = s.known ++ (candidate ∷ []);
        open_stops = s.open_stops ++ (candidate ∷ []);
        active_stop = some candidate;
        set_events = s.set_events ++ ((candidate.stop_id, e) ∷ []);
        terminals = s.terminals;
      })

    unfoldable pub end_open : ⦃x : Texts⦄ → Evidence F → Stops F → Result BrokerError (Stops F)
    unfolding validate_stop_terminal
    end_open e s = do
      stop_id ← payload_text e.payload "stop_id"
      stop ← or_raise (find_stop stop_id s.open_stops) reconciliation
      validate_stop_terminal e stop
      let left = without stop_id s.open_stops
      ok (record s {
        open_stops = left;
        active_stop = last_stop left;
        terminals = s.terminals ++ (e ∷ []);
      })

    -- One event `PAPER_STOP`.
    unfoldable pub stop_event :
        ⦃d : Double F⦄ ⦃x : Texts⦄ ⦃c : Clock⦄ → Evidence F → Stops F → Result BrokerError (Stops F)
    unfolding set_open end_open stop_from_event
    stop_event e s = do
      action ← payload_text e.payload "action"
      if str_eq action "SET"
          then stop_from_event e >>= (λ candidate. set_open e candidate s)
          else if str_eq action "CANCELED" || str_eq action "TRIGGERED"
          then end_open e s
          else err reconciliation
