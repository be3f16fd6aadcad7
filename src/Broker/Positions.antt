-- ===== src/Broker/Positions.antt =====
-- `_validated_position_observations` of src/autobit/execution/paper_broker.py: the highs that were
-- observed of the open position, one event for each contiguous run of candles.
use Prim.Native.String.{String}
use text.Mathlib.Text.{◌==◌ as str_eq}
use auto_bit.Prelude.{
  ℕ, ◌+◌, Bool, true, false, not, ◌&&◌, ◌||◌, Option, none, some, List, [], ◌∷◌, ◌++◌, Result, ok,
  err, ◌>>=◌, ◌>>◌, raise_if, or_raise, if◌then◌else◌, ◌==◌, is_some, keep,
}
use auto_bit.Double.{Double, ◌≼◌, max, nought}
use auto_bit.Python.{number}
use auto_bit.Schedule.{four_hours}
use auto_bit.Store.{Texts}
use auto_bit.Store.Payload.{Json, null, string, items, Codec, buy, same_side, field, float_of}
use auto_bit.Store.Orders.{Decimal}
use auto_bit.Strategy.{initial_stop_price}
use auto_bit.Broker.{
  BrokerError, reconciliation, invalid, index_error, Clock, Platform, Evidence, PaperOrder,
  PaperFill, digest_id, joined, evidence_timestamp,
}
use auto_bit.Broker.Readers.{
  require_evidence_keys, is_version_one, is_text, payload_text, payload_number, is_number,
}
use auto_bit.Broker.Trades.{paper_source_at_sequence}
use auto_bit.Broker.Collect.{find_evidence}
use auto_bit.Broker.Executions.{find_paper_order}

abbrev pub position_observation_id : ⦃x : Texts⦄ → String → ℕ → String
position_observation_id ⦃x⦄ order_id at =
    digest_id "paper-position:" (joined order_id (joined "|" (x.utc_text at)))

abbrev observation_keys : List String
observation_keys =
    "version" ∷ "order_id" ∷ "fill_id" ∷ "previous_event_id" ∷ "initial_stop" ∷ "high_water"
    ∷ "candle_highs" ∷ []

abbrev pub is_source : Option String → String → Bool
is_source none id = false
is_source (some source) id = str_eq source id

-- `_number`, of a JSON value.
abbrev json_number {ℓ} :
    {F : Type ℓ} ⦃d : Double F⦄ ⦃j : Codec F⦄ ⦃x : Texts⦄ → Json F → Result BrokerError F
json_number ⦃d⦄ value = elim (float_of value) [
  | none ↦ err invalid
  | some v ↦ if d.is_finite v then ok v else err invalid
]

module _ {ℓ} {F : Type ℓ} where
  abbrev set_evidence :
      String → Evidence F → List (String × Evidence F) → List (String × Evidence F)
  set_evidence key e entries = keep (λ entry. not (str_eq entry.0 key)) entries ++ ((key, e) ∷ [])

  -- The purchase of an order, which has one fill.
  abbrev pub find_buy : String → List (PaperFill F) → Option (PaperFill F)
  find_buy id [] = none
  find_buy id (f ∷ rest) = elim (str_eq f.order_id id && same_side f.side buy) [
    | true ↦ some f
    | false ↦ find_buy id rest
  ]

  abbrev find_stop_price : String → List (String × F) → Option F
  find_stop_price id [] = none
  find_stop_price id ((k, v) ∷ rest) = elim (str_eq k id) [
    | true ↦ some v
    | false ↦ find_stop_price id rest
  ]

  abbrev is_previous : Option (Json F) → Option (Evidence F) → Bool
  is_previous (some null) none = true
  is_previous value (some prior) = is_text value prior.event_id
  is_previous _ _ = false

  abbrev is_hard_stop : Evidence F → Bool
  is_hard_stop e =
      str_eq e.event_type "PAPER_STOP"
      && is_text (field "action" e.payload) "SET"
      && is_text (field "reason" e.payload) "HARD_STOP"

  module _ ⦃d : Double F⦄ ⦃p : Platform F⦄ where
    abbrev candle_pairs : Option (Json F) → Result BrokerError (List (Option (Json F × Json F)))
    candle_pairs (some (items texts text)) = elim (p.pairs text) [
      | [] ↦ err reconciliation
      | x ∷ rest ↦ ok (x ∷ rest)
    ]
    candle_pairs _ = err reconciliation

    -- The first hard stop of each entry.
    abbrev note_stop : Evidence F → List (String × F) → Result BrokerError (List (String × F))
    note_stop e stops = elim (is_hard_stop e) [
      | false ↦ ok stops
      | true ↦ do
        source_id ← payload_text e.payload "source_id"
        price ← payload_number e.payload "stop_price"
        ok (
            if is_some (find_stop_price source_id stops)
            then stops
            else stops ++ ((source_id, price) ∷ []))
    ]

    -- The candles from a time on, with the highest high; the time after the last one.
    unfoldable pub walk_highs :
        ⦃j : Codec F⦄ ⦃c : Clock⦄ ⦃x : Texts⦄
        → ℕ
        → F
        → List (Option (Json F × Json F))
        → Result BrokerError (ℕ × F)
    walk_highs next_at high_water [] = ok (next_at, high_water)
    walk_highs next_at high_water (some (string text, value) ∷ rest) = do
      at ← evidence_timestamp text
      high ← json_number value
      raise_if (not (at == next_at) || high ≼ nought) reconciliation
      walk_highs (next_at + four_hours) (max high_water high) rest
    walk_highs next_at high_water (_ ∷ rest) = err reconciliation

    abbrev start_at : Option (Evidence F) → PaperFill F → ℕ
    start_at none fill = fill.fill_time
    start_at (some prior) fill = prior.occurred_at + four_hours

    abbrev start_high : Option (Evidence F) → Result BrokerError F
    start_high none = ok nought
    start_high (some prior) = payload_number prior.payload "high_water"

    abbrev expected_stop : PaperOrder F → PaperFill F → List (String × F) → Option F
    expected_stop order fill stops = elim (order.execution_context) [
      | none ↦ find_stop_price order.order_id stops
      | some k ↦ some (
          initial_stop_price (number fill.fill_price) (number k.entry_atr)
            (number k.initial_atr_mult))
    ]

    abbrev same_initial : F → Option (Evidence F) → Bool
    same_initial initial none = true
    same_initial initial (some prior) = is_number (field "initial_stop" prior.payload) initial

  module _ ⦃m : Decimal F⦄ ⦃d : Double F⦄ ⦃p : Platform F⦄ ⦃j : Codec F⦄ ⦃c : Clock⦄
      ⦃x : Texts⦄ where
    unfoldable pub validate_observation :
        List (Evidence F)
        → List (PaperOrder F)
        → List (PaperFill F)
        → List (String × F)
        → List (String × Evidence F)
        → Evidence F
        → Result BrokerError (List (String × Evidence F))
    unfolding paper_source_at_sequence walk_highs
    validate_observation evidence orders fills stops observations e = do
      require_evidence_keys observation_keys e.payload
      order_id ← payload_text e.payload "order_id"
      fill ← or_raise (find_buy order_id fills) reconciliation
      raise_if
          (not (is_version_one e.payload) || not (is_text (field "fill_id" e.payload) fill.fill_id))
          reconciliation
      source ← paper_source_at_sequence e.sequence evidence orders
      raise_if
          (not (is_source source order_id)
            || not (str_eq e.event_id (position_observation_id order_id e.occurred_at)))
          reconciliation
      let prior = find_evidence order_id observations
      raise_if (not (is_previous (field "previous_event_id" e.payload) prior)) reconciliation
      initial ← payload_number e.payload "initial_stop"
      order ← or_raise (find_paper_order order_id orders) index_error
      expected ← or_raise (expected_stop order fill stops) reconciliation
      raise_if
          (initial ≼ nought
            || fill.fill_price ≼ initial
            || not (d.eq initial expected)
            || not (same_initial initial prior))
          reconciliation
      highs ← candle_pairs (field "candle_highs" e.payload)
      high ← start_high prior
      walked ← walk_highs (start_at prior fill) high highs
      high_water ← payload_number e.payload "high_water"
      raise_if (not (walked.0 == e.occurred_at + four_hours) || not (d.eq high_water walked.1))
          reconciliation
      ok (set_evidence order_id e observations)

    unfoldable pub observations_from :
        List (Evidence F)
        → List (PaperOrder F)
        → List (PaperFill F)
        → List (String × F)
        → List (String × Evidence F)
        → List (Evidence F)
        → Result BrokerError (List (String × Evidence F))
    unfolding validate_observation
    observations_from evidence orders fills stops observations [] = ok observations
    observations_from evidence orders fills stops observations (e ∷ rest) = do
      noted ← note_stop e stops
      next ← elim (str_eq e.event_type "PAPER_POSITION") [
        | true ↦ validate_observation evidence orders fills noted observations e
        | false ↦ ok observations
      ]
      observations_from evidence orders fills noted next rest

    unfoldable pub validated_position_observations :
        List (Evidence F)
        → List (PaperOrder F)
        → List (PaperFill F)
        → Result BrokerError (List (String × Evidence F))
    unfolding observations_from
    validated_position_observations evidence orders fills =
        observations_from evidence orders fills [] [] evidence
