-- ===== src/Broker/Trades.antt =====
-- The folds over fills of src/autobit/execution/paper_broker.py: the completed trades, the open
-- entry, and the inventory and the source of the position before an event.
use Prim.Native.String.{String}
use text.Mathlib.Text.{◌==◌ as str_eq}
use auto_bit.Prelude.{
  ℕ, Bool, true, false, not, ◌||◌, Option, none, some, List, [], ◌∷◌, ◌++◌, Result, ok, err, ◌>>=◌,
  ◌>>◌, raise_if, or_raise, if◌then◌else◌, leb, any,
}
use auto_bit.Double.{Double}
use auto_bit.Store.Payload.{Side, buy, sell}
use auto_bit.Store.Orders.{Decimal}
use auto_bit.Broker.{
  BrokerError, reconciliation, invalid, index_error, Evidence, PaperOrder, PaperFill,
}
use auto_bit.Broker.Readers.{payload_text, payload_number, payload_side}

pub record PaperTrade {ℓ} (F : Type ℓ) : Type ℓ where
  pub entry_time : ℕ
  pub exit_time : ℕ
  pub quantity : F
  pub entry_price : F
  pub exit_price : F
  pub gross_pnl : F
  pub net_pnl : F
  pub fees : F
  pub exit_reason : String

module _ {ℓ} {F : Type ℓ} ⦃m : Decimal F⦄ where
  -- `sum(Decimal(str(item.quantity)) for item in fills)`, and the two other sums. Python's sum
  -- starts at 0.
  abbrev pub quantities : m.D → List (PaperFill F) → m.D
  quantities total [] = total
  quantities total (f ∷ rest) = quantities (m.add total (m.of_float f.quantity)) rest

  abbrev pub values : m.D → List (PaperFill F) → m.D
  values total [] = total
  values total (f ∷ rest) =
      values (m.add total (m.mul (m.of_float f.quantity) (m.of_float f.fill_price))) rest

  abbrev pub fee_sum : m.D → List (PaperFill F) → m.D
  fee_sum total [] = total
  fee_sum total (f ∷ rest) = fee_sum (m.add total (m.of_float f.fee)) rest

  -- The trade of the entries and of the exits, which end with `last`.
  unfoldable pub trade_of :
      List (PaperFill F) → List (PaperFill F) → PaperFill F → Result BrokerError (PaperTrade F)
  trade_of [] earlier last = err index_error
  trade_of (first ∷ more) earlier last =
      let exits = earlier ++ (last ∷ []) in
      let fees = fee_sum m.zero ((first ∷ more) ++ exits) in
      let gross = m.sub (values m.zero exits) (values m.zero (first ∷ more)) in
      ok (record {
        entry_time = first.fill_time;
        exit_time = last.fill_time;
        quantity = m.to_float (quantities m.zero (first ∷ more));
        entry_price =
            m.to_float (m.div (values m.zero (first ∷ more)) (quantities m.zero (first ∷ more)));
        exit_price = m.to_float (m.div (values m.zero exits) (quantities m.zero exits));
        gross_pnl = m.to_float gross;
        net_pnl = m.to_float (m.sub gross fees);
        fees = m.to_float fees;
        exit_reason = last.reason;
      })

  abbrev pub balances : List (PaperFill F) → List (PaperFill F) → Bool
  balances entries exits = m.eq (quantities m.zero entries) (quantities m.zero exits)

  -- The loop of `_completed_trades` over its entries, exits and position.
  unfoldable pub trades_from :
      List (PaperFill F)
      → List (PaperFill F)
      → m.D
      → List (PaperFill F)
      → Result BrokerError (List (PaperTrade F))
  unfolding trade_of
  trades_from entries exits position [] = ok []
  trades_from entries exits position (f ∷ rest) = elim (f.side) [
    | buy ↦ do
      raise_if (m.lt m.zero position) reconciliation
      trades_from (entries ++ (f ∷ [])) exits (m.add position (m.of_float f.quantity)) rest
    | sell ↦ do
      raise_if (not (m.lt m.zero position) || m.lt position (m.of_float f.quantity)) reconciliation
      let left = m.sub position (m.of_float f.quantity)
      elim (m.eq left m.zero) [
        | false ↦ trades_from entries (exits ++ (f ∷ [])) left rest
        | true ↦ do
          raise_if (not (balances entries (exits ++ (f ∷ [])))) reconciliation
          trade ← trade_of entries exits f
          trades ← trades_from [] [] m.zero rest
          ok (trade ∷ trades)
      ]
  ]

  unfoldable pub completed_trades : List (PaperFill F) → Result BrokerError (List (PaperTrade F))
  unfolding trades_from
  completed_trades fills = trades_from [] [] m.zero fills

  -- The loop of `_open_entry_identity` over its position and source.
  unfoldable pub open_source_from :
      m.D → Option String → List (PaperFill F) → Result BrokerError String
  open_source_from position source [] = do
    raise_if (not (m.lt m.zero position)) invalid
    or_raise source invalid
  open_source_from position source (f ∷ rest) = elim (f.side) [
    | buy ↦ do
      raise_if (not (m.eq position m.zero)) reconciliation
      open_source_from (m.of_float f.quantity) (some f.order_id) rest
    | sell ↦ do
      raise_if (m.lt position (m.of_float f.quantity)) reconciliation
      let left = m.sub position (m.of_float f.quantity)
      open_source_from left (if m.eq left m.zero then none else source) rest
  ]

  unfoldable pub open_entry_identity : List (PaperFill F) → Result BrokerError String
  unfolding open_source_from
  open_entry_identity fills = open_source_from m.zero none fills

  abbrev pub has_paper_order : String → List (PaperOrder F) → Bool
  has_paper_order id orders = any (λ o. str_eq o.order_id id) orders

module _ {ℓ} {F : Type ℓ} ⦃m : Decimal F⦄ ⦃d : Double F⦄ where
  abbrev is_fill : Evidence F → Bool
  is_fill e = str_eq e.event_type "FILL"

  -- `_paper_source_at_sequence`, from a position and a source.
  unfoldable pub source_at :
      m.D
      → Option String
      → ℕ
      → List (Evidence F)
      → List (PaperOrder F)
      → Result BrokerError (Option String)
  source_at position source before [] orders = ok source
  source_at position source before (e ∷ rest) orders = elim (leb before e.sequence) [
    | true ↦ ok source
    | false ↦ elim (is_fill e) [
      | false ↦ source_at position source before rest orders
      | true ↦ do
        order_id ← payload_text e.payload "order_id"
        elim (has_paper_order order_id orders) [
          | false ↦ source_at position source before rest orders
          | true ↦ do
            value ← payload_number e.payload "quantity"
            side ← payload_text e.payload "side"
            elim (str_eq side "BUY") [
              | true ↦ do
                raise_if (not (m.eq position m.zero)) reconciliation
                source_at (m.of_float value) (some order_id) before rest orders
              | false ↦ do
                raise_if (m.lt position (m.of_float value)) reconciliation
                let left = m.sub position (m.of_float value)
                source_at left (if m.eq left m.zero then none else source) before rest orders
            ]
        ]
    ]
  ]

  unfoldable pub paper_source_at_sequence :
      ℕ → List (Evidence F) → List (PaperOrder F) → Result BrokerError (Option String)
  unfolding source_at
  paper_source_at_sequence before_sequence evidence orders =
      source_at m.zero none before_sequence evidence orders

  abbrev moved : m.D → F → Side → m.D
  moved inventory quantity buy = m.add inventory (m.of_float quantity)
  moved inventory quantity sell = m.sub inventory (m.of_float quantity)

  -- `_inventory_before_sequence`, from an inventory.
  unfoldable pub inventory_from : m.D → ℕ → List (Evidence F) → Result BrokerError m.D
  inventory_from inventory before [] = ok inventory
  inventory_from inventory before (e ∷ rest) = elim (leb before e.sequence) [
    | true ↦ ok inventory
    | false ↦ elim (is_fill e) [
      | false ↦ inventory_from inventory before rest
      | true ↦ do
        value ← payload_number e.payload "quantity"
        side ← payload_side e.payload
        let after = moved inventory value side
        raise_if (m.lt after m.zero) reconciliation
        inventory_from after before rest
    ]
  ]

  unfoldable pub inventory_before_sequence : ℕ → List (Evidence F) → Result BrokerError m.D
  unfolding inventory_from
  inventory_before_sequence before_sequence evidence =
      inventory_from m.zero before_sequence evidence
