-- ===== src/Broker/Rounds.antt =====
-- The fills that `_completed_trades` and `_open_entry_identity` of
-- src/autobit/execution/paper_broker.py accept: round trips, and at most one that is still open.
use Prim.Native.String.{String}
use auto_bit.Prelude.{
  ++-assoc-one, ++-nil, All-later, ◌≡◌, refl, ◌∙◌, ◌⊎◌, inl, inr, true, false, not, Option, none,
  some, List, [], ◌∷◌, ◌++◌, Result, ok, err, raise_if, All, OnOk, OnOk->>=, OnOk-raise_if, OnOk-ok,
  OnOk-map, Bool-cases,
}
use mathlib.Core.Path.{subst}
use auto_bit.Store.Payload.{Side, buy, sell}
use auto_bit.Store.Orders.{Decimal}
use auto_bit.Broker.{BrokerError, reconciliation, invalid, PaperFill}
use auto_bit.Broker.Trades.{
  PaperTrade, trade_of, balances, trades_from, completed_trades, open_source_from,
  open_entry_identity,
}

-- What `decimal` documents of the arithmetic on quantities: 0 is neutral and not positive, a
-- positive number is not 0, and the difference to a number that is no greater is 0 or positive.
pub record IsExact {ℓ} (F : Type ℓ) ⦃m : Decimal F⦄ : Type ℓ where
  pub zero_add : (x : F) → m.add m.zero (m.of_float x) ≡ m.of_float x
  pub zero_is_zero : m.eq m.zero m.zero ≡ true
  pub pos_nonzero : (a : m.D) → m.lt m.zero a ≡ true → m.eq a m.zero ≡ false
  pub zero_not_pos : (a : m.D) → m.eq a m.zero ≡ true → m.lt m.zero a ≡ false
  pub sub_pos :
      (a b : m.D)
      → m.lt a b ≡ false
      → m.eq (m.sub a b) m.zero ≡ false
      → m.lt m.zero (m.sub a b) ≡ true

Side-cases : (s : Side) → (s ≡ buy) ⊎ (s ≡ sell)
Side-cases buy = inl refl
Side-cases sell = inr refl

module _ {ℓ} {F : Type ℓ} ⦃m : Decimal F⦄ where
  abbrev pub remaining : m.D → List (PaperFill F) → m.D
  remaining position [] = position
  remaining position (f ∷ rest) = remaining (m.sub position (m.of_float f.quantity)) rest

  -- Sales that the position covers, each of which leaves something of it.
  abbrev pub IsSold : m.D → List (PaperFill F) → Type 0
  IsSold position [] = Unit
  IsSold position (f ∷ rest) =
      (f.side ≡ sell)
      × (m.lt position (m.of_float f.quantity) ≡ false)
      × (m.eq (m.sub position (m.of_float f.quantity)) m.zero ≡ false)
      × IsSold (m.sub position (m.of_float f.quantity)) rest

  abbrev pub IsLast : m.D → PaperFill F → Type 0
  IsLast position f =
      (f.side ≡ sell)
      × (m.lt position (m.of_float f.quantity) ≡ false)
      × (m.eq (m.sub position (m.of_float f.quantity)) m.zero ≡ true)

  -- A round trip buys once and sells the whole of it; its trade is of its fills alone. The last
  -- purchase may be unsold in part.
  pub data Rounds : List (PaperFill F) → List (PaperTrade F) → Option (PaperFill F) → Type ℓ where
    flat : Rounds [] [] none
    open_round :
        (b : PaperFill F) (sales : List (PaperFill F))
        → b.side ≡ buy
        → IsSold (m.of_float b.quantity) sales
        → Rounds (b ∷ sales) [] (some b)
    round :
        (b : PaperFill F) (sales : List (PaperFill F)) (last : PaperFill F) (t : PaperTrade F)
        {rest : List (PaperFill F)} {trades : List (PaperTrade F)} {held : Option (PaperFill F)}
        → b.side ≡ buy
        → IsSold (m.of_float b.quantity) sales
        → IsLast (remaining (m.of_float b.quantity) sales) last
        → trade_of (b ∷ []) sales last ≡ ok t
        → Rounds rest trades held
        → Rounds (b ∷ sales ++ (last ∷ rest)) (t ∷ trades) held

  remaining-snoc :
      (position : m.D) (sales : List (PaperFill F)) (f : PaperFill F)
      → remaining position (sales ++ (f ∷ []))
        ≡ m.sub (remaining position sales) (m.of_float f.quantity)
  remaining-snoc position [] f = refl
  remaining-snoc position (s ∷ rest) f =
      remaining-snoc (m.sub position (m.of_float s.quantity)) rest f

  IsSold-snoc :
      (position : m.D) (sales : List (PaperFill F)) (f : PaperFill F)
      → IsSold position sales
      → f.side ≡ sell
      → m.lt (remaining position sales) (m.of_float f.quantity) ≡ false
      → m.eq (m.sub (remaining position sales) (m.of_float f.quantity)) m.zero ≡ false
      → IsSold position (sales ++ (f ∷ []))
  IsSold-snoc position [] f h s c z = (s, c, z, tt)
  IsSold-snoc position (g ∷ rest) f (a, b, e, h) s c z =
      (a, b, e, IsSold-snoc (m.sub position (m.of_float g.quantity)) rest f h s c z)

  abbrev pub IsPositive : PaperFill F → Type 0
  IsPositive f = m.lt m.zero (m.of_float f.quantity) ≡ true

  abbrev InRounds : List (PaperFill F) → List (PaperTrade F) → Type ℓ
  InRounds fills trades = (held : Option (PaperFill F)) × Rounds fills trades held

  abbrev AfterPurchase : List (PaperFill F) → Type ℓ
  AfterPurchase fills =
      (b : PaperFill F) (sales : List (PaperFill F))
      → b.side ≡ buy
      → IsSold (m.of_float b.quantity) sales
      → m.lt m.zero (remaining (m.of_float b.quantity) sales) ≡ true
      → OnOk (InRounds (b ∷ sales ++ fills))
          (trades_from (b ∷ []) sales (remaining (m.of_float b.quantity) sales) fills)

  module _ (w : IsExact F) where
    sale_rounds :
        (f : PaperFill F) (rest : List (PaperFill F))
        → f.side ≡ sell
        → OnOk (InRounds rest) (trades_from [] [] m.zero rest)
        → AfterPurchase rest
        → AfterPurchase (f ∷ rest)
    unfolding trades_from trade_of
    sale_rounds f rest e flat_rest held_rest b sales be sold pos =
        let left = remaining (m.of_float b.quantity) sales in
        let P = InRounds (b ∷ sales ++ (f ∷ rest)) in
        simp (e) (
          rw pos (
            OnOk-raise_if P (m.lt left (m.of_float f.quantity)) reconciliation _ λ c.
              elim (Bool-cases (m.eq (m.sub left (m.of_float f.quantity)) m.zero)) [
                | inl z ↦ rw z (
                    OnOk->>= P
                      (raise_if (not (balances (b ∷ []) (sales ++ (f ∷ [])))) reconciliation) _
                      λ _ _. OnOk->>= P (trades_from [] [] m.zero rest) _ λ ts k.
                        let (held, r) = OnOk-ok (InRounds rest) _ flat_rest k in
                        (held, round b sales f _ be sold (e, c, z) refl r))
                | inr z ↦ rw z (
                    subst (λ p. OnOk P (trades_from (b ∷ []) (sales ++ (f ∷ [])) p rest))
                      (remaining-snoc (m.of_float b.quantity) sales f)
                      (subst
                        (λ l. OnOk (InRounds (b ∷ l)) (
                          trades_from (b ∷ []) (sales ++ (f ∷ []))
                            (remaining (m.of_float b.quantity) (sales ++ (f ∷ []))) rest))
                        (++-assoc-one sales f rest)
                        (held_rest b (sales ++ (f ∷ [])) be
                          (IsSold-snoc (m.of_float b.quantity) sales f sold e c z)
                          (rw (remaining-snoc (m.of_float b.quantity) sales f)
                            (w.sub_pos left (m.of_float f.quantity) c z)))))
              ]))

    rounds_from :
        (fills : List (PaperFill F))
        → All IsPositive fills
        → OnOk (InRounds fills) (trades_from [] [] m.zero fills) × AfterPurchase fills
    unfolding trades_from
    rounds_from [] p =
        ((none, flat), λ b sales e s pos. (some b, rw (++-nil sales) (open_round b sales e s)))
    rounds_from (f ∷ rest) (p, ps) =
        let (flat_rest, held_rest) = rounds_from rest ps in
        elim (Side-cases f.side) [
          | inl e ↦ (
            simp (e) (
                rw (w.zero_not_pos m.zero w.zero_is_zero)
                  (rw (w.zero_add f.quantity) (held_rest f [] e tt p))),
            λ b sales be s pos. simp (e) (rw pos tt),
          )
          | inr e ↦ (
            simp (e) (rw (w.zero_not_pos m.zero w.zero_is_zero) tt),
            sale_rounds f rest e flat_rest held_rest,
          )
        ]

    completed_trades-Rounds :
        (fills : List (PaperFill F))
        → All IsPositive fills
        → OnOk (InRounds fills) (completed_trades fills)
    unfolding completed_trades
    completed_trades-Rounds fills p = (rounds_from fills p).0

    abbrev pub holder : Option (PaperFill F) → Result BrokerError String
    holder none = err invalid
    holder (some b) = ok b.order_id

    open_sales :
        (source : String) (position : m.D) (sales rest : List (PaperFill F))
        → IsSold position sales
        → open_source_from position (some source) (sales ++ rest)
          ≡ open_source_from (remaining position sales) (some source) rest
    unfolding open_source_from
    open_sales source position [] rest h = refl
    open_sales source position (f ∷ more) rest (e, c, z, h) =
        simp (e)
          (rw c (rw z (open_sales source (m.sub position (m.of_float f.quantity)) more rest h)))

    IsSold-pos :
        (position : m.D) (sales : List (PaperFill F))
        → m.lt m.zero position ≡ true
        → IsSold position sales
        → m.lt m.zero (remaining position sales) ≡ true
    IsSold-pos position [] p h = p
    IsSold-pos position (f ∷ rest) p (e, c, z, h) =
        IsSold-pos (m.sub position (m.of_float f.quantity)) rest
          (w.sub_pos position (m.of_float f.quantity) c z) h

    open_source-holder :
        (position : m.D) {fills : List (PaperFill F)} {trades : List (PaperTrade F)}
        {held : Option (PaperFill F)}
        → m.eq position m.zero ≡ true
        → Rounds fills trades held
        → All IsPositive fills
        → open_source_from position none fills ≡ holder held
    unfolding open_source_from
    open_source-holder position z flat p = rw (w.zero_not_pos position z) refl
    open_source-holder position z (open_round b sales e s) (q, p) = simp (e) (
        rw z (
          subst (λ l. open_source_from (m.of_float b.quantity) (some b.order_id) l ≡ ok b.order_id)
            (++-nil sales)
            (open_sales b.order_id (m.of_float b.quantity) sales [] s
              ∙ rw (IsSold-pos (m.of_float b.quantity) sales q s) refl)))
    open_source-holder position z (round b sales last t {rest} e s (ke, kc, kz) made r) (q, p) =
        simp (e) (
          rw z (
            open_sales b.order_id (m.of_float b.quantity) sales (last ∷ rest) s
            ∙ simp (ke) (
                rw kc (
                  rw kz (
                    open_source-holder
                      (m.sub (remaining (m.of_float b.quantity) sales) (m.of_float last.quantity))
                      kz r (All-later IsPositive sales last rest p))))))

    -- If all fills have positive quantities and `_completed_trades` returns, then the fills are
    -- round trips of one purchase and sales that sum up to it, with a trade for each, in order,
    -- computed from its fills, and at the end at most one purchase that is not wholly sold;
    -- `_open_entry_identity` returns the order of that purchase, or raises if there is none.
    pub completed_trades-round_trips :
        (fills : List (PaperFill F))
        → All IsPositive fills
        → OnOk
            (λ (trades : List (PaperTrade F)).
              (held : Option (PaperFill F)) × Rounds fills trades held
              × (open_entry_identity fills ≡ holder held))
            (completed_trades fills)
    unfolding open_entry_identity
    completed_trades-round_trips fills p =
        OnOk-map (completed_trades fills)
          (λ trades (held, r). (held, r, open_source-holder m.zero w.zero_is_zero r p))
          (completed_trades-Rounds fills p)
