-- ===== src/Broker/Ledger/Paid.antt =====
-- The account that the fills give, as a relation: what the loop of `_build_ledger` in
-- src/autobit/execution/paper_broker.py over the fills computes, and of which events.
use Prim.Native.String.{String}
use text.Mathlib.Text.{◌==◌ as str_eq}
use text.Mathlib.TextEquality.{eq_iff}
use mathlib.Core.Path.{subst}
use auto_bit.Prelude.{
  ◌≡◌, refl, sym, ◌∙◌, ap, Bool, true, false, Bool-cases, Option, none, some, List, [], ◌∷◌, ◌++◌,
  ++-nil, ++-assoc-one, ok, keep, or_raise, any, not, OnOk, OnOk-map, OnOk->>=, OnOk-ok,
  OnOk-raise_if, arith,
}
use auto_bit.Double.{Double}
use auto_bit.Store.{Texts}
use auto_bit.Store.Payload.{Side, buy, sell}
use auto_bit.Store.Orders.{Decimal}
use auto_bit.Broker.{reconciliation, index_error, Clock, Platform, Evidence, PaperOrder}
use auto_bit.Broker.Readers.{payload_text, payload_number, payload_side}
use auto_bit.Broker.Stops.{stop_event}
use auto_bit.Broker.Collect.{
  EvidenceKind, order_created, order_status, fill, paper_order, paper_fill, paper_entry_context,
  paper_execution, paper_stop, other_kind, evidence_kind, Collected, collect_kind, collect,
  add_once, has_evidence, find_evidence, nothing_collected,
}
use auto_bit.Broker.Fills.{paper_fill_from_evidence}
use auto_bit.Broker.Entries.{Account, settled}
use auto_bit.Broker.Executions.{find_paper_order}
use auto_bit.Broker.Ledger.Money.{
  Balance, is_negative, check_bound, read_fill, add_fill, balance_of,
}

-- `cash` and `btc` are not below zero.
abbrev pub IsPaid {ℓ} : {F : Type ℓ} ⦃m : Decimal F⦄ → Account F → Type 0
IsPaid ⦃m⦄ a = (m.lt a.cash m.zero ≡ false) × (m.lt a.btc m.zero ≡ false)

module _ {ℓ} {F : Type ℓ} ⦃m : Decimal F⦄ ⦃d : Double F⦄ where
  -- What one fill does. A purchase pays its price and its fee and gets its coins; a sale gives its
  -- coins and gets its price less its fee.
  pub data Pays (e : Evidence F) (a : Account F) : Account F → Type ℓ where
    bought :
        (quantity price fee : F)
        → payload_side e.payload ≡ ok buy
        → payload_number e.payload "quantity" ≡ ok quantity
        → payload_number e.payload "price" ≡ ok price
        → payload_number e.payload "fee" ≡ ok fee
        → Pays e a (record {
          cash =
              m.sub a.cash
                (m.add (m.mul (m.of_float quantity) (m.of_float price)) (m.of_float fee));
          btc = m.add a.btc (m.of_float quantity);
        })
    sold :
        (quantity price fee : F)
        → payload_side e.payload ≡ ok sell
        → payload_number e.payload "quantity" ≡ ok quantity
        → payload_number e.payload "price" ≡ ok price
        → payload_number e.payload "fee" ≡ ok fee
        → Pays e a (record {
          cash =
              m.add a.cash
                (m.sub (m.mul (m.of_float quantity) (m.of_float price)) (m.of_float fee));
          btc = m.sub a.btc (m.of_float quantity);
        })

  -- The fills, in order, take the first account to the last one, and none after a fill is
  -- negative.
  pub data PaysAll : List (Evidence F) → Account F → Account F → Type ℓ where
    unpaid : {a : Account F} → PaysAll [] a a
    paid :
        {e : Evidence F} {rest : List (Evidence F)} {a b z : Account F}
        → Pays e a b
        → IsPaid b
        → PaysAll rest b z
        → PaysAll (e ∷ rest) a z

  settled-Pays :
      (e : Evidence F) (a : Account F) (side : Side) (quantity price fee : F)
      → payload_side e.payload ≡ ok side
      → payload_number e.payload "quantity" ≡ ok quantity
      → payload_number e.payload "price" ≡ ok price
      → payload_number e.payload "fee" ≡ ok fee
      → Pays e a (settled side quantity price fee a)
  settled-Pays e a buy quantity price fee h p q r = bought quantity price fee h p q r
  settled-Pays e a sell quantity price fee h p q r = sold quantity price fee h p q r

  not_negative-IsPaid : (a : Account F) → is_negative a ≡ false → IsPaid a
  not_negative-IsPaid a h = ground (arith, h)

  module _ ⦃p : Platform F⦄ ⦃x : Texts⦄ where
    read_fill-account :
        (s : Collected F) (o : Option (PaperOrder F)) (raw : Evidence F) (b : Balance F)
        → OnOk (λ (c : Balance F). c.account ≡ b.account) (read_fill s o raw b)
    read_fill-account s none raw b = refl
    read_fill-account s (some o) raw b =
        let P = λ (c : Balance F). c.account ≡ b.account in
        OnOk->>= P (or_raise (find_evidence raw.event_id s.fill_metadata) index_error) _
          λ meta _. OnOk->>= P (paper_fill_from_evidence raw meta o) _ λ _ _. refl

    abbrev IsStep : Evidence F → Account F → Balance F → Type ℓ
    IsStep raw a c = Pays raw a c.account × IsPaid c.account

    add_fill-IsStep :
        (s : Collected F) (orders : List (PaperOrder F)) (raw : Evidence F) (b : Balance F)
        → OnOk (IsStep raw b.account) (add_fill s orders raw b)
    unfolding add_fill
    add_fill-IsStep s orders raw b =
        let P = IsStep raw b.account in
        OnOk->>= P (payload_number raw.payload "quantity") _ λ quantity hq.
          OnOk->>= P (payload_number raw.payload "price") _ λ price hp.
            OnOk->>= P (payload_number raw.payload "fee") _ λ fee hf.
              OnOk->>= P (payload_side raw.payload) _ λ side hs.
                OnOk->>= P (payload_text raw.payload "order_id") _ λ order_id _.
                  let o = find_paper_order order_id orders in
                  let after = settled side quantity price fee b.account in
                  let step = settled-Pays raw b.account side quantity price fee hs hq hp hf in
                  OnOk->>= P (check_bound s o raw quantity price b.account) _ λ _ _.
                    OnOk-raise_if P (is_negative after) reconciliation _ λ h.
                      OnOk-map (read_fill s o raw (record b { account = after }))
                        (λ c same.
                          subst (λ a. Pays raw b.account a × IsPaid a) (sym same)
                            (step, not_negative-IsPaid after h))
                        (read_fill-account s o raw (record b { account = after }))

    pub balance_of-PaysAll :
        (s : Collected F) (orders : List (PaperOrder F)) (fills : List (Evidence F)) (b : Balance F)
        → OnOk (λ (z : Balance F). PaysAll fills b.account z.account) (balance_of s orders fills b)
    unfolding balance_of
    balance_of-PaysAll s orders [] b = unpaid
    balance_of-PaysAll s orders (raw ∷ rest) b = OnOk->>= _ (add_fill s orders raw b) _ λ next k.
        let (step, good) =
          OnOk-ok (IsStep raw b.account) (add_fill s orders raw b) (add_fill-IsStep s orders raw b)
            k in
        OnOk-map (balance_of s orders rest next) (λ z more. paid step good more)
          (balance_of-PaysAll s orders rest next)

-- The type of an event is "FILL".
abbrev pub is_fill {ℓ} : {F : Type ℓ} → Evidence F → Bool
is_fill e = str_eq e.event_type "FILL"

abbrev is_fill_kind : EvidenceKind → Bool
is_fill_kind fill = true
is_fill_kind _ = false

-- Two texts are not one.
other_text : (t u v : String) → str_eq t u ≡ true → str_eq u v ≡ false → str_eq t v ≡ false
other_text t u v h k = rw ((eq_iff t u).0 h) k

evidence_kind-is_fill : (t : String) → is_fill_kind (evidence_kind t) ≡ str_eq t "FILL"
evidence_kind-is_fill t = ground (
  arith,
  Bool-cases (str_eq t "ORDER_CREATED"),
  Bool-cases (str_eq t "ORDER_STATUS"),
  λ (h : str_eq t "ORDER_CREATED" ≡ true). other_text t "ORDER_CREATED" "FILL" h refl,
  λ (h : str_eq t "ORDER_STATUS" ≡ true). other_text t "ORDER_STATUS" "FILL" h refl,
)

module _ {ℓ} {F : Type ℓ} ⦃m : Decimal F⦄ ⦃d : Double F⦄ ⦃x : Texts⦄ ⦃c : Clock⦄ where
  abbrev with_fill : Bool → Evidence F → List (Evidence F) → List (Evidence F)
  with_fill true e fills = fills ++ (e ∷ [])
  with_fill false e fills = fills

  abbrev HasFills : List (Evidence F) → Collected F → Type ℓ
  HasFills fills t = t.raw_fills ≡ fills

  collect_kind-HasFills :
      (k : EvidenceKind) (e : Evidence F) (s : Collected F)
      → OnOk (HasFills (with_fill (is_fill_kind k) e s.raw_fills)) (collect_kind k e s)
  collect_kind-HasFills paper_stop e s =
      OnOk->>= (HasFills s.raw_fills) (stop_event e s.stops) _ λ _ _. refl
  collect_kind-HasFills order_created e s =
      OnOk->>= (HasFills s.raw_fills) (payload_text e.payload "order_id") _
        λ id _. OnOk->>= (HasFills s.raw_fills) (add_once id e s.created) _ λ _ _. refl
  collect_kind-HasFills order_status e s =
      OnOk->>= (HasFills s.raw_fills) (payload_text e.payload "order_id") _ λ id _.
        OnOk-raise_if (HasFills s.raw_fills) (not (has_evidence id s.created)) reconciliation _
          λ _. refl
  collect_kind-HasFills fill e s =
      let P = HasFills (s.raw_fills ++ (e ∷ [])) in
      OnOk-raise_if P (any (λ f. str_eq f.event_id e.event_id) s.raw_fills) reconciliation _
        λ _. OnOk->>= P (payload_text e.payload "order_id") _ λ _ _. refl
  collect_kind-HasFills paper_order e s =
      OnOk->>= (HasFills s.raw_fills) (payload_text e.payload "order_id") _
        λ id _. OnOk->>= (HasFills s.raw_fills) (add_once id e s.order_metadata) _ λ _ _. refl
  collect_kind-HasFills paper_fill e s =
      OnOk->>= (HasFills s.raw_fills) (payload_text e.payload "fill_id") _
        λ id _. OnOk->>= (HasFills s.raw_fills) (add_once id e s.fill_metadata) _ λ _ _. refl
  collect_kind-HasFills paper_entry_context e s =
      OnOk->>= (HasFills s.raw_fills) (payload_text e.payload "order_id") _
        λ id _. OnOk->>= (HasFills s.raw_fills) (add_once id e s.entry_contexts) _ λ _ _. refl
  collect_kind-HasFills paper_execution e s =
      OnOk->>= (HasFills s.raw_fills) (payload_text e.payload "order_id") _
        λ id _. OnOk->>= (HasFills s.raw_fills) (add_once id e s.executions) _ λ _ _. refl
  collect_kind-HasFills other_kind e s = refl

  with_fill-keep :
      (b : Bool) (e : Evidence F) (fills rest : List (Evidence F))
      → is_fill e ≡ b
      → (with_fill b e fills ++ keep is_fill rest) ≡ (fills ++ keep is_fill (e ∷ rest))
  with_fill-keep true e fills rest h = rw (h, keep) (++-assoc-one fills e (keep is_fill rest))
  with_fill-keep false e fills rest h = rw (h, keep) refl

  -- The fills that the first loop collects are the events of the type FILL, in their order.
  collect-fills :
      (evidence : List (Evidence F)) (s : Collected F)
      → OnOk (HasFills (s.raw_fills ++ keep is_fill evidence)) (collect evidence s)
  unfolding collect
  collect-fills [] s = sym (++-nil s.raw_fills)
  collect-fills (e ∷ rest) s = OnOk->>= _ (collect_kind (evidence_kind e.event_type) e s) _ λ t q.
      let k = evidence_kind e.event_type in
      let here =
        OnOk-ok (HasFills (with_fill (is_fill_kind k) e s.raw_fills)) (collect_kind k e s)
          (collect_kind-HasFills k e s) q in
      OnOk-map (collect rest t)
        (λ u more.
          more
          ∙ (ap (λ fills. fills ++ keep is_fill rest) here
              ∙ with_fill-keep (is_fill_kind k) e s.raw_fills rest
                  (sym (evidence_kind-is_fill e.event_type))))
        (collect-fills rest t)

  pub collected_fills :
      (evidence : List (Evidence F))
      → OnOk (HasFills (keep is_fill evidence)) (collect evidence nothing_collected)
  collected_fills evidence = collect-fills evidence nothing_collected
