-- ===== src/Broker/Process/Bounds.antt =====
-- The fill that `_process_order_in_transaction` of src/autobit/execution/paper_broker.py returns.
use auto_bit.Prelude.{
  and-false, ℕ, ◌≡◌, refl, ap, Bool, true, false, not, ◌||◌, Option, none, some, List, ok, raise_if,
  or_raise, OnOk, OnOk->>=, OnOk-ok, OnOk-raise_if, OnSome, if_both, if_cases, if◌then◌else◌,
}
use auto_bit.Double.{Double, ◌≼◌, ◌≺◌, min, nought}
use auto_bit.Domain.{insufficient_cash, rejected}
use auto_bit.Python.{aware}
use auto_bit.Store.{Texts}
use auto_bit.Store.Payload.{Codec, Side, buy, sell, same_side}
use auto_bit.Store.Orders.{Decimal}
use auto_bit.Store.Snapshot.{Store, Snapshot, Renderer}
use auto_bit.Store.Append.{append_event}
use auto_bit.Store.Record.{append_fill}
use auto_bit.Broker.{
  invalid, diverged, lift, Clock, Platform, EntryContext, PaperOrder, PaperFill, PaperStop,
  execution_id, fill_meta_id,
}
use auto_bit.Broker.Costs.{computed_fill_price, computed_fee}
use auto_bit.Broker.Execution.{execution_quantity, cost}
use auto_bit.Broker.Submit.{replay_state}
use auto_bit.Broker.Process.{
  lacks_cash, lacks_coins, paper_fill, fill_status, metadata_payload, cancel_remainder,
  cancel_stops, finish_fill, write_fill, fill_attempt, after_attempt, process_order,
}
use auto_bit.Broker.Attempts.{
  Attempt, change, left_attempt, bound_attempt, execution_payload, attempt_of, fill_suffix,
  leaves_part,
}

-- What `decimal` and IEEE 754 say of the two orders: a float below one that is no greater than a
-- bound is no greater than it either.
pub record IsCompatible {ℓ} (F : Type ℓ) ⦃m : Decimal F⦄ ⦃d : Double F⦄ : Type ℓ where
  pub below :
      (bound x y : F)
      → m.lt (m.of_float bound) (m.of_float x) ≡ false
      → (y ≺ x) ≡ true
      → m.lt (m.of_float bound) (m.of_float y) ≡ false

module _ {ℓ} {F : Type ℓ} ⦃m : Decimal F⦄ ⦃d : Double F⦄ where
  -- A fill within the order and within the account, at the price and the fee of its costs.
  pub record IsPriced (o : PaperOrder F) (reference : F) (current : Snapshot F) (f : PaperFill F)
      : Type ℓ where
    pub within_order : m.lt (m.of_float o.remainder_quantity) (m.of_float f.quantity) ≡ false
    pub price : f.fill_price ≡ computed_fill_price reference o.slippage_rate o.side
    pub fee : f.fee ≡ computed_fee f.quantity f.fill_price o.fee_rate
    pub within_cash :
        o.side ≡ buy
        → m.lt (m.of_float current.cash) (cost o.fee_rate f.fill_price f.quantity) ≡ false
    pub within_coins :
        o.side ≡ sell → m.lt (m.of_float current.btc_quantity) (m.of_float f.quantity) ≡ false

  abbrev IsWithinOrder : PaperOrder F → Attempt F → Type 0
  IsWithinOrder o a = m.lt (m.of_float o.remainder_quantity) (m.of_float a.quantity) ≡ false

  abbrev Attempted : PaperOrder F → Store F × Option (Attempt F) → Type 0
  Attempted o r = OnSome (IsWithinOrder o) r.1

  abbrev pub Returned : PaperOrder F → F → Snapshot F → Store F × Option (PaperFill F) → Type ℓ
  Returned o reference current (s, none) = Unit
  Returned o reference current (s, some f) = IsPriced o reference current f

module _ {ℓ} {F : Type ℓ} ⦃m : Decimal F⦄ ⦃d : Double F⦄ ⦃j : Codec F⦄ ⦃n : Renderer F⦄ ⦃x : Texts⦄
    ⦃c : Clock⦄ ⦃p : Platform F⦄ (w : IsCompatible F) where
  left_attempt-within :
      (o : PaperOrder F) (t : ℕ) (left : F) (capped : Bool) (s : Store F)
      → m.lt (m.of_float o.remainder_quantity) (m.of_float left) ≡ false
      → OnOk (Attempted o) (left_attempt o t left capped s)
  left_attempt-within o t left capped s h =
      if_both (OnOk (Attempted o)) (left ≼ nought)
        (OnOk->>= (Attempted o) (change o ":execution-cap:" rejected t "EXECUTION_CAP" s) _
          λ _ _. tt)
        h

  bound_attempt-within :
      (side : Side) (o : PaperOrder F) (context : EntryContext F) (t : ℕ)
      (reference price quantity : F) (current : Snapshot F) (s : Store F)
      → m.lt (m.of_float o.remainder_quantity) (m.of_float quantity) ≡ false
      → OnOk (Attempted o) (bound_attempt side o context t reference price quantity current s)
  bound_attempt-within sell o context t reference price quantity current s h = h
  bound_attempt-within buy o context t reference price quantity current s h =
      OnOk->>= (Attempted o)
        (lift (
          append_event (execution_id o.order_id) "PAPER_EXECUTION" (aware t)
            (execution_payload o reference quantity) s))
        _
        λ e _.
          OnOk->>= (Attempted o)
            (or_raise (execution_quantity o.fee_rate context price current.cash) diverged) _
            λ limit _. left_attempt-within o t (min quantity limit) (limit ≺ quantity) e.0 (
              if_cases (λ q. m.lt (m.of_float o.remainder_quantity) (m.of_float q) ≡ false)
                (limit ≺ quantity) (λ k. w.below o.remainder_quantity quantity limit h k) (λ _. h))

  attempt_of-within :
      (o : PaperOrder F) (context : Option (EntryContext F)) (t : ℕ) (reference price quantity : F)
      (current : Snapshot F) (s : Store F)
      → m.lt (m.of_float o.remainder_quantity) (m.of_float quantity) ≡ false
      → OnOk (Attempted o) (attempt_of o context t reference price quantity current s)
  unfolding attempt_of
  attempt_of-within o none t reference price quantity current s h = h
  attempt_of-within o (some context) t reference price quantity current s h =
      bound_attempt-within o.side o context t reference price quantity current s h

  finish_fill-Returned :
      (o : PaperOrder F) (a : Attempt F) (f : PaperFill F) (stops : List (PaperStop F))
      (reference : F) (current : Snapshot F) (s : Store F)
      → IsPriced o reference current f
      → OnOk (Returned o reference current) (finish_fill o a f stops s)
  unfolding finish_fill
  finish_fill-Returned o a f stops reference current s h =
      let P = Returned o reference current in
      let status = fill_status o f.quantity in
      OnOk->>= P (change o (fill_suffix status) status f.fill_time o.reason s) _ λ changed _.
        OnOk->>= P
          (lift (
            append_event (fill_meta_id f.fill_id) "PAPER_FILL" (aware f.fill_time)
              (metadata_payload o f) changed))
          _
          λ e _.
            OnOk->>= P (if leaves_part status then cancel_remainder o a f.fill_time e.0 else ok e.0)
              _ λ after _. OnOk->>= P (cancel_stops o f.fill_time stops after) _ λ _ _. h

  write_fill-Returned :
      (o : PaperOrder F) (a : Attempt F) (f : PaperFill F) (stops : List (PaperStop F))
      (reference : F) (current : Snapshot F) (s : Store F)
      → IsPriced o reference current f
      → OnOk (Returned o reference current) (write_fill o a f stops s)
  unfolding write_fill
  write_fill-Returned o a f stops reference current s h =
      let P = Returned o reference current in
      OnOk->>= P
        (lift (
          append_fill o.order_id o.side f.quantity f.fill_price f.fee (aware f.fill_time)
            (some f.fill_id) s))
        _
        λ done _.
          if_both (OnOk P) done.1 (finish_fill-Returned o a f stops reference current done.0 h) tt

  fill_attempt-Returned :
      (o : PaperOrder F) (t : ℕ) (reference price : F) (stops : List (PaperStop F))
      (current : Snapshot F) (a : Attempt F)
      → IsWithinOrder o a
      → price ≡ computed_fill_price reference o.slippage_rate o.side
      → OnOk (Returned o reference current) (fill_attempt o t reference price stops current a)
  unfolding fill_attempt
  fill_attempt-Returned o t reference price stops current a h e =
      let P = Returned o reference current in
      if_cases (OnOk P) (lacks_cash o price current a)
        (λ _.
          OnOk->>= P (change o ":insufficient:" insufficient_cash t "INSUFFICIENT_CASH" a.store) _
            λ _ _. tt)
        (λ k. OnOk-raise_if P (lacks_coins o current a) invalid _ λ q.
          write_fill-Returned o a
            (paper_fill o t reference price (computed_fee a.quantity price o.fee_rate) a.quantity)
            stops reference current a.store
            (record {
              within_order = h;
              price = e;
              fee = refl;
              within_cash = λ s. and-false (same_side o.side buy) _ k (ap (λ t. same_side t buy) s);
              within_coins =
                  λ s. and-false (same_side o.side sell) _ q (ap (λ t. same_side t sell) s);
            }))

  after_attempt-Returned :
      (o : PaperOrder F) (t : ℕ) (reference price : F) (stops : List (PaperStop F))
      (current : Snapshot F) (r : Store F × Option (Attempt F))
      → Attempted o r
      → price ≡ computed_fill_price reference o.slippage_rate o.side
      → OnOk (Returned o reference current) (after_attempt o t reference price stops current r)
  after_attempt-Returned o t reference price stops current (s, none) h e = tt
  after_attempt-Returned o t reference price stops current (s, some a) h e =
      fill_attempt-Returned o t reference price stops current a h e

  -- Whatever the order, the candle and the store are, a fill that `_process_order_in_transaction`
  -- returns is no larger than the remainder of the order, it has the price and the fee that the
  -- rates of the order give, a purchase costs no more than the cash that the store replays to, its
  -- fee included, and a sale is no more than the coins.
  pub process_order-IsPriced :
      (o : PaperOrder F) (t : ℕ) (reference : F) (actual : Option F) (stops : List (PaperStop F))
      (s : Store F) (current : Snapshot F)
      → replay_state s ≡ ok current
      → OnOk (Returned o reference current) (process_order o t reference actual stops s)
  unfolding process_order
  process_order-IsPriced o t reference actual stops s current e =
      let P = Returned o reference current in
      let quantity : F = elim actual [ none ↦ o.remainder_quantity | some q ↦ q ] in
      let price = computed_fill_price reference o.slippage_rate o.side in
      OnOk-raise_if P (m.lt (m.of_float o.remainder_quantity) (m.of_float quantity)) invalid _ λ h.
        OnOk->>= P (raise_if (not (d.is_finite price) || price ≼ nought) invalid) _ λ _ _. rw e (
          OnOk->>= P (attempt_of o o.execution_context t reference price quantity current s) _
            λ attempt k.
              after_attempt-Returned o t reference price stops current attempt
                (OnOk-ok (Attempted o) _
                  (attempt_of-within o o.execution_context t reference price quantity current s h)
                  k)
                refl)
