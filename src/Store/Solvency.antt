-- ===== src/Store/Solvency.antt =====
-- What every replay of src/autobit/persistence/sqlite_store.py keeps of the account and the orders.
use Prim.Native.String.{String}
use text.Mathlib.Text.{◌==◌ as str_eq}
use auto_bit.Prelude.{
  ℕ, ◌+◌, ◌≡◌, false, not, ◌||◌, List, [], ◌∷◌, Result, raise_if, or_raise, All, OnOk, OnOk->>=,
  OnOk-ok, raise_if-passed, not-false, ◌==◌,
}
use auto_bit.Double.{Double, ◌≼◌, nought}
use auto_bit.Store.{StoreError, corruption, Texts}
use auto_bit.Store.Payload.{
  Json, Payload, Codec, field, read, has_exactly, stored_positive_number, stored_nonnegative_number,
  stored_nonempty_text, stored_side, stored_order_status, finite, required, float_of,
}
use auto_bit.Store.Orders.{
  created_keys, fill_keys, Decimal, Fill, order_from_created_payload, fill_from_payload,
  order_status_from_payload, is_seed_status,
}
use auto_bit.Store.Replay.{
  Event, Kind, order_created, filled, order_status, breaker_state, health_state, unknown, kind_of,
  Ledger, find_order, has_order, has_key, start, account, fill_orders, change_status, apply,
  replay_event, replay, stored_text, stored_timestamp, is_reversal,
}
use auto_bit.Store.Known.{validate_known_state_payload}
use auto_bit.Store.Replay.{order_created_id, order_status_id}
use auto_bit.Store.Accounts.{
  IsDecimal, find_order-All, IsWithin, IsSolvent, account-nonneg, fill_orders-IsWithin,
  change_status-IsWithin,
}

module _ {ℓ} {F : Type ℓ} ⦃d : Double F⦄ ⦃j : Codec F⦄ ⦃x : Texts⦄ where
  stored_positive_number-positive :
      (value : Json F) → OnOk (λ v. (v ≼ nought) ≡ false) (stored_positive_number value)
  stored_positive_number-positive value =
      let P = λ (v : F). (v ≼ nought) ≡ false in
      OnOk->>= P (finite (float_of value)) _ λ v _.
        OnOk->>= P (raise_if (v ≼ nought) corruption) _
          λ _ h. raise_if-passed (v ≼ nought) corruption h

  read-OnOk {κ} :
      {A : Type κ} (P : A → Type 0) (convert : Json F → Result StoreError A) (key : String)
      (payload : Payload F)
      → ((value : Json F) → OnOk P (convert value))
      → OnOk P (read convert key payload)
  read-OnOk P convert key payload h = OnOk->>= P (required (field key payload)) _ λ value _. h value

  fill_from_payload-positive :
      (payload : Payload F) → OnOk (λ f. (f.quantity ≼ nought) ≡ false) (fill_from_payload payload)
  unfolding fill_from_payload
  fill_from_payload-positive payload =
      let P = λ (f : Fill F). (f.quantity ≼ nought) ≡ false in
      OnOk->>= P (raise_if (not (has_exactly fill_keys payload)) corruption) _ λ _ _.
        OnOk->>= P (read stored_nonnegative_number "fee" payload) _ λ fee _.
          OnOk->>= P (read stored_nonempty_text "order_id" payload) _ λ id _.
            OnOk->>= P (read stored_positive_number "price" payload) _ λ price _.
              OnOk->>= P (read stored_positive_number "quantity" payload) _ λ quantity q.
                OnOk->>= P (read stored_side "side" payload) _ λ side _.
                  OnOk-ok (λ (v : F). (v ≼ nought) ≡ false)
                    (read stored_positive_number "quantity" payload)
                    (read-OnOk (λ (v : F). (v ≼ nought) ≡ false) stored_positive_number "quantity"
                      payload stored_positive_number-positive)
                    q

  module _ ⦃m : Decimal F⦄ (w : IsDecimal F) where
    created-IsWithin :
        (payload : Payload F) (t : ℕ) → OnOk IsWithin (order_from_created_payload payload t)
    unfolding order_from_created_payload
    created-IsWithin payload t =
        OnOk->>= IsWithin (raise_if (not (has_exactly created_keys payload)) corruption) _ λ _ _.
          OnOk->>= IsWithin (read stored_nonempty_text "order_id" payload) _ λ id _.
            OnOk->>= IsWithin (read stored_nonempty_text "idempotency_key" payload) _ λ key _.
              OnOk->>= IsWithin (read stored_side "side" payload) _ λ side _.
                OnOk->>= IsWithin (read stored_positive_number "requested_quantity" payload) _
                  λ wanted q.
                    OnOk->>= IsWithin (read stored_nonnegative_number "filled_quantity" payload) _
                      λ had _.
                        OnOk->>= IsWithin (raise_if (not (d.eq had nought)) corruption) _ λ _ e.
                          OnOk->>= IsWithin (read stored_order_status "status" payload) _
                            λ status _.
                              OnOk->>= IsWithin (raise_if (not (is_seed_status status)) corruption)
                                _
                                λ _ _.
                                  w.nought_below had wanted
                                    (OnOk-ok (λ (v : F). (v ≼ nought) ≡ false)
                                      (read stored_positive_number "requested_quantity" payload)
                                      (read-OnOk (λ (v : F). (v ≼ nought) ≡ false)
                                        stored_positive_number "requested_quantity" payload
                                        stored_positive_number-positive)
                                      q)
                                    (not-false (d.eq had nought)
                                      (raise_if-passed (not (d.eq had nought)) corruption e))

    apply-IsSolvent :
        (k : Kind) (id : String) (payload : Payload F) (t : ℕ) (r : Ledger F)
        → IsSolvent r
        → OnOk IsSolvent (apply k id payload t r)
    unfolding apply
    apply-IsSolvent order_created id payload t r s =
        OnOk->>= IsSolvent (order_from_created_payload payload t) _ λ o e.
          OnOk->>= IsSolvent
            (raise_if (not (str_eq id (order_created_id o.idempotency_key))) corruption) _
            λ _ _.
              OnOk->>= IsSolvent
                (raise_if (has_order o.order_id r.orders || has_key o.idempotency_key r.orders)
                  corruption)
                _
                λ _ _. record {
                  cash_nonneg = s.cash_nonneg;
                  btc_nonneg = s.btc_nonneg;
                  orders_within =
                      (OnOk-ok IsWithin _ (created-IsWithin payload t) e, s.orders_within);
                }
    apply-IsSolvent filled id payload t r s =
        OnOk->>= IsSolvent (fill_from_payload payload) _ λ f q.
          OnOk->>= IsSolvent (account f.side f r) _ λ paid a.
            OnOk->>= IsSolvent (fill_orders (find_order f.order_id r.orders) f t r.orders) _
              λ orders o.
                let p =
                  OnOk-ok IsSolvent (account f.side f r)
                    (account-nonneg w f.side f r
                      (OnOk-ok (λ (f : Fill F). (f.quantity ≼ nought) ≡ false) _
                        (fill_from_payload-positive payload) q)
                      s)
                    a in
                record {
                  cash_nonneg = p.cash_nonneg;
                  btc_nonneg = p.btc_nonneg;
                  orders_within =
                      OnOk-ok (All IsWithin) _
                        (fill_orders-IsWithin w (find_order f.order_id r.orders) f t r.orders
                          s.orders_within)
                        o;
                }
    apply-IsSolvent order_status id payload t r s =
        OnOk->>= IsSolvent (order_status_from_payload payload) _ λ c _.
          OnOk->>= IsSolvent
            (raise_if (not (str_eq id (order_status_id c.idempotency_key))) corruption) _
            λ _ _.
              OnOk->>= IsSolvent (change_status (find_order c.order_id r.orders) c t r.orders) _
                λ orders o. record {
                  cash_nonneg = s.cash_nonneg;
                  btc_nonneg = s.btc_nonneg;
                  orders_within =
                      OnOk-ok (All IsWithin) _
                        (change_status-IsWithin w (find_order c.order_id r.orders) c t r.orders
                          (find_order-All IsWithin c.order_id r.orders s.orders_within)
                          s.orders_within)
                        o;
                }
    apply-IsSolvent breaker_state id payload t r s = record {
      cash_nonneg = s.cash_nonneg;
      btc_nonneg = s.btc_nonneg;
      orders_within = s.orders_within;
    }
    apply-IsSolvent health_state id payload t r s = record {
      cash_nonneg = s.cash_nonneg;
      btc_nonneg = s.btc_nonneg;
      orders_within = s.orders_within;
    }
    apply-IsSolvent unknown id payload t r s = s

    replay_event-IsSolvent :
        (e : Event F) (r : Ledger F) → IsSolvent r → OnOk IsSolvent (replay_event e r)
    unfolding replay_event
    replay_event-IsSolvent e r s =
        OnOk->>= IsSolvent (raise_if (not (e.sequence == r.last_sequence + 1)) corruption) _ λ _ _.
          OnOk->>= IsSolvent (stored_text e.event_id) _ λ id _.
            OnOk->>= IsSolvent (stored_text e.event_type) _ λ name _.
              OnOk->>= IsSolvent (stored_timestamp e.occurred_at) _ λ t _.
                OnOk->>= IsSolvent (raise_if (is_reversal r.previous_timestamp t) corruption) _
                  λ _ _. OnOk->>= IsSolvent (or_raise e.payload corruption) _ λ payload _.
                    OnOk->>= IsSolvent (validate_known_state_payload corruption name payload) _
                      λ _ _. OnOk->>= IsSolvent (apply (kind_of name) id payload t r) _ λ after a.
                        let p =
                          OnOk-ok IsSolvent _ (apply-IsSolvent (kind_of name) id payload t r s) a in
                        record {
                          cash_nonneg = p.cash_nonneg;
                          btc_nonneg = p.btc_nonneg;
                          orders_within = p.orders_within;
                        }

    -- Whatever the events are, a replay that returns leaves neither the cash nor the coins below
    -- 0, and no order with more filled than it asked for.
    pub replay-IsSolvent : (events : List (Event F)) → OnOk IsSolvent (replay events)
    unfolding replay start
    replay-IsSolvent [] = record {
      cash_nonneg = w.hundred_nonneg;
      btc_nonneg = w.zero_nonneg;
      orders_within = tt;
    }
    replay-IsSolvent (e ∷ older) =
        OnOk->>= IsSolvent (replay older) _
          λ r h. replay_event-IsSolvent e r (OnOk-ok IsSolvent _ (replay-IsSolvent older) h)
