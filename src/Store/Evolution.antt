-- ===== src/Store/Evolution.antt =====
-- How the replay of src/autobit/persistence/sqlite_store.py moves the orders, event by event.
use Prim.Native.String.{String}
use text.Mathlib.Text.{◌==◌ as str_eq}
use mathlib.Core.Path.{subst}
use auto_bit.Prelude.{
  ℕ, ◌+◌, ◌≡◌, refl, ◌∙◌, Bool, true, not, ◌&&◌, ◌||◌, Option, none, some, List, [], ◌∷◌, ◌++◌, ok,
  raise_if, or_raise, arith, OnOk, OnOk->>=, OnOk-ok, OnOk-map, raise_if-passed, not-false, if_both,
  >>=-ok, ◌==◌,
}
use auto_bit.Double.{Double}
use auto_bit.Domain.{
  OrderStatus, created, submitted, accepted, partial, completed, canceled, expired,
  insufficient_cash, rejected,
}
use auto_bit.Store.{StoreError, corruption, Texts}
use auto_bit.Store.Payload.{Payload, Codec, Side, buy, sell, same_side}
use auto_bit.Store.Known.{validate_known_state_payload}
use auto_bit.Store.Orders.{
  Decimal, StoredOrder, Fill, StatusChange, is_active_status, is_partial, is_completed,
  legal_order_transitions, partly_filled, wholly_filled, quantities_invalid, check_target,
  validate_order_status_transition, order_from_created_payload, fill_from_payload,
  order_status_from_payload,
}
use auto_bit.Store.Replay.{
  Event, Kind, order_created, filled, order_status, breaker_state, health_state, unknown, kind_of,
  Ledger, find_order, has_order, has_key, account, pay, earn, fill_order, fill_orders,
  change_status, apply, replay_event, replay, stored_text, stored_timestamp, is_reversal,
  order_created_id, order_status_id,
}
use auto_bit.Store.Lifecycle.{
  is_filled_status, Life, stays, on_fill, on_change, IsLater, Grown, added, Grown-self, Grown-join,
  replace-Grown, find_order-id,
}

partial-only : (s : OrderStatus) → is_partial s ≡ true → s ≡ partial
partial-only s h = ground (arith, h)

completed-only : (s : OrderStatus) → is_completed s ≡ true → s ≡ completed
completed-only s h = ground (arith, h)

and-left : (a b : Bool) → (a && b) ≡ true → a ≡ true
and-left a b h = ground (arith, h)

listed :
    (error : StoreError) (current target : OrderStatus) {u : Unit {0}}
    → raise_if (not (legal_order_transitions current target)) error ≡ ok u
    → Life current target
listed error current target h =
    on_change
      (not-false (legal_order_transitions current target)
        (raise_if-passed (not (legal_order_transitions current target)) error h))
      stays

module _ {ℓ} {F : Type ℓ} ⦃m : Decimal F⦄ where
  target-Life :
      (error : StoreError) (current target : OrderStatus) (wanted had : F) {u : Unit {0}}
      → check_target error current target wanted had ≡ ok u
      → Life current target
  target-Life error current created wanted had h = absurd (ground (arith, h))
  target-Life error current partial wanted had h =
      let b = is_partial current && partly_filled wanted had in
      let p = not-false b (raise_if-passed (not b) error h) in
      subst (Life current)
        (partial-only current (and-left (is_partial current) (partly_filled wanted had) p)) stays
  target-Life error current completed wanted had h =
      let b = is_completed current && wholly_filled wanted had in
      let p = not-false b (raise_if-passed (not b) error h) in
      subst (Life current)
        (completed-only current (and-left (is_completed current) (wholly_filled wanted had) p))
        stays
  target-Life error current submitted wanted had h = listed error current submitted h
  target-Life error current accepted wanted had h = listed error current accepted h
  target-Life error current canceled wanted had h = listed error current canceled h
  target-Life error current expired wanted had h = listed error current expired h
  target-Life error current insufficient_cash wanted had h =
      listed error current insufficient_cash h
  target-Life error current rejected wanted had h = listed error current rejected h

  transition-Life :
      (error : StoreError) (current target : OrderStatus) (wanted had : F) {u : Unit {0}}
      → validate_order_status_transition error current target wanted had ≡ ok u
      → Life current target
  unfolding validate_order_status_transition
  transition-Life error current target wanted had h =
      let (u, p, q) = >>=-ok (raise_if (quantities_invalid wanted had) error) _ h in
      target-Life error current target wanted had q

  fill_order-IsLater :
      (error : StoreError) (side : Side) (quantity : F) (t : ℕ) (o : StoredOrder F)
      → OnOk (IsLater o) (fill_order error side quantity t o)
  unfolding fill_order
  fill_order-IsLater error side quantity t o =
      let total = m.add (m.of_float o.filled_quantity) (m.of_float quantity) in
      OnOk->>= (IsLater o) (raise_if (not (same_side o.side side)) error) _ λ _ _.
        OnOk->>= (IsLater o) (raise_if (not (is_active_status o.status)) error) _ λ _ a.
          OnOk->>= (IsLater o) (raise_if (m.lt (m.of_float o.requested_quantity) total) error) _
            λ _ _. record {
              same_id = refl;
              same_key = refl;
              side_kept = refl;
              same_request = refl;
              life =
                  on_fill
                    (not-false (is_active_status o.status)
                      (raise_if-passed (not (is_active_status o.status)) error a))
                    (if_both (λ s. is_filled_status s ≡ true)
                      (m.eq total (m.of_float o.requested_quantity)) refl refl)
                    stays;
            }

  fill_orders-Grown :
      (id : String) (f : Fill F) (t : ℕ) (orders : List (StoredOrder F))
      (found : Option (StoredOrder F))
      → find_order id orders ≡ found
      → OnOk (Grown orders) (fill_orders found f t orders)
  fill_orders-Grown id f t orders none e = Grown-self orders
  fill_orders-Grown id f t orders (some o) e =
      OnOk->>= (Grown orders) (fill_order corruption f.side f.quantity t o) _ λ p q.
        let l = OnOk-ok (IsLater o) _ (fill_order-IsLater corruption f.side f.quantity t o) q in
        replace-Grown id p o orders e (l.same_id ∙ find_order-id id orders o e) l

  change_status-Grown :
      (id : String) (c : StatusChange) (t : ℕ) (orders : List (StoredOrder F))
      (found : Option (StoredOrder F))
      → find_order id orders ≡ found
      → OnOk (Grown orders) (change_status found c t orders)
  change_status-Grown id c t orders none e = tt
  change_status-Grown id c t orders (some o) e =
      OnOk->>= (Grown orders)
        (validate_order_status_transition corruption o.status c.status o.requested_quantity
          o.filled_quantity)
        _
        λ _ q.
          replace-Grown id (record o { status = c.status; updated_at = t }) o orders e
            (find_order-id id orders o e)
            (record {
              same_id = refl;
              same_key = refl;
              side_kept = refl;
              same_request = refl;
              life =
                  transition-Life corruption o.status c.status o.requested_quantity
                    o.filled_quantity q;
            })

  account-orders :
      (side : Side) (f : Fill F) (r : Ledger F)
      → OnOk (λ (p : Ledger F). p.orders ≡ r.orders) (account side f r)
  unfolding account
  account-orders buy f r =
      OnOk->>= (λ (p : Ledger F). p.orders ≡ r.orders)
        (raise_if (m.lt (pay f r).cash m.zero) corruption) _ λ _ _. refl
  account-orders sell f r =
      OnOk->>= (λ (p : Ledger F). p.orders ≡ r.orders)
        (raise_if (m.lt r.btc_quantity (m.of_float f.quantity)) corruption) _
        λ _ _.
          OnOk->>= (λ (p : Ledger F). p.orders ≡ r.orders)
            (raise_if (m.lt (earn f r).cash m.zero) corruption) _ λ _ _. refl

  module _ ⦃d : Double F⦄ ⦃j : Codec F⦄ ⦃x : Texts⦄ where
    apply-Grown :
        (k : Kind) (id : String) (payload : Payload F) (t : ℕ) (r : Ledger F)
        → OnOk (λ (p : Ledger F). Grown r.orders p.orders) (apply k id payload t r)
    unfolding apply
    apply-Grown order_created id payload t r =
        let P = λ (p : Ledger F). Grown r.orders p.orders in
        OnOk->>= P (order_from_created_payload payload t) _ λ o _.
          OnOk->>= P (raise_if (not (str_eq id (order_created_id o.idempotency_key))) corruption) _
            λ _ _.
              OnOk->>= P
                (raise_if (has_order o.order_id r.orders || has_key o.idempotency_key r.orders)
                  corruption)
                _ λ _ _. added (Grown-self r.orders)
    apply-Grown filled id payload t r =
        let P = λ (p : Ledger F). Grown r.orders p.orders in
        OnOk->>= P (fill_from_payload payload) _ λ f _. OnOk->>= P (account f.side f r) _ λ paid _.
          OnOk->>= P (fill_orders (find_order f.order_id r.orders) f t r.orders) _ λ orders q.
            OnOk-ok (Grown r.orders) _
              (fill_orders-Grown f.order_id f t r.orders (find_order f.order_id r.orders) refl) q
    apply-Grown order_status id payload t r =
        let P = λ (p : Ledger F). Grown r.orders p.orders in
        OnOk->>= P (order_status_from_payload payload) _ λ c _.
          OnOk->>= P (raise_if (not (str_eq id (order_status_id c.idempotency_key))) corruption) _
            λ _ _.
              OnOk->>= P (change_status (find_order c.order_id r.orders) c t r.orders) _ λ orders q.
                OnOk-ok (Grown r.orders) _
                  (change_status-Grown c.order_id c t r.orders (find_order c.order_id r.orders)
                    refl)
                  q
    apply-Grown breaker_state id payload t r = Grown-self r.orders
    apply-Grown health_state id payload t r = Grown-self r.orders
    apply-Grown unknown id payload t r = Grown-self r.orders

    replay_event-Grown :
        (e : Event F) (r : Ledger F)
        → OnOk (λ (p : Ledger F). Grown r.orders p.orders) (replay_event e r)
    unfolding replay_event
    replay_event-Grown e r =
        let P = λ (p : Ledger F). Grown r.orders p.orders in
        OnOk->>= P (raise_if (not (e.sequence == r.last_sequence + 1)) corruption) _ λ _ _.
          OnOk->>= P (stored_text e.event_id) _ λ id _.
            OnOk->>= P (stored_text e.event_type) _ λ name _.
              OnOk->>= P (stored_timestamp e.occurred_at) _ λ t _.
                OnOk->>= P (raise_if (is_reversal r.previous_timestamp t) corruption) _ λ _ _.
                  OnOk->>= P (or_raise e.payload corruption) _ λ payload _.
                    OnOk->>= P (validate_known_state_payload corruption name payload) _ λ _ _.
                      OnOk->>= P (apply (kind_of name) id payload t r) _ λ after a.
                        OnOk-ok P (apply (kind_of name) id payload t r)
                          (apply-Grown (kind_of name) id payload t r) a

    -- The replay refines the abstract life of an order: if the events replay, and replay with
    -- newer events after them, then every order of the one is in the other, with the same
    -- identity, side and requested quantity, and its status has got there by fills while it was
    -- active and by the transitions of the table.
    pub replay-Grown :
        (newer older : List (Event F)) (r : Ledger F)
        → replay older ≡ ok r
        → OnOk (λ (p : Ledger F). Grown r.orders p.orders) (replay (newer ++ older))
    unfolding replay
    replay-Grown [] older r h = rw h (Grown-self r.orders)
    replay-Grown (e ∷ newer) older r h =
        let P = λ (p : Ledger F). Grown r.orders p.orders in
        OnOk->>= P (replay (newer ++ older)) _ λ middle q.
          OnOk-map (replay_event e middle)
            (λ last g.
              Grown-join g r.orders
                (OnOk-ok P (replay (newer ++ older)) (replay-Grown newer older r h) q))
            (replay_event-Grown e middle)
