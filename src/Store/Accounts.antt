-- ===== src/Store/Accounts.antt =====
-- The account and the orders that a replay of src/autobit/persistence/sqlite_store.py returns.
use Prim.Native.String.{String}
use text.Mathlib.Text.{◌==◌ as str_eq}
use auto_bit.Prelude.{
  ℕ, ◌≡◌, true, false, not, Option, none, some, List, [], ◌∷◌, raise_if, All, OnOk, OnOk->>=,
  OnOk-ok, OnSome, raise_if-passed, OnOk-raise_if,
}
use auto_bit.Double.{Double, ◌≼◌, nought}
use auto_bit.Store.{StoreError, corruption}
use auto_bit.Store.Payload.{Side, buy, sell, same_side}
use auto_bit.Store.Orders.{
  Decimal, StoredOrder, Fill, StatusChange, validate_order_status_transition, is_active_status,
}
use auto_bit.Store.Replay.{
  Ledger, find_order, replace_order, pay, earn, account, fill_order, fill_orders, change_status,
}

-- What `decimal` documents of the comparisons, the arithmetic and the conversion to a float, as
-- far as it is used: a sum of two numbers that are not negative is not negative, nor is the
-- difference to a number that is no greater; rounding to a float and back does not pass a float.
pub record IsDecimal {ℓ} (F : Type ℓ) ⦃m : Decimal F⦄ ⦃d : Double F⦄ : Type ℓ where
  pub zero_nonneg : m.lt m.zero m.zero ≡ false
  pub hundred_nonneg : m.lt m.hundred m.zero ≡ false
  pub add_nonneg :
      (a b : m.D) → m.lt a m.zero ≡ false → m.lt b m.zero ≡ false → m.lt (m.add a b) m.zero ≡ false
  pub sub_nonneg : (a b : m.D) → m.lt a b ≡ false → m.lt (m.sub a b) m.zero ≡ false
  pub positive_nonneg : (x : F) → (x ≼ nought) ≡ false → m.lt (m.of_float x) m.zero ≡ false
  pub nought_below :
      (x y : F)
      → (y ≼ nought) ≡ false
      → d.eq x nought ≡ true
      → m.lt (m.of_float y) (m.of_float x) ≡ false
  pub round_below :
      (x : F) (a : m.D)
      → m.lt (m.of_float x) a ≡ false
      → m.lt (m.of_float x) (m.of_float (m.to_float a)) ≡ false

module _ {ℓ} {F : Type ℓ} where
  pub replace_order-All :
      (P : StoredOrder F → Type 0) (o : StoredOrder F) (orders : List (StoredOrder F))
      → P o
      → All P orders
      → All P (replace_order o orders)
  replace_order-All P o [] p h = tt
  replace_order-All P o (q ∷ rest) p (h, hs) =
      elim (str_eq q.order_id o.order_id)
        as (λ b. All P (elim b [ true ↦ o ∷ rest | false ↦ q ∷ replace_order o rest ])) [
          | true ↦ (p, hs)
          | false ↦ (h, replace_order-All P o rest p hs)
        ]

  pub find_order-All :
      (P : StoredOrder F → Type 0) (id : String) (orders : List (StoredOrder F))
      → All P orders
      → OnSome P (find_order id orders)
  find_order-All P id [] h = tt
  find_order-All P id (q ∷ rest) (h, hs) =
      elim (str_eq q.order_id id)
        as (λ b. OnSome P (elim b [ true ↦ some q | false ↦ find_order id rest ])) [
          | true ↦ h
          | false ↦ find_order-All P id rest hs
        ]

module _ {ℓ} {F : Type ℓ} ⦃m : Decimal F⦄ where
  -- An order has filled no more than it asked for.
  abbrev pub IsWithin : StoredOrder F → Type 0
  IsWithin o = m.lt (m.of_float o.requested_quantity) (m.of_float o.filled_quantity) ≡ false

  -- The cash and the coins are not negative, and no order is overfilled.
  pub record IsSolvent (r : Ledger F) : Type 0 where
    pub cash_nonneg : m.lt r.cash m.zero ≡ false
    pub btc_nonneg : m.lt r.btc_quantity m.zero ≡ false
    pub orders_within : All IsWithin r.orders

  module _ ⦃d : Double F⦄ (w : IsDecimal F) where
    pub account-nonneg :
        (side : Side) (f : Fill F) (r : Ledger F)
        → (f.quantity ≼ nought) ≡ false
        → IsSolvent r
        → OnOk IsSolvent (account side f r)
    unfolding account
    account-nonneg buy f r q s =
        OnOk-raise_if IsSolvent (m.lt (pay f r).cash m.zero) corruption _ λ h. record {
          cash_nonneg = h;
          btc_nonneg =
              w.add_nonneg r.btc_quantity (m.of_float f.quantity) s.btc_nonneg
                (w.positive_nonneg f.quantity q);
          orders_within = s.orders_within;
        }
    account-nonneg sell f r q s =
        OnOk-raise_if IsSolvent (m.lt r.btc_quantity (m.of_float f.quantity)) corruption _ λ h.
          OnOk-raise_if IsSolvent (m.lt (earn f r).cash m.zero) corruption _ λ k. record {
            cash_nonneg = k;
            btc_nonneg = w.sub_nonneg r.btc_quantity (m.of_float f.quantity) h;
            orders_within = s.orders_within;
          }

    pub fill_order-IsWithin :
        (error : StoreError) (side : Side) (quantity : F) (t : ℕ) (o : StoredOrder F)
        → OnOk IsWithin (fill_order error side quantity t o)
    unfolding fill_order
    fill_order-IsWithin error side quantity t o =
        let total = m.add (m.of_float o.filled_quantity) (m.of_float quantity) in
        OnOk->>= IsWithin (raise_if (not (same_side o.side side)) error) _ λ _ _.
          OnOk->>= IsWithin (raise_if (not (is_active_status o.status)) error) _ λ _ _.
            OnOk->>= IsWithin (raise_if (m.lt (m.of_float o.requested_quantity) total) error) _
              λ _ h.
                w.round_below o.requested_quantity total
                  (raise_if-passed (m.lt (m.of_float o.requested_quantity) total) error h)

    pub fill_orders-IsWithin :
        (found : Option (StoredOrder F)) (f : Fill F) (t : ℕ) (orders : List (StoredOrder F))
        → All IsWithin orders
        → OnOk (All IsWithin) (fill_orders found f t orders)
    fill_orders-IsWithin none f t orders h = h
    fill_orders-IsWithin (some o) f t orders h =
        OnOk->>= (All IsWithin) (fill_order corruption f.side f.quantity t o) _ λ p e.
          replace_order-All IsWithin p orders
            (OnOk-ok IsWithin _ (fill_order-IsWithin corruption f.side f.quantity t o) e) h

    pub change_status-IsWithin :
        (found : Option (StoredOrder F)) (c : StatusChange) (t : ℕ) (orders : List (StoredOrder F))
        → OnSome IsWithin found
        → All IsWithin orders
        → OnOk (All IsWithin) (change_status found c t orders)
    change_status-IsWithin none c t orders p h = tt
    change_status-IsWithin (some o) c t orders p h =
        OnOk->>= (All IsWithin)
          (validate_order_status_transition corruption o.status c.status o.requested_quantity
            o.filled_quantity)
          _
          λ _ _.
            replace_order-All IsWithin (record o { status = c.status; updated_at = t }) orders p h
