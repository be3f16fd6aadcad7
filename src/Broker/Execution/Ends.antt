-- ===== src/Broker/Execution/Ends.antt =====
-- The loop of `_execution_quantity` in src/autobit/execution/paper_broker.py ends.
use auto_bit.Prelude.{
  and-left, and-false, ℕ, zero, suc, ◌<◌, ◌≤◌, ◌≡◌, refl, inl, inr, Bool, true, false, some,
  Bool-cases, arith,
}
use auto_bit.Double.{Double, ◌≺◌, nought}
use auto_bit.Store.Orders.{Decimal}
use auto_bit.Broker.{EntryContext, Platform}
use auto_bit.Broker.Execution.{lower, sized_quantity, cost, exceeds_cash, execution_quantity}

-- What `math` documents of `nextafter(x, 0.0)`: below a positive float there is one float fewer.
pub record IsFloor {ℓ} (F : Type ℓ) ⦃p : Platform F⦄ ⦃d : Double F⦄ : Type ℓ where
  pub nextafter-descends : (x : F) → (nought ≺ x) ≡ true → p.rank (p.nextafter x) < p.rank x

module _ {ℓ} {F : Type ℓ} ⦃p : Platform F⦄ where
  -- `q` is the first float from `x` down that fails the test.
  pub data FirstBelow (test : F → Bool) : F → F → Type ℓ where
    here : {x : F} → test x ≡ false → FirstBelow test x x
    below : {x q : F} → test x ≡ true → FirstBelow test (p.nextafter x) q → FirstBelow test x q

  pub lower-FirstBelow :
      ⦃d : Double F⦄ (w : IsFloor F) (test : F → Bool) (fuel : ℕ) (x : F)
      → ((y : F) → test y ≡ true → (nought ≺ y) ≡ true)
      → p.rank x ≤ fuel
      → (q : F) × (lower fuel test x ≡ some q) × FirstBelow test x q
  unfolding lower
  lower-FirstBelow w test zero x pos h = elim (Bool-cases (test x)) [
    | inl e ↦ absurd (omega (arith, w.nextafter-descends x (pos x e)))
    | inr e ↦ rw e (x, refl, here e)
  ]
  lower-FirstBelow w test (suc n) x pos h = elim (Bool-cases (test x)) [
    | inl e ↦
        let (q, r, b) =
          lower-FirstBelow w test n (p.nextafter x) pos
            (omega (arith, w.nextafter-descends x (pos x e))) in
        (q, rw (e, lower) r, below e b)
    | inr e ↦ (x, rw (e, lower) refl, here e)
  ]

module _ {ℓ} {F : Type ℓ} ⦃m : Decimal F⦄ ⦃d : Double F⦄ ⦃p : Platform F⦄ where
  FirstBelow-paid :
      (fee_rate fill_price cash : F) {x q : F}
      → FirstBelow (exceeds_cash fee_rate fill_price cash) x q
      → (nought ≺ q) ≡ true
      → m.lt (m.of_float cash) (cost fee_rate fill_price q) ≡ false
  FirstBelow-paid fee_rate fill_price cash {x} (here e) pos = and-false _ _ e pos
  FirstBelow-paid fee_rate fill_price cash (below e b) pos =
      FirstBelow-paid fee_rate fill_price cash b pos

  -- Whatever the order, its context, the price and the cash are, the loop of `_execution_quantity`
  -- ends. It returns the first float from the size of `calculate_size` down that is not positive
  -- or that the cash pays for, its fee included; a positive result costs no more than the cash.
  pub execution_quantity-ends :
      (w : IsFloor F) (fee_rate : F) (context : EntryContext F) (fill_price cash : F)
      → (q : F) × (execution_quantity fee_rate context fill_price cash ≡ some q)
        × FirstBelow
            (exceeds_cash fee_rate fill_price cash)
            (sized_quantity fee_rate context fill_price cash)
            q
        × ((nought ≺ q) ≡ true → m.lt (m.of_float cash) (cost fee_rate fill_price q) ≡ false)
  unfolding execution_quantity
  execution_quantity-ends w fee_rate context fill_price cash =
      let sized = sized_quantity fee_rate context fill_price cash in
      let (q, e, b) =
        lower-FirstBelow w (exceeds_cash fee_rate fill_price cash) (p.rank sized) sized
          (λ y h. and-left (nought ≺ y) _ h) (omega arith) in
      (q, e, b, FirstBelow-paid fee_rate fill_price cash b)
