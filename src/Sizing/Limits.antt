-- ===== src/Sizing/Limits.antt =====
-- What `calculate_size` (src/autobit/risk/position_sizer.py) promises of a quantity.
use auto_bit.Prelude.{
  true, false, ◌≡◌, refl, ◌⊎◌, inl, inr, ok, err, List, [], ◌∷◌, arith, All, any, Bool, OnError,
  OnError->>=, OnError-raise_if, OnError-or_raise, Result, raise_if, ◌>>◌, if_both, if_cases, ◌>>=◌,
}
use auto_bit.Double.{Double, ◌≼◌, ◌≺◌, ◌⊗◌, nought}
use auto_bit.Double.Laws.{IsDouble}
use auto_bit.Sizing.{
  Constraint, SizeDecision, CostConfig, SizeRequest, Sizes, accept, effective_loss, limits, least,
  binding, bad_loss, bad_limit, bad_estimate, unusable, other_limits, returned, fixed, rounded,
  settle, calculate_size, invalid_decision, fixed_limit, volatility_limit, exposure_limit,
  cash_limit,
}

infix 50 ◌∈◌
pub data ◌∈◌ {ℓ} {A : Type ℓ} : A → List A → Type ℓ where
  here : {x : A} {xs : List A} → x ∈ x ∷ xs
  there : {x y : A} {xs : List A} → x ∈ xs → x ∈ y ∷ xs

skip {ℓ} : {A : Type ℓ} {x y z : A} {xs : List A} → x ∈ y ∷ xs → x ∈ y ∷ z ∷ xs
skip here = here
skip (there m) = there (there m)

module _ {ℓ} {F : Type ℓ} ⦃d : Double F⦄ where
  -- A decision on the accepted values: the quantity is no more than any of the four limits, not
  -- negative, and is the limit that is named, or 0 where that limit equals 0.
  pub record Sized (s : Sizes F) (r : SizeDecision F) : Type ℓ where
    pub at_most : All (λ (p : Constraint × F). (r.quantity ≼ p.1) ≡ true) (limits s)
    pub nonnegative : (nought ≼ r.quantity) ≡ true
    pub named :
        (q : F) × ((r.binding_constraint, q) ∈ limits s)
        × (((r.quantity ≡ q) × (r.estimated_loss ≡ q ⊗ effective_loss s))
            ⊎ ((d.eq q nought ≡ true) × (r.quantity ≡ nought) × (r.estimated_loss ≡ nought)))

  data Settled (s : Sizes F) : Result (SizeDecision F) (SizeDecision F) → Type ℓ where
    refused : Settled s (err invalid_decision)
    sized : {r : SizeDecision F} → Sized s r → Settled s (ok r)

  raise_if-Settled :
      {s : Sizes F} (b : Bool) (m : Result (SizeDecision F) (SizeDecision F))
      → (b ≡ false → Settled s m)
      → Settled s (raise_if b invalid_decision >> m)
  raise_if-Settled true m k = refused
  raise_if-Settled false m k = k refl

  module _ (w : IsDouble F) where
    least_lem :
        (x : Constraint × F) (ps : List (Constraint × F))
        → (x.1 ≼ x.1) ≡ true
        → All (λ (p : Constraint × F). (p.1 ≼ p.1) ≡ true) ps
        → (((least x ps).1 ≼ x.1) ≡ true)
          × All (λ (p : Constraint × F). ((least x ps).1 ≼ p.1) ≡ true) ps
    least_lem x [] h k = (h, tt)
    least_lem x (p ∷ ps) h (q, k) =
        let P = λ (y : Constraint × F).
          (((least y ps).1 ≼ x.1) ≡ true)
          × ((((least y ps).1 ≼ p.1) ≡ true)
              × All (λ (z : Constraint × F). ((least y ps).1 ≼ z.1) ≡ true) ps) in
        if_cases P (p.1 ≺ x.1)
          (λ e.
            let r = least_lem p ps q k in
            (w.le_trans (least p ps).1 p.1 x.1 r.0 (w.le_of_lt p.1 x.1 e), (r.0, r.1)))
          (λ e.
            let r = least_lem x ps h k in
            (
              r.0,
              (
                w.le_trans (least x ps).1 x.1 p.1 r.0
                    (ground (arith, e, h, q, w.lt-eq-not-le p.1 x.1)),
                r.1,
              ),
            ))

    least_mem : (x : Constraint × F) (ps : List (Constraint × F)) → least x ps ∈ x ∷ ps
    least_mem x [] = here
    least_mem x (p ∷ ps) =
        if_both (λ (y : Constraint × F). least y ps ∈ x ∷ p ∷ ps) (p.1 ≺ x.1)
          (there (least_mem p ps)) (skip (least_mem x ps))

    usable_lem : (x : F) → unusable x ≡ false → ((x ≼ x) ≡ true) × ((nought ≼ x) ≡ true)
    usable_lem x e =
        let zero : (nought ≼ d.lit 0 1) ≡ true =
          w.lit_mono 0 1 0 1 (omega arith) (omega arith) (omega arith) in
        ground (arith, e, zero, w.refl_of_finite x, w.lt-eq-not-le x nought)

    any_lem :
        (a b e f : F)
        → any (λ x. unusable x) (a ∷ b ∷ e ∷ f ∷ []) ≡ false
        → (unusable a ≡ false) × (unusable b ≡ false) × (unusable e ≡ false) × (unusable f ≡ false)
    any_lem a b e f h = ground (arith, h)

    least_bound :
        (z : F) (x : Constraint × F) (ps : List (Constraint × F))
        → (z ≼ x.1) ≡ true
        → All (λ (p : Constraint × F). (z ≼ p.1) ≡ true) ps
        → (z ≼ (least x ps).1) ≡ true
    least_bound z x [] h k = h
    least_bound z x (p ∷ ps) h (q, k) =
        if_both (λ (y : Constraint × F). (z ≼ (least y ps).1) ≡ true) (p.1 ≺ x.1)
          (least_bound z p ps q k) (least_bound z x ps h k)

    rounded-Sized :
        (s : Sizes F)
        → any (λ (p : Constraint × F). unusable p.1) (limits s) ≡ false
        → Sized s (rounded (effective_loss s) (binding s))
    rounded-Sized s h =
        let zero_le = w.lit_mono 0 1 0 1 (omega arith) (omega arith) (omega arith) in
        let u = any_lem (fixed_limit s) (volatility_limit s) (exposure_limit s) (cash_limit s) h in
        let a = usable_lem (fixed_limit s) u.0 in
        let b = usable_lem (volatility_limit s) u.1 in
        let e = usable_lem (exposure_limit s) u.2 in
        let f = usable_lem (cash_limit s) u.3 in
        let member = least_mem (fixed, fixed_limit s) (other_limits s) in
        let below = least_lem (fixed, fixed_limit s) (other_limits s) a.0 (b.0, (e.0, (f.0, tt))) in
        if_cases (Sized s) (d.eq (binding s).1 nought)
          (λ zero. record {
            at_most = (a.1, (b.1, (e.1, (f.1, tt))));
            nonnegative = zero_le;
            named = ((binding s).1, member, inr (zero, refl, refl));
          })
          (λ other. record {
            at_most = (below.0, below.1);
            nonnegative =
                least_bound nought (fixed, fixed_limit s) (other_limits s) a.1
                  (b.1, (e.1, (f.1, tt)));
            named = ((binding s).1, member, inl (refl, refl));
          })

    settle-Sized : (s : Sizes F) → Settled s (settle s)
    unfolding settle
    settle-Sized s =
        let decision = ok (rounded (effective_loss s) (binding s)) in
        let estimated = raise_if (bad_estimate s) invalid_decision >> decision in
        let limited = raise_if (bad_limit s) invalid_decision >> estimated in
        raise_if-Settled (bad_loss s) limited (λ loss.
          raise_if-Settled (bad_limit s) estimated (λ limit.
            raise_if-Settled (bad_estimate s) decision (λ estimate. sized (rounded-Sized s limit))))

    accept_error :
        (r : SizeRequest F) (c : CostConfig F) → OnError (λ e. e ≡ invalid_decision) (accept r c)
    unfolding accept
    accept_error r c = search (OnError->>=, OnError-raise_if, OnError-or_raise) depth 60

    returned-Settled :
        {s : Sizes F} (m : Result (SizeDecision F) (SizeDecision F))
        → Settled s m
        → (returned m ≡ invalid_decision) ⊎ Sized s (returned m)
    returned-Settled _ refused = inl refl
    returned-Settled _ (sized h) = inr h

    outcome :
        (r : SizeRequest F) (c : CostConfig F) (m : Result (SizeDecision F) (Sizes F))
        → OnError (λ e. e ≡ invalid_decision) m
        → accept r c ≡ m
        → (returned (m >>= settle) ≡ invalid_decision)
          ⊎ ((s : Sizes F) × (accept r c ≡ ok s) × Sized s (returned (m >>= settle)))
    outcome r c (ok s) h e = elim (returned-Settled (settle s) (settle-Sized s)) [
      | inl h ↦ inl h
      | inr h ↦ inr (s, e, h)
    ]
    outcome r c (err e) h _ = inl h

    -- `calculate_size` refuses with the quantity 0, or its quantity is at most each of the four
    -- limits, and is one of them, or 0 where that one equals 0.
    pub calculate_size-outcome :
        (r : SizeRequest F) (c : CostConfig F)
        → (calculate_size r c ≡ invalid_decision)
          ⊎ ((s : Sizes F) × (accept r c ≡ ok s) × Sized s (calculate_size r c))
    unfolding calculate_size
    calculate_size-outcome r c = outcome r c (accept r c) (accept_error r c) refl
