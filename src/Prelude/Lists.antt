-- ===== src/Prelude/Lists.antt =====
-- Lists measured by native numbers, and predicates over them.
use Prim.Native.Nat.{ℕ, zero, suc}
use mathlib.Core.Bool.{Bool, true, false, ◌&&◌, ◌||◌}
use mathlib.Core.List.{List, [], ◌∷◌, ◌++◌, Mem, mem-cons_self, mem-cons_of_mem}
use mathlib.Core.Path.{◌≡◌, refl}
use native.Mathlib.Omega.{arith}

module _ {ℓ} {A : Type ℓ} where
  abbrev pub length : List A → ℕ
  length [] = 0
  length (x ∷ xs) = suc (length xs)

  abbrev pub is_nonempty : List A → Bool
  is_nonempty [] = false
  is_nonempty (x ∷ xs) = true

  abbrev pub drop : ℕ → List A → List A
  drop zero xs = xs
  drop (suc n) [] = []
  drop (suc n) (x ∷ xs) = drop n xs

  -- Python's `any(test(x) for x in xs)` and `all(test(x) for x in xs)`.
  abbrev pub any : (A → Bool) → List A → Bool
  any test [] = false
  any test (x ∷ xs) = test x || any test xs

  abbrev pub all : (A → Bool) → List A → Bool
  all test [] = true
  all test (x ∷ xs) = test x && all test xs

  -- Python's `tuple(x for x in xs if test(x))`.
  abbrev pub keep : (A → Bool) → List A → List A
  keep test [] = []
  keep test (x ∷ xs) = elim (test x) [ true ↦ x ∷ keep test xs | false ↦ keep test xs ]

  abbrev pub All {κ} : (A → Type κ) → List A → Type κ
  All P [] = Unit
  All P (x ∷ xs) = P x × All P xs

-- Lemmas on concatenation and on predicates over lists.
pub ++-assoc-one {ℓ} :
    {A : Type ℓ} (xs : List A) (a : A) (ys : List A) → ((xs ++ (a ∷ [])) ++ ys) ≡ (xs ++ (a ∷ ys))
++-assoc-one [] a ys = refl
++-assoc-one (x ∷ xs) a ys = rw (++-assoc-one xs a ys) refl

pub ++-nil {ℓ} : {A : Type ℓ} (xs : List A) → (xs ++ []) ≡ xs
++-nil [] = refl
++-nil (x ∷ xs) = rw (++-nil xs) refl

pub All-later {ℓ} :
    {A : Type ℓ} (P : A → Type 0) (xs : List A) (a : A) (ys : List A)
    → All P (xs ++ (a ∷ ys))
    → All P ys
All-later P [] a ys (h, hs) = hs
All-later P (x ∷ xs) a ys (h, hs) = All-later P xs a ys hs

pub All-snoc {κ} :
    {A : Type κ} (P : A → Type 0) (xs : List A) (a : A) → All P xs → P a → All P (xs ++ (a ∷ []))
All-snoc P [] a h p = (p, tt)
All-snoc P (x ∷ xs) a (h, hs) p = (h, All-snoc P xs a hs p)

pub keep-All {κ μ} :
    {A : Type κ} (P : A → Type μ) (test : A → Bool) (xs : List A) → All P xs → All P (keep test xs)
keep-All P test [] h = tt
keep-All P test (x ∷ xs) (h, hs) =
    elim (test x) as (λ b. All P (elim b [ true ↦ x ∷ keep test xs | false ↦ keep test xs ])) [
      | true ↦ (h, keep-All P test xs hs)
      | false ↦ keep-All P test xs hs
    ]

pub All-map {ℓ κ μ} :
    {A : Type ℓ} {P : A → Type κ} {Q : A → Type μ} (xs : List A)
    → ((a : A) → P a → Q a)
    → All P xs
    → All Q xs
All-map [] f h = tt
All-map (x ∷ xs) f (h, hs) = (f x h, All-map xs f hs)

pub All-Mem {ℓ} : {A : Type ℓ} (xs : List A) → All (λ x. Mem x xs) xs
All-Mem [] = tt
All-Mem (x ∷ xs) = (mem-cons_self, All-map xs (λ y h. mem-cons_of_mem x h) (All-Mem xs))

-- What is kept passes the test.
pub keep-passes {ℓ} :
    {A : Type ℓ} (test : A → Bool) (xs : List A) → All (λ x. test x ≡ true) (keep test xs)
keep-passes test [] = tt
keep-passes test (x ∷ xs) =
    (elim (test x)
        as (λ b.
          test x ≡ b
          → All (λ y. test y ≡ true) (elim b [ true ↦ x ∷ keep test xs | false ↦ keep test xs ])) [
            | true ↦ λ p. (p, keep-passes test xs)
            | false ↦ λ p. keep-passes test xs
          ])
      refl

-- What holds of all that is kept holds of all that pass the test.
pub All-keep {ℓ κ} :
    {A : Type ℓ} (P : A → Type κ) (test : A → Bool) (xs : List A)
    → All P (keep test xs)
    → All (λ x. test x ≡ true → P x) xs
All-keep P test [] h = tt
All-keep P test (x ∷ xs) h =
    (elim (test x)
        as (λ b.
          test x ≡ b
          → All P (elim b [ true ↦ x ∷ keep test xs | false ↦ keep test xs ])
          → All (λ y. test y ≡ true → P y) (x ∷ xs)) [
            | true ↦ λ p (a, rest). (λ q. a, All-keep P test xs rest)
            | false ↦ λ p rest. (λ q. absurd (ground (arith, p, q)), All-keep P test xs rest)
          ])
      refl h

pub All-zip {ℓ κ μ ν} :
    {A : Type ℓ} {P : A → Type κ} {Q : A → Type μ} {R : A → Type ν} (xs : List A)
    → ((a : A) → P a → Q a → R a)
    → All P xs
    → All Q xs
    → All R xs
All-zip [] f p q = tt
All-zip (x ∷ xs) f (p, ps) (q, qs) = (f x p q, All-zip xs f ps qs)
