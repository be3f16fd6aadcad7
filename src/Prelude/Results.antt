-- ===== src/Prelude/Results.antt =====
-- Values or exceptions, and the notation for a chain of fallible steps.
use mathlib.Core.Path.{◌≡◌, refl, subst}
use mathlib.Core.Bool.{Bool, true, false}
use mathlib.Core.Option.{Option, none, some}
use native.Mathlib.Omega.{arith}

pub data Result {ℓ κ} (E : Type ℓ) (A : Type κ) : Type (ℓ ⊔ κ) where
  ok : A → Result E A
  err : E → Result E A

infixl 5 ◌>>=◌ ◌>>◌
abbrev pub ◌>>=◌ {ℓ κ μ} :
    {E : Type ℓ} {A : Type κ} {B : Type μ} → Result E A → (A → Result E B) → Result E B
ok a >>= f = f a
err e >>= f = err e

abbrev pub ◌>>◌ {ℓ μ} : {E : Type ℓ} {B : Type μ} → Result E (Unit {0}) → Result E B → Result E B
m >> k = m >>= λ _. k

-- `if test: raise error`
abbrev pub raise_if {ℓ} : {E : Type ℓ} → Bool → E → Result E (Unit {0})
raise_if true e = err e
raise_if false e = ok tt

abbrev pub or_raise {ℓ κ} : {E : Type ℓ} {A : Type κ} → Option A → E → Result E A
or_raise none e = err e
or_raise (some a) e = ok a

-- What the exception of a chain satisfies, if it raises one.
abbrev pub OnError {ℓ κ μ} : {E : Type ℓ} {A : Type κ} → (E → Type μ) → Result E A → Type μ
OnError P (ok a) = Unit
OnError P (err e) = P e

module _ {ℓ μ} {E : Type ℓ} (P : E → Type μ) where
  pub OnError->>= {κ ν} :
      {A : Type κ} {B : Type ν} (m : Result E A) (f : A → Result E B)
      → OnError P m
      → ((a : A) → OnError P (f a))
      → OnError P (m >>= f)
  OnError->>= (ok a) f h k = k a
  OnError->>= (err e) f h k = h

  pub OnError-raise_if : (test : Bool) (e : E) → P e → OnError P (raise_if test e)
  OnError-raise_if true e h = h
  OnError-raise_if false e h = tt

  pub OnError-or_raise {κ} : {A : Type κ} (o : Option A) (e : E) → P e → OnError P (or_raise o e)
  OnError-or_raise none e h = h
  OnError-or_raise (some a) e h = tt

-- A guard whose test fails is passed.
pub raise_if-pass {ℓ κ} :
    {E : Type ℓ} {B : Type κ} (test : Bool) (e : E) (m : Result E B) {b : B}
    → test ≡ false
    → m ≡ ok b
    → (raise_if test e >> m) ≡ ok b
raise_if-pass test e m h k = rw h k

pub >>-pass {ℓ μ} :
    {E : Type ℓ} {B : Type μ} (m : Result E (Unit {0})) (k : Result E B) {b : B}
    → m ≡ ok tt
    → k ≡ ok b
    → (m >> k) ≡ ok b
>>-pass m k h q = rw h q

pub >>=-pass {ℓ κ μ} :
    {E : Type ℓ} {A : Type κ} {B : Type μ} (m : Result E A) (f : A → Result E B) {a : A}
    {r : Result E B}
    → m ≡ ok a
    → f a ≡ r
    → (m >>= f) ≡ r
>>=-pass m f h k = rw h k

-- What the result of a chain satisfies, if it returns one.
abbrev pub OnOk {ℓ κ μ} : {E : Type ℓ} {A : Type κ} → (A → Type μ) → Result E A → Type μ
OnOk P (ok a) = P a
OnOk P (err e) = Unit

pub OnOk->>= {ℓ κ ν μ} :
    {E : Type ℓ} {A : Type κ} {B : Type ν} (P : B → Type μ) (m : Result E A) (f : A → Result E B)
    → ((a : A) → m ≡ ok a → OnOk P (f a))
    → OnOk P (m >>= f)
OnOk->>= P (ok a) f k = k a refl
OnOk->>= P (err e) f k = tt

pub raise_if-passed {ℓ} :
    {E : Type ℓ} (test : Bool) (e : E) {u : Unit {0}} → raise_if test e ≡ ok u → test ≡ false
raise_if-passed true e h = absurd (ground (arith, h))
raise_if-passed false e h = refl

pub OnOk-raise_if {ℓ κ μ} :
    {E : Type ℓ} {A : Type κ} (P : A → Type μ) (test : Bool) (e : E) (k : Result E A)
    → (test ≡ false → OnOk P k)
    → OnOk P (raise_if test e >> k)
OnOk-raise_if P true e k h = tt
OnOk-raise_if P false e k h = h refl

pub OnOk-or_raise {ℓ κ μ ν} :
    {E : Type ℓ} {A : Type κ} {B : Type ν} (P : B → Type μ) (o : Option A) (e : E)
    (k : A → Result E B)
    → ((a : A) → o ≡ some a → OnOk P (k a))
    → OnOk P (or_raise o e >>= k)
OnOk-or_raise P none e k h = tt
OnOk-or_raise P (some a) e k h = h a refl

-- What the value of an option satisfies, if it has one.
abbrev pub OnSome {ℓ μ} : {A : Type ℓ} → (A → Type μ) → Option A → Type μ
OnSome P none = Unit
OnSome P (some a) = P a

pub OnOk-map {ℓ κ μ ν} :
    {E : Type ℓ} {A : Type κ} {P : A → Type μ} {Q : A → Type ν} (m : Result E A)
    → ((a : A) → P a → Q a)
    → OnOk P m
    → OnOk Q m
OnOk-map (ok a) f h = f a h
OnOk-map (err e) f h = tt

pub OnOk-ok {ℓ κ μ} :
    {E : Type ℓ} {A : Type κ} (P : A → Type μ) (m : Result E A) {a : A} → OnOk P m → m ≡ ok a → P a
OnOk-ok P m h e = subst (OnOk P) e h

-- A chain that returns has passed its first step.
pub >>=-ok {ℓ κ ν} :
    {E : Type ℓ} {A : Type κ} {B : Type ν} (m : Result E A) (f : A → Result E B) {b : B}
    → (m >>= f) ≡ ok b
    → (a : A) × (m ≡ ok a) × (f a ≡ ok b)
>>=-ok (ok a) f h = (a, refl, h)
>>=-ok (err e) f h = absurd (ground (arith, h))

pub raise_if-ok {ℓ κ} :
    {E : Type ℓ} {B : Type κ} (test : Bool) (e : E) (m : Result E B) {b : B}
    → (raise_if test e >> m) ≡ ok b
    → (test ≡ false) × (m ≡ ok b)
raise_if-ok true e m h = absurd (ground (arith, h))
raise_if-ok false e m h = (refl, h)
