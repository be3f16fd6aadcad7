-- ===== src/Store/Lifecycle.antt =====
-- The life of an order over the events of src/autobit/persistence/sqlite_store.py, as an abstract
-- state machine, and how the replay follows it.
use Prim.Native.String.{String}
use text.Mathlib.Text.{◌==◌ as str_eq}
use text.Mathlib.TextEquality.{eq_iff}
use mathlib.Core.Path.{subst}
use auto_bit.Prelude.{
  ◌≡◌, refl, sym, ◌∙◌, ap, Bool, true, false, some, List, [], ◌∷◌, arith, Bool-cases, inl, inr,
}
use auto_bit.Domain.{OrderStatus, partial, completed}
use auto_bit.Store.Orders.{StoredOrder, is_active_status, legal_order_transitions}
use auto_bit.Store.Replay.{find_order, replace_order}

-- The statuses that a fill leaves.
abbrev pub is_filled_status : OrderStatus → Bool
is_filled_status partial = true
is_filled_status completed = true
is_filled_status _ = false

-- The abstract life of an order: fills while it is active, and the transitions of the table.
pub data Life : OrderStatus → OrderStatus → Type 0 where
  stays : {s : OrderStatus} → Life s s
  on_fill :
      {s t u : OrderStatus}
      → is_active_status s ≡ true
      → is_filled_status t ≡ true
      → Life t u
      → Life s u
  on_change : {s t u : OrderStatus} → legal_order_transitions s t ≡ true → Life t u → Life s u

join : {s t u : OrderStatus} → Life s t → Life t u → Life s u
join stays l = l
join (on_fill a f k) l = on_fill a f (join k l)
join (on_change a k) l = on_change a (join k l)

terminal-legal :
    (s t : OrderStatus) → is_active_status s ≡ false → legal_order_transitions s t ≡ false
unfolding legal_order_transitions
terminal-legal s t h = ground arith

-- A status that is not active is the last one.
pub terminal_stays : {s t : OrderStatus} → Life s t → is_active_status s ≡ false → t ≡ s
terminal_stays stays h = refl
terminal_stays (on_fill a f k) h = absurd (ground (arith, a, h))
terminal_stays (on_change {s} {t} a k) h = absurd (ground (arith, a, terminal-legal s t h))

-- The same order, later.
pub record IsLater {ℓ} {F : Type ℓ} (o p : StoredOrder F) : Type ℓ where
  pub same_id : p.order_id ≡ o.order_id
  pub same_key : p.idempotency_key ≡ o.idempotency_key
  pub side_kept : p.side ≡ o.side
  pub same_request : p.requested_quantity ≡ o.requested_quantity
  pub life : Life o.status p.status

module _ {ℓ} {F : Type ℓ} where
  -- The orders of before are all there, later, and others may have come.
  pub data Grown : List (StoredOrder F) → List (StoredOrder F) → Type ℓ where
    empty : Grown [] []
    kept :
        {o p : StoredOrder F} {xs ys : List (StoredOrder F)}
        → IsLater o p
        → Grown xs ys
        → Grown (o ∷ xs) (p ∷ ys)
    added : {p : StoredOrder F} {xs ys : List (StoredOrder F)} → Grown xs ys → Grown xs (p ∷ ys)

  pub IsLater-self : (o : StoredOrder F) → IsLater o o
  IsLater-self o = record {
    same_id = refl;
    same_key = refl;
    side_kept = refl;
    same_request = refl;
    life = stays;
  }

  pub IsLater-join : (o p q : StoredOrder F) → IsLater o p → IsLater p q → IsLater o q
  IsLater-join o p q a b = record {
    same_id = b.same_id ∙ a.same_id;
    same_key = b.same_key ∙ a.same_key;
    side_kept = b.side_kept ∙ a.side_kept;
    same_request = b.same_request ∙ a.same_request;
    life = join a.life b.life;
  }

  pub Grown-self : (xs : List (StoredOrder F)) → Grown xs xs
  Grown-self [] = empty
  Grown-self (o ∷ rest) = kept (IsLater-self o) (Grown-self rest)

  pub Grown-join :
      {ys zs : List (StoredOrder F)}
      → Grown ys zs
      → (xs : List (StoredOrder F)) → Grown xs ys
      → Grown xs zs
  Grown-join empty xs g = g
  Grown-join (kept {o = o} {p} b h) _ (kept {o = n} {xs = xs} a g) =
      kept (IsLater-join n o p a b) (Grown-join h xs g)
  Grown-join (kept {o = o} b h) xs (added g) = added (Grown-join h xs g)
  Grown-join (added h) xs g = added (Grown-join h xs g)

  found-head :
      (id : String) (o q : StoredOrder F) (others : List (StoredOrder F))
      → str_eq o.order_id id ≡ true
      → find_order id (o ∷ others) ≡ some q
      → o ≡ q
  found-head id o q others t f = ground (arith, t, f)

  found-later :
      (id : String) (o q : StoredOrder F) (others : List (StoredOrder F))
      → str_eq o.order_id id ≡ false
      → find_order id (o ∷ others) ≡ some q
      → find_order id others ≡ some q
  found-later id o q others t f = ground (arith, t, f)

  replaced-head :
      (p o : StoredOrder F) (others : List (StoredOrder F))
      → str_eq o.order_id p.order_id ≡ true
      → replace_order p (o ∷ others) ≡ p ∷ others
  replaced-head p o others t = ground (arith, t)

  replaced-later :
      (p o : StoredOrder F) (others : List (StoredOrder F))
      → str_eq o.order_id p.order_id ≡ false
      → replace_order p (o ∷ others) ≡ o ∷ replace_order p others
  replaced-later p o others t = ground (arith, t)

  pub replace-Grown :
      (id : String) (p q : StoredOrder F) (orders : List (StoredOrder F))
      → find_order id orders ≡ some q
      → p.order_id ≡ id
      → IsLater q p
      → Grown orders (replace_order p orders)
  replace-Grown id p q [] f e l = empty
  replace-Grown id p q (o ∷ others) f e l = elim (Bool-cases (str_eq o.order_id id)) [
    | inl t ↦
        rw (replaced-head p o others (ap (str_eq o.order_id) e ∙ t)) (
          kept (subst (λ v. IsLater v p) (sym (found-head id o q others t f)) l)
            (Grown-self others))
    | inr t ↦
        rw (replaced-later p o others (ap (str_eq o.order_id) e ∙ t))
          (kept (IsLater-self o) (replace-Grown id p q others (found-later id o q others t f) e l))
  ]

  pub find_order-id :
      (id : String) (orders : List (StoredOrder F)) (q : StoredOrder F)
      → find_order id orders ≡ some q
      → q.order_id ≡ id
  find_order-id id [] q f = absurd (ground (arith, f))
  find_order-id id (o ∷ others) q f = elim (Bool-cases (str_eq o.order_id id)) [
    | inl t ↦
        subst (λ (v : StoredOrder F). v.order_id ≡ id) (found-head id o q others t f)
          ((eq_iff o.order_id id).0 t)
    | inr t ↦ find_order-id id others q (found-later id o q others t f)
  ]
