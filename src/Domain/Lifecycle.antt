-- ===== src/Domain/Lifecycle.antt =====
-- What the transition table of src/autobit/domain/state_machine.py lets happen to a position,
-- over every sequence of order statuses.
use auto_bit.Prelude.{Bool, true, false, ◌≡◌, ◌⊎◌, List, [], ◌∷◌, ◌≢◌, arith, refl, inl, inr}
use auto_bit.Domain.{
  PositionState, flat, long, exit_pending, halted, OrderStatus, partial, completed, moved,
  transition_state,
}

-- A position's life: the statuses that one order or another reported, each accepted.
pub data Life : PositionState → List OrderStatus → PositionState → Type 0 where
  here : {s : PositionState} → Life s [] s
  then :
      {s t u : PositionState} {status : OrderStatus} {rest : List OrderStatus}
      → transition_state s status ≡ moved t
      → Life t rest u
      → Life s (status ∷ rest) u

abbrev pub fills : OrderStatus → Bool
fills partial = true
fills completed = true
fills _ = false

abbrev pub HasFill : List OrderStatus → Type 0
HasFill [] = ⊥
HasFill (status ∷ rest) = (fills status ≡ true) ⊎ HasFill rest

-- The states that hold coins.
abbrev pub holds : PositionState → Bool
holds long = true
holds exit_pending = true
holds _ = false

fill_step :
    (s t : PositionState) (status : OrderStatus)
    → transition_state s status ≡ moved t
    → holds s ≡ false
    → holds t ≡ true
    → fills status ≡ true
unfolding transition_state
fill_step s t status e = ground arith

split : (s : PositionState) → (holds s ≡ true) ⊎ (holds s ≡ false)
split s = ground arith

-- A position that held nothing and holds coins later has seen a fill in between.
pub holding_needs_fill :
    {s u : PositionState} {statuses : List OrderStatus}
    → holds s ≡ false
    → holds u ≡ true
    → Life s statuses u
    → HasFill statuses
holding_needs_fill p q here = cc
holding_needs_fill {s} p q (then {t = t} {status = status} e l) = elim (split t) [
  | inl h ↦ inl (fill_step s t status e p h)
  | inr h ↦ inr (holding_needs_fill h q l)
]

halted_step :
    (s t : PositionState) (status : OrderStatus)
    → transition_state s status ≡ moved t
    → (s ≢ halted) × (t ≢ halted)
unfolding transition_state
halted_step s t status e = (λ h. ground arith, λ h. ground arith)

stays_out :
    {s u : PositionState} {statuses : List OrderStatus}
    → s ≢ halted
    → Life s statuses u
    → u ≢ halted
stays_out h here = h
stays_out {s} h (then {t = t} {status = status} e l) = stays_out (halted_step s t status e).1 l

-- No order status ever moves a position into `HALTED` or out of it.
pub halted_isolated :
    {s u : PositionState} {statuses : List OrderStatus}
    → Life s statuses u
    → (s ≡ u) ⊎ ((s ≢ halted) × (u ≢ halted))
halted_isolated here = inl refl
halted_isolated {s} (then {t = t} {status = status} e l) =
    let apart = halted_step s t status e in inr (apart.0, stays_out apart.1 l)

-- Leaving a position takes a completed exit: only `COMPLETED` on an exit that is pending takes a
-- position that holds coins back to one that holds none.
pub release_needs_completed :
    (s t : PositionState) (status : OrderStatus)
    → holds s ≡ true
    → holds t ≡ false
    → transition_state s status ≡ moved t
    → (s ≡ exit_pending) × (status ≡ completed) × (t ≡ flat)
unfolding transition_state
release_needs_completed s t status p q e = ground arith
