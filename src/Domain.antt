-- ===== src/Domain.antt =====
-- src/autobit/domain/models.py and src/autobit/domain/state_machine.py: the states of a position,
-- the statuses of an order, and the table that moves the one by the other.
pub mod Lifecycle
mod Tests
use auto_bit.Prelude.{Bool, true, false, Option, none, some, List, [], ◌∷◌}

pub data PositionState : Type 0 where
  flat entry_pending long exit_pending halted : PositionState

pub data OrderStatus : Type 0 where
  created submitted accepted partial completed canceled expired insufficient_cash rejected :
      OrderStatus

-- `_TRANSITIONS`; a pair that the table lacks is `none`.
transitions : PositionState → OrderStatus → Option PositionState
transitions flat created = some entry_pending
transitions flat submitted = some entry_pending
transitions entry_pending created = some entry_pending
transitions entry_pending submitted = some entry_pending
transitions entry_pending accepted = some entry_pending
transitions entry_pending partial = some long
transitions entry_pending completed = some long
transitions entry_pending canceled = some flat
transitions entry_pending expired = some flat
transitions entry_pending insufficient_cash = some flat
transitions entry_pending rejected = some flat
transitions long created = some exit_pending
transitions long submitted = some exit_pending
transitions exit_pending created = some exit_pending
transitions exit_pending submitted = some exit_pending
transitions exit_pending accepted = some exit_pending
transitions exit_pending partial = some exit_pending
transitions exit_pending completed = some flat
transitions exit_pending canceled = some long
transitions exit_pending expired = some long
transitions exit_pending insufficient_cash = some long
transitions exit_pending rejected = some long
transitions _ _ = none

-- `transition_state`: the new state, or the exception `InvalidTransition` with both names.
pub data Transition : Type 0 where
  moved : PositionState → Transition
  invalid_transition : PositionState → OrderStatus → Transition

unfoldable pub transition_state : PositionState → OrderStatus → Transition
unfolding transitions
transition_state current status = elim (transitions current status) [
  | some next ↦ moved next
  | none ↦ invalid_transition current status
]
