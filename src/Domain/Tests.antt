-- ===== src/Domain/Tests.antt =====
-- Runs of the transition table, and its theorems at concrete sequences of statuses.
use auto_bit.Prelude.{◌≡◌, refl, [], ◌∷◌}
use auto_bit.Domain.{
  flat, entry_pending, long, exit_pending, created, submitted, partial, completed, moved,
  transition_state,
}
use auto_bit.Domain.Lifecycle.{Life, here, then, HasFill, holding_needs_fill}

-- An entry that is filled in part, and an exit that is completed.
bought : Life flat (created ∷ submitted ∷ partial ∷ []) long
unfolding transition_state
bought = then {t = entry_pending} refl (then {t = entry_pending} refl (then {t = long} refl here))

holding_needs_fill_example : HasFill (created ∷ submitted ∷ partial ∷ [])
holding_needs_fill_example = holding_needs_fill refl refl bought

sold : transition_state exit_pending completed ≡ moved flat
unfolding transition_state
sold = refl
