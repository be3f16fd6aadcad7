-- ===== src/Store/Tests.antt =====
-- Runs of the store on fixed-point numbers, and its theorems at concrete calls.
use Prim.Native.String.{String}
use text.Mathlib.TextEquality.{eq_iff}
use auto_bit.Prelude.{
  ℕ, true, false, ◌≡◌, ◌≢◌, refl, none, some, List, [], ◌∷◌, ◌++◌, ◌≤◌, OnOk, Result, ok, err,
  arith,
}
use auto_bit.Prelude.Int.{pos}
use auto_bit.Double.Fixed.{Fixed, num, fixed_double}
use auto_bit.Domain.{created, canceled}
use auto_bit.Python.{aware}
use auto_bit.Store.{StoreError}
use auto_bit.Store.Lease.{
  State, absent, validate_identity, next_cycle_lease_epoch, write_epoch,
  replay_and_verify as replay_and_verify_lease, acquire_cycle_lease_epoch,
}
use auto_bit.Store.Takeover.{here, takeover-IsFencedOut, IsFencedOut}
use auto_bit.Store.Taking.{IsFreeAt, acquire_cycle_lease_epoch-granted}
use auto_bit.Store.Payload.{buy}
use auto_bit.Store.Known.{validate_known_state_payload}
use auto_bit.Store.Orders.{
  legal_order_transitions, validate_order_status_transition, order_from_created_payload,
  fill_from_payload, order_status_from_payload,
}
use auto_bit.Store.Replay.{Ledger, start, replay, replay_event, account, fill_order, apply}
use auto_bit.Store.Snapshot.{
  Store, replay_and_verify, rebuild_from_events, check_snapshots, event_digest,
  verify_order_projection, snapshot_from_components,
}
use auto_bit.Store.Accounts.{IsSolvent}
use auto_bit.Store.Chronicle.{IsInOrder, replay-IsInOrder}
use auto_bit.Store.Lifecycle.{Grown}
use auto_bit.Store.Evolution.{replay-Grown}
use auto_bit.Store.Solvency.{replay-IsSolvent}
use auto_bit.Store.Retry.{append_fill-again, transition_order_status-again}
use auto_bit.Store.Append.{write}
use auto_bit.Store.Record.{record_order_once, append_fill, transition_order_status}
use auto_bit.Store.Plain.{
  plain_texts, plain_codec, plain_renderer, integer_decimal, integer-IsDecimal, state_of,
  empty_store,
}

abbrev verify_nothing : Unit {0} → Result StoreError (Unit {0})
verify_nothing u = ok tt

abbrev unleased : State (Unit {0})
unleased = record { ledger = tt; user_version = some 0; row = absent }

abbrev taken : State (Unit {0})
taken =
    state_of unleased
      (acquire_cycle_lease_epoch verify_nothing "a" "x" (aware 5) (aware 9) unleased)

first_taken :
    acquire_cycle_lease_epoch verify_nothing "a" "x" (aware 5) (aware 9) unleased
    ≡ ok (taken, some 1)
unfolding acquire_cycle_lease_epoch validate_identity next_cycle_lease_epoch
first_taken = refl

abbrev taken_over : State (Unit {0})
taken_over =
    state_of taken (acquire_cycle_lease_epoch verify_nothing "b" "y" (aware 9) (aware 12) taken)

second_taken :
    acquire_cycle_lease_epoch verify_nothing "b" "y" (aware 9) (aware 12) taken
    ≡ ok (taken_over, some 2)
unfolding acquire_cycle_lease_epoch validate_identity next_cycle_lease_epoch
second_taken = refl

different : ◌≢◌ {A = String} "a" "b"
different h = ground (arith, (eq_iff "a" "b").1 h)

takeover-IsFencedOut_example : IsFencedOut verify_nothing "a" 1 taken_over
takeover-IsFencedOut_example =
    takeover-IsFencedOut verify_nothing "a" "b" "x" "y" (aware 5) (aware 9) (aware 9) (aware 12) 1 2
      unleased different first_taken here second_taken here

-- An order on the empty store, and a fill and a cancellation of that order.
abbrev coin : Fixed
coin = num (pos 1000000)

abbrev half_coin : Fixed
half_coin = num (pos 500000)

abbrev ordered : Store Fixed
ordered = state_of empty_store (record_order_once "k" buy coin "o" (aware 5) created empty_store)

abbrev filled : Store Fixed
filled = state_of ordered (append_fill "o" buy half_coin coin coin (aware 6) none ordered)

fill_runs : append_fill "o" buy half_coin coin coin (aware 6) none ordered ≡ ok (filled, true)
unfolding append_fill record_order_once write replay_and_verify rebuild_from_events replay
    replay_event start account fill_order apply validate_known_state_payload
    validate_order_status_transition check_snapshots event_digest verify_order_projection
    order_from_created_payload fill_from_payload order_status_from_payload snapshot_from_components
fill_runs = refl

append_fill-again_example :
    append_fill "o" buy half_coin coin coin (aware 6) none filled ≡ ok (filled, false)
append_fill-again_example =
    append_fill-again "o" buy half_coin coin coin (aware 6) none ordered filled fill_runs

abbrev cut_short : Store Fixed
cut_short =
    state_of filled (transition_order_status "o" "stop" canceled (aware 7) (some "late") filled)

cancel_runs :
    transition_order_status "o" "stop" canceled (aware 7) (some "late") filled
    ≡ ok (cut_short, true)
unfolding transition_order_status append_fill record_order_once write replay_and_verify
    rebuild_from_events replay replay_event start account fill_order apply
    validate_known_state_payload validate_order_status_transition legal_order_transitions
    check_snapshots event_digest verify_order_projection order_from_created_payload
    fill_from_payload order_status_from_payload snapshot_from_components
cancel_runs = refl

transition_order_status-again_example :
    transition_order_status "o" "stop" canceled (aware 7) (some "late") cut_short
    ≡ ok (cut_short, false)
transition_order_status-again_example =
    transition_order_status-again "o" "stop" canceled (aware 7) (some "late") filled cut_short
      cancel_runs

replay-IsSolvent_example : OnOk IsSolvent (replay cut_short.events)
replay-IsSolvent_example = replay-IsSolvent integer-IsDecimal cut_short.events

replay-IsInOrder_example : OnOk (λ _. IsInOrder cut_short.events) (replay cut_short.events)
replay-IsInOrder_example = replay-IsInOrder cut_short.events

abbrev ledger_of : Result StoreError (Ledger Fixed) → Ledger Fixed
ledger_of (ok r) = r
ledger_of (err e) = record {
  cash = pos 0;
  btc_quantity = pos 0;
  btc_cost_basis = pos 0;
  last_price = none;
  breaker_state = [];
  health_state = [];
  orders = [];
  previous_timestamp = none;
  last_sequence = 0;
}

abbrev before : Ledger Fixed
before = ledger_of (replay filled.events)

abbrev newest {ℓ} : {A : Type ℓ} → List A → List A
newest [] = []
newest (a ∷ rest) = a ∷ []

filled_replays : replay filled.events ≡ ok before
unfolding append_fill record_order_once write replay_and_verify rebuild_from_events replay
    replay_event start account fill_order apply validate_known_state_payload
    validate_order_status_transition legal_order_transitions check_snapshots event_digest
    verify_order_projection order_from_created_payload fill_from_payload order_status_from_payload
    snapshot_from_components
filled_replays = refl

replay-Grown_example :
    OnOk
      (λ (p : Ledger Fixed). Grown before.orders p.orders)
      (replay (newest cut_short.events ++ filled.events))
replay-Grown_example = replay-Grown (newest cut_short.events) filled.events before filled_replays

taken_verifies : replay_and_verify_lease verify_nothing taken ≡ ok tt
unfolding acquire_cycle_lease_epoch validate_identity next_cycle_lease_epoch
taken_verifies = refl

taken_known : taken.user_version ≡ some 1
unfolding acquire_cycle_lease_epoch validate_identity next_cycle_lease_epoch
taken_known = refl

taken_free : IsFreeAt 9 taken.row
unfolding acquire_cycle_lease_epoch validate_identity next_cycle_lease_epoch
taken_free = omega arith

acquire_cycle_lease_epoch-granted_example :
    (e : ℕ) × (1 ≤ e)
    × (acquire_cycle_lease_epoch verify_nothing "b" "y" (aware 9) (aware 12) taken
        ≡ ok (write_epoch "b" "y" 12 (some e) taken, some e))
acquire_cycle_lease_epoch-granted_example =
    acquire_cycle_lease_epoch-granted verify_nothing "b" "y" 9 12 1 taken refl refl (omega arith)
      taken_verifies taken_known (omega arith) taken_free
