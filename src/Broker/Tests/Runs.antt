-- ===== src/Broker/Tests/Runs.antt =====
-- A small store with the runs of the broker on it: an entry, its purchase, a stop, and the candle
-- that triggers it. The laws of its interfaces.
use text.Mathlib.Text.{◌==◌ as str_eq}
use auto_bit.Prelude.{
  ℕ, zero, suc, ◌+◌, ◌*◌, ◌<◌, length, ◌≡◌, refl, true, false, Option, none, some, [], ◌∷◌, Result,
  ok, err, arith, if◌then◌else◌, ◌==◌,
}
use auto_bit.Prelude.Int.{ℤ, pos, negsuc, ◌+ℤ◌, ◌-ℤ◌, ltb_ℤ}
use auto_bit.Double.{◌≺◌, nought}
use auto_bit.Double.Fixed.{Fixed, nan, num, fixed_double}
use auto_bit.Schedule.{four_hours, epoch}
use auto_bit.Store.{Texts}
use auto_bit.Store.Orders.{
  order_from_created_payload, validate_order_status_transition, order_status_from_payload,
  fill_from_payload, legal_order_transitions,
}
use auto_bit.Store.Snapshot.{
  Store, row_of, state_after, replay_and_verify, rebuild_from_events, check_snapshots, event_digest,
  verify_order_projection, snapshot_from_components,
}
use auto_bit.Store.Plain.{plain_codec, plain_renderer, integer_decimal, integer-IsDecimal, value_of}
use auto_bit.Broker.{BrokerError, Clock, Platform, order_identity}
use auto_bit.Broker.Costs.{computed_fill_price, computed_fee, computed_slippage}
use auto_bit.Python.{aware}
use auto_bit.Store.Known.{validate_known_state_payload}
use auto_bit.Store.Replay.{start, replay, replay_event, apply, account, fill_order}
use auto_bit.Store.Append.{append_event, write}
use auto_bit.Store.Record.{record_order_once, append_fill, transition_order_status}
use auto_bit.Broker.Process.{process_open, process_order, cancel_stops}
use auto_bit.Broker.Attempts.{deactivate_stop}
use auto_bit.Broker.Protect.{set_stop, process_intrabar_stop}
use auto_bit.Broker.View.{PaperReconciliation, reconcile}
use auto_bit.Broker.Orders.{paper_order_from_evidence}
use auto_bit.Broker.Orders.Status.{final_status, check_acceptance}
use auto_bit.Broker.Fills.{paper_fill_from_evidence}
use auto_bit.Broker.Submit.{replay_state, submit_entry, submit_order}
use auto_bit.Broker.Submission.{Costs}
use auto_bit.Broker.Ledger.{
  build_ledger, ledger_of, event_evidence, read_orders, check_projection, check_account,
}
use auto_bit.Broker.Ledger.Ancestry.{validate_ancestry, check_parents}
use auto_bit.Broker.Ledger.Money.{balance_of}
use auto_bit.Broker.Ledger.Protection.{validate_stops}
use auto_bit.Broker.Positions.{validated_position_observations, observations_from}
use auto_bit.Broker.Executions.{validate_executions}
use auto_bit.Broker.Trades.{
  completed_trades, trades_from, open_entry_identity, paper_source_at_sequence,
  inventory_before_sequence,
}
use auto_bit.Broker.Collect.{collect}
use auto_bit.Broker.Stops.{stop_event, stop_trigger}
use auto_bit.Broker.Rounds.{IsExact}
use auto_bit.Broker.Execution.Ends.{IsFloor}
use auto_bit.Broker.Stops.Ladder.{IsOrdered}
use auto_bit.Broker.Protect.Tighten.{IsTotal}
use auto_bit.Broker.Process.Bounds.{IsCompatible}

abbrev predecessor : ℕ → ℕ
predecessor zero = 0
predecessor (suc n) = n

abbrev step_down : Fixed → Fixed
step_down (num (pos n)) = num (pos (predecessor n))
step_down x = x

abbrev height : Fixed → ℕ
height (num (pos n)) = n
height x = 0

instance abbrev pub small_platform : Platform Fixed
small_platform = record {
  repr = λ x. "number";
  inner = λ s. [];
  pairs = λ s. [];
  nextafter = step_down;
  rank = height;
}

steps_down : (x : Fixed) → (nought ≺ x) ≡ true → height (step_down x) < height x
steps_down nan h = absurd (ground (arith, h))
steps_down (num (pos zero)) h = absurd (ground (arith, h))
steps_down (num (pos (suc n))) h = omega arith
steps_down (num (negsuc n)) h = absurd (ground (arith, h))

pub small-IsFloor : IsFloor Fixed
small-IsFloor = record { nextafter-descends = steps_down }

zero-add_ℤ : (z : ℤ) → pos 0 +ℤ z ≡ z
zero-add_ℤ (pos n) = ground arith
zero-add_ℤ (negsuc n) = ground arith

pos-nonzero : (a : ℤ) → ltb_ℤ (pos 0) a ≡ true → integer_decimal.eq a (pos 0) ≡ false
pos-nonzero (pos n) h = ground (arith, h)
pos-nonzero (negsuc n) h = absurd (ground (arith, h))

zero-below : (a : ℤ) → integer_decimal.eq a (pos 0) ≡ true → ltb_ℤ (pos 0) a ≡ false
zero-below (pos n) h = ground (arith, h)
zero-below (negsuc n) h = ground (arith, h)

above_ℤ : (a b : ℤ) → ltb_ℤ a b ≡ false → integer_decimal.eq a b ≡ false → ltb_ℤ b a ≡ true
above_ℤ a b h k = ground (arith, h, k)

difference-nonneg_ℤ : (a b : ℤ) → ltb_ℤ a b ≡ false → ltb_ℤ (a -ℤ b) (pos 0) ≡ false
difference-nonneg_ℤ a b h = integer-IsDecimal.sub_nonneg a b h

below_ℤ :
    (bound x y : Fixed)
    → ltb_ℤ (value_of bound) (value_of x) ≡ false
    → (y ≺ x) ≡ true
    → ltb_ℤ (value_of bound) (value_of y) ≡ false
below_ℤ bound nan y h k = absurd (ground (arith, k))
below_ℤ bound (num a) nan h k = absurd (ground (arith, k))
below_ℤ bound (num a) (num b) h k = ground (arith, h, k)

pub small-IsExact : IsExact Fixed
small-IsExact = record {
  zero_add = λ x. zero-add_ℤ (value_of x);
  zero_is_zero = refl;
  pos_nonzero = pos-nonzero;
  zero_not_pos = zero-below;
  sub_pos = λ a b h k. above_ℤ (a -ℤ b) (pos 0) (difference-nonneg_ℤ a b h) k;
}

pub small-IsOrdered : IsOrdered Fixed
small-IsOrdered = record { lt_trans = λ x y z h k. ground (arith, h, k) }

pub small-IsTotal : IsTotal Fixed
small-IsTotal = record { lt_of_not = λ x y. above_ℤ (value_of x) (value_of y) }

pub small-IsCompatible : IsCompatible Fixed
small-IsCompatible = record { below = below_ℤ }

-- Three boundaries and their texts.
abbrev pub first_open : ℕ
first_open = epoch + four_hours

abbrev pub second_open : ℕ
second_open = epoch + 2 * four_hours

instance abbrev pub clear_texts : Texts
clear_texts = record {
  strip = λ s. s;
  sha256 = λ s. s;
  is_reason = λ s. true;
  is_canonical_utc = λ s. true;
  utc_text = λ t.
      if t == epoch
      then "T0"
      else if t == first_open
      then "T1"
      else if t == second_open
      then "T2"
      else "T";
}

instance abbrev pub clear_clock : Clock
clear_clock = record {
  instant = λ s.
      if str_eq s "T0"
      then some epoch
      else if str_eq s "T1"
      then some first_open
      else if str_eq s "T2"
      then some second_open
      else none;
}

abbrev pub dollars : ℕ → Fixed
dollars n = num (pos (n * 1000000))

abbrev pub no_costs : Costs Fixed
no_costs = record { fee_rate = num (pos 0); slippage_rate = num (pos 0) }

abbrev empty : Store Fixed
empty = record {
  events = [];
  recorded_tail = 0;
  orders = [];
  snapshots = row_of {F = Fixed} (state_after [] start) (aware epoch) ∷ [];
}

abbrev store_of {ℓ} : {A : Type ℓ} → Result BrokerError (Store Fixed × A) → Store Fixed
store_of (ok r) = r.0
store_of (err e) = empty

-- An entry at the first boundary, of half a coin.
abbrev pub entered : Store Fixed
entered = store_of (submit_entry no_costs epoch (num (pos 500000)) "ENTRY" none empty)

-- Its purchase at the next open, at 100.
abbrev bought : Store Fixed
bought =
    store_of
      (process_open "paper-order:KRW-BTC:T0:BUY:ENTRY:ROOT" first_open (dollars 100) none entered)

-- A stop at 90 from the second boundary on.
abbrev pub guarded : Store Fixed
guarded = store_of (set_stop no_costs first_open (dollars 90) none "HARD_STOP" none bought)

-- The candle there opens at 95 and falls to 80.
abbrev stopped_out : Store Fixed
stopped_out = store_of (process_intrabar_stop second_open (dollars 95) (dollars 80) guarded)

abbrev outcome : Result BrokerError (PaperReconciliation Fixed) → Option (Fixed × Fixed × ℕ)
outcome (ok r) = some (r.cash, r.btc_quantity, length r.completed_trades)
outcome (err e) = none

-- The account has lost half of the ten dollars, with one trade.
stopped_out_runs : outcome (reconcile stopped_out) ≡ some (dollars 95, dollars 0, 1)
unfolding submit_entry build_ledger ledger_of submit_order append_event write replay_and_verify
    rebuild_from_events replay replay_event start apply validate_known_state_payload check_snapshots
    event_digest verify_order_projection snapshot_from_components event_evidence read_orders
    check_projection check_account collect order_identity record_order_once transition_order_status
    validate_executions validate_ancestry check_parents balance_of completed_trades trades_from
    validate_stops validated_position_observations observations_from stop_event
    order_from_created_payload validate_order_status_transition order_status_from_payload
    paper_order_from_evidence process_open process_order append_fill fill_from_payload account
    fill_order computed_fill_price computed_fee computed_slippage set_stop open_entry_identity
    process_intrabar_stop stop_trigger paper_source_at_sequence inventory_before_sequence
    legal_order_transitions final_status check_acceptance paper_fill_from_evidence cancel_stops
    deactivate_stop reconcile replay_state
stopped_out_runs = refl
