-- ===== src/Broker/Tests.antt =====
-- The theorems of the broker at the runs.
pub mod Runs
use Prim.Native.String.{String}
use text.Mathlib.Text.{◌==◌ as str_eq}
use auto_bit.Prelude.{
  ℕ, zero, suc, ◌+◌, ◌*◌, ◌<◌, length, ◌≡◌, refl, Bool, true, false, Option, none, some, List, [],
  ◌∷◌, Result, ok, err, OnOk, arith, if◌then◌else◌, ◌==◌,
}
use auto_bit.Prelude.Int.{ℤ, pos, negsuc, pos_part, neg_part, ◌+ℤ◌, ◌-ℤ◌, ltb_ℤ, leb_ℤ}
use auto_bit.Double.{◌≼◌, ◌≺◌, nought}
use auto_bit.Double.Fixed.{Fixed, nan, num, fixed_double, Fixed-IsDouble}
use auto_bit.Domain.{accepted}
use auto_bit.Schedule.{four_hours, epoch}
use auto_bit.Store.{Texts}
use auto_bit.Store.Payload.{Side, buy, sell}
use auto_bit.Store.Orders.{
  Decimal, order_from_created_payload, validate_order_status_transition, order_status_from_payload,
  fill_from_payload, legal_order_transitions,
}
use auto_bit.Store.Snapshot.{
  Store, Snapshot, row_of, state_after, replay_and_verify, rebuild_from_events, check_snapshots,
  event_digest, verify_order_projection, snapshot_from_components,
}
use auto_bit.Store.Plain.{plain_codec, plain_renderer, integer_decimal, integer-IsDecimal, value_of}
use auto_bit.Broker.{
  BrokerError, Clock, Platform, Evidence, EntryContext, PaperFill, PaperOrder, market,
  order_identity,
}
use auto_bit.Broker.Costs.{computed_fill_price, computed_fee, computed_slippage}
use auto_bit.Python.{aware}
use auto_bit.Store.Known.{validate_known_state_payload}
use auto_bit.Store.Replay.{start, replay, replay_event, apply, account, fill_order}
use auto_bit.Store.Append.{append_event, write}
use auto_bit.Store.Record.{record_order_once, append_fill, transition_order_status}
use auto_bit.Broker.Process.{process_open, process_order, cancel_stops}
use auto_bit.Broker.Attempts.{deactivate_stop}
use auto_bit.Broker.Protect.{set_stop, process_intrabar_stop}
use auto_bit.Broker.View.{PaperReconciliation, reconcile}
use auto_bit.Broker.Orders.{paper_order_from_evidence}
use auto_bit.Broker.Orders.Status.{final_status, check_acceptance}
use auto_bit.Broker.Fills.{paper_fill_from_evidence}
use auto_bit.Broker.Submit.{replay_state, submit_entry, submit_order}
use auto_bit.Broker.Submission.{Costs}
use auto_bit.Broker.Ledger.{
  build_ledger, ledger_of, event_evidence, read_orders, check_projection, check_account,
}
use auto_bit.Broker.Ledger.Ancestry.{validate_ancestry, check_parents}
use auto_bit.Broker.Ledger.Money.{balance_of}
use auto_bit.Broker.Ledger.Protection.{validate_stops}
use auto_bit.Broker.Positions.{validated_position_observations, observations_from}
use auto_bit.Broker.Executions.{validate_executions}
use auto_bit.Broker.Trades.{
  PaperTrade, completed_trades, trades_from, open_entry_identity, paper_source_at_sequence,
  inventory_before_sequence,
}
use auto_bit.Broker.Collect.{Collected, collect, nothing_collected}
use auto_bit.Broker.Stops.{stop_event, stop_trigger}
use auto_bit.Broker.Rounds.{IsExact, Rounds, holder, completed_trades-round_trips}
use auto_bit.Broker.Execution.{execution_quantity, sized_quantity, exceeds_cash, cost}
use auto_bit.Broker.Execution.Ends.{IsFloor, FirstBelow, execution_quantity-ends}
use auto_bit.Broker.Stops.Ladder.{IsOrdered, KeepsGuard, collect-guards}
use auto_bit.Broker.Stops.Trigger.{IsReflected, Fires, collect-triggers}
use auto_bit.Broker.Protect.Tighten.{IsTotal, IsTightened, set_stop-IsTightened}
use auto_bit.Broker.Process.Bounds.{IsCompatible, Returned, process_order-IsPriced}
use auto_bit.Broker.Ledger.Sound.{IsSound, build_ledger-IsSound}
use auto_bit.Broker.Tests.Runs.{
  small_platform, small-IsFloor, small-IsExact, small-IsOrdered, small-IsTotal, small-IsCompatible,
  first_open, second_open, clear_texts, clear_clock, dollars, no_costs, entered, guarded,
}

build_ledger-IsSound_example : OnOk IsSound (build_ledger guarded)
build_ledger-IsSound_example = build_ledger-IsSound small-IsOrdered guarded

set_stop-IsTightened_example :
    OnOk
      (IsTightened guarded)
      (set_stop no_costs second_open (dollars 95) none "TRAIL" none guarded)
set_stop-IsTightened_example =
    set_stop-IsTightened small-IsTotal no_costs second_open (dollars 95) none "TRAIL" none guarded

abbrev evidence_or_none : Result BrokerError (List (Evidence Fixed)) → List (Evidence Fixed)
evidence_or_none (ok evidence) = evidence
evidence_or_none (err e) = []

abbrev guarded_evidence : List (Evidence Fixed)
guarded_evidence = evidence_or_none (event_evidence guarded.events)

collect-guards_example : OnOk KeepsGuard (collect guarded_evidence nothing_collected)
collect-guards_example = collect-guards small-IsOrdered guarded_evidence

-- Decimals that are the fixed-point numbers themselves.
abbrev fixed_decimal : Decimal Fixed
fixed_decimal = record {
  D = Fixed;
  of_float = λ x. x;
  to_float = λ x. x;
  zero = dollars 0;
  hundred = dollars 100;
  add = fixed_double.add;
  sub = fixed_double.sub;
  mul = fixed_double.mul;
  div = fixed_double.div;
  lt = fixed_double.lt;
  eq = fixed_double.eq;
  close = fixed_double.eq;
}

lt_trans_fixed : (x y z : Fixed) → (x ≺ y) ≡ true → (y ≺ z) ≡ true → (x ≺ z) ≡ true
lt_trans_fixed nan y z h k = absurd (ground (arith, h))
lt_trans_fixed (num a) nan z h k = absurd (ground (arith, h))
lt_trans_fixed (num a) (num b) nan h k = absurd (ground (arith, k))
lt_trans_fixed (num a) (num b) (num c) h k = ground (arith, h, k)

le_of_lt_fixed : (x y : Fixed) → (x ≺ y) ≡ true → (x ≼ y) ≡ true
le_of_lt_fixed nan y h = absurd (ground (arith, h))
le_of_lt_fixed (num a) nan h = absurd (ground (arith, h))
le_of_lt_fixed (num a) (num b) h = ground (arith, h)

fixed-IsOrdered : IsOrdered Fixed ⦃m = fixed_decimal⦄
fixed-IsOrdered = record { lt_trans = lt_trans_fixed }

fixed-IsReflected : IsReflected Fixed ⦃m = fixed_decimal⦄
fixed-IsReflected = record { le_of_lt = le_of_lt_fixed }

collect-triggers_example :
    OnOk
      (λ (s : Collected Fixed).
        Fires s.stops.open_stops second_open
          (dollars 95)
          (dollars 80)
          (stop_trigger second_open (dollars 95) (dollars 80) s.stops.open_stops))
      (collect ⦃m = fixed_decimal⦄ guarded_evidence nothing_collected)
collect-triggers_example =
    collect-triggers ⦃m = fixed_decimal⦄ fixed-IsOrdered fixed-IsReflected Fixed-IsDouble
      guarded_evidence second_open (dollars 95) (dollars 80) refl

abbrev trade_fill : String → Side → ℕ → Fixed → ℕ → PaperFill Fixed
trade_fill id side millionths price t = record {
  fill_id = "fill";
  order_id = id;
  side = side;
  reason = "TEST";
  quantity = num (pos millionths);
  reference_price = price;
  fill_price = price;
  fee = num (pos 0);
  slippage = num (pos 0);
  fill_time = t;
}

-- A round trip with two sales, and a purchase that is half sold.
abbrev some_fills : List (PaperFill Fixed)
some_fills =
    trade_fill "a" buy 500000 (dollars 100) 1
    ∷ trade_fill "b" sell 300000 (dollars 110) 2
    ∷ trade_fill "c" sell 200000 (dollars 120) 3
    ∷ trade_fill "d" buy 400000 (dollars 100) 4
    ∷ trade_fill "e" sell 200000 (dollars 90) 5
    ∷ []

some_fills_runs : open_entry_identity some_fills ≡ ok "d"
unfolding open_entry_identity
some_fills_runs = refl

completed_trades-round_trips_example :
    OnOk
      (λ (trades : List (PaperTrade Fixed)).
        (held : Option (PaperFill Fixed)) × Rounds some_fills trades held
        × (open_entry_identity some_fills ≡ holder small-IsExact held))
      (completed_trades some_fills)
completed_trades-round_trips_example =
    completed_trades-round_trips small-IsExact some_fills (refl, (refl, (refl, (refl, (refl, tt)))))

abbrev small_context : EntryContext Fixed
small_context = record {
  signal_price = dollars 100;
  entry_atr = dollars 2;
  initial_atr_mult = dollars 2;
  baseline_atr_pct = num (pos 20000);
  risk_rate = num (pos 10000);
  exposure_cap = num (pos 500000);
  risk_event_id = "risk";
}

execution_quantity-ends_example :
    (q : Fixed) × (execution_quantity (num (pos 500)) small_context (dollars 100) (dollars 100)
      ≡ some q)
    × FirstBelow
        (exceeds_cash (num (pos 500)) (dollars 100) (dollars 100))
        (sized_quantity (num (pos 500)) small_context (dollars 100) (dollars 100))
        q
    × ((nought ≺ q) ≡ true
        → ltb_ℤ (value_of (dollars 100)) (cost (num (pos 500)) (dollars 100) q) ≡ false)
execution_quantity-ends_example =
    execution_quantity-ends small-IsFloor (num (pos 500)) small_context (dollars 100) (dollars 100)

abbrev snapshot_or : Snapshot Fixed → Result BrokerError (Snapshot Fixed) → Snapshot Fixed
snapshot_or s (ok t) = t
snapshot_or s (err e) = s

abbrev entered_snapshot : Snapshot Fixed
entered_snapshot = snapshot_or (state_after [] start) (replay_state entered)

entered_replays : replay_state entered ≡ ok entered_snapshot
unfolding submit_entry build_ledger ledger_of submit_order append_event write replay_and_verify
    rebuild_from_events replay replay_event start apply validate_known_state_payload check_snapshots
    event_digest verify_order_projection snapshot_from_components event_evidence read_orders
    check_projection check_account collect order_identity record_order_once transition_order_status
    validate_executions validate_ancestry check_parents balance_of completed_trades trades_from
    validate_stops validated_position_observations observations_from stop_event
    order_from_created_payload validate_order_status_transition order_status_from_payload
    paper_order_from_evidence process_open process_order append_fill fill_from_payload account
    fill_order computed_fill_price computed_fee computed_slippage set_stop open_entry_identity
    process_intrabar_stop stop_trigger paper_source_at_sequence inventory_before_sequence
    legal_order_transitions final_status check_acceptance paper_fill_from_evidence cancel_stops
    deactivate_stop reconcile replay_state
entered_replays = refl

abbrev accepted_entry : PaperOrder Fixed
accepted_entry = record {
  order_id = "paper-order:KRW-BTC:T0:BUY:ENTRY:ROOT";
  idempotency_key = "KRW-BTC:T0:BUY:ENTRY:ROOT";
  side = buy;
  reason = "ENTRY";
  signal_at = epoch;
  requested_quantity = num (pos 500000);
  filled_quantity = num (pos 0);
  remainder_quantity = num (pos 500000);
  status = accepted;
  order_kind = market;
  parent_order_id = none;
  eligible_open = first_open;
  fee_rate = num (pos 0);
  slippage_rate = num (pos 0);
  execution_context = none;
}

process_order-IsPriced_example :
    OnOk
      (Returned accepted_entry (dollars 100) entered_snapshot)
      (process_order accepted_entry first_open (dollars 100) none [] entered)
process_order-IsPriced_example =
    process_order-IsPriced small-IsCompatible accepted_entry first_open (dollars 100) none []
      entered entered_snapshot entered_replays
