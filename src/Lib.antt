-- ===== src/Lib.antt =====
-- A model of the decision core of autobit, the part that decides whether the bot may trade, how
-- much, and when it must leave, and of its event store, paper broker, alerts and validation
-- policy, from src/autobit/.
--
-- The parts, and how they interact:
--
-- Risk (Risk.antt and Risk/): src/autobit/risk/breakers.py. `evaluate_risk` turns one snapshot of
--   facts into a `RiskDecision`. `accept` is its guards, `restrict` its rules in their order, one
--   function each in Risk/Rules.antt, and `conclude` its return.
-- Accumulation (Accumulation.antt and Accumulation/): src/autobit/core/risk_state.py.
--   `advance_risk_state` folds a bar's observation into the `RiskState` and calls `evaluate_risk`;
--   `apply_health_recovery` lays the health monitor's answer over the decision.
-- Sizing (Sizing.antt, Sizing/Limits.antt): src/autobit/risk/position_sizer.py, `calculate_size`.
-- Strategy (Strategy.antt and Strategy/): src/autobit/strategy/donchian_trend.py, the entry, the
--   exit on a close, and the trailing stop.
-- Engine (Engine.antt and Engine/): src/autobit/core/engine.py and core/models.py. `decide` orders
--   the exits, asks the strategy, sizes the entry by `calculate_size` and moves the stop.
-- Health (Health.antt and Health/): src/autobit/paper/health.py. `Monitor` is `HealthMonitor`'s
--   state, and each `record_*` method a function from a monitor to a monitor and a reply, which
--   is the action or the exception. `settle` is `_finish_observation`. `to_storage` is
--   `_to_storage_mapping`, `from_storage` is `from_mapping`, `validate` is
--   `_validate_snapshot_relationships`. `History` is every sequence of calls from a new monitor.
-- Schedule (Schedule.antt and Schedule/): src/autobit/paper/scheduler.py, the clock functions and
--   `run_once`, a function from the cursor and the clock's readings to the cursor and the outcome.
-- Store (Store.antt and Store/): src/autobit/persistence/sqlite_store.py. Store/Lease.antt is the
--   cycle lease: the metadata row with the counter `user_version`, and a function from state to
--   state for each of the four lease methods, over a ledger that is a parameter. The ledger itself
--   is Payload, Known and Orders (what an event may hold), Replay (`_rebuild_from_events`, a fold
--   over the events with the newest first), Snapshot (the verification of the projections), and
--   Append and Record (the four mutations). A method that raises is rolled back.
-- Alerts (Alerts.antt and Alerts/): src/autobit/alerts/notifier.py, `deliver_alert_once` on the
--   store, which it reads by `replay_and_verify` and writes by `append_event`. The notifier is a
--   parameter; the call is outside a mutation boundary.
-- Broker (Broker.antt and Broker/): src/autobit/execution/paper_broker.py. The broker has no state
--   but the store. Broker/Ledger.antt is `_build_ledger`: Collect is its loop over the events,
--   Stops and Orders what it reads of them, Entries, Executions, Positions, Fills and Ledger/ its
--   checks. Trades has the folds over fills, Execution the size at the open, and Submit, Process,
--   Protect and View the methods, with Submission and Attempts for their parts: functions from a
--   store to a store and an answer. The broker appends by the store's mutations and sizes by
--   `calculate_size`. `lower`, the loop that lowers a size, has the number of floats from 0 up to
--   the size as fuel: each step goes to the next float below. `Clock` and `Platform` are the
--   parameters for `datetime`, `repr` and `math`.
-- Validation (Validation.antt and Validation/): src/autobit/validation/policy.py, the guards of
--   `ValidationInputs` and `classify_validation`.
-- Quality (Quality.antt and Quality/): src/autobit/data/quality.py, the loop that fills the gaps of
--   one candle, on the grid as a list of slots.
-- Domain (Domain.antt and Domain/): src/autobit/domain/, the transition table of a position.
-- Double and Python: the values of Python that the parts share. Prelude: shared helpers.
--
-- Floats. `float` is the interface `Double`: its operations are parameters, and `IsDouble` states
-- what IEEE 754 says of them as far as a theorem needs it. Double/Fixed.antt is one instance, on
-- which the definitions run. `decimal.Decimal` and `math.nextafter` are the interface `Decimals`
-- with the laws `IsDecimals`, of which Health/Tests.antt has an instance. The store's `Decimal`
-- arithmetic is the interface `Decimal` with the laws `IsDecimal`; `str.strip`, SHA-256, JSON
-- texts and the regular expressions are the interfaces `Texts`, `Codec` and `Renderer`, with
-- plain instances in Store/Plain.antt.
--
-- Times are UTC in microseconds since the year 1, as natural numbers. Every loop of these parts
-- is structural recursion on a list, but for the one of `_execution_quantity`, which has fuel.
--
-- Not modelled: integers that are too large for `float()`, times past the year 9999 (outside
-- Schedule, where they raise), the JSON types of a stored payload, the event log under the
-- health monitor, the times that a caller gives the broker as text and its check of the market,
-- SQLite itself (files, schema, DDL, locking and the copy for reading), and the
-- other parts of the program: the paper service, the backtest and validation runs,
-- the collection of data and its other checks, live trading, the alert adapters, reports and the
-- command line. Open in the store: the default time of an order, and lease calls of other
-- connections within one transaction, which SQLite's lock shuts out.
pub mod Prelude
pub mod Double
pub mod Python
pub mod Domain
pub mod Risk
pub mod Accumulation
pub mod Sizing
pub mod Strategy
pub mod Engine
pub mod Health
pub mod Schedule
pub mod Store
pub mod Validation
pub mod Alerts
pub mod Quality
pub mod Broker
