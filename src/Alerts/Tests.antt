-- ===== src/Alerts/Tests.antt =====
-- A run of `deliver_alert_once` with a notifier that refuses, and its theorem there.
use auto_bit.Prelude.{◌≡◌, refl, false, true, [], Result, ok, err, OnOk}
use auto_bit.Double.Fixed.{Fixed, fixed_double}
use auto_bit.Python.{aware}
use auto_bit.Store.{StoreError}
use auto_bit.Store.Known.{validate_known_state_payload}
use auto_bit.Store.Replay.{start, replay, replay_event, apply}
use auto_bit.Store.Snapshot.{
  Store, replay_and_verify, rebuild_from_events, check_snapshots, event_digest,
  verify_order_projection, snapshot_from_components,
}
use auto_bit.Store.Append.{append_event, write}
use auto_bit.Store.Plain.{
  plain_texts, plain_codec, plain_renderer, integer_decimal, state_of, empty_store,
}
use auto_bit.Alerts.{Notifier, refused, skipped, Delivery, claim, deliver_alert_once}
use auto_bit.Alerts.Sent.{deliver_alert_once-once}

instance abbrev refusing : Notifier Fixed
refusing = record { send = λ id name payload. refused; same_payload = λ a b. true }

abbrev cycled : Store Fixed
cycled = state_of empty_store (append_event "cycle" "PAPER_CYCLE" (aware 5) [] empty_store)

abbrev delivery_of : Result StoreError (Delivery Fixed) → Delivery Fixed
delivery_of (ok r) = r
delivery_of (err e) = record { store = cycled; sent = false; answer = skipped }

abbrev first_call : Delivery Fixed
first_call = delivery_of (deliver_alert_once "cycle" "PAPER_CYCLE" [] (aware 6) cycled)

first_runs : deliver_alert_once "cycle" "PAPER_CYCLE" [] (aware 6) cycled ≡ ok first_call
unfolding deliver_alert_once claim append_event write replay_and_verify rebuild_from_events replay
    replay_event start apply validate_known_state_payload check_snapshots event_digest
    verify_order_projection snapshot_from_components
first_runs = refl

first_sent : first_call.sent ≡ true
unfolding deliver_alert_once claim append_event write replay_and_verify rebuild_from_events replay
    replay_event start apply validate_known_state_payload check_snapshots event_digest
    verify_order_projection snapshot_from_components
first_sent = refl

deliver_alert_once-once_example :
    OnOk
      (λ (later : Delivery Fixed). later.sent ≡ false)
      (deliver_alert_once "cycle" "PAPER_CYCLE" [] (aware 7) first_call.store)
deliver_alert_once-once_example =
    deliver_alert_once-once "cycle" "PAPER_CYCLE" [] [] (aware 6) (aware 7) cycled first_call []
      first_call.store first_runs first_sent refl
