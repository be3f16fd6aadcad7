-- ===== src/Alerts/Sent.antt =====
-- How often `deliver_alert_once` of src/autobit/alerts/notifier.py calls the notifier for a source.
use Prim.Native.String.{String}
use mathlib.Core.Path.{subst}
use auto_bit.Prelude.{
  ◌≡◌, sym, ◌∙◌, ap, Bool, true, false, not, List, ◌++◌, ok, raise_if, OnOk, OnOk->>=, OnOk-ok,
}
use auto_bit.Double.{Double}
use auto_bit.Python.{TimeValue}
use auto_bit.Store.{invalid_value, Texts}
use auto_bit.Store.Payload.{Payload, Codec}
use auto_bit.Store.Orders.{Decimal}
use auto_bit.Store.Replay.{Event}
use auto_bit.Store.Snapshot.{Store, Renderer, replay_and_verify}
use auto_bit.Alerts.{
  Notifier, Delivery, marker_id, marker, matches, require_durable_source, claim, send_claimed,
  deliver_alert_once, nonempty, logical_time, is_alert_source_type,
}
use auto_bit.Alerts.Once.{
  Holds, Claimed, matches-older, send_claimed-Holds, send_claimed-unsent, claim-Claimed,
  claim-again, Claimed-Holds, nonempty-same,
}

module _ {ℓ} {F : Type ℓ} ⦃m : Decimal F⦄ ⦃d : Double F⦄ ⦃j : Codec F⦄ ⦃n : Renderer F⦄ ⦃x : Texts⦄
    ⦃p : Notifier F⦄ where
  sent-Holds :
      (source_id source_type : String) (payload : Payload F) (at : TimeValue) (s : Store F)
      → OnOk
          (λ (r : Delivery F).
            r.sent ≡ true → Holds (marker_id source_id source_type) r.store.events)
          (deliver_alert_once source_id source_type payload at s)
  unfolding deliver_alert_once
  sent-Holds source_id source_type payload at s =
      let P = λ (r : Delivery F).
        r.sent ≡ true → Holds (marker_id source_id source_type) r.store.events in
      OnOk->>= P (nonempty source_id) _ λ i ei. OnOk->>= P (nonempty source_type) _ λ k ek.
        OnOk->>= P (logical_time at) _ λ t _.
          OnOk->>= P (raise_if (not (is_alert_source_type k)) invalid_value) _ λ _ _.
            OnOk->>= P (replay_and_verify s) _ λ r _.
              OnOk->>= P (require_durable_source (matches i s.events) k payload) _ λ _ _.
                OnOk->>= P (claim (marker_id i k) "ALERT_ATTEMPT" (marker i k) t s) _ λ c q sent.
                  subst (λ v. Holds v (send_claimed c.1 i k payload t c.0).store.events)
                    (ap (λ v. marker_id v k) (nonempty-same source_id ei)
                      ∙ ap (λ v. marker_id source_id v) (nonempty-same source_type ek))
                    (send_claimed-Holds (marker_id i k) c.1 i k payload t c.0
                      (Claimed-Holds (marker_id i k) s c (
                        OnOk-ok (Claimed (marker_id i k) s) _
                          (claim-Claimed (marker_id i k) "ALERT_ATTEMPT" (marker i k) t s) q))
                      sent)

  holding-unsent :
      (source_id source_type : String) (payload : Payload F) (at : TimeValue) (s : Store F)
      → Holds (marker_id source_id source_type) s.events
      → OnOk
          (λ (r : Delivery F). r.sent ≡ false)
          (deliver_alert_once source_id source_type payload at s)
  unfolding deliver_alert_once
  holding-unsent source_id source_type payload at s h =
      let P = λ (r : Delivery F). r.sent ≡ false in
      OnOk->>= P (nonempty source_id) _ λ i ei. OnOk->>= P (nonempty source_type) _ λ k ek.
        OnOk->>= P (logical_time at) _ λ t _.
          OnOk->>= P (raise_if (not (is_alert_source_type k)) invalid_value) _ λ _ _.
            OnOk->>= P (replay_and_verify s) _ λ r _.
              OnOk->>= P (require_durable_source (matches i s.events) k payload) _ λ _ _.
                OnOk->>= P (claim (marker_id i k) "ALERT_ATTEMPT" (marker i k) t s) _ λ c q.
                  send_claimed-unsent c.1 i k payload t c.0 (
                    OnOk-ok (λ (c : Store F × Bool). c.1 ≡ false) _
                      (claim-again (marker_id i k) "ALERT_ATTEMPT" (marker i k) t s (
                        subst (λ v. Holds v s.events)
                          (sym (
                            ap (λ v. marker_id v k) (nonempty-same source_id ei)
                            ∙ ap (λ v. marker_id source_id v) (nonempty-same source_type ek)))
                          h))
                      q)

  -- A source is sent at most once: after a call that called the notifier, whatever that did, no
  -- call for the same source calls it, on the store that the first left and on every store that
  -- has newer events on top of its events.
  pub deliver_alert_once-once :
      (source_id source_type : String) (payload later_payload : Payload F) (at later_at : TimeValue)
      (s : Store F) (r : Delivery F) (newer : List (Event F)) (u : Store F)
      → deliver_alert_once source_id source_type payload at s ≡ ok r
      → r.sent ≡ true
      → u.events ≡ newer ++ r.store.events
      → OnOk
          (λ (later : Delivery F). later.sent ≡ false)
          (deliver_alert_once source_id source_type later_payload later_at u)
  deliver_alert_once-once source_id source_type payload later_payload at later_at s r newer u h q
        e =
      holding-unsent source_id source_type later_payload later_at u (
        subst (Holds (marker_id source_id source_type)) (sym e) (
          matches-older (marker_id source_id source_type) newer r.store.events (
            OnOk-ok _ (deliver_alert_once source_id source_type payload at s)
              (sent-Holds source_id source_type payload at s) h q)))
