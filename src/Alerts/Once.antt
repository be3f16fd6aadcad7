-- ===== src/Alerts/Once.antt =====
-- The attempts that `deliver_alert_once` of src/autobit/alerts/notifier.py records.
use Prim.Native.String.{String}
use text.Mathlib.Text.{◌==◌ as str_eq}
use text.Mathlib.TextEquality.{eq_iff}
use mathlib.Core.Path.{subst}
use auto_bit.Prelude.{
  ℕ, ◌≡◌, refl, sym, Bool, true, false, not, List, [], ◌∷◌, ◌++◌, Result, ok, err, raise_if, arith,
  OnOk, OnOk->>=, OnOk-ok, is_nonempty, is_some, Bool-cases, all,
}
use auto_bit.Double.{Double}
use auto_bit.Python.{TimeValue}
use auto_bit.Store.{
  StoreError, invalid_value, store_error, corruption, conflict, lease_lost, integrity_error, Texts,
  nonempty_text, canonical_timestamp,
}
use auto_bit.Store.Payload.{Payload, Codec}
use auto_bit.Store.Known.{validate_known_state_payload}
use auto_bit.Store.Orders.{Decimal}
use auto_bit.Store.Replay.{Event}
use auto_bit.Store.Snapshot.{Store, Renderer, replay_and_verify}
use auto_bit.Store.Append.{
  append_event, find_event, validate_timestamp_order, new_event, write, is_json_number,
}
use auto_bit.Store.Fencing.{nonempty_text-same}
use auto_bit.Store.Written.{IsWritten, write-IsWritten}
use auto_bit.Alerts.{
  Notifier, Sending, delivered, refused, raised, failure_id, matches, require_exact, after_append,
  append_exact_once, claim, mark_failure, after_send, send_claimed, monotonic_time, nonempty,
}

module _ {ℓ} {F : Type ℓ} where
  -- The events hold one with this id.
  abbrev pub Holds : String → List (Event F) → Type 0
  Holds id events = is_nonempty (matches id events) ≡ true

  matches-head :
      (id : String) (e : Event F) (older : List (Event F))
      → str_eq e.event_id id ≡ true
      → Holds id (e ∷ older)
  matches-head id e older h = ground (arith, h)

  pub matches-older :
      (id : String) (newer older : List (Event F)) → Holds id older → Holds id (newer ++ older)
  matches-older id [] older h = h
  matches-older id (e ∷ newer) older h =
      ground (arith, Bool-cases (str_eq e.event_id id), matches-older id newer older h)

pub nonempty-same : (t : String) {u : String} → nonempty t ≡ ok u → u ≡ t
nonempty-same t h = ground (arith, h)

module _ {ℓ} {F : Type ℓ} ⦃m : Decimal F⦄ ⦃d : Double F⦄ ⦃j : Codec F⦄ ⦃n : Renderer F⦄
    ⦃x : Texts⦄ where
  -- An append puts one event on top, under its id.
  pub record IsAppended (id : String) (s t : Store F) : Type ℓ where
    pub event : Event F
    pub named : event.event_id ≡ id
    pub on_top : t.events ≡ event ∷ s.events

  pub append_event-IsAppended :
      (id name : String) (at : TimeValue) (payload : Payload F) (s : Store F)
      → OnOk (λ (p : Store F × ℕ). IsAppended id s p.0) (append_event id name at payload s)
  unfolding append_event
  append_event-IsAppended id name at payload s =
      let P = λ (p : Store F × ℕ). IsAppended id s p.0 in
      OnOk->>= P (nonempty_text id) _ λ i ei. OnOk->>= P (nonempty_text name) _ λ k _.
        OnOk->>= P (canonical_timestamp at) _ λ t _.
          OnOk->>= P (validate_known_state_payload invalid_value k payload) _ λ _ _.
            OnOk->>= P
              (raise_if (not (all (λ entry. is_json_number entry.1) payload)) invalid_value) _
              λ _ _. OnOk->>= P (replay_and_verify s) _ λ r _.
                OnOk->>= P (raise_if (is_some (find_event i s.events)) conflict) _ λ _ _.
                  OnOk->>= P (validate_timestamp_order s.events t) _ λ _ _.
                    OnOk->>= P (write (new_event s i k t payload) s.orders s) _ λ after q.
                      let w =
                        OnOk-ok (IsWritten (new_event s i k t payload) s) _
                          (write-IsWritten (new_event s i k t payload) s.orders s) q in
                      record {
                        event = new_event s i k t payload;
                        named = nonempty_text-same id ei;
                        on_top = w.events;
                      }

  module _ ⦃p : Notifier F⦄ where
    -- What a claim does: nothing, or it appends the event.
    pub data Claimed (id : String) (s : Store F) : Store F × Bool → Type ℓ where
      there : Claimed id s (s, false)
      appended : {t : Store F} → IsAppended id s t → Claimed id s (t, true)

    after_append-Claimed :
        (result : Result StoreError (Store F × ℕ)) (id event_type : String) (payload : Payload F)
        (found : List (Event F)) (s : Store F)
        → OnOk (λ (c : Store F × ℕ). IsAppended id s c.0) result
        → OnOk (Claimed id s) (after_append result s found event_type payload)
    after_append-Claimed (ok c) id event_type payload found s h = appended h
    after_append-Claimed (err conflict) id event_type payload found s h =
        OnOk->>= (Claimed id s) (require_exact found event_type payload) _ λ _ _. there
    after_append-Claimed (err invalid_value) id event_type payload found s h = tt
    after_append-Claimed (err store_error) id event_type payload found s h = tt
    after_append-Claimed (err corruption) id event_type payload found s h = tt
    after_append-Claimed (err lease_lost) id event_type payload found s h = tt
    after_append-Claimed (err integrity_error) id event_type payload found s h = tt

    append_exact_once-Claimed :
        (found : List (Event F)) (id event_type : String) (payload : Payload F) (logical : ℕ)
        (s : Store F)
        → OnOk (Claimed id s) (append_exact_once found id event_type payload logical s)
    append_exact_once-Claimed [] id event_type payload logical s =
        after_append-Claimed
          (append_event id event_type (monotonic_time s.events logical) payload s) id event_type
          payload (matches id s.events) s
          (append_event-IsAppended id event_type (monotonic_time s.events logical) payload s)
    append_exact_once-Claimed (e ∷ more) id event_type payload logical s =
        OnOk->>= (Claimed id s) (require_exact (e ∷ more) event_type payload) _ λ _ _. there

    pub claim-Claimed :
        (id event_type : String) (payload : Payload F) (logical : ℕ) (s : Store F)
        → OnOk (Claimed id s) (claim id event_type payload logical s)
    unfolding claim
    claim-Claimed id event_type payload logical s =
        OnOk->>= (Claimed id s) (replay_and_verify s) _
          λ r _. append_exact_once-Claimed (matches id s.events) id event_type payload logical s

    found-again :
        (found : List (Event F)) (id event_type : String) (payload : Payload F) (logical : ℕ)
        (s : Store F)
        → is_nonempty found ≡ true
        → OnOk
            (λ (c : Store F × Bool). c.1 ≡ false)
            (append_exact_once found id event_type payload logical s)
    found-again [] id event_type payload logical s h = absurd (ground (arith, h))
    found-again (e ∷ more) id event_type payload logical s h =
        OnOk->>= (λ (c : Store F × Bool). c.1 ≡ false) (require_exact (e ∷ more) event_type payload)
          _ λ _ _. refl

    -- An attempt that is there already is not claimed again.
    pub claim-again :
        (id event_type : String) (payload : Payload F) (logical : ℕ) (s : Store F)
        → Holds id s.events
        → OnOk (λ (c : Store F × Bool). c.1 ≡ false) (claim id event_type payload logical s)
    unfolding claim
    claim-again id event_type payload logical s h =
        OnOk->>= (λ (c : Store F × Bool). c.1 ≡ false) (replay_and_verify s) _
          λ r _. found-again (matches id s.events) id event_type payload logical s h

    -- A claim of one event leaves the others there.
    kept-by :
        (id other : String) (s : Store F) (c : Store F × Bool)
        → Claimed other s c
        → Holds id s.events
        → Holds id c.0.events
    kept-by id other s _ there h = h
    kept-by id other s _ (appended a) h =
        subst (Holds id) (sym a.on_top) (matches-older id (a.event ∷ []) s.events h)

    pub Claimed-Holds :
        (id : String) (s : Store F) (c : Store F × Bool)
        → Claimed id s c
        → c.1 ≡ true
        → Holds id c.0.events
    Claimed-Holds id s _ there h = absurd (ground (arith, h))
    Claimed-Holds id s _ (appended a) h =
        subst (Holds id) (sym a.on_top)
          (matches-head id a.event s.events ((eq_iff a.event.event_id id).1 a.named))

    mark_failure-Holds :
        (id other : String) (result : Result StoreError (Store F × Bool)) (s : Store F)
        → OnOk (Claimed other s) result
        → Holds id s.events
        → Holds id (mark_failure result s).events
    mark_failure-Holds id other (ok c) s a h = kept-by id other s c a h
    mark_failure-Holds id other (err e) s a h = h

    after_send-Holds :
        (id : String) (sending : Sending) (source_id source_type : String) (logical : ℕ)
        (s : Store F)
        → Holds id s.events
        → Holds id (after_send sending source_id source_type logical s).store.events
    after_send-Holds id delivered source_id source_type logical s h = h
    after_send-Holds id raised source_id source_type logical s h = h
    after_send-Holds id refused source_id source_type logical s h =
        mark_failure-Holds id (failure_id source_id source_type) _ s
          (claim-Claimed (failure_id source_id source_type) "ALERT_FAILURE" _ logical s) h

    pub send_claimed-Holds :
        (id : String) (claimed : Bool) (source_id source_type : String) (payload : Payload F)
        (logical : ℕ) (s : Store F)
        → (claimed ≡ true → Holds id s.events)
        → (send_claimed claimed source_id source_type payload logical s).sent ≡ true
        → Holds id (send_claimed claimed source_id source_type payload logical s).store.events
    send_claimed-Holds id false source_id source_type payload logical s h q =
        absurd (ground (arith, q))
    send_claimed-Holds id true source_id source_type payload logical s h q =
        after_send-Holds id (p.send source_id source_type payload) source_id source_type logical s
          (h refl)

    pub send_claimed-unsent :
        (claimed : Bool) (source_id source_type : String) (payload : Payload F) (logical : ℕ)
        (s : Store F)
        → claimed ≡ false
        → (send_claimed claimed source_id source_type payload logical s).sent ≡ false
    send_claimed-unsent claimed source_id source_type payload logical s h = rw h refl
