-- ===== src/Store/Retry.antt =====
-- A second call of a ledger mutation of src/autobit/persistence/sqlite_store.py with the arguments
-- of the first.
use Prim.Native.String.{String}
use mathlib.Core.Path.{subst}
use auto_bit.Prelude.{
  ℕ, ◌≡◌, refl, sym, Bool, true, false, Option, none, some, ok, arith, OnOk, OnOk->>=, OnOk-ok,
  >>=-pass, OnOk-map,
}
use auto_bit.Double.{Double}
use auto_bit.Domain.{OrderStatus}
use auto_bit.Python.{TimeValue}
use auto_bit.Store.{Texts, nonempty_text, canonical_timestamp}
use auto_bit.Store.Payload.{Codec, Side}
use auto_bit.Store.Orders.{Decimal, Fill, StatusChange}
use auto_bit.Store.Replay.{Event, Ledger, find_order, replace_order, order_status_id}
use auto_bit.Store.Snapshot.{Store, Renderer, replay_and_verify}
use auto_bit.Store.Append.{
  find_event, validate_timestamp_order, positive_number, nonnegative_number, retry,
}
use auto_bit.Store.Record.{
  fill_payload, fill_event_id, fill_new, check_account, project_fill, append_fill, status_payload,
  status_new, project_status, optional_reason, transition_order_status,
}
use auto_bit.Store.Written.{some-injective, IsRecorded, retry-false, write-Recorded}

module _ {ℓ} {F : Type ℓ} ⦃m : Decimal F⦄ ⦃d : Double F⦄ ⦃j : Codec F⦄ ⦃n : Renderer F⦄
    ⦃x : Texts⦄ where
  fill_new-Recorded :
      (found : Option (Event F)) (id : String) (f : Fill F) (at : ℕ) (r : Ledger F) (s : Store F)
      → OnOk
          (λ (p : Store F × Bool). p.1 ≡ true → IsRecorded id "FILL" at (fill_payload f) p.0)
          (fill_new found id f at r s)
  fill_new-Recorded (some e) id f at r s =
      retry-false (IsRecorded id "FILL" at (fill_payload f)) s e "FILL" at (fill_payload f)
  fill_new-Recorded none id f at r s =
      let P = λ (p : Store F × Bool). p.1 ≡ true → IsRecorded id "FILL" at (fill_payload f) p.0 in
      OnOk->>= P (validate_timestamp_order s.events at) _ λ _ _.
        OnOk->>= P (check_account f.side f r) _ λ _ _.
          OnOk->>= P (project_fill (find_order f.order_id s.orders) f at s.orders) _
            λ orders _. write-Recorded s id "FILL" at (fill_payload f) orders

  status_new-Recorded :
      (found : Option (Event F)) (id : String) (c : StatusChange) (at : ℕ) (s : Store F)
      → OnOk
          (λ (p : Store F × Bool).
            p.1 ≡ true → IsRecorded id "ORDER_STATUS" at (status_payload c) p.0)
          (status_new found id c at s)
  status_new-Recorded (some e) id c at s =
      retry-false (IsRecorded id "ORDER_STATUS" at (status_payload c)) s e "ORDER_STATUS" at
        (status_payload c)
  status_new-Recorded none id c at s =
      let P = λ (p : Store F × Bool).
        p.1 ≡ true → IsRecorded id "ORDER_STATUS" at (status_payload c) p.0 in
      OnOk->>= P (project_status (find_order c.order_id s.orders) c) _ λ o _.
        OnOk->>= P (validate_timestamp_order s.events at) _ λ _ _.
          write-Recorded s id "ORDER_STATUS" at (status_payload c)
            (replace_order (record o { status = c.status; updated_at = at }) s.orders)

  fill_found :
      (found : Option (Event F)) (id : String) (f : Fill F) (at : ℕ) (r : Ledger F) (t : Store F)
      (e : Event F)
      → found ≡ some e
      → retry t e "FILL" at (fill_payload f) ≡ ok (t, false)
      → fill_new found id f at r t ≡ ok (t, false)
  fill_found none id f at r t e h k = absurd (ground (arith, h))
  fill_found (some e) id f at r t e' h k =
      subst (λ v. retry t v "FILL" at (fill_payload f) ≡ ok (t, false)) (sym (some-injective h)) k

  append_fill-retry :
      (order_id : String) (side : Side) (quantity price fee : F) (at : TimeValue)
      (fill_id : Option String) (s : Store F)
      → OnOk
          (λ (p : Store F × Bool).
            p.1 ≡ true
            → append_fill order_id side quantity price fee at fill_id p.0 ≡ ok (p.0, false))
          (append_fill order_id side quantity price fee at fill_id s)
  unfolding append_fill
  append_fill-retry order_id side quantity price fee at fill_id s =
      let P = λ (p : Store F × Bool).
        p.1 ≡ true
        → append_fill order_id side quantity price fee at fill_id p.0 ≡ ok (p.0, false) in
      OnOk->>= P (nonempty_text order_id) _ λ o eo. OnOk->>= P (positive_number quantity) _ λ q eq.
        OnOk->>= P (positive_number price) _ λ p ep. OnOk->>= P (nonnegative_number fee) _ λ c ec.
          OnOk->>= P (canonical_timestamp at) _ λ t et.
            let f : Fill F = record {
              fee = c;
              order_id = o;
              price = p;
              quantity = q;
              side = side;
            } in
            OnOk->>= P (fill_event_id fill_id t f) _ λ id ei.
              OnOk->>= P (replay_and_verify s) _ λ r er.
                OnOk-map (fill_new (find_event id s.events) id f t r s)
                  (λ result recorded flag.
                    let w = recorded flag in
                    >>=-pass (nonempty_text order_id) _ eo (
                      >>=-pass (positive_number quantity) _ eq (
                        >>=-pass (positive_number price) _ ep (
                          >>=-pass (nonnegative_number fee) _ ec (
                            >>=-pass (canonical_timestamp at) _ et (
                              >>=-pass (fill_event_id fill_id t f) _ ei (
                                >>=-pass (replay_and_verify result.0) _ w.verified (
                                  fill_found (find_event id result.0.events) id f t w.state result.0
                                    w.event w.found w.repeated))))))))
                  (fill_new-Recorded (find_event id s.events) id f t r s)

  status_found :
      (found : Option (Event F)) (id : String) (c : StatusChange) (at : ℕ) (t : Store F)
      (e : Event F)
      → found ≡ some e
      → retry t e "ORDER_STATUS" at (status_payload c) ≡ ok (t, false)
      → status_new found id c at t ≡ ok (t, false)
  status_found none id c at t e h k = absurd (ground (arith, h))
  status_found (some e) id c at t e' h k =
      subst (λ v. retry t v "ORDER_STATUS" at (status_payload c) ≡ ok (t, false))
        (sym (some-injective h)) k

  transition_order_status-retry :
      (order_id key : String) (status : OrderStatus) (at : TimeValue) (reason : Option String)
      (s : Store F)
      → OnOk
          (λ (p : Store F × Bool).
            p.1 ≡ true
            → transition_order_status order_id key status at reason p.0 ≡ ok (p.0, false))
          (transition_order_status order_id key status at reason s)
  unfolding transition_order_status
  transition_order_status-retry order_id key status at reason s =
      let P = λ (p : Store F × Bool).
        p.1 ≡ true → transition_order_status order_id key status at reason p.0 ≡ ok (p.0, false) in
      OnOk->>= P (nonempty_text order_id) _ λ o eo. OnOk->>= P (nonempty_text key) _ λ k ek.
        OnOk->>= P (optional_reason reason) _ λ why ew.
          OnOk->>= P (canonical_timestamp at) _ λ t et.
            let c : StatusChange = record {
              idempotency_key = k;
              order_id = o;
              reason = why;
              status = status;
            } in
            OnOk->>= P (replay_and_verify s) _ λ r er.
              OnOk-map
                (status_new (find_event (order_status_id k) s.events) (order_status_id k) c t s)
                (λ result recorded flag.
                  let w = recorded flag in
                  >>=-pass (nonempty_text order_id) _ eo (
                    >>=-pass (nonempty_text key) _ ek (
                      >>=-pass (optional_reason reason) _ ew (
                        >>=-pass (canonical_timestamp at) _ et (
                          >>=-pass (replay_and_verify result.0) _ w.verified (
                            status_found (find_event (order_status_id k) result.0.events)
                              (order_status_id k) c t result.0 w.event w.found w.repeated))))))
                (status_new-Recorded (find_event (order_status_id k) s.events) (order_status_id k) c
                  t s)

  -- A fill that is recorded is not recorded again: on the store that the call leaves, the same
  -- call returns `False` and changes nothing.
  pub append_fill-again :
      (order_id : String) (side : Side) (quantity price fee : F) (at : TimeValue)
      (fill_id : Option String) (s t : Store F)
      → append_fill order_id side quantity price fee at fill_id s ≡ ok (t, true)
      → append_fill order_id side quantity price fee at fill_id t ≡ ok (t, false)
  append_fill-again order_id side quantity price fee at fill_id s t h =
      OnOk-ok _ (append_fill order_id side quantity price fee at fill_id s)
        (append_fill-retry order_id side quantity price fee at fill_id s) h refl

  -- Nor is a transition of an order's status, under the same idempotency key.
  pub transition_order_status-again :
      (order_id key : String) (status : OrderStatus) (at : TimeValue) (reason : Option String)
      (s t : Store F)
      → transition_order_status order_id key status at reason s ≡ ok (t, true)
      → transition_order_status order_id key status at reason t ≡ ok (t, false)
  transition_order_status-again order_id key status at reason s t h =
      OnOk-ok _ (transition_order_status order_id key status at reason s)
        (transition_order_status-retry order_id key status at reason s) h refl
