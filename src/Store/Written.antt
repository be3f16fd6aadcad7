-- ===== src/Store/Written.antt =====
-- What a ledger mutation of src/autobit/persistence/sqlite_store.py that appends leaves behind.
use Prim.Native.String.{String}
use text.Mathlib.Text.{◌==◌ as str_eq}
use text.Mathlib.TextPositions.{eq_refl}
use mathlib.Core.Path.{subst}
use auto_bit.Prelude.{
  ℕ, ◌≡◌, refl, sym, Bool, true, false, some, List, ◌∷◌, ok, ◌>>=◌, raise_if, arith, OnOk, OnOk->>=,
  OnOk-ok, if_both, is_some,
}
use auto_bit.Double.{Double}
use auto_bit.Store.{integrity_error, Texts}
use auto_bit.Store.Payload.{Payload, Codec}
use auto_bit.Store.Orders.{Decimal, StoredOrder}
use auto_bit.Store.Replay.{Event, Ledger}
use auto_bit.Store.Snapshot.{
  Store, Renderer, row_of, state_after, rebuild_from_events, replay_and_verify,
}
use auto_bit.Store.Append.{find_event, same_evidence, retry, new_event, write}

pub some-injective {ℓ} : {A : Type ℓ} {a b : A} → some a ≡ some b → a ≡ b
some-injective h = ground (arith, h)

module _ {ℓ} {F : Type ℓ} ⦃m : Decimal F⦄ ⦃d : Double F⦄ ⦃j : Codec F⦄ ⦃n : Renderer F⦄
    ⦃x : Texts⦄ where
  -- A write that returns leaves a store that verifies, with the event on top of the others.
  pub record IsWritten (e : Event F) (s t : Store F) : Type ℓ where
    pub state : Ledger F
    pub verified : replay_and_verify t ≡ ok state
    pub events : t.events ≡ e ∷ s.events

  pub write-IsWritten :
      (e : Event F) (orders : List (StoredOrder F)) (s : Store F)
      → OnOk (IsWritten e s) (write e orders s)
  unfolding write
  write-IsWritten e orders s =
      let w = record s { events = e ∷ s.events; recorded_tail = e.sequence; orders = orders } in
      OnOk->>= (IsWritten e s) (raise_if (is_some (find_event e.event_id s.events)) integrity_error)
        _
        λ _ _. OnOk->>= (IsWritten e s) (rebuild_from_events w) _ λ r _.
          OnOk->>= (IsWritten e s)
            (replay_and_verify (record w {
              snapshots = row_of (state_after w.events r) e.occurred_at ∷ s.snapshots;
            }))
            _ λ state v. record { state = state; verified = v; events = refl }

  found-top :
      (id : String) (e : Event F) (older : List (Event F))
      → str_eq e.event_id id ≡ true
      → find_event id (e ∷ older) ≡ some e
  found-top id e older h = ground (arith, h)

  find-new :
      (s t : Store F) (id name : String) (at : ℕ) (payload : Payload F)
      → IsWritten (new_event s id name at payload) s t
      → find_event id t.events ≡ some (new_event s id name at payload)
  find-new s t id name at payload w =
      let e = new_event s id name at payload in
      subst (λ es. find_event id es ≡ some e) (sym w.events) (found-top id e s.events (eq_refl id))

  retry-new :
      (s t : Store F) (id name : String) (at : ℕ) (payload : Payload F)
      → retry t (new_event s id name at payload) name at payload ≡ ok (t, false)
  retry-new s t id name at payload =
      ground (arith, eq_refl name, eq_refl (j.canonical_json payload))

  -- The store verifies, and holds the event of the call under its id.
  pub record IsRecorded (id name : String) (at : ℕ) (payload : Payload F) (t : Store F)
      : Type ℓ where
    pub state : Ledger F
    pub verified : replay_and_verify t ≡ ok state
    pub event : Event F
    pub found : find_event id t.events ≡ some event
    pub repeated : retry t event name at payload ≡ ok (t, false)

  Written-Recorded :
      (s t : Store F) (id name : String) (at : ℕ) (payload : Payload F)
      → IsWritten (new_event s id name at payload) s t
      → IsRecorded id name at payload t
  Written-Recorded s t id name at payload w = record {
    state = w.state;
    verified = w.verified;
    event = new_event s id name at payload;
    found = find-new s t id name at payload w;
    repeated = retry-new s t id name at payload;
  }

  -- A retry does not answer `True`.
  pub retry-false :
      (Q : Store F → Type ℓ) (s : Store F) (e : Event F) (name : String) (at : ℕ)
      (payload : Payload F)
      → OnOk (λ (p : Store F × Bool). p.1 ≡ true → Q p.0) (retry s e name at payload)
  retry-false Q s e name at payload =
      if_both (OnOk (λ (p : Store F × Bool). p.1 ≡ true → Q p.0)) (same_evidence e name at payload)
        (λ h. absurd (ground (arith, h))) tt

  pub write-Recorded :
      (s : Store F) (id name : String) (at : ℕ) (payload : Payload F)
      (orders : List (StoredOrder F))
      → OnOk
          (λ (p : Store F × Bool). p.1 ≡ true → IsRecorded id name at payload p.0)
          (write (new_event s id name at payload) orders s >>= λ after. ok (after, true))
  write-Recorded s id name at payload orders =
      let e = new_event s id name at payload in
      OnOk->>= (λ (p : Store F × Bool). p.1 ≡ true → IsRecorded id name at payload p.0)
        (write e orders s) _
        λ t q _.
          Written-Recorded s t id name at payload
            (OnOk-ok (IsWritten e s) _ (write-IsWritten e orders s) q)
