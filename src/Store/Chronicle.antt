-- ===== src/Store/Chronicle.antt =====
-- The sequence numbers and the times of the events that a replay of
-- src/autobit/persistence/sqlite_store.py accepts.
use auto_bit.Prelude.{
  ℕ, ◌+◌, ◌≡◌, refl, true, false, not, Option, none, some, List, [], ◌∷◌, ok, ◌≤◌, ◌∙◌, sym, ap,
  length, OnOk-map, raise_if, or_raise, arith, All, OnOk, OnOk->>=, OnOk-ok, raise_if-passed,
  not-false, ◌==◌,
}
use mathlib.Core.Path.{subst}
use auto_bit.Python.{TimeValue, aware, unusable}
use auto_bit.Double.{Double}
use auto_bit.Store.{corruption, Texts}
use auto_bit.Store.Payload.{Codec}
use auto_bit.Store.Orders.{Decimal}
use auto_bit.Store.Replay.{
  Event, kind_of, Ledger, start, apply, replay_event, replay, stored_text, stored_timestamp,
  is_reversal,
}
use auto_bit.Store.Known.{validate_known_state_payload}

-- A stored time is there, and no later than another.
abbrev IsBy : Option ℕ → TimeValue → Type 0
IsBy (some p) (aware t) = t ≤ p
IsBy _ _ = ⊥

IsBy-later :
    (previous : Option ℕ) (t : ℕ) (u : TimeValue)
    → is_reversal previous t ≡ false
    → IsBy previous u
    → IsBy (some t) u
IsBy-later none t (aware v) h b = absurd b
IsBy-later none t unusable h b = absurd b
IsBy-later (some p) t (aware v) h b = ground (arith, h)
IsBy-later (some p) t unusable h b = absurd b

equal_numbers : (a b : ℕ) → (a == b) ≡ true → a ≡ b
equal_numbers a b h = ground (arith, h)

stored_timestamp-aware : (v : TimeValue) {t : ℕ} → stored_timestamp v ≡ ok t → v ≡ aware t
stored_timestamp-aware (aware u) h = ground (arith, h)
stored_timestamp-aware unusable h = absurd (ground (arith, h))

module _ {ℓ} {F : Type ℓ} where
  -- The sequence numbers count up from 1, and no event is dated before an older one.
  abbrev pub IsInOrder : List (Event F) → Type 0
  IsInOrder [] = Unit
  IsInOrder (e ∷ older) =
      (e.sequence ≡ length older + 1)
      × ((t : ℕ) × (e.occurred_at ≡ aware t) × All (λ o. IsBy (some t) o.occurred_at) older)
      × IsInOrder older

  All-later :
      (previous : Option ℕ) (t : ℕ) (events : List (Event F))
      → is_reversal previous t ≡ false
      → All (λ o. IsBy previous o.occurred_at) events
      → All (λ o. IsBy (some t) o.occurred_at) events
  All-later previous t [] h a = tt
  All-later previous t (e ∷ older) h (b, a) =
      (IsBy-later previous t e.occurred_at h b, All-later previous t older h a)

module _ {ℓ} {F : Type ℓ} ⦃m : Decimal F⦄ where
  record IsDated (events : List (Event F)) (r : Ledger F) : Type 0 where
    counted : r.last_sequence ≡ length events
    dated : All (λ o. IsBy r.previous_timestamp o.occurred_at) events
    in_order : IsInOrder events

  module _ ⦃d : Double F⦄ ⦃j : Codec F⦄ ⦃x : Texts⦄ where
    replay_event-IsDated :
        (e : Event F) (older : List (Event F)) (r : Ledger F)
        → IsDated older r
        → OnOk (IsDated (e ∷ older)) (replay_event e r)
    unfolding replay_event
    replay_event-IsDated e older r s =
        let P = IsDated (e ∷ older) in
        OnOk->>= P (raise_if (not (e.sequence == r.last_sequence + 1)) corruption) _ λ _ q.
          OnOk->>= P (stored_text e.event_id) _ λ id _.
            OnOk->>= P (stored_text e.event_type) _ λ name _.
              OnOk->>= P (stored_timestamp e.occurred_at) _ λ t et.
                OnOk->>= P (raise_if (is_reversal r.previous_timestamp t) corruption) _ λ _ v.
                  OnOk->>= P (or_raise e.payload corruption) _ λ payload _.
                    OnOk->>= P (validate_known_state_payload corruption name payload) _ λ _ _.
                      OnOk->>= P (apply (kind_of name) id payload t r) _ λ after a.
                        let number : e.sequence ≡ length older + 1 =
                          equal_numbers e.sequence (r.last_sequence + 1) (
                            not-false (e.sequence == r.last_sequence + 1) (
                              raise_if-passed (not (e.sequence == r.last_sequence + 1)) corruption
                                q))
                          ∙ ap (λ k. k + 1) s.counted in
                        let before =
                          All-later r.previous_timestamp t older
                            (raise_if-passed (is_reversal r.previous_timestamp t) corruption v)
                            s.dated in
                        record {
                          counted = omega (arith, number);
                          dated = (
                            subst (IsBy (some t)) (sym (stored_timestamp-aware e.occurred_at et))
                                (omega arith),
                            before,
                          );
                          in_order = (
                            number,
                            (t, stored_timestamp-aware e.occurred_at et, before),
                            s.in_order,
                          );
                        }

    replay-IsDated : (events : List (Event F)) → OnOk (IsDated events) (replay events)
    unfolding replay start
    replay-IsDated [] = record { counted = refl; dated = tt; in_order = tt }
    replay-IsDated (e ∷ older) =
        OnOk->>= (IsDated (e ∷ older)) (replay older) _
          λ r h. replay_event-IsDated e older r (OnOk-ok (IsDated older) _ (replay-IsDated older) h)

    -- Events that replay are numbered from 1 without a gap, each has a time, and no event is dated
    -- before an older one.
    pub replay-IsInOrder : (events : List (Event F)) → OnOk (λ _. IsInOrder events) (replay events)
    replay-IsInOrder events = OnOk-map (replay events) (λ r h. h.in_order) (replay-IsDated events)
