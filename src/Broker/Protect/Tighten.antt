-- ===== src/Broker/Protect/Tighten.antt =====
-- What `set_stop` of src/autobit/execution/paper_broker.py does to the store.
use Prim.Native.String.{String}
use text.Mathlib.Text.{◌==◌ as str_eq}
use auto_bit.Prelude.{
  ℕ, ◌≡◌, refl, inl, inr, true, false, not, ◌&&◌, ◌||◌, Option, none, some, Result, ok, err, ◌==◌,
  is_some, raise_if, OnOk, OnOk->>=, OnOk-ok, OnSome, Bool-cases, OnOk-raise_if,
}
use mathlib.Core.Path.{subst}
use auto_bit.Double.{Double, ◌≼◌, nought}
use auto_bit.Python.{aware}
use auto_bit.Store.{StoreError, Texts, conflict}
use auto_bit.Store.Payload.{Codec}
use auto_bit.Store.Orders.{Decimal}
use auto_bit.Store.Snapshot.{Store, Renderer}
use auto_bit.Store.Append.{append_event}
use auto_bit.Alerts.Once.{IsAppended, append_event-IsAppended}
use auto_bit.Broker.{
  raised, invalid, lift, Clock, Platform, Evidence, PaperStop, stop_set_id, require_boundary,
  next_boundary, valid_reason,
}
use auto_bit.Broker.Readers.{positive}
use auto_bit.Broker.Costs.{exact}
use auto_bit.Broker.Trades.{open_entry_identity}
use auto_bit.Broker.Stops.{stop_from_event}
use auto_bit.Broker.Ledger.{PaperLedger, build_ledger}
use auto_bit.Broker.Submission.{Costs}
use auto_bit.Broker.Protect.{
  append_stop, stop_payload, same_stop, tighten, set_or_retry, active_time, source_of, filled_at,
  source_fills, set_stop,
}

-- What `decimal` documents of the comparisons, on the floats that it converts: they are total.
pub record IsTotal {ℓ} (F : Type ℓ) ⦃m : Decimal F⦄ : Type ℓ where
  pub lt_of_not :
      (x y : F)
      → m.lt (m.of_float x) (m.of_float y) ≡ false
      → m.eq (m.of_float x) (m.of_float y) ≡ false
      → m.lt (m.of_float y) (m.of_float x) ≡ true

pub OnOk-lift {ℓ κ} :
    {A : Type ℓ} (P : A → Type κ) (r : Result StoreError A) → OnOk P r → OnOk P (lift r)
OnOk-lift P (ok a) h = h
OnOk-lift P (err e) h = tt

module _ {ℓ} {F : Type ℓ} ⦃m : Decimal F⦄ ⦃d : Double F⦄ ⦃j : Codec F⦄ ⦃n : Renderer F⦄ ⦃x : Texts⦄
    ⦃c : Clock⦄ ⦃p : Platform F⦄ where
  -- The stop is at a higher price than the active one, if there is one.
  abbrev pub IsAbove : PaperStop F → Option (PaperStop F) → Type 0
  IsAbove s active =
      OnSome (λ a. m.lt (m.of_float a.stop_price) (m.of_float s.stop_price) ≡ true) active

  -- Nothing is written, or one event under the identity of the stop: coins are held, and the stop
  -- is above the active one.
  pub data IsTightened (s : Store F) : Store F × PaperStop F → Type ℓ where
    untouched : (stop : PaperStop F) → IsTightened s (s, stop)
    tightened :
        (stop : PaperStop F) (ledger : PaperLedger F) {t : Store F}
        → build_ledger s ≡ ok ledger
        → (ledger.snapshot.btc_quantity ≼ nought) ≡ false
        → IsAbove stop ledger.active_stop
        → IsAppended (stop_set_id stop.stop_id) s t
        → IsTightened s (t, stop)

  append_stop-IsTightened :
      (candidate : PaperStop F) (ledger : PaperLedger F) (s : Store F)
      → build_ledger s ≡ ok ledger
      → (ledger.snapshot.btc_quantity ≼ nought) ≡ false
      → IsAbove candidate ledger.active_stop
      → OnOk (IsTightened s) (append_stop candidate s)
  append_stop-IsTightened candidate ledger s h b a =
      let id = stop_set_id candidate.stop_id in
      let call =
        append_event id "PAPER_STOP" (aware candidate.observed_at) (stop_payload candidate) s in
      OnOk->>= (IsTightened s) (lift call) _ λ e k. tightened candidate ledger h b a (
        OnOk-ok (λ (r : Store F × ℕ). IsAppended id s r.0) (lift call)
          (OnOk-lift (λ (r : Store F × ℕ). IsAppended id s r.0) call
            (append_event-IsAppended id "PAPER_STOP" (aware candidate.observed_at)
              (stop_payload candidate) s))
          k)

  module _ (w : IsTotal F) where
    tighten-IsTightened :
        (active : Option (PaperStop F)) (candidate : PaperStop F) (ledger : PaperLedger F)
        (s : Store F)
        → active ≡ ledger.active_stop
        → build_ledger s ≡ ok ledger
        → (ledger.snapshot.btc_quantity ≼ nought) ≡ false
        → OnOk (IsTightened s) (tighten active candidate s)
    unfolding tighten
    tighten-IsTightened none candidate ledger s e h b =
        append_stop-IsTightened candidate ledger s h b (subst (IsAbove candidate) e tt)
    tighten-IsTightened (some active) candidate ledger s e h b =
        OnOk-raise_if (IsTightened s)
          (m.lt (m.of_float candidate.stop_price) (m.of_float active.stop_price)) invalid _
          λ k. elim (Bool-cases (exact candidate.stop_price active.stop_price)) [
            | inl q ↦ rw q (untouched active)
            | inr q ↦ rw q (
                append_stop-IsTightened candidate ledger s h b (
                  subst (IsAbove candidate) e
                    (w.lt_of_not candidate.stop_price active.stop_price k q)))
          ]

    set_or_retry-IsTightened :
        (found : Option (Evidence F)) (candidate : PaperStop F) (ledger : PaperLedger F)
        (s : Store F)
        → build_ledger s ≡ ok ledger
        → OnOk (IsTightened s) (set_or_retry found candidate ledger s)
    unfolding set_or_retry
    set_or_retry-IsTightened (some e) candidate ledger s h =
        OnOk->>= (IsTightened s) (stop_from_event e) _ λ persisted _.
          OnOk->>= (IsTightened s)
            (raise_if (not (same_stop persisted candidate)) (raised conflict)) _
            λ _ _. untouched persisted
    set_or_retry-IsTightened none candidate ledger s h =
        OnOk-raise_if (IsTightened s) (ledger.snapshot.btc_quantity ≼ nought) invalid _
          λ b. tighten-IsTightened ledger.active_stop candidate ledger s refl h b

    -- Whatever the store and the arguments are, a call of `set_stop` that returns writes nothing,
    -- or it appends one event under the identity of the stop that it returns, coins are held, and
    -- the stop is at a strictly higher price than the active one, if there is one.
    pub set_stop-IsTightened :
        (costs : Costs F) (observed_at : ℕ) (stop_price : F) (active_after : Option ℕ)
        (reason : String) (source_id : Option String) (s : Store F)
        → OnOk
            (IsTightened s)
            (set_stop costs observed_at stop_price active_after reason source_id s)
    unfolding set_stop
    set_stop-IsTightened costs observed_at stop_price active_after reason source_id s =
        let P = IsTightened s in
        OnOk->>= P (require_boundary observed_at invalid) _ λ _ _.
          OnOk->>= P (next_boundary observed_at) _ λ required _.
            OnOk->>= P (active_time active_after observed_at required) _ λ active _.
              OnOk->>= P (positive stop_price) _ λ price _.
                OnOk->>= P (valid_reason reason invalid) _ λ normalized _.
                  OnOk->>= P (build_ledger s) _ λ ledger h.
                    OnOk->>= P (open_entry_identity ledger.fills) _ λ entry _.
                      OnOk->>= P (source_of source_id entry) _ λ source _.
                        OnOk->>= P
                          (raise_if
                            (active == observed_at
                              && (not (str_eq normalized "HARD_STOP")
                                  || is_some ledger.active_stop
                                  || not
                                      (filled_at observed_at (source_fills source ledger.fills))))
                            invalid)
                          _ λ _ _. set_or_retry-IsTightened _ _ ledger s h
