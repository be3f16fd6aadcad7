-- ===== src/Alerts.antt =====
-- `deliver_alert_once` of src/autobit/alerts/notifier.py, over the event store. The notifier is a
-- parameter, and so are Python's `==` of two payloads and the boundary `None`: the call is made
-- outside a lease transaction.
pub mod Once
pub mod Sent
mod Tests
use Prim.Native.String.{String, ◌++◌ as str_append}
use text.Mathlib.Text.{◌==◌ as str_eq}
use auto_bit.Prelude.{
  ℕ, Bool, true, false, not, ◌&&◌, ◌||◌, Option, none, some, List, [], ◌∷◌, Result, ok, err, ◌>>=◌,
  ◌>>◌, raise_if, if◌then◌else◌, keep, ltb,
}
use auto_bit.Prelude.Int.{pos}
use auto_bit.Double.{Double, one}
use auto_bit.Python.{TimeValue, aware, unusable}
use auto_bit.Store.{StoreError, invalid_value, corruption, conflict, Texts}
use auto_bit.Store.Payload.{Json, integer, string, Payload, Codec}
use auto_bit.Store.Orders.{Decimal}
use auto_bit.Store.Replay.{Event}
use auto_bit.Store.Snapshot.{Store, Renderer, replay_and_verify}
use auto_bit.Store.Append.{append_event}

-- What a call of `Notifier.send` does.
pub data Sending : Type 0 where
  delivered refused raised : Sending

pub record Notifier {ℓ} (F : Type ℓ) : Type ℓ where
  pub send : String → String → Payload F → Sending
  pub same_payload : Payload F → Payload F → Bool

-- `None` for an attempt that was there, the notifier's truth value, or its exception.
pub data Answer : Type 0 where
  skipped : Answer
  answered : Bool → Answer
  send_raised : Answer

-- The store that a call leaves, whether it called the notifier, and its answer.
pub record Delivery {ℓ} (F : Type ℓ) : Type ℓ where
  pub store : Store F
  pub sent : Bool
  pub answer : Answer

-- `_nonempty`
abbrev pub nonempty : String → Result StoreError String
nonempty value = raise_if (str_eq value "") invalid_value >> ok value

abbrev pub logical_time : TimeValue → Result StoreError ℕ
logical_time (aware t) = ok t
logical_time unusable = err invalid_value

-- `_ALERT_SOURCE_TYPES`
abbrev pub is_alert_source_type : String → Bool
is_alert_source_type t = str_eq t "HEALTH_STATE" || str_eq t "PAPER_CYCLE"

abbrev digest : ⦃x : Texts⦄ → String → String → String
digest ⦃x⦄ source_id source_type = x.sha256 (str_append source_id (str_append "|" source_type))

abbrev pub marker_id : ⦃x : Texts⦄ → String → String → String
marker_id source_id source_type = str_append "alert-attempt:" (digest source_id source_type)

abbrev pub failure_id : ⦃x : Texts⦄ → String → String → String
failure_id source_id source_type = str_append "alert-failure:" (digest source_id source_type)

abbrev later_of : TimeValue → ℕ → TimeValue
later_of (aware t) logical = aware (if ltb logical t then t else logical)
later_of unusable logical = unusable

module _ {ℓ} {F : Type ℓ} where
  abbrev pub matches : String → List (Event F) → List (Event F)
  matches id events = keep (λ e. str_eq e.event_id id) events

  abbrev pub marker : ⦃d : Double F⦄ → String → String → Payload F
  marker source_id source_type =
      ("source_event_id", string source_id)
      ∷ ("source_event_type", string source_type)
      ∷ ("version", integer (pos 1) one)
      ∷ []

  -- `_monotonic_time`
  abbrev pub monotonic_time : List (Event F) → ℕ → TimeValue
  monotonic_time [] logical = aware logical
  monotonic_time (e ∷ older) logical = later_of e.occurred_at logical

module _ {ℓ} {F : Type ℓ} ⦃p : Notifier F⦄ where
  abbrev equals_payload : Option (Payload F) → Payload F → Bool
  equals_payload none payload = false
  equals_payload (some stored) payload = p.same_payload stored payload

  abbrev is_evidence : Event F → String → Payload F → Bool
  is_evidence e event_type payload =
      str_eq e.event_type event_type && equals_payload e.payload payload

  -- `_require_exact`
  abbrev pub require_exact : List (Event F) → String → Payload F → Result StoreError (Unit {0})
  require_exact (e ∷ []) event_type payload =
      raise_if (not (is_evidence e event_type payload)) corruption
  require_exact _ event_type payload = err corruption

  -- `_require_durable_source`, on the events of the verified store.
  abbrev pub require_durable_source :
      List (Event F) → String → Payload F → Result StoreError (Unit {0})
  require_durable_source (e ∷ []) source_type payload =
      raise_if (not (is_evidence e source_type payload)) invalid_value
  require_durable_source _ source_type payload = err invalid_value

module _ {ℓ} {F : Type ℓ} ⦃m : Decimal F⦄ ⦃d : Double F⦄ ⦃j : Codec F⦄ ⦃n : Renderer F⦄ ⦃x : Texts⦄
    ⦃p : Notifier F⦄ where
  -- The outcome of `append_event` in `_claim_attempt` and `_append_exact_once`: an identity that
  -- another writer has put there is looked at again.
  abbrev pub after_append :
      Result StoreError (Store F × ℕ)
      → Store F
      → List (Event F)
      → String
      → Payload F
      → Result StoreError (Store F × Bool)
  after_append (ok done) s found event_type payload = ok (done.0, true)
  after_append (err conflict) s found event_type payload =
      require_exact found event_type payload >> ok (s, false)
  after_append (err e) s found event_type payload = err e

  -- `_claim_attempt` at the type `ALERT_ATTEMPT`, and `_append_exact_once`: whether the event is
  -- new.
  abbrev pub append_exact_once :
      List (Event F)
      → String
      → String
      → Payload F
      → ℕ
      → Store F
      → Result StoreError (Store F × Bool)
  append_exact_once [] id event_type payload logical s =
      after_append (append_event id event_type (monotonic_time s.events logical) payload s) s
        (matches id s.events) event_type payload
  append_exact_once (e ∷ more) id event_type payload logical s =
      require_exact (e ∷ more) event_type payload >> ok (s, false)

  unfoldable pub claim :
      String → String → Payload F → ℕ → Store F → Result StoreError (Store F × Bool)
  claim id event_type payload logical s = do
    r ← replay_and_verify s
    append_exact_once (matches id s.events) id event_type payload logical s

  -- A failure of the failure marker is passed over.
  abbrev pub mark_failure : Result StoreError (Store F × Bool) → Store F → Store F
  mark_failure (ok done) s = done.0
  mark_failure (err e) s = s

  abbrev pub after_send : Sending → String → String → ℕ → Store F → Delivery F
  after_send delivered source_id source_type logical s = record {
    store = s;
    sent = true;
    answer = answered true;
  }
  after_send raised source_id source_type logical s = record {
    store = s;
    sent = true;
    answer = send_raised;
  }
  after_send refused source_id source_type logical s =
      let failure = ("failure_code", string "DELIVERY_FAILED") ∷ marker source_id source_type in
      record {
        store =
            mark_failure
              (claim (failure_id source_id source_type) "ALERT_FAILURE" failure logical s) s;
        sent = true;
        answer = answered false;
      }

  abbrev pub send_claimed : Bool → String → String → Payload F → ℕ → Store F → Delivery F
  send_claimed false source_id source_type payload logical s = record {
    store = s;
    sent = false;
    answer = skipped;
  }
  send_claimed true source_id source_type payload logical s =
      after_send (p.send source_id source_type payload) source_id source_type logical s

  unfoldable pub deliver_alert_once :
      String → String → Payload F → TimeValue → Store F → Result StoreError (Delivery F)
  unfolding claim
  deliver_alert_once source_event_id source_event_type source_payload logical_at s = do
    source_id ← nonempty source_event_id
    source_type ← nonempty source_event_type
    logical ← logical_time logical_at
    raise_if (not (is_alert_source_type source_type)) invalid_value
    r ← replay_and_verify s
    require_durable_source (matches source_id s.events) source_type source_payload
    claimed ←
        claim (marker_id source_id source_type) "ALERT_ATTEMPT" (marker source_id source_type)
          logical s
    ok (send_claimed claimed.1 source_id source_type source_payload logical claimed.0)
