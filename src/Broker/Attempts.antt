-- ===== src/Broker/Attempts.antt =====
-- The first steps of `_process_order_in_transaction` in src/autobit/execution/paper_broker.py: the
-- change of a status, the end of a stop, and the cap of a bound entry.
use Prim.Native.String.{String}
use auto_bit.Prelude.{
  ℕ, Bool, true, false, Option, none, some, List, [], ◌∷◌, Result, ok, ◌>>=◌, or_raise,
  if◌then◌else◌,
}
use auto_bit.Double.{Double, ◌≼◌, ◌≺◌, min, nought}
use auto_bit.Domain.{OrderStatus, completed, partial, rejected}
use auto_bit.Python.{aware}
use auto_bit.Store.{Texts}
use auto_bit.Store.Payload.{number, string, Payload, Codec, Side, buy, sell}
use auto_bit.Store.Orders.{Decimal}
use auto_bit.Store.Snapshot.{Store, Snapshot, Renderer}
use auto_bit.Store.Append.{append_event}
use auto_bit.Store.Record.{transition_order_status}
use auto_bit.Broker.{
  BrokerError, diverged, lift, Clock, Platform, EntryContext, PaperOrder, PaperStop, execution_id,
  joined,
}
use auto_bit.Broker.Stops.{stop_end_id}
use auto_bit.Broker.Execution.{execution_quantity}
use auto_bit.Broker.Submission.{one_json}

-- What is left of an attempt after its cap: the store, the quantity, and whether it was capped.
pub record Attempt {ℓ} (F : Type ℓ) : Type ℓ where
  pub store : Store F
  pub quantity : F
  pub capped : Bool

abbrev pub fill_suffix : OrderStatus → String
fill_suffix completed = ":completed:"
fill_suffix _ = ":partial:"

abbrev pub leaves_part : OrderStatus → Bool
leaves_part partial = true
leaves_part _ = false

module _ {ℓ} {F : Type ℓ} ⦃m : Decimal F⦄ ⦃d : Double F⦄ ⦃j : Codec F⦄ ⦃n : Renderer F⦄ ⦃x : Texts⦄
    ⦃c : Clock⦄ ⦃p : Platform F⦄ where
  -- `_deactivate_stop_in_transaction`
  unfoldable pub deactivate_stop :
      PaperStop F → ℕ → String → String → Store F → Result BrokerError (Store F)
  deactivate_stop stop occurred_at action identity s = do
    e ← lift (
        append_event (stop_end_id action stop.stop_id identity) "PAPER_STOP" (aware occurred_at)
          (("action", string action)
            ∷ ("identity", string identity)
            ∷ ("stop_id", string stop.stop_id)
            ∷ [])
          s)
    ok e.0

  abbrev pub deactivate_all :
      (PaperStop F → String)
      → ℕ
      → String
      → List (PaperStop F)
      → Store F
      → Result BrokerError (Store F)
  deactivate_all action occurred_at identity [] s = ok s
  deactivate_all action occurred_at identity (stop ∷ rest) s = do
    next ← deactivate_stop stop occurred_at (action stop) identity s
    deactivate_all action occurred_at identity rest next

  abbrev pub execution_payload : PaperOrder F → F → F → Payload F
  execution_payload o reference quantity =
      ("version", one_json)
      ∷ ("order_id", string o.order_id)
      ∷ ("reference_price", number reference)
      ∷ ("attempted_quantity", number quantity)
      ∷ []

  abbrev pub change :
      PaperOrder F → String → OrderStatus → ℕ → String → Store F → Result BrokerError (Store F)
  change o suffix status t reason s = do
    done ← lift (
        transition_order_status o.order_id (joined o.idempotency_key (joined suffix (x.utc_text t)))
          status (aware t) (some reason) s)
    ok done.0

  abbrev pub left_attempt :
      PaperOrder F → ℕ → F → Bool → Store F → Result BrokerError (Store F × Option (Attempt F))
  left_attempt o t left capped s =
      if left ≼ nought
      then change o ":execution-cap:" rejected t "EXECUTION_CAP" s >>= (λ after. ok (after, none))
      else ok (s, some (record { store = s; quantity = left; capped = capped }))

  abbrev pub bound_attempt :
      Side
      → PaperOrder F
      → EntryContext F
      → ℕ
      → F
      → F
      → F
      → Snapshot F
      → Store F
      → Result BrokerError (Store F × Option (Attempt F))
  bound_attempt sell o context t reference price quantity current s =
      ok (s, some (record { store = s; quantity = quantity; capped = false }))
  bound_attempt buy o context t reference price quantity current s = do
    e ← lift (
        append_event (execution_id o.order_id) "PAPER_EXECUTION" (aware t)
          (execution_payload o reference quantity) s)
    limit ← or_raise (execution_quantity o.fee_rate context price current.cash) diverged
    left_attempt o t (min quantity limit) (limit ≺ quantity) e.0

  -- The cap of a bound entry.
  unfoldable pub attempt_of :
      PaperOrder F
      → Option (EntryContext F)
      → ℕ
      → F
      → F
      → F
      → Snapshot F
      → Store F
      → Result BrokerError (Store F × Option (Attempt F))
  attempt_of o none t reference price quantity current s =
      ok (s, some (record { store = s; quantity = quantity; capped = false }))
  attempt_of o (some context) t reference price quantity current s =
      bound_attempt o.side o context t reference price quantity current s
