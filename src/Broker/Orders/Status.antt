-- ===== src/Broker/Orders/Status.antt =====
-- The status events of an order in `_paper_order_from_evidence` of
-- src/autobit/execution/paper_broker.py: their identities, their order, and the status they lead to.
use Prim.Native.String.{String}
use text.Mathlib.Text.{◌==◌ as str_eq, starts_with}
use auto_bit.Prelude.{
  ℕ, Bool, true, false, not, ◌&&◌, ◌||◌, Option, none, some, List, [], ◌∷◌, Result, ok, err, ◌>>=◌,
  ◌>>◌, raise_if, if◌then◌else◌, ltb, ◌==◌,
}
use auto_bit.Double.{Double}
use auto_bit.Domain.{
  OrderStatus, submitted, accepted, partial, completed, canceled, insufficient_cash, rejected,
}
use auto_bit.Store.{StoreError, Texts}
use auto_bit.Store.Payload.{Json, null, string, Codec, field, stored_order_status}
use auto_bit.Broker.{BrokerError, reconciliation, Evidence, EntryContext, digest_id, joined}
use auto_bit.Broker.Readers.{require_evidence_keys, payload_text}
use auto_bit.Broker.Collect.{find_evidence}

-- What the statuses are checked against.
pub record Life : Type 0 where
  pub key : String
  pub reason : String
  pub eligible_text : String
  pub eligible_open : ℕ
  pub metadata_sequence : ℕ

abbrev as_reconciliation {κ} : {A : Type κ} → Result StoreError A → Result BrokerError A
as_reconciliation (ok a) = ok a
as_reconciliation (err e) = err reconciliation

abbrev pub status_key : String → String → String → String
status_key key suffix time = joined key (joined suffix time)

module _ {ℓ} {F : Type ℓ} where
  abbrev is_reason : Option (Json F) → Option String → Bool
  is_reason (some null) none = true
  is_reason (some (string s)) (some reason) = str_eq s reason
  is_reason _ _ = false

  unfoldable pub validate_status_identity :
      ⦃x : Texts⦄ → Evidence F → String → String → Option String → Result BrokerError (Unit {0})
  validate_status_identity e order_key expected_key reason = do
    actual ← payload_text e.payload "idempotency_key"
    raise_if (not (str_eq actual expected_key)) reconciliation
    raise_if
        (not (str_eq e.event_id (digest_id "order-status:" actual))
          || not (starts_with actual (joined order_key ":")))
        reconciliation
    raise_if (not (is_reason (field "reason" e.payload) reason)) reconciliation

  abbrev pub read_statuses :
      ⦃d : Double F⦄ ⦃j : Codec F⦄ ⦃x : Texts⦄
      → String
      → List (Evidence F)
      → Result BrokerError (List (Evidence F × OrderStatus))
  read_statuses order_id [] = ok []
  read_statuses order_id (e ∷ rest) = do
    require_evidence_keys ("idempotency_key" ∷ "order_id" ∷ "reason" ∷ "status" ∷ []) e.payload
    id ← payload_text e.payload "order_id"
    raise_if (not (str_eq id order_id)) reconciliation
    name ← payload_text e.payload "status"
    status ← as_reconciliation (stored_order_status {F = F} (string name))
    later ← read_statuses order_id rest
    ok ((e, status) ∷ later)

  -- The first two statuses; the later ones are returned.
  unfoldable pub check_acceptance :
      ⦃x : Texts⦄
      → Life
      → Evidence F
      → List (Evidence F × OrderStatus)
      → Result BrokerError (List (Evidence F × OrderStatus))
  unfolding validate_status_identity
  check_acceptance f creation ((a, submitted) ∷ (b, accepted) ∷ later) = do
    raise_if (not (a.occurred_at == creation.occurred_at)) reconciliation
    validate_status_identity a f.key (joined f.key ":submitted") none
    raise_if (not (b.occurred_at == creation.occurred_at)) reconciliation
    validate_status_identity b f.key (joined f.key ":accepted") none
    raise_if
        (not (
          ltb creation.sequence a.sequence
          && ltb a.sequence b.sequence
          && ltb b.sequence f.metadata_sequence))
        reconciliation
    ok later
  check_acceptance f creation _ = err reconciliation

  abbrev check_no_fill : Life → Evidence F → Result BrokerError (Unit {0})
  check_no_fill f e =
      raise_if (not (e.occurred_at == f.eligible_open) || not (ltb f.metadata_sequence e.sequence))
        reconciliation

  -- An order without a fill.
  unfoldable pub unfilled_status :
      ⦃x : Texts⦄
      → Life
      → Option (EntryContext F)
      → List (Evidence F × OrderStatus)
      → Result BrokerError OrderStatus
  unfolding validate_status_identity
  unfilled_status f context [] = ok accepted
  unfilled_status f context ((e, insufficient_cash) ∷ []) = do
    validate_status_identity e f.key (status_key f.key ":insufficient:" f.eligible_text)
        (some "INSUFFICIENT_CASH")
    check_no_fill f e
    ok insufficient_cash
  unfilled_status f (some context) ((e, rejected) ∷ []) = do
    validate_status_identity e f.key (status_key f.key ":execution-cap:" f.eligible_text)
        (some "EXECUTION_CAP")
    check_no_fill f e
    ok rejected
  unfilled_status f context _ = err reconciliation

  -- An order that its fill completes.
  unfoldable pub completed_status :
      ⦃x : Texts⦄
      → Life
      → Evidence F
      → Option (Evidence F)
      → List (Evidence F × OrderStatus)
      → Result BrokerError OrderStatus
  unfolding validate_status_identity
  completed_status f raw (some meta) ((e, completed) ∷ []) = do
    validate_status_identity e f.key (status_key f.key ":completed:" f.eligible_text)
        (some f.reason)
    raise_if
        (not (
          ltb f.metadata_sequence raw.sequence
          && ltb raw.sequence e.sequence
          && ltb e.sequence meta.sequence))
        reconciliation
    raise_if (not (e.occurred_at == f.eligible_open)) reconciliation
    ok completed
  completed_status f raw meta _ = err reconciliation

  abbrev remainder_reason : Option (EntryContext F) → Option (Json F) → String
  remainder_reason (some context) (some (string s)) =
      if str_eq s "EXECUTION_CAP" then "EXECUTION_CAP" else "PARTIAL_REMAINDER"
  remainder_reason _ _ = "PARTIAL_REMAINDER"

  -- An order that its fill leaves a remainder of.
  unfoldable pub partial_status :
      ⦃x : Texts⦄
      → Life
      → Evidence F
      → Option (Evidence F)
      → Option (EntryContext F)
      → List (Evidence F × OrderStatus)
      → Result BrokerError OrderStatus
  unfolding validate_status_identity
  partial_status f raw (some meta) context ((p, partial) ∷ (e, canceled) ∷ []) = do
    validate_status_identity p f.key (status_key f.key ":partial:" f.eligible_text) (some f.reason)
    validate_status_identity e f.key (status_key f.key ":cancel-remainder:" f.eligible_text)
        (some (remainder_reason context (field "reason" e.payload)))
    raise_if
        (not (
          ltb f.metadata_sequence raw.sequence
          && ltb raw.sequence p.sequence
          && ltb p.sequence meta.sequence
          && ltb meta.sequence e.sequence))
        reconciliation
    raise_if (not (p.occurred_at == f.eligible_open) || not (e.occurred_at == f.eligible_open))
        reconciliation
    ok canceled
  partial_status f raw meta context _ = err reconciliation

  unfoldable pub final_status :
      ⦃x : Texts⦄
      → Life
      → Option (Evidence F)
      → Bool
      → List (String × Evidence F)
      → Option (EntryContext F)
      → List (Evidence F × OrderStatus)
      → Result BrokerError OrderStatus
  unfolding unfilled_status completed_status partial_status
  final_status f none whole fill_metadata context later = unfilled_status f context later
  final_status f (some raw) true fill_metadata context later =
      completed_status f raw (find_evidence raw.event_id fill_metadata) later
  final_status f (some raw) false fill_metadata context later =
      partial_status f raw (find_evidence raw.event_id fill_metadata) context later
