-- ===== src/Requests/Retry.antt =====
-- The retry category of `serialize_result` of execution/receipts.py, and what it rests on.
use steam_cli.Prelude.{
  ℕ, Bool, true, false, not, ◌&&◌, if◌then◌else◌, Option, none, some, String, ◌≡◌, ◌≢◌, refl, arith,
}
use steam_cli.Ledger.State.{
  State, pending_confirmation, authorized, dispatch_pending, interrupted, is_state, is_state-eq,
  is_terminal,
}
use steam_cli.Ledger.Table.{is_text, Ledger}
use steam_cli.Requests.Held.{IsHeld, durable_receipt-IsHeld}
use steam_cli.Requests.Receipts.{
  Payload, DurableReceipt, identifier, durable_receipt, AttemptOutcome, transport_unknown,
  outcome_of, reason_code, is_transport_unknown,
}

pub data Category : Type 0 where
  no_retry new_intent_required confirmation_required reconcile_original : Category
  resume_original inspect_original collect_original_job : Category

unfoldable pub category_of_state : State → Category
category_of_state s =
    if is_terminal s
    then new_intent_required
    else if is_state s pending_confirmation
    then confirmation_required
    else if is_state s dispatch_pending
    then reconcile_original
    else if is_state s interrupted
    then reconcile_original
    else if is_state s authorized
    then resume_original
    else inspect_original

abbrev pub has_job : Option Payload → Bool
has_job none = false
has_job (some p) = p.has_job_id

abbrev pub durable_category : Option DurableReceipt → Category
durable_category none = no_retry
durable_category (some r) = category_of_state r.state

unfoldable pub retry_category : Option DurableReceipt → AttemptOutcome → Option Payload → Category
unfolding category_of_state
retry_category receipt transport_unknown payload =
    if has_job payload then collect_original_job else inspect_original
retry_category receipt outcome payload = durable_category receipt

abbrev pub attempt_code :
    (String → String) → (String → String → Bool) → Option String → Option Payload → Option String
attempt_code lower holds (some failure) payload = reason_code lower holds (some failure)
attempt_code lower holds none none = none
attempt_code lower holds none (some p) =
    if is_transport_unknown p
    then p.reason
    else if not p.reused && is_text p.outcome "deferred"
    then some "execution_deferred"
    else none

pub record Serialized : Type 0 where
  pub receipt : Option DurableReceipt
  pub outcome : AttemptOutcome
  pub reason : Option String
  pub category : Category
  pub automatic : Bool

module _ (intent_key : String → String) (lower : String → String)
    (holds : String → String → Bool) where
  unfoldable pub serialize_result :
      Option Ledger
      → Option Payload
      → ℕ
      → String
      → Option String
      → Option String
      → Option ℕ
      → Serialized
  unfolding durable_receipt outcome_of retry_category reason_code
  serialize_result ledger payload exit_code command failure request_id operation_id =
      let receipt =
        durable_receipt intent_key ledger (identifier payload operation_id) request_id in
      let outcome = outcome_of failure payload command exit_code in
      record {
        receipt = receipt;
        outcome = outcome;
        reason = attempt_code lower holds failure payload;
        category = retry_category receipt outcome payload;
        automatic = false;
      }

authorized_of_category :
    (receipt : Option DurableReceipt)
    → durable_category receipt ≡ resume_original
    → (r : DurableReceipt) × (receipt ≡ some r) × (r.state ≡ authorized)
unfolding category_of_state
authorized_of_category none h = cc
authorized_of_category (some r) h = (r, refl, is_state-eq r.state authorized (ground arith))

not_resumed : (b : Bool) → (if b then collect_original_job else inspect_original) ≢ resume_original
not_resumed true h = cc
not_resumed false h = cc

resumed_authorized :
    (receipt : Option DurableReceipt) (outcome : AttemptOutcome) (payload : Option Payload)
    → retry_category receipt outcome payload ≡ resume_original
    → (r : DurableReceipt) × (receipt ≡ some r) × (r.state ≡ authorized)
unfolding retry_category
resumed_authorized receipt transport_unknown payload h = absurd (not_resumed (has_job payload) h)
resumed_authorized receipt outcome payload h = authorized_of_category receipt h

-- A result that advises to resume the original operation rests on a row of the ledger that is
-- authorized.
pub serialize_result-IsHeld :
    (intent_key lower : String → String) (holds : String → String → Bool) (ledger : Option Ledger)
    (payload : Option Payload) (exit_code : ℕ) (command : String)
    (failure request_id : Option String) (operation_id : Option ℕ)
    → (serialize_result intent_key lower holds ledger payload exit_code command failure request_id
        operation_id).category
      ≡ resume_original
    → (r : DurableReceipt) × ((serialize_result intent_key lower holds ledger payload exit_code
          command failure request_id operation_id).receipt
        ≡ some r)
      × IsHeld ledger r
      × (r.state ≡ authorized)
unfolding serialize_result
serialize_result-IsHeld intent_key lower holds ledger payload exit_code command failure request_id
      operation_id h =
    let (r, e, is_authorized) =
      resumed_authorized
        (durable_receipt intent_key ledger (identifier payload operation_id) request_id)
        (outcome_of failure payload command exit_code) payload h in
    (
      r,
      e,
      durable_receipt-IsHeld intent_key ledger (identifier payload operation_id) request_id r e,
      is_authorized,
    )
