-- ===== src/Requests/Receipts.antt =====
-- `reason_code` and `serialize_result` of execution/receipts.py, without the redaction of the payload.
-- `str.lower` and the test for a substring are arguments. The
-- outcome that a payload reports is a text; `transport_unknown` is the one text that is compared with.
use steam_cli.Prelude.{
  ℕ, Bool, not, ◌&&◌, ◌||◌, if◌then◌else◌, ◌==◌, Option, none, some, [], ◌∷◌, String, str_eq, any,
}
use steam_cli.Exec.{Result, ok, err}
use steam_cli.Ledger.State.{
  State, Operation, dispatch_pending, dispatched, unconfirmed, is_state, is_terminal,
}
use steam_cli.Ledger.Table.{Ledger, is_text}
use steam_cli.Ledger.Transition.{LedgerOperation, get}
use steam_cli.Ledger.Reads.{lookup_request_id}

unfoldable pub reason_code :
    (String → String) → (String → String → Bool) → Option String → Option String
reason_code lower holds none = none
reason_code lower holds (some message) =
    let has = holds (lower message) in
    some (
      if has "not initialized"
      then "broker_not_initialized"
      else if has "broker.json is corrupt"
      then "broker_config_invalid"
      else if has "different machine" || has "expected machine"
      then "machine_mismatch"
      else if has "not found" || has "does not exist"
      then "request_not_found"
      else if has "different plan content" || has "bound to different"
      then "request_conflict"
      else if has "policy" && (has "unavailable" || has "unreadable")
      then "policy_unavailable"
      else if has "policy" || has "allowlist" || has "permitted"
      then "policy_denied"
      else if has "provision" || has "steam login"
      then "not_provisioned"
      else if has "qualified" || has "unsupported"
      then "unsupported"
      else if has "locked" || has "state unavailable"
      then "state_unavailable"
      else if has "nonce"
      then "confirmation_rejected"
      else if has "filesystem"
      then "filesystem_unavailable"
      else if has "no authorized"
      then "no_authorized_operation"
      else "invalid_request")

-- What is read of the payload: the values of its keys, where they have the type that is asked for.
pub record Payload : Type 0 where
  pub operation_id : Option ℕ
  pub schema : Option String
  pub state : Option String
  pub reason : Option String
  pub reused : Bool
  pub outcome : Option String
  pub has_job_id : Bool

pub data Certainty : Type 0 where
  acknowledged uncertain not_established : Certainty

pub record DurableReceipt : Type 0 where
  pub operation_id : ℕ
  pub operation : Operation
  pub appid : ℕ
  pub state : State
  pub terminal : Bool
  pub dispatch_certainty : Certainty
  pub execution_window_expires_at : Option ℕ

unfoldable pub certainty_of : State → Certainty
certainty_of s =
    if is_state s dispatched
    then acknowledged
    else if is_state s dispatch_pending || is_state s unconfirmed
    then uncertain
    else not_established

unfoldable pub receipt_of : LedgerOperation → DurableReceipt
unfolding certainty_of
receipt_of op = record {
  operation_id = op.operation_id;
  operation = op.operation;
  appid = op.appid;
  state = op.state;
  terminal = is_terminal op.state;
  dispatch_certainty = certainty_of op.state;
  execution_window_expires_at = op.execution_window_expires_at;
}

-- An exception of the ledger leaves no receipt.
abbrev pub of_operation : Result LedgerOperation → Option DurableReceipt
of_operation (ok op) = some (receipt_of op)
of_operation (err e) = none

abbrev pub of_lookup : Result (Option LedgerOperation) → Option DurableReceipt
of_lookup (ok (some op)) = some (receipt_of op)
of_lookup (ok none) = none
of_lookup (err e) = none

-- The identifier of the payload comes first.
abbrev pub identifier : Option Payload → Option ℕ → Option ℕ
identifier none id = id
identifier (some p) id = elim p.operation_id [ none ↦ id | some n ↦ some n ]

-- The ledger is `none` where it cannot be opened.
unfoldable pub durable_receipt :
    (String → String) → Option Ledger → Option ℕ → Option String → Option DurableReceipt
unfolding receipt_of get lookup_request_id
durable_receipt intent_key none id request_id = none
durable_receipt intent_key (some s) (some id) request_id = of_operation (get id s).0
durable_receipt intent_key (some s) none (some request_id) =
    of_lookup (lookup_request_id intent_key request_id s).0
durable_receipt intent_key (some s) none none = none

pub data AttemptOutcome : Type 0 where
  refused observed transport_unknown receipt_reused request_recorded unsuccessful : AttemptOutcome
  reported : String → AttemptOutcome

abbrev records_request : String → Bool
records_request command =
    any (str_eq command) ("request" ∷ "install" ∷ "verify" ∷ "launch" ∷ "stop" ∷ "confirm" ∷ [])

abbrev pub is_transport_unknown : Payload → Bool
is_transport_unknown p = is_text p.schema "desktop-dispatch/0.1" && is_text p.state "unknown"

abbrev or_command : Option String → AttemptOutcome → AttemptOutcome
or_command none o = o
or_command (some text) o =
    if str_eq text "transport_unknown" then transport_unknown else reported text

unfoldable pub outcome_of : Option String → Option Payload → String → ℕ → AttemptOutcome
outcome_of (some failure) payload command exit_code = refused
outcome_of none none command exit_code = observed
outcome_of none (some p) command exit_code =
    if is_transport_unknown p
    then transport_unknown
    else if p.reused
    then receipt_reused
    else or_command p.outcome (
        if records_request command
        then request_recorded
        else if not (exit_code == 0)
        then unsuccessful
        else observed)
