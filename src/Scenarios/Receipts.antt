-- ===== src/Scenarios/Receipts.antt =====
-- A request that is recorded and found again, and a result of the broker on an authorized operation.
use steam_cli.Prelude.{false, Bool, none, some, String, ◌≡◌, refl, arith}
use steam_cli.Exec.{◌>>=◌}
use steam_cli.Ledger.State.{
  authorized, launch, is_state, is_terminal, supported_operation, supported_state,
}
use steam_cli.Ledger.Table.{
  transaction, close_transaction, require_supported, update_returning, next_id, insert_row, utcnow,
  add_event,
}
use steam_cli.Ledger.Intake.{
  request, confirm, expire_lapsed, expire_rows, record_expired, record_request,
}
use steam_cli.Ledger.Transition.{get}
use steam_cli.Ledger.History.{history, after_call}
use steam_cli.Requests.Held.{IsHeld}
use steam_cli.Requests.Receipts.{DurableReceipt, durable_receipt, receipt_of}
use steam_cli.Requests.Retry.{
  Serialized, category_of_state, serialize_result, serialize_result-IsHeld,
}
use steam_cli.Scenarios.Worlds.{authorized_ledger}
use steam_cli.Ledger.Reads.{find_request}
use steam_cli.Ledger.Invariant.{IsValid}
use steam_cli.Ledger.RoundTrip.{answer_for, find_request-request}
use steam_cli.Ledger.History.{empty_ledger}
use steam_cli.Scenarios.Worlds.{clock, ask_for}

abbrev same_text : String → String
same_text s = s

abbrev never : String → String → Bool
never s t = false

abbrev answer : Serialized
answer =
    serialize_result same_text same_text never (some (authorized_ledger launch)) none 0 "status"
      none none (some 1)

serialize_result-IsHeld_example :
    (r : DurableReceipt) × (answer.receipt ≡ some r)
    × IsHeld (some (authorized_ledger launch)) r
    × (r.state ≡ authorized)
unfolding serialize_result durable_receipt receipt_of category_of_state get history after_call
    request confirm expire_lapsed expire_rows record_expired record_request transaction
    close_transaction require_supported update_returning next_id insert_row utcnow add_event ◌>>=◌
    supported_operation supported_state is_state is_terminal
serialize_result-IsHeld_example =
    serialize_result-IsHeld same_text same_text never (some (authorized_ledger launch)) none 0
      "status" none none (some 1) refl

nothing-IsValid : IsValid empty_ledger
nothing-IsValid = record {
  version = refl;
  rows_valid = record {
    one_id = λ i. omega arith;
    one_active = λ m. omega arith;
    one_key = λ k. omega arith;
    each = tt;
  };
}

find_request-request_example :
    find_request "key" "document" false
      (request clock (ask_for launch "key") "nonce" empty_ledger).1
    ≡ (
      answer_for (ask_for launch "key") (1, "nonce") "document",
      (request clock (ask_for launch "key") "nonce" empty_ledger).1,
    )
unfolding request expire_lapsed expire_rows record_expired record_request transaction
    close_transaction require_supported update_returning next_id insert_row utcnow add_event ◌>>=◌
    supported_operation supported_state is_state is_terminal
find_request-request_example =
    find_request-request clock (ask_for launch "key") "nonce" "document" empty_ledger (1, "nonce")
      nothing-IsValid refl
