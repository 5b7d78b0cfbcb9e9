-- ===== src/Scenarios/Examples.antt =====
-- Each result, applied to a run for which its conditions hold.
use steam_cli.Prelude.{ℕ, ◌≤◌, true, false, none, some, [], ◌∷◌, ◌≡◌, refl, arith, first}
use steam_cli.Exec.{Result, ok, err, confirmation_rejected, invalid_transition, modify, ◌>>=◌}
use steam_cli.Ledger.State.{
  State, authorized, dispatched, Operation, install, launch, stop, lease_acquired, is_state,
  supported_state, supported_operation, is_terminal, allowed, is_operation,
}
use steam_cli.Ledger.Table.{
  Row, Ledger, require_supported, close_transaction, transaction, update_returning, next_id,
  insert_row, utcnow, add_event,
}
use steam_cli.Ledger.Intake.{
  record_expired, expire_rows, expire_lapsed, record_request, request, confirm, new_row,
}
use steam_cli.Ledger.Transition.{Move, has_id, get, transition}
use steam_cli.Ledger.Reads.{find_request}
use steam_cli.Ledger.Invariant.{IsValid}
use steam_cli.Ledger.Outcomes.{transition-ok, transition-refused, IsMoved}
use steam_cli.Ledger.History.{
  request_call, confirm_call, transition_call, expire_call, empty_ledger, after_call, history,
  history-IsValid,
}
use steam_cli.Prelude.{All}
use steam_cli.Ledger.History.Audit.{IsLawful, history-IsLawful}
use steam_cli.Ledger.History.Terminal.{terminal_row_immutable}
use steam_cli.Ledger.History.Nonces.{confirm_once}
use steam_cli.Policy.Load.{
  document, ExecutionPolicy, allow, find_grant, grant_for, launch_permitted, stop_permitted,
  read_grants, read_floor, read_appids, read_allowlist, read_force, read_policy, load_policy,
}
use steam_cli.Policy.Toml.{
  Fields, field, no_fields, table, text, array, item, no_items, integer, natural,
}
use steam_cli.Policy.Grants.{IsSafe, load_policy-IsSafe}
use steam_cli.Requests.Intent.{
  Intent, intent, matches_request_id, matches_account_alias, permitted,
  require_content_provisioning,
}
use steam_cli.Requests.Intake.{
  Receipt, reuse, record_or_reuse, record_new, auto_confirm, confirm_unless, floor_denial,
}
use steam_cli.Requests.Consent.{StillAllowed, authorized_only_under_allow}
use steam_cli.Requests.Bound.{bindings}
use steam_cli.Requests.Repeated.{IsReceiptOf}
use steam_cli.Requests.Reuse.{recorded_request_reused}
use steam_cli.Scenarios.Worlds.{
  clock, ask_for, confirmed_calls, authorized_ledger, policy_file, surroundings, launch_request,
}

empty-IsValid : IsValid empty_ledger
empty-IsValid = record {
  version = refl;
  rows_valid = record {
    one_id = λ i. omega arith;
    one_active = λ m. omega arith;
    one_key = λ k. omega arith;
    each = tt;
  };
}

pub authorized-IsValid : (op : Operation) → IsValid (authorized_ledger op)
authorized-IsValid op = history-IsValid clock (confirmed_calls op) empty_ledger empty-IsValid

clock_grows : (i j : ℕ) → i ≤ j → clock i ≤ clock j
clock_grows i j h = omega arith

history-IsValid_example : IsValid (history clock (confirmed_calls launch) empty_ledger)
history-IsValid_example = history-IsValid clock (confirmed_calls launch) empty_ledger empty-IsValid

abbrev pub row_in : State → Row
row_in state = record (new_row (ask_for install "key") "nonce" 1000) {
  operation_id = 1;
  state = state;
}

abbrev pub one_row : State → Ledger
one_row state = record { user_version = 0; rows = row_in state ∷ []; events = []; reads = 0 }

one_row-IsValid : (state : State) → supported_state state ≡ true → IsValid (one_row state)
unfolding supported_operation
one_row-IsValid state known = record {
  version = refl;
  rows_valid = record {
    one_id = λ i. ground arith;
    one_active = λ m. ground arith;
    one_key = λ k. ground arith;
    each = ((ground (arith, known), λ p. refl), tt);
  };
}

abbrev take_lease : Move
take_lease = record {
  to_state = lease_acquired;
  detail = none;
  prior_client_running = some true;
  expected_from = none;
}

transition-ok_example :
    ((transition clock 1 take_lease (one_row authorized)).0 ≡ ok tt)
    × IsMoved clock 1 take_lease
        (one_row authorized)
        (row_in authorized)
        (transition clock 1 take_lease (one_row authorized)).1
transition-ok_example =
    transition-ok 1 take_lease (one_row authorized) (row_in authorized)
      (one_row-IsValid authorized (unfold supported_state in refl)) refl clock refl
      (unfold allowed in refl)

transition-refused_example :
    transition clock 1 take_lease (one_row dispatched)
    ≡ (err invalid_transition, one_row dispatched)
unfolding allowed supported_state
transition-refused_example =
    transition-refused 1 take_lease (one_row dispatched) (row_in dispatched)
      (one_row-IsValid dispatched refl) refl clock refl

terminal_row_immutable_example :
    first
      (has_id 1)
      (history clock
        (transition_call 1 take_lease ∷ expire_call ∷ confirm_call "nonce" "me" 60 ∷ [])
        (one_row dispatched)).rows
    ≡ some (row_in dispatched)
unfolding is_terminal
terminal_row_immutable_example =
    terminal_row_immutable 1 (row_in dispatched) refl clock
      (transition_call 1 take_lease ∷ expire_call ∷ confirm_call "nonce" "me" 60 ∷ [])
      (one_row dispatched) refl

confirm_once_example :
    (confirm clock "nonce" "other" 60 (
      history clock
        (expire_call ∷ transition_call 1 take_lease ∷ [])
        (confirm clock "nonce" "owner" 600
          (history clock (request_call (ask_for install "key") "nonce" ∷ []) empty_ledger)).1)).0
    ≡ err confirmation_rejected
unfolding history after_call request confirm expire_lapsed expire_rows record_expired record_request
    transaction close_transaction require_supported update_returning next_id insert_row utcnow
    add_event ◌>>=◌ supported_operation supported_state is_state is_terminal
confirm_once_example =
    confirm_once clock "nonce" "owner" "other" 600 60
      (expire_call ∷ transition_call 1 take_lease ∷ [])
      (history clock (request_call (ask_for install "key") "nonce" ∷ []) empty_ledger) clock_grows
      (history-IsValid clock (request_call (ask_for install "key") "nonce" ∷ []) empty_ledger
        empty-IsValid)
      tt refl

abbrev loaded_policy : ExecutionPolicy
loaded_policy = record {
  version = "v1";
  grants = (launch, allow) ∷ [];
  min_free_gb = some 50;
  launch_allowlist = 570 ∷ [];
  stop_allowlist = [];
  stop_allow_force = false;
}

load_policy-IsSafe_example : IsSafe loaded_policy
unfolding load_policy read_policy read_grants read_floor read_allowlist read_appids read_force
    find_grant is_operation steam_cli.Exec.Fallible.◌>>=◌
load_policy-IsSafe_example = load_policy-IsSafe policy_file refl

-- [grants] stop = "allow", [stop] allowed_appids = [570]: a policy without a floor.
abbrev stop_fields : Fields
stop_fields = field "grants" (table (field "stop" (text "allow") no_fields)) (
    field "stop"
      (table (field "allowed_appids" (array (item (integer (natural 570)) no_items)) no_fields))
      no_fields)

stop_without_floor :
    load_policy (document "v1" stop_fields)
    ≡ ok (record {
      version = "v1";
      grants = (stop, allow) ∷ [];
      min_free_gb = none;
      launch_allowlist = [];
      stop_allowlist = 570 ∷ [];
      stop_allow_force = false;
    })
unfolding load_policy read_policy read_grants read_floor read_allowlist read_appids read_force
    find_grant is_operation steam_cli.Exec.Fallible.◌>>=◌
stop_without_floor = refl

abbrev fresh_receipt : Receipt
fresh_receipt = record {
  operation_id = 1;
  state = authorized;
  reused = false;
  nonce = none;
  detail = none;
  auto_confirm_denied = none;
}

authorized_only_under_allow_example : StillAllowed surroundings launch_request
unfolding request confirm expire_lapsed expire_rows record_expired record_request transaction
    close_transaction require_supported update_returning next_id insert_row utcnow add_event ◌>>=◌
    supported_operation supported_state is_state is_terminal load_policy read_policy read_grants
    read_floor read_allowlist read_appids read_force find_grant grant_for is_operation
    record_or_reuse record_new auto_confirm confirm_unless floor_denial intent matches_request_id
    matches_account_alias permitted launch_permitted stop_permitted require_content_provisioning
    find_request steam_cli.Exec.Fallible.◌>>=◌
authorized_only_under_allow_example =
    authorized_only_under_allow clock surroundings launch_request empty_ledger fresh_receipt refl
      refl refl

abbrev recorded_intent : Intent
recorded_intent = record {
  plan_key = "request-1";
  plan_document = "request-1";
  account_alias = "desktop";
  machine_id = "local";
}

abbrev known_ledger : Ledger
known_ledger = record (one_row dispatched) {
  rows = record (row_in dispatched) { plan_key = "request-1"; plan_document = "request-1" } ∷ [];
}

known_ledger-IsValid : IsValid known_ledger
unfolding supported_operation supported_state
known_ledger-IsValid = record {
  version = refl;
  rows_valid = record {
    one_id = λ i. ground arith;
    one_active = λ m. ground arith;
    one_key = λ k. ground arith;
    each = ((ground arith, λ p. refl), tt);
  };
}

abbrev reused_answer : Receipt
reused_answer = record {
  operation_id = 1;
  state = dispatched;
  reused = true;
  nonce = none;
  detail = none;
  auto_confirm_denied = none;
}

recorded_request_reused_example :
    (bindings (record_or_reuse clock surroundings launch_request known_ledger).1.rows
      ≡ bindings known_ledger.rows)
    × IsReceiptOf recorded_intent reused_answer
        (record_or_reuse clock surroundings launch_request known_ledger).1
unfolding request confirm expire_lapsed expire_rows record_expired record_request transaction
    close_transaction require_supported update_returning next_id insert_row utcnow add_event ◌>>=◌
    supported_operation supported_state is_state is_terminal is_operation get reuse record_or_reuse
    intent matches_request_id matches_account_alias find_request steam_cli.Exec.Fallible.◌>>=◌
recorded_request_reused_example =
    recorded_request_reused clock surroundings launch_request recorded_intent known_ledger
      known_ledger-IsValid refl refl

history-IsLawful_example : All IsLawful (history clock (confirmed_calls launch) empty_ledger).events
history-IsLawful_example = history-IsLawful clock (confirmed_calls launch) empty_ledger tt
