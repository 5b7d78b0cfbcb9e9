-- ===== src/Ledger/Transition.antt =====
-- `transition` and `get` of execution/ledger.py.
use steam_cli.Prelude.{ℕ, Bool, false, not, ◌&&◌, String, ◌==◌, Option, none, some, first, length}
use steam_cli.Exec.{
  ledger_error, invalid_transition, Exec, pure, raise, raise_if, gets, ◌>>=◌, ◌>>◌,
}
use steam_cli.Ledger.State.{State, Operation, is_state, allowed}
use steam_cli.Ledger.Table.{
  Row, Ledger, require_supported, transaction, update_returning, utcnow, add_event,
}

-- `LedgerOperation`
pub record LedgerOperation : Type 0 where
  pub operation_id : ℕ
  pub plan_key : String
  pub operation : Operation
  pub appid : ℕ
  pub account_alias : String
  pub machine_id : String
  pub state : State
  pub policy_version : String
  pub confirmation_actor : Option String
  pub prior_client_running : Option Bool
  pub execution_window_expires_at : Option ℕ
  pub detail : Option String

abbrev pub to_operation : Row → LedgerOperation
to_operation r = record {
  operation_id = r.operation_id;
  plan_key = r.plan_key;
  operation = r.operation;
  appid = r.appid;
  account_alias = r.account_alias;
  machine_id = r.machine_id;
  state = r.state;
  policy_version = r.policy_version;
  confirmation_actor = r.confirmation_actor;
  prior_client_running = r.prior_client_running;
  execution_window_expires_at = r.execution_window_expires_at;
  detail = r.detail;
}

abbrev pub has_id : ℕ → Row → Bool
has_id id r = r.operation_id == id

abbrev pub or_missing : {A : Type 0} → Option A → Exec Ledger A
or_missing none = raise ledger_error
or_missing (some a) = pure a

unfoldable pub get : ℕ → Exec Ledger LedgerOperation
unfolding require_supported
get id = do
  require_supported
  found ← gets (λ s. first (has_id id) s.rows)
  row ← or_missing found
  pure (to_operation row)

-- The arguments of one call of `transition`.
pub record Move : Type 0 where
  pub to_state : State
  pub detail : Option String
  pub prior_client_running : Option Bool
  pub expected_from : Option State

abbrev pub unexpected : Option State → State → Bool
unexpected none current = false
unexpected (some from) current = not (is_state current from)

-- The checks on the row that was read.
unfoldable pub check_move : Move → LedgerOperation → Exec Ledger Unit
check_move m current = do
  raise_if (unexpected m.expected_from current.state) invalid_transition
  raise_if (not (allowed current.state m.to_state)) invalid_transition

abbrev pub keep_or : Option Bool → Option Bool → Option Bool
keep_or none old = old
keep_or (some b) old = some b

abbrev pub move_row : Move → ℕ → Row → Row
move_row m now r = record r {
  state = m.to_state;
  detail = m.detail;
  updated_at = now;
  prior_client_running = keep_or m.prior_client_running r.prior_client_running;
}

abbrev pub still_in : ℕ → State → Row → Bool
still_in id from r = has_id id r && is_state r.state from

module _ (clock : ℕ → ℕ) where
  -- The write: a compare-and-set on the state that was read.
  unfoldable pub commit_move : ℕ → Move → State → ℕ → Exec Ledger Unit
  unfolding update_returning add_event
  commit_move id m from now = do
    changed ← update_returning (still_in id from) (move_row m now)
    raise_if (not (length changed == 1)) invalid_transition
    add_event clock id (some from) m.to_state m.detail

  unfoldable pub transition : ℕ → Move → Exec Ledger Unit
  transition id m = do
    current ← get id
    check_move m current
    now ← utcnow clock
    transaction (commit_move id m current.state now)
