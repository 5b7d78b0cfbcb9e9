-- ===== src/Ledger/Intake.antt =====
-- `request`, `confirm` and `expire_lapsed` of execution/ledger.py.
use steam_cli.Prelude.{
  ℕ, ◌+◌, ◌*◌, Bool, not, ◌&&◌, String, none, some, List, [], ◌∷◌, ◌++◌, first, is_some,
}
use steam_cli.Exec.{
  Error, ledger_error, unsupported_ledger, confirmation_rejected, integrity_error, Result, err,
  Exec, pure, raise, raise_if, gets, handle, ◌>>=◌, ◌>>◌,
}
use steam_cli.Ledger.State.{
  State, pending_confirmation, authorized, expired, Operation, is_state, supported_operation,
}
use steam_cli.Ledger.Table.{
  Row, Ledger, schema_text, transaction, update_returning, insert_row, unexpired_key, is_text,
  is_after, is_lapsed, utcnow, add_event,
}

abbrev pub default_nonce_ttl_seconds : ℕ
default_nonce_ttl_seconds = 15 * 60

abbrev pub default_execution_window_seconds : ℕ
default_execution_window_seconds = 4 * 60 * 60

-- The rows that the two statements of `expire_lapsed` touch, and what they write.
abbrev pub nonce_lapsed : ℕ → Row → Bool
nonce_lapsed now r = is_state r.state pending_confirmation && is_lapsed r.nonce_expires_at now

abbrev pub window_lapsed : ℕ → Row → Bool
window_lapsed now r = is_state r.state authorized && is_lapsed r.execution_window_expires_at now

abbrev pub expire : ℕ → Row → Row
expire now r = record r { state = expired; updated_at = now }

-- The row that `confirm` accepts, and what it writes.
abbrev pub confirmable : String → ℕ → Row → Bool
confirmable nonce now r =
    is_text r.nonce nonce
    && (is_state r.state pending_confirmation && is_after r.nonce_expires_at now)

abbrev pub authorize : String → ℕ → ℕ → Row → Row
authorize actor window now r = record r {
  state = authorized;
  nonce = none;
  nonce_expires_at = none;
  confirmation_actor = some actor;
  execution_window_expires_at = some window;
  updated_at = now;
}

-- What a caller asks for.
pub record Request : Type 0 where
  pub plan_key : String
  pub plan_document : String
  pub operation : Operation
  pub appid : ℕ
  pub account_alias : String
  pub machine_id : String
  pub policy_version : String
  pub nonce_ttl_seconds : ℕ

abbrev pub new_row : Request → String → ℕ → Row
new_row q nonce now = record {
  operation_id = 0;
  schema = schema_text;
  plan_key = q.plan_key;
  plan_document = q.plan_document;
  operation = q.operation;
  appid = q.appid;
  account_alias = q.account_alias;
  machine_id = q.machine_id;
  state = pending_confirmation;
  policy_version = q.policy_version;
  nonce = some nonce;
  nonce_expires_at = some (now + q.nonce_ttl_seconds);
  confirmation_actor = none;
  execution_window_expires_at = none;
  prior_client_running = none;
  detail = none;
  created_at = now;
  updated_at = now;
}

-- `except sqlite3.IntegrityError`
abbrev pub integrity_as_ledger : {A : Type 0} → Error → Result A
integrity_as_ledger integrity_error = err ledger_error
integrity_as_ledger e = err e

abbrev pub or_reject : List ℕ → Exec Ledger ℕ
or_reject [] = raise confirmation_rejected
or_reject (id ∷ _) = pure id

module _ (clock : ℕ → ℕ) where
  -- The audit events of the expired rows.
  unfoldable pub record_expired : State → List ℕ → Exec Ledger Unit
  record_expired from [] = pure tt
  record_expired from (id ∷ ids) = do
    add_event clock id (some from) expired none
    record_expired from ids

  unfoldable pub expire_rows : ℕ → Exec Ledger (List ℕ)
  expire_rows now = do
    unconfirmed ← update_returning (nonce_lapsed now) (expire now)
    lapsed ← update_returning (window_lapsed now) (expire now)
    record_expired pending_confirmation unconfirmed
    record_expired authorized lapsed
    pure (unconfirmed ++ lapsed)

  unfoldable pub expire_lapsed : Exec Ledger (List ℕ)
  expire_lapsed = do now ← utcnow clock; transaction (expire_rows now)

  -- The transaction of `request`.
  unfoldable pub record_request : Request → String → ℕ → Exec Ledger ℕ
  record_request q nonce now = do
    duplicate ← gets (λ s. first (unexpired_key q.plan_key) s.rows)
    raise_if (is_some duplicate) ledger_error
    id ← insert_row (new_row q nonce now)
    add_event clock id none pending_confirmation none
    pure id

  -- `nonce` is the fresh `secrets.token_hex(16)`.
  unfoldable pub request : Request → String → Exec Ledger (ℕ × String)
  request q nonce = do
    raise_if (not (supported_operation q.operation)) unsupported_ledger
    expire_lapsed
    now ← utcnow clock
    id ← λ s. handle (transaction (record_request q nonce now) s) integrity_as_ledger
    pure (id, nonce)

  unfoldable pub confirm : String → String → ℕ → Exec Ledger ℕ
  confirm nonce actor execution_window_seconds = do
    now ← utcnow clock
    let window = now + execution_window_seconds
    transaction (do
      matched ← update_returning (confirmable nonce now) (authorize actor window now)
      id ← or_reject matched
      add_event clock id (some pending_confirmation) authorized (some actor)
      pure id)
