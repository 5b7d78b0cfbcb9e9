-- ===== src/Requests/Intake.antt =====
-- `record_or_reuse` of execution/agent_requests.py and `_floor_denial` of execution/broker_main.py.
use Prim.Native.String.{◌++◌ as append}
use steam_cli.Prelude.{
  ℕ, ◌*◌, ◌^◌, Bool, true, false, not, ◌||◌, if◌then◌else◌, String, str_eq, ltb, Option, none, some,
}
use steam_cli.Exec.{ledger_error, policy_error, Result, ok, err, Exec, pure, raise_if, ◌>>=◌, ◌>>◌}
use steam_cli.Ledger.State.{State, pending_confirmation, authorized, stop, is_operation}
use steam_cli.Ledger.Table.{Ledger}
use steam_cli.Ledger.Intake.{
  Request, request, confirm, expire_lapsed, default_nonce_ttl_seconds,
  default_execution_window_seconds,
}
use steam_cli.Ledger.Transition.{LedgerOperation}
use steam_cli.Ledger.Reads.{find_request}
use steam_cli.Policy.Load.{is_allow, ExecutionPolicy, grant_for, PolicyFile, load_policy}
use steam_cli.Requests.Intent.{
  DirectRequest, Config, Intent, Encoding, intent, permitted, Platform,
  require_content_provisioning,
}

-- The receipt dictionary; a key that is left out is `none`.
pub record Receipt : Type 0 where
  pub operation_id : ℕ
  pub state : State
  pub reused : Bool
  pub nonce : Option String
  pub detail : Option String
  pub auto_confirm_denied : Option String

-- `_floor_denial`: `free` is what `shutil.disk_usage` reports, `none` if it raises.
unfoldable pub floor_denial : Option ℕ → Option ℕ → Option String
floor_denial free none = some "no disk floor configured"
floor_denial none (some gb) = some "free disk space could not be measured"
floor_denial (some bytes) (some gb) =
    if ltb bytes (gb * 10 ^ 9) then some "free disk below the floor" else none

-- What the world gives to one call: the file at each of the two reads of the policy, the free bytes,
-- and the fresh nonce.
pub record Surroundings : Type 0 where
  pub config : Config
  pub platform : Platform
  pub first_policy : PolicyFile
  pub second_policy : PolicyFile
  pub free_bytes : Option ℕ
  pub fresh_nonce : String
  pub strip : String → String
  pub encoding : Encoding

abbrev pub lift : {A : Type 0} → Result A → Exec Ledger A
lift r s = (r, s)

abbrev pub bound_elsewhere : Intent → LedgerOperation → Bool
bound_elsewhere i op =
    not (str_eq op.account_alias i.account_alias) || not (str_eq op.machine_id i.machine_id)

abbrev pub reused_receipt : LedgerOperation → Option String → Receipt
reused_receipt op nonce = record {
  operation_id = op.operation_id;
  state = op.state;
  reused = true;
  nonce = nonce;
  detail = op.detail;
  auto_confirm_denied = none;
}

-- The receipt of a recorded request.
unfoldable pub reuse : Intent → LedgerOperation × Option String → Exec Ledger Receipt
reuse i (op, nonce) = do
  raise_if (bound_elsewhere i op) ledger_error
  pure (reused_receipt op nonce)

abbrev pub to_request : Intent → DirectRequest → ExecutionPolicy → Request
to_request i q p = record {
  plan_key = i.plan_key;
  plan_document = i.plan_document;
  operation = q.operation;
  appid = q.appid;
  account_alias = i.account_alias;
  machine_id = i.machine_id;
  policy_version = p.version;
  nonce_ttl_seconds = default_nonce_ttl_seconds;
}

abbrev pub recorded : ℕ → String → Option String → Receipt
recorded id nonce denied = record {
  operation_id = id;
  state = pending_confirmation;
  reused = false;
  nonce = some nonce;
  detail = none;
  auto_confirm_denied = denied;
}

abbrev pub floor_verdict : Surroundings → DirectRequest → ExecutionPolicy → Option String
floor_verdict w q current =
    if is_operation q.operation stop then none else floor_denial w.free_bytes current.min_free_gb

module _ (clock : ℕ → ℕ) where
  -- The disk floor refuses, or the nonce is consumed on the spot.
  unfoldable pub confirm_unless : ℕ → String → ExecutionPolicy → Option String → Exec Ledger Receipt
  confirm_unless id nonce current (some denied) = pure (recorded id nonce (some denied))
  confirm_unless id nonce current none = do
    confirm clock nonce (append "policy:" current.version) default_execution_window_seconds
    pure (record {
      operation_id = id;
      state = authorized;
      reused = false;
      nonce = none;
      detail = none;
      auto_confirm_denied = none;
    })

  -- Authorization under an `allow` grant of the policy as it is now.
  unfoldable pub auto_confirm :
      Surroundings → DirectRequest → ℕ → String → Result ExecutionPolicy → Exec Ledger Receipt
  auto_confirm w q id nonce (err _) = pure (recorded id nonce none)
  auto_confirm w q id nonce (ok current) =
      if not (is_allow (grant_for current q.operation)) || not (permitted current q)
      then pure (recorded id nonce none)
      else confirm_unless id nonce current (floor_verdict w q current)

  unfoldable pub record_new : Surroundings → DirectRequest → Intent → Exec Ledger Receipt
  record_new w q i = do
    policy ← lift (load_policy w.first_policy)
    raise_if (not (permitted policy q)) policy_error
    lift (require_content_provisioning w.strip w.config q.operation i.account_alias w.platform)
    (id, nonce) ← request clock (to_request i q policy) w.fresh_nonce
    auto_confirm w q id nonce (load_policy w.second_policy)

  abbrev pub reuse_or_record :
      Surroundings
      → DirectRequest
      → Intent
      → Option (LedgerOperation × Option String)
      → Exec Ledger Receipt
  reuse_or_record w q i none = record_new w q i
  reuse_or_record w q i (some found) = reuse i found

  unfoldable pub record_or_reuse : Surroundings → DirectRequest → Exec Ledger Receipt
  record_or_reuse w q = do
    i ← lift (intent w.encoding w.config q)
    expire_lapsed clock
    existing ← find_request i.plan_key i.plan_document true
    reuse_or_record w q i existing
