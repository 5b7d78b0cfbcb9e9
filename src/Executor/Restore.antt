-- ===== src/Executor/Restore.antt =====
-- The helpers of execution/executor.py that every path ends in: `_content_policy_denial`,
-- `_defer_content_policy`, `_restore_client`, `_finish_failure` and `_abort_intake`.
use Prim.Native.String.{◌++◌ as append}
use steam_cli.Prelude.{ℕ, Bool, true, false, not, if◌then◌else◌, Option, none, some, String, str_eq}
use steam_cli.Exec.{Exec, pure, ◌>>=◌, ◌>>◌}
use steam_cli.Ledger.State.{State}
use steam_cli.Ledger.Transition.{LedgerOperation, Move, transition}
use steam_cli.Executor.World.{World, Machine, ask, on_ledger, catch, is_exception, Outcome, Report}

abbrev pub report : {S : Type 0} → ℕ → Outcome → String → Exec (Machine S) Report
report id outcome detail = pure (record { operation_id = id; outcome = outcome; detail = detail })

abbrev pub to : State → String → Move
to state why = record {
  to_state = state;
  detail = some why;
  prior_client_running = none;
  expected_from = none;
}

abbrev pub was_running : Option Bool → Bool
was_running none = false
was_running (some b) = b

abbrev public_denial : Option String → Option String
public_denial none = none
public_denial (some why) =
    if str_eq why "policy unreadable before dispatch"
    then some "content policy unreadable"
    else some "content policy denied"

-- The arguments of `_finish_failure`.
pub record Failure : Type 0 where
  pub detail : String
  pub message : String
  pub outcome : Outcome
  pub to_state : State

abbrev pub abort_with : String → String → Failure
abort_with detail message = record {
  detail = detail;
  message = message;
  outcome = Outcome.aborted;
  to_state = State.aborted;
}

abbrev pub fail_with : String → String → Failure
fail_with detail message = record {
  detail = detail;
  message = message;
  outcome = Outcome.failed;
  to_state = State.failed;
}

module _ {S : Type 0} (w : World S) (clock : ℕ → ℕ) where
  unfoldable pub consult :
      Option (LedgerOperation → Exec S (Option String))
      → LedgerOperation
      → Exec (Machine S) (Option String)
  consult none op = pure none
  consult (some policy) op =
      catch is_exception (do why ← ask (policy op); pure (public_denial why))
        (λ _. pure (some "content policy unreadable"))

  unfoldable pub content_policy_denial : LedgerOperation → Exec (Machine S) (Option String)
  unfolding consult
  content_policy_denial op = consult w.dispatch_policy op

  -- A raise of the probe reads as a surviving writer.
  unfoldable pub restore_client : Option Bool → Exec (Machine S) Bool
  restore_client prior = do
    writer ← catch is_exception (ask w.steamcmd_running) (λ _. pure true)
    if writer then pure false else if not (was_running prior) then pure true else ask w.start_client

  -- Restore, then terminalize; a failed restoration leaves the row as it is.
  unfoldable pub finish_failure : ℕ → Option Bool → Failure → Exec (Machine S) Report
  finish_failure id prior f = do
    back ← restore_client prior
    if not back
        then report id Outcome.deferred
            (append f.message "; client restore failed; state left for reconcile")
        else do
          on_ledger (transition clock id (to f.to_state f.detail))
          report id f.outcome f.message

  unfoldable pub abort_intake : ℕ → Option Bool → String → String → Exec (Machine S) Report
  abort_intake id prior detail message = finish_failure id prior (abort_with detail message)

  abbrev restored_or_not : Bool → String → String
  restored_or_not true why = why
  restored_or_not false why = append why "; client restore failed; state left for retry"

  -- `prior and steamcmd_running()`, which probes only if the client was running.
  abbrev writer_if : Option Bool → Exec (Machine S) Bool
  writer_if prior = if was_running prior then ask w.steamcmd_running else pure false

  unfoldable pub defer_content_policy : LedgerOperation → String → Exec (Machine S) Report
  defer_content_policy op why = do
    writer ← writer_if op.prior_client_running
    if writer
        then report op.operation_id Outcome.deferred
            (append why "; steamcmd may still be running; client restore deferred")
        else do
          back ← restore_client op.prior_client_running
          report op.operation_id Outcome.deferred (restored_or_not back why)
