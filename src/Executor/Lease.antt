-- ===== src/Executor/Lease.antt =====
-- `_execute_locked` of execution/executor.py: what is refused before any effect, and the lease, from
-- the first look at the gates to the start of the content phase.
use steam_cli.Prelude.{
  ℕ, Bool, true, false, not, ◌&&◌, ◌||◌, if◌then◌else◌, Option, none, some, String, str_eq,
}
use steam_cli.Exec.{Exec, pure, ◌>>=◌, ◌>>◌}
use steam_cli.Ledger.State.{
  State, authorized, interrupted, install, verify, Operation, is_state, is_operation,
}
use steam_cli.Ledger.Intake.{expire_lapsed}
use steam_cli.Ledger.Transition.{LedgerOperation, Move, get, transition}
use steam_cli.Ledger.Reads.{plan_document, window_valid}
use steam_cli.Requests.Intent.{Platform, win32}
use steam_cli.Executor.World.{
  is_pass, is_fail, is_unknown, LeaseGates, all_clear, World, Machine, ask, on_ledger, Outcome,
  Report,
}
use steam_cli.Executor.Restore.{
  abort_with, was_running, content_policy_denial, defer_content_policy, restore_client,
  finish_failure, report, to,
}
use steam_cli.Executor.Launch.{launch}
use steam_cli.Executor.Intake.{follow, choose_name, check_target, check_others, check_owned}
use steam_cli.Executor.Adopt.{silently}
use steam_cli.Executor.Content.{Run, mount_changed, recheck_policy, run_content}

abbrev lease_taken : Bool → Move
lease_taken prior_running = record {
  to_state = State.lease_acquired;
  detail = none;
  prior_client_running = some prior_running;
  expected_from = none;
}

abbrev content_move : Bool → Move
content_move resuming = record {
  to_state = State.content_running;
  detail = if resuming then some "resume" else none;
  prior_client_running = none;
  expected_from = none;
}

abbrev pub is_win32 : Platform → Bool
is_win32 win32 = true
is_win32 Platform.linux = false
is_win32 Platform.other_platform = false

-- `if not steam_login`
abbrev filled : Option String → Option String
filled none = none
filled (some s) = if str_eq s "" then none else some s

module _ {S : Type 0} (w : World S) (clock : ℕ → ℕ) (fuel : ℕ) where
  abbrev abort_run : Run → String → String → Exec (Machine S) Report
  abort_run r detail message =
      finish_failure w clock r.op.operation_id (some r.prior_running) (abort_with detail message)

  -- After the client was stopped: gates, window, mount and policy once more, then the content.
  unfoldable pub after_stop : Run → Bool → Exec (Machine S) Report
  after_stop r resuming = do
    gates ← ask w.gates
    if not (all_clear gates) || not (is_pass gates.client_running)
        then abort_run r "lease gates regressed during client stop"
            "lease gates regressed during client stop"
        else do
          valid ← on_ledger (window_valid clock r.op.operation_id)
          if not valid
              then abort_run r "window lapsed before content start"
                  "execution window lapsed before content start"
              else do
                changed ← mount_changed w clock r
                if changed
                    then abort_run r "library mount changed before content start"
                        "library mount changed before content start"
                    else recheck_policy w clock r (λ why. abort_with why why)
                        (do
                          on_ledger (transition clock r.op.operation_id (content_move resuming))
                          run_content w clock r fuel)

  abbrev pub or_defer_policy :
      LedgerOperation → Option String → Exec (Machine S) Report → Exec (Machine S) Report
  or_defer_policy op none k = k
  or_defer_policy op (some why) k = defer_content_policy w clock op why

  unfoldable pub resume_lease : Run → Exec (Machine S) Report
  resume_lease r = do
    client ← ask w.client_possibly_running
    denial ← content_policy_denial w clock r.op
    or_defer_policy r.op denial (do
      stopped ← if client then ask w.stop_client else pure true
      if not stopped
          then (do
            restore_client w clock (some r.prior_running)
            report r.op.operation_id Outcome.deferred "client would not exit for resume")
          else after_stop r true)

  -- The durable lease, and the stop of a client that was running.
  unfoldable pub take_lease : Run → Exec (Machine S) Report
  take_lease r = do
    on_ledger (transition clock r.op.operation_id (lease_taken r.prior_running))
    on_ledger (transition clock r.op.operation_id (silently State.client_stopping))
    recheck_policy w clock r (λ why. abort_with why why)
        (do
          stopped ← if r.prior_running then ask w.stop_client else pure true
          if not stopped
              then abort_run r "client would not exit cleanly" "client would not exit cleanly"
              else after_stop r false)

  unfoldable pub fresh_lease : Run → LeaseGates → Exec (Machine S) Report
  fresh_lease r gates =
      if is_unknown gates.client_running
      then report r.op.operation_id Outcome.deferred
          "client presence unknown (probe error); deferred"
      else do
        denial ← content_policy_denial w clock r.op
        or_defer_policy r.op denial
            (take_lease (record r { prior_running = is_fail gates.client_running }))

  -- From the probe for a surviving steamcmd on.
  unfoldable pub lease : Run → Bool → Exec (Machine S) Report
  lease r resuming = do
    writer ← ask w.steamcmd_running
    if writer
        then report r.op.operation_id Outcome.deferred
            "a steamcmd process is already running; deferred"
        else do
          gates ← ask w.gates
          if not (all_clear gates)
              then report r.op.operation_id Outcome.deferred "lease gates not clear"
              else if resuming
              then resume_lease r
              else fresh_lease r gates

  abbrev pub run_of : LedgerOperation → String → String → Bool → ℕ × ℕ → Run
  run_of op name login validating identity = record {
    op = op;
    name = name;
    login = login;
    validating = validating;
    prior_running = was_running op.prior_client_running;
    identity = identity;
  }

  -- The plan's directory and the proof that it is this title's.
  unfoldable pub place : LedgerOperation → String → ℕ × ℕ → Bool → Exec (Machine S) Report
  place op login identity resuming = do
    document ← on_ledger (plan_document op.operation_id)
    let validating = is_operation op.operation verify
    named ← choose_name w clock op validating (w.read_plan_name document)
    follow named λ name. do
      safe ← check_target w clock op validating name
      follow safe λ _. do
        others ← ask (w.other_install_dirs op.appid)
        free ← check_others w clock op name others
        follow free λ _. do
          mine ← check_owned w clock op name
          follow mine λ _. lease (run_of op name login validating identity) resuming

  abbrev pub with_identity :
      LedgerOperation → String → Bool → Option (ℕ × ℕ) → Exec (Machine S) Report
  with_identity op login resuming none =
      report op.operation_id Outcome.deferred "library steamapps directory unavailable; deferred"
  with_identity op login resuming (some identity) = place op login identity resuming

  unfoldable pub mount : LedgerOperation → String → Bool → Exec (Machine S) Report
  mount op login resuming = do
    there ← ask w.steamapps_is_dir
    if not there
        then report op.operation_id Outcome.deferred
            "library steamapps directory unavailable; deferred"
        else do identity ← ask w.library_identity; with_identity op login resuming identity

  -- A lapsed window ends the operation; an interrupted one only after the client is back.
  unfoldable pub window_lapsed_end : LedgerOperation → Bool → Exec (Machine S) Report
  window_lapsed_end op resuming = do
    on_ledger (expire_lapsed clock)
    if not resuming then report op.operation_id Outcome.aborted "execution window lapsed" else do
      back ← restore_client w clock op.prior_client_running
      if not back
          then report op.operation_id Outcome.deferred
              "window lapsed; client restore failed; state left for retry"
          else do
            on_ledger
                (transition clock op.operation_id (to State.failed "window lapsed before resume"))
            report op.operation_id Outcome.aborted "execution window lapsed"

  abbrev pub with_login : LedgerOperation → Bool → Option String → Exec (Machine S) Report
  with_login op resuming none =
      report op.operation_id Outcome.deferred "account has no provisioned Steam login"
  with_login op resuming (some login) = do
    valid ← on_ledger (window_valid clock op.operation_id)
    if not valid then window_lapsed_end op resuming else mount op login resuming

  abbrev pub look_up_login :
      Option (String → Exec S (Option String)) → String → Exec (Machine S) (Option String)
  look_up_login none alias = pure (some alias)
  look_up_login (some accounts) alias = ask (accounts alias)

  unfoldable pub execute_content : LedgerOperation → Bool → Exec (Machine S) Report
  execute_content op resuming =
      if is_win32 w.platform
      then report op.operation_id Outcome.deferred
          "Windows content backend is a candidate; authentication and content recovery are unqualified"
      else if not w.content_provisioned
      then report op.operation_id Outcome.deferred "content execution is not provisioned"
      else do
        denial ← content_policy_denial w clock op
        or_defer_policy op denial (do
          login ← look_up_login w.account_login op.account_alias
          with_login op resuming (filled login))

  unfoldable pub execute_locked : ℕ → Exec (Machine S) Report
  execute_locked id = do
    op ← on_ledger (get id)
    if not (is_state op.state authorized) && not (is_state op.state interrupted)
        then report id Outcome.aborted "not executable"
        else if is_operation op.operation Operation.launch
        then launch w clock id op
        else if not (is_operation op.operation install) && not (is_operation op.operation verify)
        then report id Outcome.aborted "operation requires a different executor"
        else execute_content op (is_state op.state interrupted)
