-- ===== src/Scenarios/Tests.antt =====
-- What the definitions compute.
use steam_cli.Prelude.{true, List, [], ◌∷◌, ◌≡◌, refl, map}
use steam_cli.Exec.{modify, ◌>>=◌}
use steam_cli.Ledger.State.{
  State, authorized, install, launch, confirmed, is_state, supported_state, supported_operation,
  is_terminal, allowed, is_operation,
}
use steam_cli.Ledger.Table.{
  Row, Ledger, require_supported, close_transaction, transaction, update_returning, next_id,
  insert_row, utcnow, add_event,
}
use steam_cli.Ledger.Intake.{
  record_expired, expire_rows, expire_lapsed, record_request, request, confirm,
}
use steam_cli.Ledger.Transition.{get, check_move, commit_move, transition}
use steam_cli.Ledger.Reads.{window_valid, plan_document}
use steam_cli.Ledger.History.{after_call, history}
use steam_cli.Executor.World.{all_clear, ask, on_ledger, resume, catch, emit, launch_sent}
use steam_cli.Executor.Launch.{send_launch, act_on_denial, launch_after_start, launch as run_launch}
use steam_cli.Executor.Restore.{consult, content_policy_denial, restore_client}
use steam_cli.Executor.Intake.{
  choose_name, name_for, check_target, safe_install_dir_name, check_content, check_others,
  check_owned,
}
use steam_cli.Executor.Adopt.{adopt, retire, verify_adopted}
use steam_cli.Executor.Content.{
  recheck_policy, mount_changed, run_content, guarded_run, run_steamcmd, poll_steamcmd, after_run,
  after_steamcmd, check_download, last_probe,
}
use steam_cli.Executor.Lease.{
  execute_locked, execute_content, mount, place, lease, fresh_lease, take_lease, after_stop,
}
use steam_cli.Executor.Runs.{execute_job, after_job, run_jobs}
use steam_cli.Scenarios.Worlds.{clock, desktop, console, authorized_ledger, machine}

abbrev states : Ledger → List State
states s = map (λ (r : Row). r.state) s.rows

authorized_launch : states (authorized_ledger launch) ≡ authorized ∷ []
unfolding history after_call request confirm expire_lapsed expire_rows record_expired record_request
    transaction close_transaction require_supported update_returning next_id insert_row utcnow
    add_event ◌>>=◌ supported_operation supported_state is_state is_terminal
authorized_launch = refl

-- A first execution launches, a second one finds the row terminal.
launched_once :
    ((run_jobs clock
        (execute_job (desktop true) 3 1 ∷ execute_job (desktop true) 3 1 ∷ [])
        (machine launch)).effects
      ≡ launch_sent 1 ∷ [])
unfolding history after_call request confirm expire_lapsed expire_rows record_expired record_request
    transaction close_transaction require_supported update_returning next_id insert_row utcnow
    add_event ◌>>=◌ supported_operation supported_state is_state is_terminal run_jobs after_job
    execute_locked run_launch launch_after_start act_on_denial send_launch ask on_ledger emit modify
    get window_valid transition check_move commit_move allowed is_operation
launched_once = refl

-- An install runs from the lease to the confirmed end.
installed_once :
    states (run_jobs clock (execute_job console 3 1 ∷ []) (machine install)).ledger ≡ confirmed ∷ []
unfolding history after_call request confirm expire_lapsed expire_rows record_expired record_request
    transaction close_transaction require_supported update_returning next_id insert_row utcnow
    add_event ◌>>=◌ supported_operation supported_state is_state is_terminal run_jobs after_job
    execute_locked execute_content content_policy_denial consult mount place choose_name name_for
    check_target safe_install_dir_name check_content check_others check_owned lease fresh_lease
    take_lease recheck_policy after_stop mount_changed run_content guarded_run run_steamcmd
    poll_steamcmd after_run after_steamcmd check_download last_probe adopt retire restore_client
    verify_adopted plan_document all_clear catch resume ask on_ledger emit modify get window_valid
    transition check_move commit_move allowed is_operation
installed_once = refl
