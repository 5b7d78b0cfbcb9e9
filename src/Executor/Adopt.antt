-- ===== src/Executor/Adopt.antt =====
-- The adoption and the verdict of `_execute_locked`, with `_verified_outcome`:
-- execution/executor.py.
use steam_cli.Prelude.{ℕ, Bool, true, false, not, if◌then◌else◌, Option, none, some, String, ◌==◌}
use steam_cli.Exec.{Exec, pure, ◌>>=◌, ◌>>◌}
use steam_cli.Ledger.State.{State}
use steam_cli.Ledger.Transition.{LedgerOperation, Move, transition}
use steam_cli.Executor.World.{
  Verdict, completed, restored, clean, stale, World, adoption_started, Machine, ask, on_ledger,
  emit, catch, is_adoption_or_os, is_os_error, Outcome, Report,
}
use steam_cli.Executor.Restore.{fail_with, restore_client, finish_failure, report, to}

abbrev pub silently : State → Move
silently state = record {
  to_state = state;
  detail = none;
  prior_client_running = none;
  expected_from = none;
}

abbrev pub is_completed : Verdict → Bool
is_completed completed = true
is_completed restored = false
is_completed clean = false
is_completed stale = false

abbrev pub is_number : Option ℕ → ℕ → Bool
is_number none n = false
is_number (some m) n = m == n

-- `_STATE_FULLY_INSTALLED`
abbrev pub state_fully_installed : ℕ
state_fully_installed = 4

module _ {S : Type 0} (w : World S) (clock : ℕ → ℕ) where
  abbrev finish : ℕ → State → Outcome → String → String → Exec (Machine S) Report
  finish id state outcome detail summary = do
    on_ledger (transition clock id (to state detail))
    report id outcome summary

  abbrev adopted_detail : Bool → String
  adopted_detail true = "client_adopted; first_run_required"
  adopted_detail false = "content_present; client validation deferred to next client start"

  abbrev adopted_summary : Bool → String
  adopted_summary true = "content present and adopted; first run still required"
  adopted_summary false =
      "content present and adopted; client validation deferred to next client start; first run still required"

  -- The row is `verifying`: what the manifest shows decides its end.
  unfoldable pub verify_adopted : LedgerOperation → Bool → Exec (Machine S) Report
  verify_adopted op prior_running = do
    id ← ask (w.own_appid op.appid)
    if not (is_number id op.appid)
        then finish op.operation_id State.unconfirmed Outcome.unconfirmed "manifest appid mismatch"
            "adopted manifest no longer matches the requested appid"
        else do
          flags ← ask (w.own_state_flags op.appid)
          if not (is_number flags state_fully_installed)
              then finish op.operation_id State.unconfirmed Outcome.unconfirmed
                  "manifest StateFlags" "adoption not confirmed"
              else do
                again ← ask (w.downloading op.appid)
                if again
                    then finish op.operation_id State.contradicted Outcome.contradicted
                        "client re-downloading after adoption"
                        "client rejected the adopted manifest and is re-downloading"
                    else finish op.operation_id State.confirmed Outcome.confirmed
                        (adopted_detail prior_running) (adopted_summary prior_running)

  -- The journal and the marker are retired after the ledger left `adopting`.
  unfoldable pub retire : LedgerOperation → Bool → Exec (Machine S) Report
  retire op prior_running = do
    on_ledger (transition clock op.operation_id (silently State.client_restart_pending))
    cleared ←
        catch is_os_error (do ask (w.clear_adoption_journal op.appid); pure true) (λ _. pure false)
    if not cleared
        then (do
          restore_client w clock (some prior_running)
          report op.operation_id Outcome.aborted
              "journal cleanup failed; state left for reconcile retry")
        else do
          back ← restore_client w clock (some prior_running)
          if not back
              then report op.operation_id Outcome.aborted
                  "client restore failed; state left for reconcile retry"
              else do
                on_ledger (transition clock op.operation_id (silently State.verifying))
                verify_adopted op prior_running

  abbrev pub after_failed_adoption :
      LedgerOperation → Bool → Option Verdict → Exec (Machine S) Report
  after_failed_adoption op prior_running none = do
    restore_client w clock (some prior_running)
    report op.operation_id Outcome.aborted "adoption journal unreadable; state left for reconcile"
  after_failed_adoption op prior_running (some verdict) =
      if is_completed verdict
      then retire op prior_running
      else finish_failure w clock op.operation_id (some prior_running)
          (fail_with "adoption failed" "adoption failed")

  -- The journal decides what a failed adoption left.
  unfoldable pub repair : LedgerOperation → Bool → Exec (Machine S) Report
  repair op prior_running = do
    verdict ←
        catch is_adoption_or_os
          (do v ← ask (w.reconcile_adoption op.appid op.operation_id); pure (some v))
          (λ _. pure none)
    after_failed_adoption op prior_running verdict

  unfoldable pub adopt : LedgerOperation → String → Bool → Exec (Machine S) Report
  adopt op name prior_running = do
    on_ledger (transition clock op.operation_id (silently State.adopting))
    emit (adoption_started op.operation_id)
    adopted ←
        catch is_adoption_or_os (do ask (w.adopt_manifest op.appid name op.operation_id); pure true)
          (λ _. pure false)
    if adopted then retire op prior_running else repair op prior_running
