-- ===== src/Scenarios/Runs.antt =====
-- The results on runs of the executor, each applied where its conditions hold.
use steam_cli.Prelude.{ℕ, ◌≤◌, true, false, some, [], ◌∷◌, ◌≡◌, refl, first, ◌⊎◌}
use steam_cli.Ledger.State.{State, dispatched, install, launch, is_terminal}
use steam_cli.Ledger.Transition.{has_id, transition}
use steam_cli.Ledger.Invariant.{IsValid}
use steam_cli.Ledger.History.{expire_call}
use steam_cli.Executor.Restore.{abort_with, finish_failure, to}
use steam_cli.Executor.Recovery.{IsRestored, finish_failure-IsRestored}
use steam_cli.Executor.Dispatch.Invariant.{launches}
use steam_cli.Executor.Reconcile.{reconcile_locked}
use steam_cli.Executor.Runs.{
  run_jobs-IsValid, terminal_row_survives, execute_job, reconcile_job, call_job, run_jobs,
}
use steam_cli.Executor.Unstarted.{with_starts, reconcile_starts_nothing}
use steam_cli.Exec.{interrupt, Exec, raise}
use steam_cli.Executor.Dispatch.Runs.{launched_at_most_once}
use steam_cli.Executor.World.{Machine}
use steam_cli.Scenarios.Worlds.{console, clock, desktop, authorized_ledger, machine}
use steam_cli.Scenarios.Examples.{authorized-IsValid, row_in, one_row}

launched_at_most_once_example :
    launches 1
      (run_jobs clock
        (execute_job (desktop true) 3 1
          ∷ reconcile_job (desktop true)
          ∷ execute_job (desktop false) 3 1
          ∷ call_job expire_call
          ∷ [])
        (machine launch)).effects
    ≤ 1
launched_at_most_once_example =
    launched_at_most_once clock 1
      (execute_job (desktop true) 3 1
        ∷ reconcile_job (desktop true)
        ∷ execute_job (desktop false) 3 1
        ∷ call_job expire_call
        ∷ [])
      (machine launch) (authorized-IsValid launch) refl

finish_failure-IsRestored_example :
    ((finish_failure
        (desktop true)
        clock
        1
        (some true)
        (abort_with "why" "why")
        (machine install)).1.ledger
      ≡ (machine install).ledger)
    ⊎ (IsRestored (desktop true) (some true) tt
        × ((finish_failure
              (desktop true)
              clock
              1
              (some true)
              (abort_with "why" "why")
              (machine install)).1.ledger
            ≡ (transition clock 1 (to State.aborted "why") (authorized_ledger install)).1))
finish_failure-IsRestored_example =
    finish_failure-IsRestored (desktop true) clock 1 (some true) (abort_with "why" "why")
      (machine install)

run_jobs-IsValid_example :
    IsValid
      (run_jobs clock
        (execute_job console 3 1 ∷ reconcile_job console ∷ call_job expire_call ∷ [])
        (machine install)).ledger
run_jobs-IsValid_example =
    run_jobs-IsValid clock
      (execute_job console 3 1 ∷ reconcile_job console ∷ call_job expire_call ∷ [])
      (machine install) (authorized-IsValid install)

abbrev ended_machine : Machine (Unit {0})
ended_machine = record { ledger = one_row dispatched; session = tt; effects = [] }

terminal_row_survives_example :
    first
      (has_id 1)
      (run_jobs clock
        (execute_job console 3 1 ∷ reconcile_job console ∷ call_job expire_call ∷ [])
        ended_machine).ledger.rows
    ≡ some (row_in dispatched)
unfolding is_terminal
terminal_row_survives_example =
    terminal_row_survives clock
      (execute_job console 3 1 ∷ reconcile_job console ∷ call_job expire_call ∷ []) ended_machine 1
      (row_in dispatched) refl refl

-- A call at which the process dies.
abbrev interrupted_call : {A : Type 0} → ℕ → Exec (Unit {0}) A
interrupted_call n = raise interrupt

reconcile_starts_nothing_example :
    (reconcile_locked
        (with_starts console interrupted_call
          (λ login appid dir validate. interrupted_call 0)
          (λ appid dir id. interrupted_call 0))
        clock
        (machine install)
      ≡ reconcile_locked console clock (machine install))
    × ((reconcile_locked console clock (machine install)).1.effects ≡ (machine install).effects)
reconcile_starts_nothing_example =
    reconcile_starts_nothing console clock interrupted_call
      (λ login appid dir validate. interrupted_call 0) (λ appid dir id. interrupted_call 0)
      (machine install)
