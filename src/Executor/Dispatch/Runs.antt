-- ===== src/Executor/Dispatch/Runs.antt =====
-- How often a launch is sent in runs of `execute` and `reconcile` of execution/executor.py.
use steam_cli.Prelude.{ℕ, ◌≤◌, List, ◌≡◌, arith}
use steam_cli.Ledger.History.{after_call-Stable}
use steam_cli.Executor.Runs.{
  Job, execute_job, reconcile_job, call_job, after_job, run_jobs, run_jobs-Keeps,
}
use steam_cli.Ledger.Invariant.{IsValid}
use steam_cli.Executor.World.{Machine}
use steam_cli.Executor.Dispatch.Invariant.{launches, Settled-Stable, AtMostOnce}
use steam_cli.Executor.Dispatch.Once.{AtMostOnce-Quiet, execute_locked-AtMostOnce}
use steam_cli.Executor.Paths.Recovery.{reconcile_locked-Keeps}

module _ {S : Type 0} (clock : ℕ → ℕ) where
  after_job-AtMostOnce :
      (i : ℕ) (job : Job S) (x : Machine S) → AtMostOnce i x → AtMostOnce i (after_job clock job x)
  unfolding after_job
  after_job-AtMostOnce i (execute_job w fuel id) x h =
      (execute_locked-AtMostOnce i clock w fuel id).at x h
  after_job-AtMostOnce i (reconcile_job w) x h =
      (reconcile_locked-Keeps (AtMostOnce-Quiet i) w clock).at x h
  after_job-AtMostOnce i (call_job call) x h = record {
    once = h.once;
    settled = after_call-Stable clock (Settled-Stable i _) call x.ledger h.settled;
  }

  -- From a valid ledger and no launch sent, any sequence of executions, recoveries and ledger calls,
  -- each in a world of its own that may raise at any call, sends the launch of one operation at most
  -- once.
  pub launched_at_most_once :
      (i : ℕ) (jobs : List (Job S)) (x : Machine S)
      → IsValid x.ledger
      → launches i x.effects ≡ 0
      → launches i (run_jobs clock jobs x).effects ≤ 1
  launched_at_most_once i jobs x v none_sent =
      let start : AtMostOnce i x = record {
        once = omega (arith, none_sent);
        settled = record { valid = v; committed = λ t. ground (arith, none_sent) };
      } in
      (run_jobs-Keeps clock {P = AtMostOnce i} (after_job-AtMostOnce i) jobs x start).once
