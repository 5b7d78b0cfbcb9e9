-- ===== src/Executor/Paths/Launch.antt =====
-- `_launch` and `_execute_locked` of execution/executor.py keep what the sending of a launch keeps.
use steam_cli.Prelude.{ℕ, Option, none, some, String}
use steam_cli.Exec.{Exec}
use steam_cli.Exec.Keeps.{Keeps, keeps_rules}
use steam_cli.Ledger.Transition.{LedgerOperation}
use steam_cli.Executor.World.{World, Machine}
use steam_cli.Executor.Launch.{
  send_launch, act_on_denial, consult_owner, launch_after_start, launch,
}
use steam_cli.Executor.Lease.{execute_locked}
use steam_cli.Executor.Paths.{Quiet, Starts, path_rules}
use steam_cli.Executor.Paths.Lease.{execute_content-Keeps}

module _ {S : Type 0} {P : Machine S → Type 0} (q : Quiet P) (st : Starts P) (w : World S)
    (clock : ℕ → ℕ)
    (send_launch-Keeps : (id : ℕ) (op : LedgerOperation)
      → Keeps P (send_launch w clock id op)) where
  act_on_denial-Keeps :
      (id : ℕ) (op : LedgerOperation) (denial : Option String)
      → Keeps P (act_on_denial w clock id op denial)
  unfolding act_on_denial
  act_on_denial-Keeps id op none = send_launch-Keeps id op
  act_on_denial-Keeps id op (some why) = search path_rules

  consult_owner-Keeps :
      (policy : Option (LedgerOperation → Exec S (Option String))) (op : LedgerOperation)
      → Keeps P (consult_owner w clock policy op)
  consult_owner-Keeps none op = search keeps_rules
  consult_owner-Keeps (some policy) op = search path_rules

  launch_after_start-Keeps :
      (id : ℕ) (op : LedgerOperation) → Keeps P (launch_after_start w clock id op)
  unfolding launch_after_start
  launch_after_start-Keeps id op =
      search (path_rules, act_on_denial-Keeps, consult_owner-Keeps) depth 16

  launch-Keeps : (id : ℕ) (op : LedgerOperation) → Keeps P (launch w clock id op)
  unfolding launch
  launch-Keeps id op = search (path_rules, launch_after_start-Keeps) depth 16

  pub execute_locked-Keeps : (fuel id : ℕ) → Keeps P (execute_locked w clock fuel id)
  unfolding execute_locked
  execute_locked-Keeps fuel id =
      search (path_rules, launch-Keeps, execute_content-Keeps q st w clock fuel) depth 12
