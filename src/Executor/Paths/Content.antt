-- ===== src/Executor/Paths/Content.antt =====
-- The content paths of `_execute_locked`, execution/executor.py keep what the calls keep.
use steam_cli.Prelude.{
  ℕ, suc, zero, Bool, not, Option, none, some, List, [], ◌∷◌, String, if◌then◌else◌,
}
use steam_cli.Exec.{Error, Exec, pure, ◌>>=◌}
use steam_cli.Exec.Keeps.{Keeps, keeps_rules, Keeps-bind, Keeps-pure}
use steam_cli.Ledger.Transition.{LedgerOperation}
use steam_cli.Executor.World.{
  World, Machine, ask, Report, ContentOutcome, installed, auth_required, content_failed, Verdict,
  PlanName, no_name, not_text, plan_name,
}
use steam_cli.Executor.Restore.{Failure}
use steam_cli.Executor.Intake.{
  refuse, name_of_manifest, name_for, choose_name, check_content, check_target, check_others, owned,
  check_owned,
}
use steam_cli.Executor.Adopt.{verify_adopted, retire, after_failed_adoption, repair, adopt}
use steam_cli.Executor.Content.{
  Run, unless_denied, recheck_policy, mount_changed, abort_content, poll_once, end_steamcmd,
  poll_steamcmd, run_steamcmd, last_probe, check_download, after_steamcmd, Ran, ended, ran, ending,
  unless_denied_ran, guarded_run, run_failed, after_run, run_content,
}
use steam_cli.Executor.Paths.{
  Quiet, Starts, contents-Keeps, adoptions-Keeps, path_rules, ask-Keeps,
  content_policy_denial-Keeps, restore_client-Keeps, finish_failure-Keeps, abort_intake-Keeps,
}

module _ {S : Type 0} {P : Machine S → Type 0} (q : Quiet P) (st : Starts P) (w : World S)
    (clock : ℕ → ℕ) where
  ruleset content_rules = (
    path_rules, contents-Keeps, adoptions-Keeps, content_policy_denial-Keeps, restore_client-Keeps,
    finish_failure-Keeps, abort_intake-Keeps,
  )

  refuse-Keeps :
      {A : Type 0} (op : LedgerOperation) (detail message : String)
      → Keeps P (refuse w clock {A = A} op detail message)
  unfolding refuse
  refuse-Keeps op detail message = search content_rules

  name_of_manifest-Keeps :
      (op : LedgerOperation) (name : String) (existing : Option String)
      → Keeps P (name_of_manifest w clock op name existing)
  unfolding name_of_manifest
  name_of_manifest-Keeps op name none = refuse-Keeps op _ _
  name_of_manifest-Keeps op name (some existing) = search (content_rules, refuse-Keeps)

  name_for-Keeps :
      (op : LedgerOperation) (validating : Bool) (name : String)
      → Keeps P (name_for w clock op validating name)
  unfolding name_for
  name_for-Keeps op validating name =
      search (content_rules, refuse-Keeps, name_of_manifest-Keeps) depth 12

  pub choose_name-Keeps :
      (op : LedgerOperation) (validating : Bool) (name : PlanName)
      → Keeps P (choose_name w clock op validating name)
  unfolding choose_name
  choose_name-Keeps op validating not_text = refuse-Keeps op _ _
  choose_name-Keeps op validating no_name = name_for-Keeps op validating _
  choose_name-Keeps op validating (plan_name name) = name_for-Keeps op validating name

  check_content-Keeps :
      (op : LedgerOperation) (validating : Bool) (name : String)
      → Keeps P (check_content w clock op validating name)
  unfolding check_content
  check_content-Keeps op validating name = search (content_rules, refuse-Keeps) depth 12

  pub check_target-Keeps :
      (op : LedgerOperation) (validating : Bool) (name : String)
      → Keeps P (check_target w clock op validating name)
  unfolding check_target
  check_target-Keeps op validating name =
      search (content_rules, refuse-Keeps, check_content-Keeps) depth 12

  pub check_others-Keeps :
      (op : LedgerOperation) (name : String) (others : List (Option String))
      → Keeps P (check_others w clock op name others)
  unfolding check_others
  check_others-Keeps op name [] = search keeps_rules
  check_others-Keeps op name (none ∷ rest) = refuse-Keeps op _ _
  check_others-Keeps op name (some other ∷ rest) =
      let later = check_others-Keeps op name rest in search (keeps_rules, refuse-Keeps, later)

  owned-Keeps :
      (op : LedgerOperation) (name : String) (own_dir : Option String)
      → Keeps P (owned w clock op name own_dir)
  unfolding owned
  owned-Keeps op name own_dir = search content_rules depth 12

  pub check_owned-Keeps :
      (op : LedgerOperation) (name : String) → Keeps P (check_owned w clock op name)
  unfolding check_owned
  check_owned-Keeps op name = search (content_rules, refuse-Keeps, owned-Keeps) depth 12

  verify_adopted-Keeps :
      (op : LedgerOperation) (prior_running : Bool)
      → Keeps P (verify_adopted w clock op prior_running)
  unfolding verify_adopted
  verify_adopted-Keeps op prior_running = search content_rules depth 14

  retire-Keeps :
      (op : LedgerOperation) (prior_running : Bool) → Keeps P (retire w clock op prior_running)
  unfolding retire
  retire-Keeps op prior_running = search (content_rules, verify_adopted-Keeps) depth 14

  after_failed_adoption-Keeps :
      (op : LedgerOperation) (prior_running : Bool) (verdict : Option Verdict)
      → Keeps P (after_failed_adoption w clock op prior_running verdict)
  after_failed_adoption-Keeps op prior_running none = search content_rules depth 8
  after_failed_adoption-Keeps op prior_running (some verdict) =
      search (content_rules, retire-Keeps) depth 8

  repair-Keeps :
      (op : LedgerOperation) (prior_running : Bool) → Keeps P (repair w clock op prior_running)
  unfolding repair
  repair-Keeps op prior_running = search (content_rules, after_failed_adoption-Keeps) depth 10

  adopt-Keeps :
      (op : LedgerOperation) (name : String) (prior_running : Bool)
      → Keeps P (adopt w clock op name prior_running)
  unfolding adopt
  adopt-Keeps op name prior_running = search (content_rules, retire-Keeps, repair-Keeps) depth 10

  unless_denied-Keeps :
      (r : Run) (f : String → Failure) (denial : Option String) (k : Exec (Machine S) Report)
      → Keeps P k
      → Keeps P (unless_denied w clock r f denial k)
  unless_denied-Keeps r f none k h = h
  unless_denied-Keeps r f (some why) k h = finish_failure-Keeps q w clock _ _ _

  pub recheck_policy-Keeps :
      (r : Run) (f : String → Failure) (k : Exec (Machine S) Report)
      → Keeps P k
      → Keeps P (recheck_policy w clock r f k)
  unfolding recheck_policy
  recheck_policy-Keeps r f k h =
      Keeps-bind _ _ (content_policy_denial-Keeps q w clock r.op)
        λ denial. unless_denied-Keeps r f denial k h

  pub mount_changed-Keeps : (r : Run) → Keeps P (mount_changed w clock r)
  unfolding mount_changed
  mount_changed-Keeps r = search content_rules

  abort_content-Keeps : (r : Run) → Keeps P (abort_content w clock r)
  unfolding abort_content
  abort_content-Keeps r = search (content_rules, mount_changed-Keeps) depth 12

  poll_once-Keeps : (r : Run) → Keeps P (poll_once w clock r)
  unfolding poll_once
  poll_once-Keeps r = search (content_rules, abort_content-Keeps) depth 8

  after_wait-Keeps :
      (r : Run) (again : Exec (Machine S) (ContentOutcome × Option String))
      → Keeps P again
      → (ended : Option ContentOutcome)
      → Keeps P (elim ended [
        | some outcome ↦ pure (outcome, none)
        | none ↦ do
          (stop, denial, raised) ← poll_once w clock r
          if not stop then again else do
            outcome ← ask w.terminate_steamcmd
            pure ((if raised then content_failed else outcome), denial)
      ])
  after_wait-Keeps r again k none = search (content_rules, poll_once-Keeps) depth 8
  after_wait-Keeps r again k (some outcome) = search keeps_rules

  end_steamcmd-Keeps : (ended : Option ContentOutcome) → Keeps P (end_steamcmd w clock ended)
  end_steamcmd-Keeps (some outcome) = search keeps_rules
  end_steamcmd-Keeps none = search content_rules

  poll_steamcmd-Keeps : (r : Run) (fuel : ℕ) → Keeps P (poll_steamcmd w clock r fuel)
  unfolding poll_steamcmd
  poll_steamcmd-Keeps r zero = Keeps-bind _ _ (ask-Keeps q w.wait_steamcmd) end_steamcmd-Keeps
  poll_steamcmd-Keeps r (suc fuel) =
      Keeps-bind _ _ (ask-Keeps q w.wait_steamcmd)
        λ ended. after_wait-Keeps r _ (poll_steamcmd-Keeps r fuel) ended

  run_steamcmd-Keeps : (r : Run) (fuel : ℕ) → Keeps P (run_steamcmd w clock r fuel)
  unfolding run_steamcmd
  run_steamcmd-Keeps r fuel = search (content_rules, poll_steamcmd-Keeps) depth 8

  last_probe-Keeps : (r : Run) → Keeps P (last_probe w clock r)
  unfolding last_probe
  last_probe-Keeps r = search (content_rules, recheck_policy-Keeps, adopt-Keeps) depth 14

  check_download-Keeps : (r : Run) → Keeps P (check_download w clock r)
  unfolding check_download
  check_download-Keeps r = search (content_rules, mount_changed-Keeps, last_probe-Keeps) depth 16

  after_steamcmd-Keeps : (r : Run) (o : ContentOutcome) → Keeps P (after_steamcmd w clock r o)
  unfolding after_steamcmd
  after_steamcmd-Keeps r auth_required = search content_rules
  after_steamcmd-Keeps r content_failed = search content_rules
  after_steamcmd-Keeps r installed = search (content_rules, check_download-Keeps) depth 8

  ending-Keeps : (m : Exec (Machine S) Report) → Keeps P m → Keeps P (ending w clock m)
  ending-Keeps m k = Keeps-bind _ _ k λ x. Keeps-pure _

  unless_denied_ran-Keeps :
      (r : Run) (denial : Option String) (k : Exec (Machine S) (Ran w clock))
      → Keeps P k
      → Keeps P (unless_denied_ran w clock r denial k)
  unless_denied_ran-Keeps r none k h = h
  unless_denied_ran-Keeps r (some why) k h = ending-Keeps _ (finish_failure-Keeps q w clock _ _ _)

  guarded_run-Keeps : (r : Run) (fuel : ℕ) → Keeps P (guarded_run w clock r fuel)
  unfolding guarded_run
  guarded_run-Keeps r fuel =
      search (content_rules, unless_denied_ran-Keeps, run_steamcmd-Keeps) depth 12

  run_failed-Keeps : (r : Run) (e : Error) → Keeps P (run_failed w clock r e)
  unfolding run_failed
  run_failed-Keeps r Error.target_escaped = ending-Keeps _ (finish_failure-Keeps q w clock _ _ _)
  run_failed-Keeps r _ = ending-Keeps _ (finish_failure-Keeps q w clock _ _ _)

  after_run-Keeps : (r : Run) (x : Ran w clock) → Keeps P (after_run w clock r x)
  unfolding after_run
  after_run-Keeps r (ended x) = search keeps_rules
  after_run-Keeps r (ran outcome (some why)) = search content_rules
  after_run-Keeps r (ran outcome none) = recheck_policy-Keeps r _ _ (after_steamcmd-Keeps r outcome)

  pub run_content-Keeps : (r : Run) (fuel : ℕ) → Keeps P (run_content w clock r fuel)
  unfolding run_content
  run_content-Keeps r fuel =
      search (content_rules, guarded_run-Keeps, run_failed-Keeps, after_run-Keeps) depth 8
