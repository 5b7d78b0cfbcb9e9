-- ===== src/Executor/Paths/Lease.antt =====
-- The lease of `_execute_locked` and `_reconcile_locked`, execution/executor.py keep what the calls keep.
use steam_cli.Prelude.{ℕ, Bool, Option, none, some, String}
use steam_cli.Exec.{Exec}
use steam_cli.Exec.Keeps.{Keeps, keeps_rules}
use steam_cli.Ledger.Transition.{LedgerOperation}
use steam_cli.Executor.World.{World, Machine, LeaseGates, Report}
use steam_cli.Executor.Intake.{Step, done, proceed, follow}
use steam_cli.Executor.Content.{Run}
use steam_cli.Executor.Lease.{
  after_stop, or_defer_policy, resume_lease, take_lease, fresh_lease, lease, place, with_identity,
  mount, window_lapsed_end, with_login, look_up_login, execute_content,
}
use steam_cli.Executor.Paths.{
  Quiet, Starts, path_rules, content_policy_denial-Keeps, restore_client-Keeps,
  finish_failure-Keeps, defer_content_policy-Keeps, ask-Keeps,
}
use steam_cli.Executor.Paths.Content.{
  recheck_policy-Keeps, mount_changed-Keeps, run_content-Keeps, choose_name-Keeps,
  check_target-Keeps, check_others-Keeps, check_owned-Keeps,
}

module _ {S : Type 0} {P : Machine S → Type 0} (q : Quiet P) (st : Starts P) (w : World S)
    (clock : ℕ → ℕ) where
  ruleset lease_rules = (
    path_rules, content_policy_denial-Keeps, restore_client-Keeps, finish_failure-Keeps,
    defer_content_policy-Keeps, recheck_policy-Keeps, mount_changed-Keeps, run_content-Keeps,
    choose_name-Keeps, check_target-Keeps, check_others-Keeps, check_owned-Keeps,
  )

  follow-Keeps :
      {A : Type 0} (x : Step A) (k : A → Exec (Machine S) Report)
      → ((a : A) → Keeps P (k a))
      → Keeps P (follow {S = S} x k)
  follow-Keeps (done r) k h = search keeps_rules
  follow-Keeps (proceed a) k h = h a

  module _ (fuel : ℕ) where
    after_stop-Keeps : (r : Run) (resuming : Bool) → Keeps P (after_stop w clock fuel r resuming)
    unfolding after_stop
    after_stop-Keeps r resuming = search lease_rules depth 16

    or_defer_policy-Keeps :
        (op : LedgerOperation) (denial : Option String) (k : Exec (Machine S) Report)
        → Keeps P k
        → Keeps P (or_defer_policy w clock fuel op denial k)
    or_defer_policy-Keeps op none k h = h
    or_defer_policy-Keeps op (some why) k h = defer_content_policy-Keeps q w clock op why

    resume_lease-Keeps : (r : Run) → Keeps P (resume_lease w clock fuel r)
    unfolding resume_lease
    resume_lease-Keeps r = search (lease_rules, or_defer_policy-Keeps, after_stop-Keeps) depth 12

    take_lease-Keeps : (r : Run) → Keeps P (take_lease w clock fuel r)
    unfolding take_lease
    take_lease-Keeps r = search (lease_rules, after_stop-Keeps) depth 12

    fresh_lease-Keeps : (r : Run) (g : LeaseGates) → Keeps P (fresh_lease w clock fuel r g)
    unfolding fresh_lease
    fresh_lease-Keeps r g = search (lease_rules, or_defer_policy-Keeps, take_lease-Keeps) depth 12

    lease-Keeps : (r : Run) (resuming : Bool) → Keeps P (lease w clock fuel r resuming)
    unfolding lease
    lease-Keeps r resuming = search (lease_rules, resume_lease-Keeps, fresh_lease-Keeps) depth 12

    place-Keeps :
        (op : LedgerOperation) (login : String) (identity : ℕ × ℕ) (resuming : Bool)
        → Keeps P (place w clock fuel op login identity resuming)
    unfolding place
    place-Keeps op login identity resuming =
        search (lease_rules, follow-Keeps, lease-Keeps) depth 20

    with_identity-Keeps :
        (op : LedgerOperation) (login : String) (resuming : Bool) (identity : Option (ℕ × ℕ))
        → Keeps P (with_identity w clock fuel op login resuming identity)
    with_identity-Keeps op login resuming none = search keeps_rules
    with_identity-Keeps op login resuming (some identity) = place-Keeps op login identity resuming

    mount-Keeps :
        (op : LedgerOperation) (login : String) (resuming : Bool)
        → Keeps P (mount w clock fuel op login resuming)
    unfolding mount
    mount-Keeps op login resuming = search (lease_rules, with_identity-Keeps) depth 10

    window_lapsed_end-Keeps :
        (op : LedgerOperation) (resuming : Bool)
        → Keeps P (window_lapsed_end w clock fuel op resuming)
    unfolding window_lapsed_end
    window_lapsed_end-Keeps op resuming = search lease_rules depth 12

    with_login-Keeps :
        (op : LedgerOperation) (resuming : Bool) (login : Option String)
        → Keeps P (with_login w clock fuel op resuming login)
    with_login-Keeps op resuming none = search keeps_rules
    with_login-Keeps op resuming (some login) =
        search (lease_rules, window_lapsed_end-Keeps, mount-Keeps) depth 8

    look_up_login-Keeps :
        (accounts : Option (String → Exec S (Option String))) (alias : String)
        → Keeps P (look_up_login w clock fuel accounts alias)
    look_up_login-Keeps none alias = search keeps_rules
    look_up_login-Keeps (some accounts) alias = ask-Keeps q _

    pub execute_content-Keeps :
        (op : LedgerOperation) (resuming : Bool)
        → Keeps P (execute_content w clock fuel op resuming)
    unfolding execute_content
    execute_content-Keeps op resuming =
        search (lease_rules, or_defer_policy-Keeps, look_up_login-Keeps, with_login-Keeps) depth 14
