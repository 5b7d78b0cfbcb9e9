-- ===== src/Executor/Paths/Recovery.antt =====
-- The lease of `_execute_locked` and `_reconcile_locked`, execution/executor.py keep what the calls keep.
use steam_cli.Prelude.{ℕ, Bool, true, false, Option, none, some, String}
use steam_cli.Exec.Keeps.{Keeps, keeps_rules}
use steam_cli.Ledger.State.{State}
use steam_cli.Ledger.Transition.{LedgerOperation}
use steam_cli.Executor.World.{World, Machine, Verdict}
use steam_cli.Executor.Reconcile.{
  verified_outcome, restore_then_settle, restore_and_note, settle_verified, to_verifying,
  finish_swap, judge_journal, repair_adoption, reconcile_adopting, reconcile_content,
  reconcile_interrupted, reconcile_dispatch, reconcile_state, reconcile_active, reconcile_locked,
}
use steam_cli.Executor.Paths.{Quiet, path_rules, restore_client-Keeps}

module _ {S : Type 0} {P : Machine S → Type 0} (q : Quiet P) (w : World S) (clock : ℕ → ℕ) where
  ruleset lease_rules = (path_rules, restore_client-Keeps)

  verified_outcome-Keeps :
      (appid : ℕ) (prior : Option Bool) → Keeps P (verified_outcome w clock appid prior)
  unfolding verified_outcome
  verified_outcome-Keeps appid prior = search path_rules depth 12

  restore_then_settle-Keeps :
      (op : LedgerOperation) (state : State) (detail what : String)
      → Keeps P (restore_then_settle w clock op state detail what)
  unfolding restore_then_settle
  restore_then_settle-Keeps op state detail what = search lease_rules depth 10

  restore_and_note-Keeps :
      (op : LedgerOperation) (what : String) → Keeps P (restore_and_note w clock op what)
  unfolding restore_and_note
  restore_and_note-Keeps op what = search lease_rules depth 10

  settle_verified-Keeps :
      (op : LedgerOperation) (from : String) → Keeps P (settle_verified w clock op from)
  unfolding settle_verified
  settle_verified-Keeps op from = search (lease_rules, verified_outcome-Keeps) depth 10

  to_verifying-Keeps :
      (op : LedgerOperation) (already : Bool) (detail : String)
      → Keeps P (to_verifying w clock op already detail)
  to_verifying-Keeps op true detail = search keeps_rules
  to_verifying-Keeps op false detail = search path_rules

  finish_swap-Keeps :
      (op : LedgerOperation) (already : Bool) (detail from : String)
      → Keeps P (finish_swap w clock op already detail from)
  unfolding finish_swap
  finish_swap-Keeps op already detail from =
      search (lease_rules, restore_and_note-Keeps, to_verifying-Keeps, settle_verified-Keeps) depth
        12

  judge_journal-Keeps :
      (op : LedgerOperation) (v : Option Verdict) → Keeps P (judge_journal w clock op v)
  judge_journal-Keeps op none = restore_and_note-Keeps op _
  judge_journal-Keeps op (some verdict) =
      search (lease_rules, restore_then_settle-Keeps, finish_swap-Keeps) depth 8

  repair_adoption-Keeps : (op : LedgerOperation) → Keeps P (repair_adoption w clock op)
  unfolding repair_adoption
  repair_adoption-Keeps op = search (lease_rules, judge_journal-Keeps) depth 10

  reconcile_adopting-Keeps : (op : LedgerOperation) → Keeps P (reconcile_adopting w clock op)
  unfolding reconcile_adopting
  reconcile_adopting-Keeps op =
      search (lease_rules, repair_adoption-Keeps, restore_and_note-Keeps) depth 16

  reconcile_content-Keeps : (op : LedgerOperation) → Keeps P (reconcile_content w clock op)
  unfolding reconcile_content
  reconcile_content-Keeps op = search (lease_rules, restore_then_settle-Keeps) depth 12

  reconcile_interrupted-Keeps : (op : LedgerOperation) → Keeps P (reconcile_interrupted w clock op)
  unfolding reconcile_interrupted
  reconcile_interrupted-Keeps op = search (lease_rules, restore_then_settle-Keeps) depth 12

  reconcile_dispatch-Keeps : (op : LedgerOperation) → Keeps P (reconcile_dispatch w clock op)
  unfolding reconcile_dispatch
  reconcile_dispatch-Keeps op = search lease_rules

  reconcile_state-Keeps :
      (s : State) (op : LedgerOperation) → Keeps P (reconcile_state w clock s op)
  unfolding reconcile_state
  reconcile_state-Keeps State.dispatch_pending op = reconcile_dispatch-Keeps op
  reconcile_state-Keeps State.lease_acquired op = restore_then_settle-Keeps op _ _ _
  reconcile_state-Keeps State.client_stopping op = restore_then_settle-Keeps op _ _ _
  reconcile_state-Keeps State.content_running op = reconcile_content-Keeps op
  reconcile_state-Keeps State.interrupted op = reconcile_interrupted-Keeps op
  reconcile_state-Keeps State.adopting op = reconcile_adopting-Keeps op
  reconcile_state-Keeps State.client_restart_pending op = finish_swap-Keeps op false _ _
  reconcile_state-Keeps State.verifying op = finish_swap-Keeps op true _ _
  reconcile_state-Keeps _ op = search keeps_rules

  reconcile_active-Keeps :
      (found : Option LedgerOperation) → Keeps P (reconcile_active w clock found)
  reconcile_active-Keeps none = search keeps_rules
  reconcile_active-Keeps (some op) = reconcile_state-Keeps op.state op

  pub reconcile_locked-Keeps : Keeps P (reconcile_locked w clock)
  unfolding reconcile_locked
  reconcile_locked-Keeps = search (lease_rules, reconcile_active-Keeps) depth 12
