-- ===== src/Executor/Reconcile.antt =====
-- `_reconcile_locked` and `_verified_outcome` of execution/executor.py: each operation that a crash
-- left behind gets one recovery action. The list of action texts is modelled by its entries.
use Prim.Native.String.{◌++◌ as append}
use steam_cli.Prelude.{
  ℕ, Bool, true, false, not, ◌&&◌, ◌||◌, if◌then◌else◌, Option, none, some, List, [], ◌∷◌, ◌++◌,
  String,
}
use steam_cli.Exec.{Exec, pure, ◌>>=◌, ◌>>◌}
use steam_cli.Ledger.State.{State, install, verify, is_operation}
use steam_cli.Ledger.Intake.{expire_lapsed}
use steam_cli.Ledger.Transition.{LedgerOperation, transition}
use steam_cli.Ledger.Reads.{active, window_valid}
use steam_cli.Executor.World.{
  is_pass, all_clear, Verdict, World, Machine, ask, on_ledger, catch, is_os_error,
  is_adoption_or_os,
}
use steam_cli.Executor.Restore.{restore_client, to, was_running}
use steam_cli.Executor.Launch.{from_to}
use steam_cli.Executor.Adopt.{is_completed, is_number, state_fully_installed}
use steam_cli.Executor.Lease.{is_win32}

-- An entry of `actions`: the operation and what was done.
pub record Action : Type 0 where
  pub operation_id : ℕ
  pub what : String

abbrev one : ℕ → String → List Action
one id what = record { operation_id = id; what = what } ∷ []

abbrev retry_later : String
retry_later = "client restore failed; state left for retry"

-- The texts of a verdict and of an outcome.
abbrev verdict_text : Verdict → String
verdict_text Verdict.completed = "completed"
verdict_text Verdict.restored = "restored"
verdict_text Verdict.clean = "clean"
verdict_text Verdict.stale = "stale"

abbrev outcome_text : State → String
outcome_text State.confirmed = "confirmed"
outcome_text State.contradicted = "contradicted"
outcome_text _ = "unconfirmed"

abbrev confirmed_why : Option Bool → String
confirmed_why prior =
    if was_running prior
    then "client_adopted"
    else "content_present; client validation deferred to next client start"

module _ {S : Type 0} (w : World S) (clock : ℕ → ℕ) where
  unfoldable pub verified_outcome : ℕ → Option Bool → Exec (Machine S) (State × String)
  verified_outcome appid prior = do
    id ← ask (w.own_appid appid)
    if not (is_number id appid) then pure (State.unconfirmed, "manifest appid mismatch") else do
      flags ← ask (w.own_state_flags appid)
      if not (is_number flags state_fully_installed)
          then pure (State.unconfirmed, "manifest StateFlags")
          else do
            again ← ask (w.downloading appid)
            pure (
                if again
                then (State.contradicted, "client re-downloading after adoption")
                else (State.confirmed, confirmed_why prior))

  -- The transition with its detail, and the action.
  abbrev pub settle : LedgerOperation → State → String → String → Exec (Machine S) (List Action)
  settle op state detail what = do
    on_ledger (transition clock op.operation_id (to state detail))
    pure (one op.operation_id what)

  -- Restore, then `settle`; a failed restoration leaves the row for the next pass.
  unfoldable pub restore_then_settle :
      LedgerOperation → State → String → String → Exec (Machine S) (List Action)
  restore_then_settle op state detail what = do
    back ← restore_client w clock op.prior_client_running
    if not back then pure (one op.operation_id retry_later) else settle op state detail what

  -- The best effort of a deferral: its failure is noted beside it.
  unfoldable pub restore_and_note : LedgerOperation → String → Exec (Machine S) (List Action)
  restore_and_note op what = do
    back ← restore_client w clock op.prior_client_running
    pure (
        if back
        then one op.operation_id what
        else one op.operation_id retry_later ++ one op.operation_id what)

  unfoldable pub settle_verified : LedgerOperation → String → Exec (Machine S) (List Action)
  settle_verified op from = do
    (outcome, why) ← verified_outcome op.appid op.prior_client_running
    settle op outcome (append "reconciled: " why)
        (append from (append " -> " (outcome_text outcome)))

  abbrev pub to_verifying : LedgerOperation → Bool → String → Exec (Machine S) Unit
  to_verifying op true detail = pure tt
  to_verifying op false detail =
      on_ledger (transition clock op.operation_id (to State.verifying detail))

  -- The journal is retired, the client restored, and the manifest judged; `from` is the text before
  -- the arrow of the action.
  unfoldable pub finish_swap :
      LedgerOperation → Bool → String → String → Exec (Machine S) (List Action)
  finish_swap op already_verifying detail from = do
    cleared ←
        catch is_os_error (do ask (w.clear_adoption_journal op.appid); pure true) (λ _. pure false)
    if not cleared then restore_and_note op "journal cleanup failed; deferred" else do
      back ← restore_client w clock op.prior_client_running
      if not back
          then pure (one op.operation_id retry_later)
          else do to_verifying op already_verifying detail; settle_verified op from

  abbrev pub judge_journal : LedgerOperation → Option Verdict → Exec (Machine S) (List Action)
  judge_journal op none = restore_and_note op "adoption journal unreadable; deferred"
  judge_journal op (some verdict) =
      if not (is_completed verdict)
      then restore_then_settle op State.failed
          (append "reconciled: adoption " (verdict_text verdict))
          (append "adoption " (append (verdict_text verdict) " -> failed"))
      else do
        on_ledger (
            transition clock op.operation_id (to State.client_restart_pending "adoption completed"))
        finish_swap op false "adoption completed" "adoption completed"

  unfoldable pub repair_adoption : LedgerOperation → Exec (Machine S) (List Action)
  repair_adoption op = do
    verdict ←
        catch is_adoption_or_os
          (do v ← ask (w.reconcile_adoption op.appid op.operation_id); pure (some v))
          (λ _. pure none)
    judge_journal op verdict

  unfoldable pub reconcile_adopting : LedgerOperation → Exec (Machine S) (List Action)
  reconcile_adopting op = do
    gates ← ask w.gates
    if not (all_clear gates)
        then pure (one op.operation_id "lease gates not clear; adoption reconcile deferred")
        else do
          client ← ask w.client_possibly_running
          if not client then repair_adoption op else do
            stopped ← ask w.stop_client
            if not stopped
                then restore_and_note op "client running; adoption reconcile deferred"
                else do
                  post_stop ← ask w.gates
                  if not (all_clear post_stop) || not (is_pass post_stop.client_running)
                      then restore_and_note op
                          "lease regressed during stop; adoption reconcile deferred"
                      else repair_adoption op

  unfoldable pub reconcile_content : LedgerOperation → Exec (Machine S) (List Action)
  reconcile_content op = do
    writer ← ask w.steamcmd_running
    if writer then pure (one op.operation_id "steamcmd may still be running; deferred") else do
      valid ← on_ledger (window_valid clock op.operation_id)
      if valid
          then settle op State.interrupted "resume candidate" "resume via execute()"
          else restore_then_settle op State.failed "window lapsed mid-download"
              "failed (window lapsed; partial dir invisible)"

  unfoldable pub reconcile_interrupted : LedgerOperation → Exec (Machine S) (List Action)
  reconcile_interrupted op = do
    valid ← on_ledger (window_valid clock op.operation_id)
    if valid
        then pure (one op.operation_id "resume via execute()")
        else restore_then_settle op State.failed "window lapsed before resume"
            "failed (window lapsed before resume)"

  unfoldable pub reconcile_dispatch : LedgerOperation → Exec (Machine S) (List Action)
  reconcile_dispatch op = do
    on_ledger (
        transition clock op.operation_id (
          from_to State.dispatch_pending State.unconfirmed
            "reconciled: dispatch acceptance unknown; not replayable"))
    pure (one op.operation_id "dispatch acceptance unknown -> unconfirmed")

  -- The branches on `state`.
  unfoldable pub reconcile_state : State → LedgerOperation → Exec (Machine S) (List Action)
  reconcile_state State.dispatch_pending op = reconcile_dispatch op
  reconcile_state State.lease_acquired op =
      restore_then_settle op State.aborted "reconciled: no side effects"
        "aborted (died before content ran)"
  reconcile_state State.client_stopping op =
      restore_then_settle op State.aborted "reconciled: no side effects"
        "aborted (died before content ran)"
  reconcile_state State.content_running op = reconcile_content op
  reconcile_state State.interrupted op = reconcile_interrupted op
  reconcile_state State.adopting op = reconcile_adopting op
  reconcile_state State.client_restart_pending op =
      finish_swap op false "reconciled" "client_restart_pending"
  reconcile_state State.verifying op = finish_swap op true "reconciled" "verifying"
  reconcile_state _ op = pure []

  abbrev pub reconcile_active : Option LedgerOperation → Exec (Machine S) (List Action)
  reconcile_active none = pure []
  reconcile_active (some op) = reconcile_state op.state op

  abbrev pub is_content_of : Option LedgerOperation → Bool
  is_content_of none = false
  is_content_of (some op) = is_operation op.operation install || is_operation op.operation verify

  abbrev pub deferred_on_windows : Option LedgerOperation → List Action
  deferred_on_windows none = []
  deferred_on_windows (some op) =
      one op.operation_id "Windows content recovery unqualified; deferred"

  unfoldable pub reconcile_locked : Exec (Machine S) (List Action)
  reconcile_locked = do
    before ← on_ledger active
    if is_win32 w.platform && is_content_of before
        then pure (deferred_on_windows before)
        else do on_ledger (expire_lapsed clock); found ← on_ledger active; reconcile_active found
