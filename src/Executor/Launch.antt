-- ===== src/Executor/Launch.antt =====
-- `_launch` of execution/executor.py.
use steam_cli.Prelude.{ℕ, Bool, true, not, ◌||◌, if◌then◌else◌, Option, none, some, String}
use steam_cli.Exec.{Exec, pure, ◌>>=◌, ◌>>◌}
use steam_cli.Ledger.State.{State, authorized, dispatch_pending, is_state}
use steam_cli.Ledger.Intake.{expire_lapsed}
use steam_cli.Ledger.Transition.{LedgerOperation, Move, transition}
use steam_cli.Ledger.Reads.{window_valid}
use steam_cli.Executor.World.{
  is_pass, is_fail, is_unknown, LeaseGates, World, launch_sent, Machine, ask, on_ledger, emit,
  Outcome, Report,
}
use steam_cli.Executor.Restore.{report}

abbrev pub from_to : State → State → String → Move
from_to from state why = record {
  to_state = state;
  detail = some why;
  prior_client_running = none;
  expected_from = some from;
}

abbrev busy : LeaseGates → Bool
busy g = not (is_pass g.game_running) || not (is_pass g.remote_play)

module _ {S : Type 0} (w : World S) (clock : ℕ → ℕ) where
  -- The intent is durable before the command, and the command's answer ends the operation.
  unfoldable pub send_launch : ℕ → LedgerOperation → Exec (Machine S) Report
  send_launch id op = do
    on_ledger (
        transition clock id (from_to authorized dispatch_pending "launch dispatch intent recorded"))
    emit (launch_sent id)
    accepted ← ask (w.launch_app op.appid)
    if not accepted
        then (do
          on_ledger (
              transition clock id (
                from_to dispatch_pending State.unconfirmed
                  "launch command did not acknowledge acceptance; not replayable"))
          report id Outcome.unconfirmed "launch acceptance unknown; request will not be replayed")
        else do
          on_ledger (
              transition clock id (
                from_to dispatch_pending State.dispatched
                  "launch requested; playability not observed"))
          report id Outcome.dispatched
              "launch requested; this broker does not observe whether the game became playable"

  unfoldable pub act_on_denial : ℕ → LedgerOperation → Option String → Exec (Machine S) Report
  act_on_denial id op none = send_launch id op
  act_on_denial id op (some why) = do
    on_ledger (transition clock id (from_to authorized State.aborted why))
    report id Outcome.aborted why

  abbrev pub consult_owner :
      Option (LedgerOperation → Exec S (Option String))
      → LedgerOperation
      → Exec (Machine S) (Option String)
  consult_owner none op = pure none
  consult_owner (some policy) op = ask (policy op)

  -- `gates.client_running != "fail" and not start_client()`
  abbrev pub start_if_absent : LeaseGates → Exec (Machine S) Bool
  start_if_absent g = if is_fail g.client_running then pure true else ask w.start_client

  -- From the second look at the gates on.
  unfoldable pub launch_after_start : ℕ → LedgerOperation → Exec (Machine S) Report
  launch_after_start id op = do
    gates ← ask w.gates
    if busy gates
        then report id Outcome.deferred "session became busy before launch; deferred"
        else if not (is_fail gates.client_running)
        then report id Outcome.deferred "client presence not confirmed before launch"
        else do
          valid ← on_ledger (window_valid clock id)
          if not valid
              then (do
                on_ledger (expire_lapsed clock)
                report id Outcome.aborted "execution window lapsed before launch dispatch")
              else do denial ← consult_owner w.dispatch_policy op; act_on_denial id op denial

  unfoldable pub launch : ℕ → LedgerOperation → Exec (Machine S) Report
  launch id op =
      if not (is_state op.state authorized) then report id Outcome.aborted "not executable" else do
        valid ← on_ledger (window_valid clock id)
        if not valid
            then (do
              on_ledger (expire_lapsed clock)
              report id Outcome.aborted "execution window lapsed")
            else do
              gates ← ask w.gates
              if busy gates
                  then report id Outcome.deferred "session busy"
                  else if is_unknown gates.client_running
                  then report id Outcome.deferred "client presence unknown (probe error); deferred"
                  else do
                    started ← start_if_absent gates
                    if not started
                        then report id Outcome.deferred "client would not start; deferred"
                        else launch_after_start id op
