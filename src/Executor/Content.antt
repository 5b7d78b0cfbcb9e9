-- ===== src/Executor/Content.antt =====
-- The content phase of `_execute_locked`, execution/executor.py: from the ledger's
-- `content_running` on to the last probe before the adoption, with the poll loop of
-- `SteamcmdAdapter.install` in execution/content_plane.py.
use steam_cli.Prelude.{
  ℕ, zero, suc, Bool, true, false, not, ◌&&◌, if◌then◌else◌, Option, none, some, String, ◌==◌,
  is_some,
}
use steam_cli.Exec.{Error, target_escaped, Exec, pure, ◌>>=◌, ◌>>◌}
use steam_cli.Ledger.State.{State}
use steam_cli.Ledger.Transition.{LedgerOperation}
use steam_cli.Ledger.Reads.{window_valid}
use steam_cli.Executor.World.{
  all_clear, ContentOutcome, installed, auth_required, content_failed, World, content_started,
  Machine, ask, on_ledger, emit, catch, is_exception, is_os_error, Outcome, Report,
}
use steam_cli.Executor.Restore.{
  Failure, abort_with, fail_with, content_policy_denial, finish_failure,
}
use steam_cli.Executor.Adopt.{adopt}

-- What one execution knows once its lease is taken.
pub record Run : Type 0 where
  pub op : LedgerOperation
  pub name : String
  pub login : String
  pub validating : Bool
  pub prior_running : Bool
  pub identity : ℕ × ℕ

abbrev same_mount : ℕ × ℕ → Option (ℕ × ℕ) → Bool
same_mount a none = false
same_mount (d, i) (some (d', i')) = d == d' && i == i'

abbrev needs_auth_failure : Failure
needs_auth_failure = record {
  detail = "auth_required: owner re-seed";
  message = "steamcmd needs re-authentication";
  outcome = Outcome.needs_auth;
  to_state = State.failed;
}

module _ {S : Type 0} (w : World S) (clock : ℕ → ℕ) where
  abbrev stop_run : Run → Failure → Exec (Machine S) Report
  stop_run r f = finish_failure w clock r.op.operation_id (some r.prior_running) f

  -- `denial = self._content_policy_denial(operation)`, and the failure if there is one.
  abbrev pub unless_denied :
      Run → (String → Failure) → Option String → Exec (Machine S) Report → Exec (Machine S) Report
  unless_denied r failure none k = k
  unless_denied r failure (some why) k = stop_run r (failure why)

  unfoldable pub recheck_policy :
      Run → (String → Failure) → Exec (Machine S) Report → Exec (Machine S) Report
  recheck_policy r failure k = do
    denial ← content_policy_denial w clock r.op
    unless_denied r failure denial k

  unfoldable pub mount_changed : Run → Exec (Machine S) Bool
  mount_changed r = do
    identity ← ask w.library_identity
    pure (not (same_mount r.identity identity))

  -- `abort_content`: whether to stop, and the denial that it latches.
  unfoldable pub abort_content : Run → Exec (Machine S) (Bool × Option String)
  abort_content r = do
    denial ← content_policy_denial w clock r.op
    if is_some denial then pure (true, denial) else do
      client ← ask w.client_possibly_running
      if client then pure (true, none) else do
        valid ← on_ledger (window_valid clock r.op.operation_id)
        if not valid then pure (true, none) else do changed ← mount_changed r; pure (changed, none)

  -- One poll: a raise of the callback stops the process too, and reads as a failure.
  unfoldable pub poll_once : Run → Exec (Machine S) (Bool × Option String × Bool)
  poll_once r =
      catch is_exception (do (stop, denial) ← abort_content r; pure (stop, denial, false))
        (λ _. pure (true, none, true))

  -- What follows the last wait: a process that did not end is terminated.
  abbrev pub end_steamcmd :
      Option ContentOutcome → Exec (Machine S) (ContentOutcome × Option String)
  end_steamcmd (some outcome) = pure (outcome, none)
  end_steamcmd none = do outcome ← ask w.terminate_steamcmd; pure (outcome, none)

  -- `fuel` is the number of polls until the adapter's deadline, at which it waits once more.
  unfoldable pub poll_steamcmd : Run → ℕ → Exec (Machine S) (ContentOutcome × Option String)
  poll_steamcmd r zero = do ended ← ask w.wait_steamcmd; end_steamcmd ended
  poll_steamcmd r (suc fuel) =
      let again = poll_steamcmd r fuel in
      do
        ended ← ask w.wait_steamcmd
        elim ended [
          | some outcome ↦ pure (outcome, none)
          | none ↦ do
            (stop, denial, raised) ← poll_once r
            if not stop then again else do
              outcome ← ask w.terminate_steamcmd
              pure ((if raised then content_failed else outcome), denial)
        ]

  unfoldable pub run_steamcmd : Run → ℕ → Exec (Machine S) (ContentOutcome × Option String)
  run_steamcmd r fuel = do
    emit (content_started r.op.operation_id)
    started ← ask (w.spawn_steamcmd r.login r.op.appid r.name r.validating)
    if started then poll_steamcmd r fuel else pure (content_failed, none)

  -- The client must be absent once more before the live manifest is touched.
  unfoldable pub last_probe : Run → Exec (Machine S) Report
  last_probe r = do
    client ← ask w.client_possibly_running
    if not client
        then recheck_policy r (λ why. fail_with why why) (adopt w clock r.op r.name r.prior_running)
        else recheck_policy r (λ why. fail_with why why)
            (do
              stopped ← ask w.stop_client
              still ← if stopped then ask w.client_possibly_running else pure true
              if still
                  then stop_run r (
                      fail_with "client restarted mid-operation; adoption skipped"
                        "client restarted mid-operation; adoption skipped")
                  else recheck_policy r (λ why. fail_with why why)
                      (adopt w clock r.op r.name r.prior_running))

  abbrev is_appid : Option ℕ → ℕ → Bool
  is_appid none n = false
  is_appid (some m) n = m == n

  unfoldable pub check_download : Run → Exec (Machine S) Report
  check_download r = do
    present ← ask (w.nested_manifest r.op.appid r.name)
    if not present
        then stop_run r (fail_with "no steamcmd-written manifest" "steamcmd produced no manifest")
        else do
          id ← ask (w.nested_appid r.op.appid r.name)
          if not (is_appid id r.op.appid)
              then stop_run r (
                  fail_with "manifest appid mismatch"
                    "steamcmd manifest does not match the requested appid")
              else do
                changed ← mount_changed r
                if changed
                    then stop_run r (
                        fail_with "library mount changed during content run"
                          "library mount changed during content run; adoption skipped")
                    else do
                      gates ← ask w.gates
                      if not (all_clear gates)
                          then stop_run r (
                              fail_with "lease gates regressed before adoption"
                                "lease gates regressed before adoption; adoption skipped")
                          else last_probe r

  unfoldable pub after_steamcmd : Run → ContentOutcome → Exec (Machine S) Report
  after_steamcmd r auth_required = stop_run r needs_auth_failure
  after_steamcmd r content_failed = stop_run r (fail_with "steamcmd failed" "steamcmd failed")
  after_steamcmd r installed = do
    valid ← on_ledger (window_valid clock r.op.operation_id)
    if not valid
        then stop_run r
            (fail_with "window lapsed during content run" "execution window lapsed during download")
        else check_download r

  -- What the `try` block hands on.
  pub data Ran : Type 0 where
    ended : Report → Ran
    ran : ContentOutcome → Option String → Ran

  abbrev pub ending : Exec (Machine S) Report → Exec (Machine S) Ran
  ending m = do x ← m; pure (ended x)

  abbrev pub unless_denied_ran : Run → Option String → Exec (Machine S) Ran → Exec (Machine S) Ran
  unless_denied_ran r none k = k
  unless_denied_ran r (some why) k = ending (stop_run r (abort_with why why))

  unfoldable pub guarded_run : Run → ℕ → Exec (Machine S) Ran
  guarded_run r fuel = do
    before ← content_policy_denial w clock r.op
    unless_denied_ran r before (do
      ask (w.record_owned_dir r.op.appid r.name)
      after ← content_policy_denial w clock r.op
      unless_denied_ran r after
          (do (outcome, latched) ← run_steamcmd r fuel; pure (ran outcome latched)))

  -- `except _TargetEscapedError` and `except OSError`.
  unfoldable pub run_failed : Run → Error → Exec (Machine S) Ran
  run_failed r target_escaped = ending (
      stop_run r (
        abort_with "install target escaped containment during stop"
          "install target changed during client stop"))
  run_failed r _ =
      ending
        (stop_run r (fail_with "content adapter error" "content adapter failed before completing"))

  unfoldable pub after_run : Run → Ran → Exec (Machine S) Report
  after_run r (ended x) = pure x
  after_run r (ran outcome (some why)) = stop_run r (fail_with why why)
  after_run r (ran outcome none) =
      recheck_policy r (λ why. fail_with why why) (after_steamcmd r outcome)

  unfoldable pub run_content : Run → ℕ → Exec (Machine S) Report
  run_content r fuel = do
    result ← catch is_os_error (guarded_run r fuel) (run_failed r)
    after_run r result
