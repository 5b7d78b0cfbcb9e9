-- ===== src/Executor/Runs.antt =====
-- Runs of `execute` and `reconcile` of execution/executor.py, with calls of the ledger between them.
use steam_cli.Prelude.{ℕ, true, some, List, [], ◌∷◌, ◌≡◌, first}
use steam_cli.Exec.{Exec, modify}
use steam_cli.Exec.Keeps.{Keeps}
use steam_cli.Ledger.State.{is_terminal}
use steam_cli.Ledger.Table.{Row, Ledger}
use steam_cli.Ledger.Transition.{LedgerOperation, has_id}
use steam_cli.Ledger.Stable.{Stable}
use steam_cli.Ledger.Stable.Methods.{get-Keeps, expire_lapsed-Keeps, transition-Keeps}
use steam_cli.Ledger.Stable.Reads.{active-Keeps, plan_document-Keeps, window_valid-Keeps}
use steam_cli.Ledger.Invariant.{IsValid, IsValid-Stable}
use steam_cli.Ledger.History.{Call, after_call, after_call-Stable}
use steam_cli.Ledger.History.Terminal.{terminal-Stable}
use steam_cli.Executor.World.{World, Effect, Machine, ask, on_ledger, emit}
use steam_cli.Executor.Launch.{send_launch}
use steam_cli.Executor.Lease.{execute_locked}
use steam_cli.Executor.Reconcile.{reconcile_locked}
use steam_cli.Executor.Paths.{Quiet, Starts, path_rules}
use steam_cli.Executor.Paths.Launch.{execute_locked-Keeps}
use steam_cli.Executor.Paths.Recovery.{reconcile_locked-Keeps}

-- One entry into the broker, with the world it meets. A world whose calls raise `interrupt` is a
-- process that dies there.
pub data Job (S : Type 0) : Type 0 where
  execute_job : World S → (fuel id : ℕ) → Job S
  reconcile_job : World S → Job S
  call_job : Call → Job S

module _ {S : Type 0} (clock : ℕ → ℕ) where
  unfoldable pub after_job : Job S → Machine S → Machine S
  after_job (execute_job w fuel id) x = (execute_locked w clock fuel id x).1
  after_job (reconcile_job w) x = (reconcile_locked w clock x).1
  after_job (call_job call) x = record x { ledger = after_call clock call x.ledger }

  unfoldable pub run_jobs : List (Job S) → Machine S → Machine S
  unfolding after_job
  run_jobs [] x = x
  run_jobs (job ∷ jobs) x = run_jobs jobs (after_job job x)

  -- What each entry keeps, a sequence of entries keeps.
  pub run_jobs-Keeps :
      {P : Machine S → Type 0}
      → ((job : Job S) (x : Machine S) → P x → P (after_job job x))
      → (jobs : List (Job S)) (x : Machine S) → P x
      → P (run_jobs jobs x)
  unfolding run_jobs
  run_jobs-Keeps each [] x h = h
  run_jobs-Keeps each (job ∷ jobs) x h = run_jobs-Keeps each jobs (after_job job x) (each job x h)

module _ {S : Type 0} {Q : Ledger → Type 0} (st : Stable (λ _. Unit) Q) where
  abbrev Holds : Machine S → Type 0
  Holds x = Q x.ledger

  ask-Holds : {A : Type 0} (m : Exec S A) → Keeps Holds (ask m)
  unfolding ask
  ask-Holds m = record { at = λ x h. h }

  on_ledger-Holds : {A : Type 0} (m : Exec Ledger A) → Keeps Q m → Keeps Holds (on_ledger m)
  unfolding on_ledger
  on_ledger-Holds m k = record { at = λ x h. k.at x.ledger h }

  emit-Holds : (e : Effect) → Keeps Holds (emit e)
  unfolding emit modify
  emit-Holds e = record { at = λ x h. h }

  Holds-Quiet : Quiet Holds
  Holds-Quiet = record {
    asks = λ m. ask-Holds m;
    transitions = λ clock id m. on_ledger-Holds _ (transition-Keeps st clock id m);
    expiries = λ clock. on_ledger-Holds _ (expire_lapsed-Keeps st clock);
    windows = λ clock id. on_ledger-Holds _ (window_valid-Keeps st clock id);
    lookups = λ id. on_ledger-Holds _ (get-Keeps st id);
    actives = on_ledger-Holds _ (active-Keeps st);
    plans = λ id. on_ledger-Holds _ (plan_document-Keeps st id);
  }

  Holds-Starts : Starts Holds
  Holds-Starts = record { contents = λ id. emit-Holds _; adoptions = λ id. emit-Holds _ }

  send_launch-Holds :
      (w : World S) (clock : ℕ → ℕ) (id : ℕ) (op : LedgerOperation)
      → Keeps Holds (send_launch w clock id op)
  unfolding send_launch
  send_launch-Holds w clock id op = let q = Holds-Quiet in search (path_rules, emit-Holds) depth 12

  -- Whatever the writes of the ledger's methods keep, no run of the broker breaks.
  pub run_jobs-Stable :
      (clock : ℕ → ℕ) (jobs : List (Job S)) (x : Machine S)
      → Q x.ledger
      → Q (run_jobs clock jobs x).ledger
  unfolding after_job
  run_jobs-Stable clock = run_jobs-Keeps clock {P = Holds} each
    where
      each : (job : Job S) (x : Machine S) → Holds x → Holds (after_job clock job x)
      each (execute_job w fuel id) x h =
          (execute_locked-Keeps Holds-Quiet Holds-Starts w clock (send_launch-Holds w clock) fuel
              id).at
            x h
      each (reconcile_job w) x h = (reconcile_locked-Keeps Holds-Quiet w clock).at x h
      each (call_job call) x h = after_call-Stable clock st call x.ledger h

module _ {S : Type 0} where
  -- From a valid ledger, any sequence of executions, recoveries and ledger calls, each in a world of
  -- its own that may raise at any call, leaves a valid ledger.
  pub run_jobs-IsValid :
      (clock : ℕ → ℕ) (jobs : List (Job S)) (x : Machine S)
      → IsValid x.ledger
      → IsValid (run_jobs clock jobs x).ledger
  run_jobs-IsValid clock jobs x v = run_jobs-Stable IsValid-Stable clock jobs x v

  -- No such sequence rewrites a row that is in a terminal state, in any of its columns.
  pub terminal_row_survives :
      (clock : ℕ → ℕ) (jobs : List (Job S)) (x : Machine S) (id : ℕ) (r : Row)
      → is_terminal r.state ≡ true
      → first (has_id id) x.ledger.rows ≡ some r
      → first (has_id id) (run_jobs clock jobs x).ledger.rows ≡ some r
  terminal_row_survives clock jobs x id r terminal h =
      run_jobs-Stable (terminal-Stable id r terminal) clock jobs x h
