-- ===== src/Executor/Unstarted.antt =====
-- A recovery, `_reconcile_locked` of execution/executor.py, makes none of the calls that start
-- something.
use mathlib.Core.Path.{fun_ext}
use steam_cli.Prelude.{
  ℕ, Bool, Option, none, some, List, ◌≡◌, refl, ap, String, ◌&&◌, if◌then◌else◌,
}
use steam_cli.Exec.{Exec, pure, ◌>>=◌, ◌>>◌}
use steam_cli.Exec.Keeps.{Keeps}
use steam_cli.Ledger.State.{State}
use steam_cli.Ledger.Table.{Ledger}
use steam_cli.Ledger.Transition.{LedgerOperation}
use steam_cli.Ledger.Intake.{expire_lapsed}
use steam_cli.Ledger.Reads.{active}
use steam_cli.Executor.Lease.{is_win32}
use steam_cli.Executor.World.{World, Effect, Machine, ask, on_ledger}
use steam_cli.Executor.Restore.{restore_client}
use steam_cli.Executor.Reconcile.{
  is_content_of, deferred_on_windows, verified_outcome, restore_then_settle, restore_and_note,
  settle_verified, finish_swap, repair_adoption, reconcile_adopting, reconcile_content,
  reconcile_interrupted, reconcile_dispatch, reconcile_state, reconcile_active, reconcile_locked,
}
use steam_cli.Executor.Paths.{Quiet}
use steam_cli.Executor.Paths.Recovery.{reconcile_locked-Keeps}

module _ {S : Type 0} (started : List Effect) where
  abbrev Same : Machine S → Type 0
  Same x = x.effects ≡ started

  ask-Same : {A : Type 0} (m : Exec S A) → Keeps Same (ask m)
  unfolding ask
  ask-Same m = record { at = λ x h. h }

  on_ledger-Same : {A : Type 0} (m : Exec Ledger A) → Keeps Same (on_ledger m)
  unfolding on_ledger
  on_ledger-Same m = record { at = λ x h. h }

  Same-Quiet : Quiet Same
  Same-Quiet = record {
    asks = λ m. ask-Same m;
    transitions = λ clock id m. on_ledger-Same _;
    expiries = λ clock. on_ledger-Same _;
    windows = λ clock id. on_ledger-Same _;
    lookups = λ id. on_ledger-Same _;
    actives = on_ledger-Same _;
    plans = λ id. on_ledger-Same _;
  }

  reconcile-Same : (w : World S) (clock : ℕ → ℕ) → Keeps Same (reconcile_locked w clock)
  reconcile-Same w clock = reconcile_locked-Keeps Same-Quiet w clock

-- Other calls in the place of those that send a launch and start a download or an adoption.
abbrev pub with_starts :
    {S : Type 0}
    → World S
    → (ℕ → Exec S Bool)
    → (String → ℕ → String → Bool → Exec S Bool)
    → (ℕ → String → ℕ → Exec S Unit)
    → World S
with_starts w launch_app spawn_steamcmd adopt_manifest = record w {
  launch_app = launch_app;
  spawn_steamcmd = spawn_steamcmd;
  adopt_manifest = adopt_manifest;
}

module _ {S : Type 0} (w : World S) (clock : ℕ → ℕ) (launch_app : ℕ → Exec S Bool)
    (spawn_steamcmd : String → ℕ → String → Bool → Exec S Bool)
    (adopt_manifest : ℕ → String → ℕ → Exec S Unit) where
  abbrev other : World S
  other = with_starts w launch_app spawn_steamcmd adopt_manifest

  same_state :
      (state : State) (op : LedgerOperation) (x : Machine S)
      → reconcile_state other clock state op x ≡ reconcile_state w clock state op x
  unfolding reconcile_state reconcile_dispatch reconcile_interrupted reconcile_content
      reconcile_adopting repair_adoption finish_swap settle_verified restore_and_note
      restore_then_settle verified_outcome restore_client
  same_state State.dispatch_pending op x = refl
  same_state _ op x = refl

  same_active :
      (found : Option LedgerOperation) (x : Machine S)
      → reconcile_active other clock found x ≡ reconcile_active w clock found x
  same_active none x = refl
  same_active (some op) x = same_state op.state op x

  same_locked : reconcile_locked other clock ≡ reconcile_locked w clock
  unfolding reconcile_locked
  same_locked =
      ap
        (λ act. do
          before ← on_ledger active
          if is_win32 w.platform && is_content_of w clock before
              then pure (deferred_on_windows w clock before)
              else do on_ledger (expire_lapsed clock); found ← on_ledger active; act found)
        (fun_ext (λ found. fun_ext (λ x. same_active found x)))

-- Whatever the ledger holds and the world answers or raises, a recovery answers the same and leaves
-- the same ledger and the same world if the calls that send a launch and that start steamcmd and an
-- adoption are replaced by any others: it makes none of them. Nor does it note that it made one.
pub reconcile_starts_nothing :
    {S : Type 0} (w : World S) (clock : ℕ → ℕ) (launch_app : ℕ → Exec S Bool)
    (spawn_steamcmd : String → ℕ → String → Bool → Exec S Bool)
    (adopt_manifest : ℕ → String → ℕ → Exec S Unit) (x : Machine S)
    → (reconcile_locked (with_starts w launch_app spawn_steamcmd adopt_manifest) clock x
        ≡ reconcile_locked w clock x)
      × ((reconcile_locked w clock x).1.effects ≡ x.effects)
reconcile_starts_nothing w clock launch_app spawn_steamcmd adopt_manifest x = (
  ap (λ run. run x) (same_locked w clock launch_app spawn_steamcmd adopt_manifest),
  (reconcile-Same x.effects w clock).at x refl,
)
