-- ===== src/Adoption/Recovery.antt =====
-- `reconcile_adoption` of src/steam_agent/execution/content_plane.py after a process that ended inside
-- `adopt_manifest` or inside an earlier recovery.
use mathlib.Core.Path.{subst}
use steam_cli.Prelude.{
  ℕ, Bool, true, false, not, Option, some, String, eq_refl, ◌≡◌, refl, sym, ap, inl, inr, is_some,
  arith,
}
use steam_cli.Exec.{Exec, adoption_error}
use steam_cli.Adoption.Disk.{Entry, entry, Disk, Machine}
use steam_cli.Adoption.Adopt.{Adoption, backup_for}
use steam_cli.Adoption.Reconcile.{
  Verdict, clean, Place, backup_expected, mount_matches, of_other_operation, decoded, read_journal,
  judge, discard_or_judge, recover_on, recover_from, reconcile_pending, when_pending,
  reconcile_adoption,
}
use steam_cli.Adoption.Calls.{
  Runs, Runs-bind, Runs-bind_known, Runs-pure, Runs-gets, Runs-raise_if, Runs-as_adoption_error,
  Runs-same, Runs-lstat_steamapps, Runs-either,
}
use steam_cli.Adoption.Phases.{IsUntouched, IsPending, IsPhase}
use steam_cli.Adoption.Restoring

module _ (sha256 : String → String) (collision_free : (s t : String) → sha256 s ≡ sha256 t → s ≡ t)
    (subn : String → String → String × ℕ) (manifest_appid : String → Option ℕ) (a : Adoption)
    (old : Option String) (stat : ℕ × ℕ) where
  abbrev Pending : Option String → Disk → Type 0
  Pending = IsPending sha256 subn a old stat

  abbrev Phase : Disk → Type 0
  Phase = IsPhase sha256 subn a old stat

  abbrev Judged : Verdict → Disk → Type 0
  Judged = Restoring.IsJudged sha256 collision_free subn manifest_appid a old stat

  abbrev J : Entry
  J = Restoring.pending_entry sha256 collision_free subn manifest_appid a old stat

  abbrev here : Place
  here = Restoring.same_place sha256 collision_free subn manifest_appid a old stat

  abbrev Found : Option String → Type 0
  Found = Restoring.IsFound sha256 collision_free subn manifest_appid a old stat

  still : (c : Option String) → Found c → (d : Disk) → Pending c d → Phase d
  still = Restoring.found-Phase sha256 collision_free subn manifest_appid a old stat

  read_journal_runs :
      (c : Option String)
      → Found c
      → Runs (Pending c) read_journal (λ e d. Pending c d × (e ≡ J)) Phase
  unfolding read_journal
  read_journal_runs c f =
      Runs-bind_known _ decoded (some (entry J))
        (Runs-bind {R = λ _. Pending c} _ _ (Runs-same (λ d p. p) (still c f))
          (λ u. Runs-gets (λ d. d.journal.current) (λ d p. (p, p.journal))))
        (Runs-pure J (λ d p. (p, refl)))

  -- The journal of this adoption names this configuration, mount and operation.
  own_backup : (b : Bool) → backup_expected here (backup_for sha256 subn a b) ≡ true
  own_backup true = ground (arith, eq_refl a.journal_dir)
  own_backup false = refl

  recover_on_runs :
      (c : Option String)
      → Found c
      → Runs (Pending c) (recover_on sha256 manifest_appid here J stat) Judged Phase
  unfolding recover_on discard_or_judge
  recover_on_runs c f =
      Runs-bind {R = λ _. Pending c} _ (λ _. discard (of_other_operation here.operation_id J))
        (Runs-raise_if (not (mount_matches J stat)) adoption_error (λ d p. ground arith) (λ d p. p))
        (λ u.
          subst (λ b. Runs (Pending c) (discard b) Judged Phase) (sym own_operation)
            (Runs-bind_known _ (judge sha256 manifest_appid here J) (is_some c)
              (Runs-gets (λ d. is_some d.destination.current)
                (λ d p. (p, ap is_some p.destination)))
              (Restoring.judge_runs sha256 collision_free subn manifest_appid a old stat c f)))
    where
      discard : Bool → Exec Machine Verdict
      discard b = discard_or_judge sha256 manifest_appid here J b

      own_operation : of_other_operation here.operation_id J ≡ false
      own_operation = ground arith

  recover_from_runs :
      (c : Option String)
      → Found c
      → Runs (Pending c) (recover_from sha256 manifest_appid here J) Judged Phase
  unfolding recover_from
  recover_from_runs c f =
      Runs-bind_known _ (recover_on sha256 manifest_appid here J) stat
        (Runs-bind {R = λ _. Pending c} _ _
          (Runs-bind {R = λ _. Pending c} _ _
            (Runs-raise_if _ adoption_error (λ d p. ground (arith, eq_refl a.library)) (λ d p. p))
            (λ u.
              Runs-raise_if _ adoption_error (λ d p. ap not (own_backup (is_some old))) (λ d p. p)))
          (λ u.
            Runs-as_adoption_error _
              (Runs-lstat_steamapps (λ d p. (stat, p.mount, (p, refl))) (still c f))))
        (recover_on_runs c f)

  Pending-runs :
      (c : Option String)
      → Found c
      → Runs (Pending c) (reconcile_pending sha256 manifest_appid here) Judged Phase
  unfolding reconcile_pending
  Pending-runs c f =
      Runs-bind_known _ (recover_from sha256 manifest_appid here) J
        (Runs-as_adoption_error _ (read_journal_runs c f)) (recover_from_runs c f)

  IsUntouched-runs :
      Runs
        (IsUntouched sha256 subn a old stat)
        (reconcile_adoption sha256 manifest_appid here)
        Judged
        Phase
  unfolding reconcile_adoption
  IsUntouched-runs =
      Runs-bind_known _ (when_pending sha256 manifest_appid here) false
        (Runs-gets (λ d. is_some d.journal.current) (λ d p. (p, ap is_some p.journal)))
        (Runs-pure clean (λ d p. p))

  Found-runs :
      (c : Option String)
      → Found c
      → Runs (Pending c) (reconcile_adoption sha256 manifest_appid here) Judged Phase
  unfolding reconcile_adoption
  Found-runs c f =
      Runs-bind_known _ (when_pending sha256 manifest_appid here) true
        (Runs-gets (λ d. is_some d.journal.current) (λ d p. (p, ap is_some p.journal)))
        (Pending-runs c f)

  -- From every disk that an interrupted adoption can leave, recovery for its operation returns a
  -- verdict that is true of the disk, and a recovery that is interrupted leaves such a disk again.
  pub reconcile_adoption-IsJudged :
      Runs
        (IsPhase sha256 subn a old stat)
        (reconcile_adoption sha256 manifest_appid here)
        Judged
        Phase
  reconcile_adoption-IsJudged =
      Runs-either _ IsUntouched-runs
        (Runs-either _ (Found-runs old (inl refl)) (Found-runs _ (inr refl)))
