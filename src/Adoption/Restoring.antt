-- ===== src/Adoption/Restoring.antt =====
-- How `reconcile_adoption` of src/steam_agent/execution/content_plane.py puts the old manifest back,
-- and judges the one that it finds.
use steam_cli.Prelude.{
  ℕ, Bool, true, false, not, if◌then◌else◌, Option, none, some, String, eq_iff, ◌≡◌, refl, sym, ap,
  ◌∙◌, ◌⊎◌, inl, inr, is_some, arith,
}
use mathlib.Core.Path.{subst}
use mathlib.Core.Option.{some-injective}
use steam_cli.Exec.{pure, raise_if, adoption_error}
use steam_cli.Adoption.Disk.{
  File, FilePath, backup_path, Entry, Disk, on_destination, on_journal, durable_write,
  write_temporary, replace, unlink,
}
use steam_cli.Adoption.Adopt.{Adoption, backup_for}
use steam_cli.Adoption.Reconcile.{
  Verdict, completed, restored, clean, stale, Place, drop_journal, restore, has_landed, judge,
}
use steam_cli.Adoption.Calls.{
  Runs, Runs-call, Runs-bind, Runs-bind_known, Runs-pure, Runs-gets, Runs-raise_if, Runs-weaken,
  Runs-as_adoption_error, Runs-same, Runs-durable_write, Runs-read_file,
}
use steam_cli.Adoption.Phases.{new_text, journaled, IsUntouched, IsPending, IsPhase}

-- The configuration and operation of an adoption.
abbrev pub place_of : Adoption → Place
place_of a = record {
  library = a.library;
  appid = a.appid;
  journal_dir = a.journal_dir;
  operation_id = some a.operation_id;
}

module _ (sha256 : String → String) (collision_free : (s t : String) → sha256 s ≡ sha256 t → s ≡ t)
    (subn : String → String → String × ℕ) (manifest_appid : String → Option ℕ) (a : Adoption)
    (old : Option String) (stat : ℕ × ℕ) where
  abbrev pub Untouched : Disk → Type 0
  Untouched = IsUntouched sha256 subn a old stat

  abbrev pub Pending : Option String → Disk → Type 0
  Pending = IsPending sha256 subn a old stat

  abbrev pub Phase : Disk → Type 0
  Phase = IsPhase sha256 subn a old stat

  abbrev pub text : String
  text = new_text sha256 subn a old stat

  abbrev pub same_place : Place
  same_place = place_of a

  -- What a verdict says: the old manifest and no journal, or the new one.
  abbrev pub IsJudged : Verdict → Disk → Type 0
  IsJudged completed = Pending (some text)
  IsJudged restored = Untouched
  IsJudged clean = Untouched
  IsJudged stale = λ _. ⊥

  -- The journal is deleted last.
  drop_journal_runs : Runs (Pending old) drop_journal IsJudged Phase
  unfolding drop_journal
  drop_journal_runs =
      Runs-bind {R = λ _. Untouched} _ _
        (Runs-bind {R = λ _. Untouched} _ _
          (Runs-call (on_journal unlink)
            (λ d p. record { destination = p.destination; journal = refl; mount = p.mount })
            (λ d p. inr (inl p)))
          (λ u. Runs-same (λ d p. p) (λ d p. inl p)))
        (λ u. Runs-pure restored (λ d p. p))

  -- A change of the destination that leaves, or puts back, what was there.
  kept :
      (f : File String → File String) (d : Disk)
      → (f d.destination).current ≡ old
      → Pending old d
      → Pending old (on_destination f d)
  kept f d e p = record { destination = e; journal = p.journal; mount = p.mount; backup = p.backup }

  restore_backup :
      (b : FilePath) (o : String)
      → old ≡ some o
      → Runs (Pending old) (restore (some b)) IsJudged Phase
  unfolding restore
  restore_backup b o e =
      Runs-bind {R = λ _. Pending old} _ _
        (Runs-bind_known _ (durable_write on_destination) o
          (Runs-bind {R = λ _. Pending old} _ _
            (Runs-bind_known _ (λ there. raise_if (not there) adoption_error) true
              (Runs-gets (λ d. is_some d.backup.current) (λ d p. (p, ap is_some (p.backup o e))))
              (Runs-raise_if _ adoption_error (λ d p. refl) (λ d p. p)))
            (λ u.
              Runs-read_file (λ d. d.backup) (λ d p. (o, p.backup o e, (p, refl)))
                (λ d p. inr (inl p))))
          (Runs-durable_write on_destination o (λ d p. inr (inl p))
            (λ d p. inr (inl (kept (write_temporary o) d p.destination p)))
            (λ d p. kept (λ f. replace (write_temporary o f)) d (sym e) p) (λ d p. inr (inl p))))
        (λ u. drop_journal_runs)

  restore_absence : old ≡ none → Runs (Pending old) (restore none) IsJudged Phase
  unfolding restore
  restore_absence e =
      Runs-bind {R = λ _. Pending old} _ _
        (Runs-bind {R = λ _. Pending old} _ _
          (Runs-call (on_destination unlink) (λ d p. kept unlink d (sym e) p) (λ d p. inr (inl p)))
          (λ u. Runs-same (λ d p. p) (λ d p. inr (inl p))))
        (λ u. drop_journal_runs)

  restore_runs :
      (o : Option String)
      → old ≡ o
      → Runs (Pending old) (restore (backup_for sha256 subn a (is_some o))) IsJudged Phase
  restore_runs none e = restore_absence e
  restore_runs (some o) e = restore_backup (backup_path a.journal_dir a.appid) o e

  -- What stands at the destination of a pending adoption.
  abbrev pub IsFound : Option String → Type 0
  IsFound c = (c ≡ old) ⊎ (c ≡ some text)

  pub found-Phase : (c : Option String) → IsFound c → (d : Disk) → Pending c d → Phase d
  found-Phase c (inl e) d p = inr (inl (subst (λ x. Pending x d) e p))
  found-Phase c (inr e) d p = inr (inr (subst (λ x. Pending x d) e p))

  abbrev pub pending_entry : Entry
  pending_entry = journaled sha256 subn a old stat

  -- Where there was a manifest, only the new one's checksum counts.
  landed_text :
      (s : String)
      → old ≡ some s
      → has_landed sha256 manifest_appid same_place pending_entry s ≡ true
      → s ≡ text
  landed_text s e h =
      collision_free s text ((eq_iff (sha256 s) (sha256 text)).0 (ground (arith, ap is_some e)))

  text_landed :
      (s : String) → s ≡ text → has_landed sha256 manifest_appid same_place pending_entry s ≡ true
  text_landed s e = ground (arith, (eq_iff (sha256 s) (sha256 text)).1 (ap sha256 e))

  true-ne-false : true ≡ false → ⊥
  true-ne-false e = cc

  -- A manifest that does not have the new one's checksum is the old one.
  landed_runs :
      (s : String) (b : Bool)
      → IsFound (some s)
      → has_landed sha256 manifest_appid same_place pending_entry s ≡ b
      → Runs
          (Pending (some s))
          (if b then pure completed else restore pending_entry.backup)
          IsJudged
          Phase
  landed_runs s true (inr new) h = Runs-pure completed (λ d p. subst (λ x. Pending x d) new p)
  landed_runs s true (inl is_old) h =
      Runs-pure completed
        (λ d p. subst (λ x. Pending x d) (ap some (landed_text s (sym is_old) h)) p)
  landed_runs s false (inl is_old) h =
      Runs-weaken _ (λ d p. subst (λ x. Pending x d) is_old p) (restore_runs old refl)
  landed_runs s false (inr new) h =
      absurd (true-ne-false (sym (text_landed s (some-injective _ _ new)) ∙ h))

  pub judge_runs :
      (c : Option String)
      → IsFound c
      → Runs
          (Pending c)
          (judge sha256 manifest_appid same_place pending_entry (is_some c))
          IsJudged
          Phase
  unfolding judge
  judge_runs none (inl e) =
      Runs-weaken _ (λ d p. subst (λ x. Pending x d) e p) (restore_runs old refl)
  judge_runs none (inr e) = cc
  judge_runs (some s) f =
      Runs-bind_known _
        (λ current.
          if has_landed sha256 manifest_appid same_place pending_entry current
          then pure completed
          else restore pending_entry.backup)
        s
        (Runs-as_adoption_error _ (
          Runs-read_file (λ d. d.destination) (λ d p. (s, p.destination, (p, refl)))
            (found-Phase (some s) f)))
        (landed_runs s _ f refl)
