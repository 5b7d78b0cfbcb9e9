-- ===== src/Adoption/Phases.antt =====
-- The disks that a process that ends inside `adopt_manifest` of
-- src/steam_agent/execution/content_plane.py can leave.
use steam_cli.Prelude.{
  ℕ, true, false, Option, none, some, String, ◌≡◌, refl, sym, ap, ◌∙◌, ◌⊎◌, inl, inr, is_some,
  arith,
}
use steam_cli.Exec.{adoption_error}
use steam_cli.Adoption.Disk.{
  File, manifest_path, Entry, entry, Disk, on_destination, on_backup, on_journal, write_temporary,
  replace,
}
use steam_cli.Adoption.Adopt.{
  Adoption, patched_manifest, record_of, back_up, adopt_manifest, adopt_on, back_up_and_swap,
  swap_manifest,
}
use steam_cli.Adoption.Calls.{
  Runs, Runs-bind, Runs-bind_known, Runs-pure, Runs-gets, Runs-raise_if, Runs-as_adoption_error,
  Runs-same, Runs-durable_write, Runs-read_file, Runs-lstat_steamapps,
}

-- One adoption: its parameters, the manifest that was there, and the mount of the library.
module _ (sha256 : String → String) (subn : String → String → String × ℕ) (a : Adoption)
    (old : Option String) (stat : ℕ × ℕ) where
  -- The text that is to be adopted.
  abbrev pub new_text : String
  new_text = (subn a.source a.install_dir_name).0

  abbrev pub journaled : Entry
  journaled = record_of sha256 subn a stat (is_some old) new_text

  -- Nothing is journaled, and the destination is as it was.
  pub record IsUntouched (d : Disk) : Type 0 where
    pub destination : d.destination.current ≡ old
    pub journal : d.journal.current ≡ none
    pub mount : d.steamapps ≡ some stat

  -- The adoption is journaled, the manifest that was there is backed up, and the destination is `c`.
  pub record IsPending (c : Option String) (d : Disk) : Type 0 where
    pub destination : d.destination.current ≡ c
    pub journal : d.journal.current ≡ some (entry journaled)
    pub mount : d.steamapps ≡ some stat
    pub backup : (o : String) → old ≡ some o → d.backup.current ≡ some o

  -- Untouched, or journaled with the old or the new manifest in place.
  abbrev pub IsPhase : Disk → Type 0
  IsPhase d = IsUntouched d ⊎ (IsPending old d ⊎ IsPending (some new_text) d)

  -- Untouched, with the backup made where there is something to back up.
  abbrev IsBacked : Disk → Type 0
  IsBacked d = IsUntouched d × ((o : String) → old ≡ some o → d.backup.current ≡ some o)

  back_up_runs :
      (o : Option String)
      → old ≡ o
      → Runs IsUntouched (back_up (is_some o)) (λ b d. IsBacked d × (b ≡ is_some old)) IsPhase
  unfolding back_up
  back_up_runs none e = Runs-pure false (λ d p. ((p, λ o h. cc), ap is_some (sym e)))
  back_up_runs (some o) e =
      Runs-bind {R = λ _. IsBacked} _ _
        (Runs-bind {R = λ c d. IsUntouched d × (old ≡ some c)} _ _
          (Runs-read_file (λ d. d.destination) (λ d p. (o, p.destination ∙ e, (p, e)))
            (λ d p. inl p))
          (λ c.
            Runs-durable_write on_backup c (λ d p. inl p.0)
              (λ d p. inl (untouched (write_temporary c) d p.0))
              (λ d p. (untouched (λ f. replace (write_temporary c f)) d p.0, λ b h. sym p.1 ∙ h))
              (λ d p. inl p.0)))
        (λ u. Runs-pure true (λ d p. (p, ap is_some (sym e))))
    where
      untouched :
          (f : File String → File String) (d : Disk) → IsUntouched d → IsUntouched (on_backup f d)
      untouched f d p = record { destination = p.destination; journal = p.journal; mount = p.mount }

  patched_manifest_runs :
      (subn a.source a.install_dir_name).1 ≡ 1
      → Runs IsUntouched
          (patched_manifest sha256 subn a.source a.install_dir_name)
          (λ t d. IsUntouched d × (t ≡ new_text))
          IsPhase
  unfolding patched_manifest
  patched_manifest_runs once =
      Runs-bind {R = λ _ d. IsUntouched d} _ _
        (Runs-bind {R = λ _ d. IsUntouched d} _ _ (Runs-same (λ d p. p) (λ d p. inl p))
          (λ u. Runs-raise_if _ adoption_error (λ d p. ground (arith, once)) (λ d p. p)))
        (λ u. Runs-pure new_text (λ d p. (p, refl)))

  -- The journal stands beside the manifest that was there, and then beside the new one.
  swap_manifest_runs :
      Runs IsBacked
        (swap_manifest sha256 subn a stat new_text (is_some old))
        (λ p d. (p ≡ manifest_path a.library a.appid) × IsPending (some new_text) d)
        IsPhase
  unfolding swap_manifest
  swap_manifest_runs =
      Runs-bind {R = λ _ d. IsPending (some new_text) d} _ _
        (Runs-bind {R = λ _ d. IsPending old d} _ _
          (Runs-durable_write on_journal (entry journaled) (λ d p. inl p.0)
            (λ d p.
              inl (record {
                destination = p.0.destination;
                journal = p.0.journal;
                mount = p.0.mount;
              }))
            (λ d p. record {
              destination = p.0.destination;
              journal = refl;
              mount = p.0.mount;
              backup = p.1;
            })
            (λ d p. inr (inl p)))
          (λ u. Runs-as_adoption_error _ (
            Runs-durable_write on_destination new_text (λ d p. inr (inl p))
              (λ d p. inr (
                inl record {
                  destination = p.destination;
                  journal = p.journal;
                  mount = p.mount;
                  backup = p.backup;
                }))
              (λ d p. record {
                destination = refl;
                journal = p.journal;
                mount = p.mount;
                backup = p.backup;
              })
              (λ d p. inr (inr p)))))
        (λ u. Runs-pure (manifest_path a.library a.appid) (λ d p. (refl, p)))

  -- With enough calls the new manifest is in place and journaled; where a call fails before, or the
  -- process ends, the disk is untouched or the adoption is journaled, with the old manifest backed up.
  pub adopt_manifest-IsPhase :
      (subn a.source a.install_dir_name).1 ≡ 1
      → Runs IsUntouched
          (adopt_manifest sha256 subn a)
          (λ p d. (p ≡ manifest_path a.library a.appid) × IsPending (some new_text) d)
          IsPhase
  unfolding adopt_manifest adopt_on back_up_and_swap
  adopt_manifest-IsPhase once =
      Runs-bind_known _ _ stat
        (Runs-as_adoption_error _
          (Runs-lstat_steamapps (λ d p. (stat, p.mount, (p, refl))) (λ d p. inl p)))
        (Runs-bind_known _ _ new_text
          (Runs-bind {R = λ _ d. IsUntouched d} _ _
            (Runs-bind {R = λ _ d. IsUntouched d} _ _ (Runs-same (λ d p. p) (λ d p. inl p))
              (λ u. Runs-same (λ d p. p) (λ d p. inl p)))
            (λ u. patched_manifest_runs once))
          (Runs-bind_known _ (swap_manifest sha256 subn a stat new_text) (is_some old)
            (Runs-bind_known _ back_up (is_some old)
              (Runs-gets (λ d. is_some d.destination.current)
                (λ d p. (p, ap is_some p.destination)))
              (back_up_runs old refl))
            swap_manifest_runs))
