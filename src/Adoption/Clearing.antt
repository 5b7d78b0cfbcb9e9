-- ===== src/Adoption/Clearing.antt =====
-- `clear_adoption_journal` of src/steam_agent/execution/content_plane.py: the end of an adoption.
use steam_cli.Prelude.{ℕ, ◌≤◌, Bool, true, false, Option, some, String, ◌≡◌, refl, arith}
use steam_cli.Exec.{ok}
use steam_cli.Adoption.Disk.{Disk, Machine, on_journal, unlink}
use steam_cli.Adoption.Adopt.{Adoption, clear_adoption_journal}
use steam_cli.Adoption.Calls.{Runs, Runs-bind, Runs-call, Runs-same}
use steam_cli.Adoption.Phases.{new_text, IsUntouched, IsPending}
use steam_cli.Adoption.Uses.{Uses, Uses-bind, Uses-call, Uses-weaken}
use steam_cli.Adoption.Crash.{Runs-returns}

Uses-clear_adoption_journal : (exists : Bool) → Uses 2 (clear_adoption_journal exists)
unfolding clear_adoption_journal
Uses-clear_adoption_journal true = Uses-bind 1 1 _ _ (Uses-call _) (λ u. Uses-call _)
Uses-clear_adoption_journal false = Uses-weaken 1 2 _ (omega arith) (Uses-call _)

module _ (sha256 : String → String) (subn : String → String → String × ℕ) (a later : Adoption)
    (old : Option String) (stat : ℕ × ℕ) where
  abbrev text : String
  text = new_text sha256 subn a old stat

  abbrev Cleared : Unit {0} → Disk → Type 0
  Cleared u = IsUntouched sha256 subn later (some text) stat

  retire_journal :
      Runs
        (IsPending sha256 subn a old stat (some text))
        (clear_adoption_journal false)
        Cleared
        (λ d. Unit)
  unfolding clear_adoption_journal
  retire_journal =
      Runs-call (on_journal unlink)
        (λ d p. record { destination = p.destination; journal = refl; mount = p.mount }) (λ d p. tt)

  clear_runs :
      (exists : Bool)
      → Runs
          (IsPending sha256 subn a old stat (some text))
          (clear_adoption_journal exists)
          Cleared
          (λ d. Unit)
  unfolding clear_adoption_journal
  clear_runs false = retire_journal
  clear_runs true =
      Runs-bind {R = Cleared} _ _ retire_journal (λ u. Runs-same (λ d p. p) (λ d p. tt))

  -- On a disk where an adoption is pending with its new manifest in place, retiring the journal with
  -- at least three system calls returns and leaves nothing journaled: the disk is one on which another
  -- adoption starts, with the new manifest as the old one.
  pub clear_adoption_journal-IsUntouched :
      (exists : Bool) (w : Machine)
      → IsPending sha256 subn a old stat (some text) w.disk
      → 3 ≤ w.calls
      → ((clear_adoption_journal exists w).0 ≡ ok tt)
        × IsUntouched sha256 subn later (some text) stat (clear_adoption_journal exists w).1.disk
  clear_adoption_journal-IsUntouched exists w pending enough =
      let (u, returned, cleared) =
        Runs-returns 2 _ w (clear_runs exists) (Uses-clear_adoption_journal exists) pending
          enough in
      (returned, cleared)
