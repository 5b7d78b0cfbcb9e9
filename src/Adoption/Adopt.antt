-- ===== src/Adoption/Adopt.antt =====
-- `adopt_manifest` and `clear_adoption_journal` of src/steam_agent/execution/content_plane.py.
-- `hashlib.sha256` and `re.subn` with the pattern of `_patched_manifest` are parameters.
use steam_cli.Prelude.{ℕ, Bool, true, false, not, ◌==◌, Option, none, some, String, is_some}
use steam_cli.Exec.{
  Error, os_error, adoption_error, Result, err, Exec, ◌>>=◌, ◌>>◌, pure, raise, gets, raise_if,
  handle,
}
use steam_cli.Adoption.Disk.{
  File, FilePath, manifest_path, backup_path, Entry, entry, Disk, Machine, call, on_destination,
  on_backup, on_journal, same, unlink, fsync_dir, durable_write,
}

abbrev to_adoption_error : Error → Error
to_adoption_error os_error = adoption_error
to_adoption_error e = e

abbrev pub adoption_for : {A : Type 0} → Error → Result A
adoption_for e = err (to_adoption_error e)

-- `try: m except OSError: raise AdoptionError`
unfoldable pub as_adoption_error : {A : Type 0} → Exec Machine A → Exec Machine A
as_adoption_error m w = handle (m w) adoption_for

abbrev pub or_os_error : {A : Type 0} → Option A → Exec Machine A
or_os_error none = raise os_error
or_os_error (some a) = pure a

-- `os.lstat(library / "steamapps")`
unfoldable pub lstat_steamapps : Exec Machine (ℕ × ℕ)
unfolding call raise pure gets ◌>>=◌
lstat_steamapps = call same >> gets (λ w. w.disk.steamapps) >>= or_os_error

-- `read_bytes` of a file that may have gone.
unfoldable pub read_file : (Disk → File String) → Exec Machine String
unfolding call raise pure gets ◌>>=◌
read_file at = call same >> gets (λ w. (at w.disk).current) >>= or_os_error

-- `if destination.exists()`: whether it was backed up.
unfoldable pub back_up : Bool → Exec Machine Bool
unfolding ◌>>=◌ pure durable_write read_file
back_up true = read_file (λ d. d.destination) >>= (λ old. durable_write on_backup old) >> pure true
back_up false = pure false

-- The manifest that steamcmd wrote, and where it is to go.
pub record Adoption : Type 0 where
  pub source : String
  pub library : String
  pub appid : ℕ
  pub install_dir_name : String
  pub journal_dir : String
  pub operation_id : ℕ

module _ (sha256 : String → String) (subn : String → String → String × ℕ) where
  -- The text of the source after the substitution, when it was made once.
  unfoldable pub patched_manifest : String → String → Exec Machine String
  unfolding call raise_if pure ◌>>=◌
  patched_manifest source install_dir_name =
      call same
      >> raise_if (not ((subn source install_dir_name).1 == 1)) adoption_error
      >> pure (subn source install_dir_name).0

  abbrev pub backup_for : Adoption → Bool → Option FilePath
  backup_for a true = some (backup_path a.journal_dir a.appid)
  backup_for a false = none

  -- The journal's entry: the checksum is of the patched text.
  abbrev pub record_of : Adoption → (ℕ × ℕ) → Bool → String → Entry
  record_of a stat backed patched = record {
    operation_id = some a.operation_id;
    destination = manifest_path a.library a.appid;
    checksum = sha256 patched;
    backup = backup_for a backed;
    library_dev = some stat.0;
    library_ino = some stat.1;
  }

  -- The journal, then the manifest.
  unfoldable pub swap_manifest : Adoption → (ℕ × ℕ) → String → Bool → Exec Machine FilePath
  unfolding ◌>>=◌ pure durable_write as_adoption_error
  swap_manifest a stat patched backed =
      durable_write on_journal (entry (record_of a stat backed patched))
      >> as_adoption_error (durable_write on_destination patched)
      >> pure (manifest_path a.library a.appid)

  -- What follows the reading of the source.
  unfoldable pub back_up_and_swap : Adoption → (ℕ × ℕ) → String → Exec Machine FilePath
  unfolding ◌>>=◌ gets back_up swap_manifest
  back_up_and_swap a stat patched =
      gets (λ w. is_some w.disk.destination.current) >>= back_up >>= swap_manifest a stat patched

  -- What follows the look at the mount.
  unfoldable pub adopt_on : Adoption → (ℕ × ℕ) → Exec Machine FilePath
  unfolding call ◌>>=◌ patched_manifest back_up_and_swap
  adopt_on a stat =
      call same
      >> fsync_dir
      >> patched_manifest a.source a.install_dir_name
      >>= back_up_and_swap a stat

  unfoldable pub adopt_manifest : Adoption → Exec Machine FilePath
  unfolding ◌>>=◌ lstat_steamapps as_adoption_error adopt_on
  adopt_manifest a = as_adoption_error lstat_steamapps >>= adopt_on a

-- `unlink(missing_ok=True)`, and the sync of the directory where it is there.
unfoldable pub clear_adoption_journal : (journal_dir_exists : Bool) → Exec Machine Unit
unfolding call ◌>>=◌
clear_adoption_journal true = call (on_journal unlink) >> fsync_dir
clear_adoption_journal false = call (on_journal unlink)
