-- ===== src/Adoption/Reconcile.antt =====
-- `reconcile_adoption` of src/steam_agent/execution/content_plane.py. `hashlib.sha256` and
-- `manifest_appid`, a regular expression over the manifest's text, are parameters.
use steam_cli.Prelude.{
  ℕ, Bool, true, false, not, ◌&&◌, ◌||◌, ◌==◌, if◌then◌else◌, Option, none, some, String, str_eq,
  is_some,
}
use steam_cli.Exec.{os_error, adoption_error, Exec, ◌>>=◌, ◌>>◌, pure, raise, gets, raise_if}
use steam_cli.Adoption.Disk.{
  FilePath, manifest_path, backup_path, Entry, Journal, entry, garbage, Machine, call,
  on_destination, on_journal, same, unlink, fsync_dir, durable_write,
}
use steam_cli.Adoption.Adopt.{as_adoption_error, lstat_steamapps, read_file}

pub data Verdict : Type 0 where
  completed restored clean stale : Verdict

-- Where a recovery looks, and for which operation.
pub record Place : Type 0 where
  pub library : String
  pub appid : ℕ
  pub journal_dir : String
  pub operation_id : Option ℕ

abbrev pub is_manifest_path : FilePath → String → ℕ → Bool
is_manifest_path (manifest_path l n) library appid = str_eq l library && (n == appid)
is_manifest_path _ library appid = false

abbrev is_backup_path : FilePath → String → ℕ → Bool
is_backup_path (backup_path j n) journal_dir appid = str_eq j journal_dir && (n == appid)
is_backup_path _ journal_dir appid = false

abbrev pub is_value : Option ℕ → ℕ → Bool
is_value none n = false
is_value (some m) n = m == n

-- The journal's paths are those of this configuration.
abbrev pub destination_expected : Place → Entry → Bool
destination_expected p e = is_manifest_path e.destination p.library p.appid

abbrev pub backup_expected : Place → Option FilePath → Bool
backup_expected p none = true
backup_expected p (some b) = is_backup_path b p.journal_dir p.appid

-- The journaled mount identity is the current one.
abbrev pub mount_matches : Entry → ℕ × ℕ → Bool
mount_matches e (dev, ino) = is_value e.library_dev dev && is_value e.library_ino ino

abbrev pub of_other_operation : Option ℕ → Entry → Bool
of_other_operation none e = false
of_other_operation (some n) e = not (is_value e.operation_id n)

-- `json.loads` of the text, with `OSError` and `ValueError` as one.
abbrev pub decoded : Option Journal → Exec Machine Entry
decoded none = raise os_error
decoded (some garbage) = raise adoption_error
decoded (some (entry e)) = pure e

unfoldable pub read_journal : Exec Machine Entry
unfolding call raise pure gets ◌>>=◌
read_journal = call same >> gets (λ w. w.disk.journal.current) >>= decoded

-- The last lines of both ways to restore.
unfoldable pub drop_journal : Exec Machine Verdict
unfolding call ◌>>=◌ pure
drop_journal = call (on_journal unlink) >> fsync_dir >> pure restored

-- The backup over the destination, or no destination, and then no journal.
unfoldable pub restore : Option FilePath → Exec Machine Verdict
unfolding call ◌>>=◌ raise_if gets read_file durable_write drop_journal
restore (some b) =
    gets (λ w. is_some w.disk.backup.current)
    >>= (λ there. raise_if (not there) adoption_error)
    >> read_file (λ d. d.backup)
    >>= durable_write on_destination
    >> drop_journal
restore none = call (on_destination unlink) >> fsync_dir >> drop_journal

module _ (sha256 : String → String) (manifest_appid : String → Option ℕ) where
  -- `current == checksum`, or a manifest of this AppID where there was none before.
  abbrev pub has_landed : Place → Entry → String → Bool
  has_landed p e current =
      str_eq (sha256 current) e.checksum
      || (not (is_some e.backup) && is_value (manifest_appid current) p.appid)

  -- The destination is judged when it is a file; `manifest_appid` reads it again.
  unfoldable pub judge : Place → Entry → Bool → Exec Machine Verdict
  unfolding ◌>>=◌ pure read_file restore as_adoption_error
  judge p e true = as_adoption_error (read_file (λ d. d.destination)) >>= λ current.
      (if has_landed p e current then pure completed else restore e.backup)
  judge p e false = restore e.backup

  unfoldable pub discard_or_judge : Place → Entry → Bool → Exec Machine Verdict
  unfolding call ◌>>=◌ gets pure judge
  discard_or_judge p e true = call (on_journal unlink) >> pure stale
  discard_or_judge p e false = gets (λ w. is_some w.disk.destination.current) >>= judge p e

  -- What follows the look at the mount.
  unfoldable pub recover_on : Place → Entry → ℕ × ℕ → Exec Machine Verdict
  unfolding ◌>>=◌ raise_if discard_or_judge
  recover_on p e current =
      raise_if (not (mount_matches e current)) adoption_error
      >> discard_or_judge p e (of_other_operation p.operation_id e)

  -- What follows the reading of the journal.
  unfoldable pub recover_from : Place → Entry → Exec Machine Verdict
  unfolding ◌>>=◌ raise_if as_adoption_error lstat_steamapps recover_on
  recover_from p e =
      raise_if (not (destination_expected p e)) adoption_error
      >> raise_if (not (backup_expected p e.backup)) adoption_error
      >> as_adoption_error lstat_steamapps
      >>= recover_on p e

  unfoldable pub reconcile_pending : Place → Exec Machine Verdict
  unfolding ◌>>=◌ read_journal as_adoption_error recover_from
  reconcile_pending p = as_adoption_error read_journal >>= recover_from p

  abbrev pub when_pending : Place → Bool → Exec Machine Verdict
  when_pending p true = reconcile_pending p
  when_pending p false = pure clean

  unfoldable pub reconcile_adoption : Place → Exec Machine Verdict
  unfolding ◌>>=◌ gets pure reconcile_pending
  reconcile_adoption p = gets (λ w. is_some w.disk.journal.current) >>= when_pending p
