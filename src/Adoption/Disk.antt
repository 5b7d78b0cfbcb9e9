-- ===== src/Adoption/Disk.antt =====
-- The files that an adoption of src/steam_agent/execution/content_plane.py touches, and the system
-- calls it makes on them, each of which may be the one at which the process ends or the system
-- refuses.
use steam_cli.Prelude.{ℕ, zero, suc, Option, none, some, String}
use steam_cli.Exec.{os_error, Result, ok, err, Exec, ◌>>=◌, ◌>>◌}

-- A file and its `.tmp` beside it.
pub record File (C : Type 0) : Type 0 where
  pub current : Option C
  pub temporary : Option C

-- The paths that a journal can name: those of this module, and any other.
pub data FilePath : Type 0 where
  manifest_path : (library : String) (appid : ℕ) → FilePath
  backup_path : (journal_dir : String) (appid : ℕ) → FilePath
  other_path : String → FilePath

-- A decoded journal; `get` of a missing key is `none`.
pub record Entry : Type 0 where
  pub operation_id : Option ℕ
  pub destination : FilePath
  pub checksum : String
  pub backup : Option FilePath
  pub library_dev : Option ℕ
  pub library_ino : Option ℕ

-- `json.loads` and the three required keys succeed on a decoded journal only.
pub data Journal : Type 0 where
  entry : Entry → Journal
  garbage : Journal

-- The manifest at the destination, its backup and the journal of one AppID, with the device and inode
-- of the library's `steamapps`, which `none` says is not there.
pub record Disk : Type 0 where
  pub destination : File String
  pub backup : File String
  pub journal : File Journal
  pub steamapps : Option (ℕ × ℕ)

-- The number of system calls that still succeed.
pub record Machine : Type 0 where
  pub disk : Disk
  pub calls : ℕ

abbrev pub spend : (Disk → Disk) → ℕ → Machine → Result (Unit {0}) × Machine
spend f zero w = (err os_error, w)
spend f (suc n) w = (ok tt, record { disk = f w.disk; calls = n })

-- One system call: it has its effect, or it raises `OSError` and has none.
unfoldable pub call : (Disk → Disk) → Exec Machine Unit
call f w = spend f w.calls w

abbrev pub on_destination : (File String → File String) → Disk → Disk
on_destination f d = record {
  destination = f d.destination;
  backup = d.backup;
  journal = d.journal;
  steamapps = d.steamapps;
}

abbrev pub on_backup : (File String → File String) → Disk → Disk
on_backup f d = record {
  destination = d.destination;
  backup = f d.backup;
  journal = d.journal;
  steamapps = d.steamapps;
}

abbrev pub on_journal : (File Journal → File Journal) → Disk → Disk
on_journal f d = record {
  destination = d.destination;
  backup = d.backup;
  journal = f d.journal;
  steamapps = d.steamapps;
}

abbrev pub write_temporary : {C : Type 0} → C → File C → File C
write_temporary c f = record { current = f.current; temporary = some c }

-- `os.replace` of the temporary, which is gone then.
abbrev pub replace : {C : Type 0} → File C → File C
replace f = record { current = f.temporary; temporary = none }

abbrev pub unlink : {C : Type 0} → File C → File C
unlink f = record { current = none; temporary = f.temporary }

abbrev pub same : Disk → Disk
same d = d

-- `_fsync_dir`: the entry is durable, and nothing else changes.
abbrev pub fsync_dir : Exec Machine Unit
fsync_dir = call same

-- `_durable_write`: the temporary is written and synced, renamed, and the directory synced. `on` says
-- which file it is.
unfoldable pub durable_write :
    {C : Type 0} → ((File C → File C) → Disk → Disk) → C → Exec Machine Unit
unfolding call ◌>>=◌
durable_write on data_bytes =
    call (on (write_temporary data_bytes)) >> call (on replace) >> fsync_dir
