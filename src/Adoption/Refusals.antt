-- ===== src/Adoption/Refusals.antt =====
-- The journals that `reconcile_adoption` of src/steam_agent/execution/content_plane.py refuses to
-- act on.
use mathlib.Core.Path.{subst}
use steam_cli.Prelude.{
  ℕ, zero, suc, Bool, true, false, not, ◌&&◌, Option, none, some, String, ◌≡◌, refl, sym,
}
use steam_cli.Exec.{adoption_error, err, Exec, ◌>>=◌, ◌>>◌, raise_if}
use steam_cli.Adoption.Disk.{File, Entry, Journal, entry, garbage, Disk, Machine, call}
use steam_cli.Adoption.Adopt.{as_adoption_error, lstat_steamapps}
use steam_cli.Adoption.Reconcile.{
  Place, destination_expected, backup_expected, mount_matches, read_journal, recover_on,
  recover_from, discard_or_judge, of_other_operation, reconcile_pending, reconcile_adoption,
}

-- A mount that is there and is the journaled one.
abbrev pub mounted : Entry → Option (ℕ × ℕ) → Bool
mounted e none = false
mounted e (some stat) = mount_matches e stat

-- The journal names this configuration's files on the library's mount.
abbrev pub is_trusted : Place → Option (ℕ × ℕ) → Journal → Bool
is_trusted p steamapps garbage = false
is_trusted p steamapps (entry e) =
    destination_expected p e && backup_expected p e.backup && mounted e steamapps

-- It raises `AdoptionError`, and the disk is as it was.
abbrev pub Refuses : {A : Type 0} → Exec Machine A → Machine → Type 0
Refuses m w = ((m w).0 ≡ err adoption_error) × ((m w).1.disk ≡ w.disk)

module _ (sha256 : String → String) (manifest_appid : String → Option ℕ) (p : Place) where
  look_Refuses :
      (e : Entry) (destination backup : File String) (journal : File Journal) (o : Option (ℕ × ℕ))
      (n : ℕ)
      → mounted e o ≡ false
      → Refuses
          (as_adoption_error lstat_steamapps >>= recover_on sha256 manifest_appid p e)
          (record {
            disk = record {
              destination = destination;
              backup = backup;
              journal = journal;
              steamapps = o;
            };
            calls = n;
          })
  unfolding ◌>>=◌ call as_adoption_error lstat_steamapps recover_on
  look_Refuses e f g j o zero h = (refl, refl)
  look_Refuses e f g j none (suc n) h = (refl, refl)
  look_Refuses e f g j (some stat) (suc n) h = check (mount_matches e stat) h
    where
      left : Machine
      left = record {
        disk = record { destination = f; backup = g; journal = j; steamapps = some stat };
        calls = n;
      }

      check :
          (b : Bool)
          → b ≡ false
          → Refuses
              (raise_if (not b) adoption_error
                >> discard_or_judge sha256 manifest_appid p e (of_other_operation p.operation_id e))
              left
      check true k = cc
      check false k = (refl, refl)

  recover_from-Refuses :
      (e : Entry) (d : Disk) (n : ℕ)
      → is_trusted p d.steamapps (entry e) ≡ false
      → Refuses (recover_from sha256 manifest_appid p e) (record { disk = d; calls = n })
  unfolding recover_from ◌>>=◌
  recover_from-Refuses e d n h =
      tests (destination_expected p e) (backup_expected p e.backup)
        (look_Refuses e d.destination d.backup d.journal d.steamapps n) h
    where
      left : Machine
      left = record { disk = d; calls = n }

      tests :
          (b c : Bool)
          → (mounted e d.steamapps ≡ false
              → Refuses
                  (as_adoption_error lstat_steamapps >>= recover_on sha256 manifest_appid p e)
                  left)
          → (b && c && mounted e d.steamapps) ≡ false
          → Refuses
              (raise_if (not b) adoption_error
                >> raise_if (not c) adoption_error
                >> as_adoption_error lstat_steamapps
                >>= recover_on sha256 manifest_appid p e)
              left
      tests false c look k = (refl, refl)
      tests true false look k = (refl, refl)
      tests true true look k = look k

  pending_Refuses :
      (destination backup : File String) (temporary : Option Journal) (j : Journal)
      (o : Option (ℕ × ℕ)) (n : ℕ)
      → is_trusted p o j ≡ false
      → Refuses (reconcile_pending sha256 manifest_appid p) (record {
        disk = record {
          destination = destination;
          backup = backup;
          journal = record { current = some j; temporary = temporary };
          steamapps = o;
        };
        calls = n;
      })
  unfolding reconcile_pending ◌>>=◌ call as_adoption_error read_journal
  pending_Refuses f g t j o zero h = (refl, refl)
  pending_Refuses f g t garbage o (suc n) h = (refl, refl)
  pending_Refuses f g t (entry e) o (suc n) h = recover_from-Refuses e _ n h

  -- A journal that cannot be read, or names another destination, another backup or another mount, is
  -- not acted on, however many system calls succeed.
  pub reconcile_adoption-Refuses :
      (w : Machine) (j : Journal)
      → w.disk.journal.current ≡ some j
      → is_trusted p w.disk.steamapps j ≡ false
      → Refuses (reconcile_adoption sha256 manifest_appid p) w
  unfolding reconcile_adoption
  reconcile_adoption-Refuses w j e bad =
      subst (λ c. Refuses (reconcile_adoption sha256 manifest_appid p) (with_journal c)) (sym e)
        (pending_Refuses w.disk.destination w.disk.backup w.disk.journal.temporary j
          w.disk.steamapps w.calls bad)
    where
      with_journal : Option Journal → Machine
      with_journal c = record {
        disk = record {
          destination = w.disk.destination;
          backup = w.disk.backup;
          journal = record { current = c; temporary = w.disk.journal.temporary };
          steamapps = w.disk.steamapps;
        };
        calls = w.calls;
      }
