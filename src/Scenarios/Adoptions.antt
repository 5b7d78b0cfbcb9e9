-- ===== src/Scenarios/Adoptions.antt =====
-- One adoption that is interrupted and recovered, and the results of Adoption applied to it. The
-- checksum is the text itself here, and the substitution gives the name of the directory.
use steam_cli.Prelude.{ℕ, true, Option, none, some, [], ◌∷◌, String, ◌≡◌, refl, arith}
use steam_cli.Exec.{Result, ok}
use steam_cli.Adoption.Disk.{manifest_path, entry, Disk}
use steam_cli.Adoption.Clearing.{clear_adoption_journal-IsUntouched}
use steam_cli.Adoption.Adopt.{Adoption, clear_adoption_journal, adopt_manifest, record_of}
use steam_cli.Adoption.Reconcile.{Verdict, completed, restored, clean, reconcile_adoption}
use steam_cli.Adoption.Phases.{IsUntouched, IsPending}
use steam_cli.Adoption.Restoring.{IsJudged, place_of}
use steam_cli.Adoption.Crash.{
  disk_with, adopted, recovered, adopt_manifest_returns, reconcile_adoption_after_crash,
}
use steam_cli.Adoption.Refusals.{Refuses, reconcile_adoption-Refuses}

abbrev plain_checksum : String → String
plain_checksum s = s

abbrev plain_subn : String → String → String × ℕ
plain_subn source name = (name, 1)

abbrev no_appid : String → Option ℕ
no_appid s = none

abbrev update : Adoption
update = record {
  source = "downloaded";
  library = "/library";
  appid = 10;
  install_dir_name = "new";
  journal_dir = "/journal";
  operation_id = 1;
}

abbrev before : Disk
before = record {
  destination = record { current = some "old"; temporary = none };
  backup = record { current = none; temporary = none };
  journal = record { current = none; temporary = none };
  steamapps = some (1, 2);
}

before-IsUntouched : IsUntouched plain_checksum plain_subn update (some "old") (1, 2) before
before-IsUntouched = record { destination = refl; journal = refl; mount = refl }

-- The verdict and the destination of a recovery after an adoption with so many calls.
abbrev verdict_after : ℕ → Result Verdict × Option String
verdict_after n =
    let run =
      reconcile_adoption plain_checksum no_appid (place_of update)
        (disk_with (adopted plain_checksum plain_subn update n before) 10) in
    (run.0, run.1.disk.destination.current)

ended_early : verdict_after 9 ≡ (ok clean, some "old")
unfolding adopted reconcile_adoption
ended_early = refl

ended_journaled : verdict_after 11 ≡ (ok restored, some "old")
unfolding adopted reconcile_adoption
ended_journaled = refl

ended_swapped : verdict_after 13 ≡ (ok completed, some "new")
unfolding adopted reconcile_adoption
ended_swapped = refl

adopt_manifest_returns_example :
    ((adopt_manifest plain_checksum plain_subn update (disk_with before 15)).0
      ≡ ok (manifest_path "/library" 10))
    × IsPending plain_checksum plain_subn update
        (some "old")
        (1, 2)
        (some "new")
        (adopt_manifest plain_checksum plain_subn update (disk_with before 15)).1.disk
adopt_manifest_returns_example =
    adopt_manifest_returns plain_checksum plain_subn update (disk_with before 15) (1, 2) refl
      before-IsUntouched (omega arith)

-- The adoption ends after its journal is written, and two recoveries end inside.
abbrev left_behind : Disk
left_behind =
    recovered plain_checksum no_appid (place_of update) (5 ∷ 7 ∷ [])
      (adopted plain_checksum plain_subn update 11 before)

reconcile_adoption_after_crash_example :
    (v : Verdict) × ((reconcile_adoption plain_checksum no_appid
        (place_of update)
        (disk_with left_behind 10)).0
      ≡ ok v)
    × IsJudged plain_checksum
        (λ s t e. e)
        plain_subn
        no_appid
        update
        (some "old")
        (1, 2)
        v
        (recovered plain_checksum no_appid (place_of update) (10 ∷ []) left_behind)
reconcile_adoption_after_crash_example =
    reconcile_adoption_after_crash plain_checksum plain_subn no_appid update (some "old") (1, 2)
      before 11 (5 ∷ 7 ∷ []) 10 (λ s t e. e) refl before-IsUntouched (omega arith)

-- The journal names a mount that is not there any more.
abbrev remounted : Disk
remounted = record {
  destination = record { current = some "old"; temporary = none };
  backup = record { current = some "old"; temporary = none };
  journal = record {
    current = some (entry (record_of plain_checksum plain_subn update (7, 8) true "new"));
    temporary = none;
  };
  steamapps = some (1, 2);
}

reconcile_adoption-Refuses_example :
    Refuses (reconcile_adoption plain_checksum no_appid (place_of update)) (disk_with remounted 10)
reconcile_adoption-Refuses_example =
    reconcile_adoption-Refuses plain_checksum no_appid (place_of update) (disk_with remounted 10)
      (entry (record_of plain_checksum plain_subn update (7, 8) true "new")) refl refl

clear_adoption_journal-IsUntouched_example :
    ((clear_adoption_journal true (
        disk_with
          (adopt_manifest plain_checksum plain_subn update (disk_with before 15)).1.disk
          3)).0
      ≡ ok tt)
    × IsUntouched plain_checksum plain_subn update
        (some "new")
        (1, 2)
        (clear_adoption_journal true (
          disk_with
            (adopt_manifest plain_checksum plain_subn update (disk_with before 15)).1.disk
            3)).1.disk
clear_adoption_journal-IsUntouched_example =
    clear_adoption_journal-IsUntouched plain_checksum plain_subn update update (some "old") (1, 2)
      true
      (disk_with (adopt_manifest plain_checksum plain_subn update (disk_with before 15)).1.disk 3)
      (adopt_manifest_returns plain_checksum plain_subn update (disk_with before 15) (1, 2) refl
        before-IsUntouched (omega arith)).1
      (omega arith)
