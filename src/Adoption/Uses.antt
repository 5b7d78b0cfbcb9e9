-- ===== src/Adoption/Uses.antt =====
-- How many system calls the adoption and its recovery make at most.
use steam_cli.Prelude.{
  ℕ, zero, suc, ◌+◌, ◌≤◌, Bool, true, false, not, if◌then◌else◌, Option, none, some, String, ◌≡◌,
  refl, arith, is_some,
}
use steam_cli.Exec.{
  Error, Result, ok, err, Exec, ◌>>=◌, pure, gets, raise_if, continue, handle, adoption_error,
}
use steam_cli.Adoption.Disk.{
  File, FilePath, Entry, Journal, entry, garbage, Disk, Machine, call, spend, durable_write,
  on_destination, on_backup, on_journal,
}
use steam_cli.Adoption.Adopt.{
  Adoption, as_adoption_error, adoption_for, or_os_error, lstat_steamapps, read_file,
  patched_manifest, back_up, swap_manifest, back_up_and_swap, adopt_on, adopt_manifest,
}
use steam_cli.Adoption.Reconcile.{
  completed, Place, read_journal, decoded, drop_journal, restore, judge, has_landed, mount_matches,
  destination_expected, backup_expected, of_other_operation, discard_or_judge, recover_on,
  recover_from, reconcile_pending, when_pending, reconcile_adoption,
}

-- At most `k` calls are made.
pub record Uses {A : Type 0} (k : ℕ) (m : Exec Machine A) : Type 0 where
  pub at_most : (w : Machine) → w.calls ≤ k + (m w).1.calls

pub Uses-call : (f : Disk → Disk) → Uses 1 (call f)
unfolding call
Uses-call f = record { at_most = λ w. go w w.calls refl }
  where
    go : (w : Machine) (n : ℕ) → w.calls ≡ n → w.calls ≤ 1 + (spend f n w).1.calls
    go w zero e = omega arith
    go w (suc n) e = omega arith

module _ {A : Type 0} where
  Uses-pure : (a : A) → Uses 0 (pure a)
  unfolding ◌>>=◌
  Uses-pure a = record { at_most = λ w. omega arith }

  Uses-gets : (f : Machine → A) → Uses 0 (gets f)
  unfolding ◌>>=◌
  Uses-gets f = record { at_most = λ w. omega arith }

  Uses-or_os_error : (o : Option A) → Uses 0 (or_os_error o)
  unfolding ◌>>=◌
  Uses-or_os_error none = record { at_most = λ w. omega arith }
  Uses-or_os_error (some a) = record { at_most = λ w. omega arith }

  pub Uses-weaken : (k n : ℕ) (m : Exec Machine A) → k ≤ n → Uses k m → Uses n m
  Uses-weaken k n m h u = record { at_most = λ w. omega (arith, u.at_most w) }

  Uses-as_adoption_error : (k : ℕ) (m : Exec Machine A) → Uses k m → Uses k (as_adoption_error m)
  unfolding as_adoption_error
  Uses-as_adoption_error k m u = record { at_most = λ w. go w (m w).0 }
    where
      go : (w : Machine) (r : Result A) → w.calls ≤ k + (handle (r, (m w).1) adoption_for).1.calls
      go w (ok a) = u.at_most w
      go w (err e) = u.at_most w

Uses-raise_if : (b : Bool) (e : Error) → Uses 0 (raise_if b e)
unfolding ◌>>=◌
Uses-raise_if true e = record { at_most = λ w. omega arith }
Uses-raise_if false e = record { at_most = λ w. omega arith }

pub Uses-bind :
    {A B : Type 0} (j k : ℕ) (m : Exec Machine A) (f : A → Exec Machine B)
    → Uses j m
    → ((a : A) → Uses k (f a))
    → Uses (j + k) (m >>= f)
unfolding ◌>>=◌
Uses-bind {A} j k m f u v = record { at_most = λ w. go w (m w).0 }
  where
    go : (w : Machine) (r : Result A) → w.calls ≤ j + k + (continue r f (m w).1).1.calls
    go w (ok a) = omega (arith, u.at_most w, (v a).at_most (m w).1)
    go w (err e) = omega (arith, u.at_most w)

Uses-durable_write :
    {C : Type 0} (on : (File C → File C) → Disk → Disk) (c : C) → Uses 3 (durable_write on c)
unfolding durable_write
Uses-durable_write on c =
    Uses-bind 2 1 _ _ (Uses-bind 1 1 _ _ (Uses-call _) (λ u. Uses-call _)) (λ u. Uses-call _)

Uses-read_file : (at : Disk → File String) → Uses 1 (read_file at)
unfolding read_file
Uses-read_file at =
    Uses-bind 1 0 _ _ (Uses-bind 1 0 _ _ (Uses-call _) (λ u. Uses-gets _)) Uses-or_os_error

Uses-lstat_steamapps : Uses 1 lstat_steamapps
unfolding lstat_steamapps
Uses-lstat_steamapps =
    Uses-bind 1 0 _ _ (Uses-bind 1 0 _ _ (Uses-call _) (λ u. Uses-gets _)) Uses-or_os_error

Uses-back_up : (b : Bool) → Uses 4 (back_up b)
unfolding back_up
Uses-back_up true =
    Uses-bind 4 0 _ _
      (Uses-bind 1 3 _ _ (Uses-read_file (λ d. d.destination)) (Uses-durable_write on_backup))
      (λ u. Uses-pure true)
Uses-back_up false = Uses-weaken 0 4 _ (omega arith) (Uses-pure false)

Uses-drop_journal : Uses 2 drop_journal
unfolding drop_journal
Uses-drop_journal =
    Uses-bind 2 0 _ _ (Uses-bind 1 1 _ _ (Uses-call _) (λ u. Uses-call _)) (λ u. Uses-pure _)

Uses-restore : (b : Option FilePath) → Uses 6 (restore b)
unfolding restore
Uses-restore (some b) =
    Uses-bind 4 2 _ _
      (Uses-bind 1 3 _ _
        (Uses-bind 0 1 _ _
          (Uses-bind 0 0 _ (λ there. raise_if (not there) adoption_error)
            (Uses-gets (λ w. is_some w.disk.backup.current)) (λ t. Uses-raise_if _ _))
          (λ u. Uses-read_file (λ d. d.backup)))
        (Uses-durable_write on_destination))
      (λ u. Uses-drop_journal)
Uses-restore none = Uses-weaken 4 6 _ (omega arith) (
    Uses-bind 2 2 _ _ (Uses-bind 1 1 _ _ (Uses-call _) (λ u. Uses-call _)) (λ u. Uses-drop_journal))

Uses-decoded : (o : Option Journal) → Uses 0 (decoded o)
unfolding ◌>>=◌
Uses-decoded none = record { at_most = λ w. omega arith }
Uses-decoded (some garbage) = record { at_most = λ w. omega arith }
Uses-decoded (some (entry e)) = record { at_most = λ w. omega arith }

module _ (sha256 : String → String) (manifest_appid : String → Option ℕ) (p : Place) where
  Uses-judge : (e : Entry) (b : Bool) → Uses 7 (judge sha256 manifest_appid p e b)
  unfolding judge
  Uses-judge e true =
      Uses-bind 1 6 _
        (λ current.
          if has_landed sha256 manifest_appid p e current then pure completed else restore e.backup)
        (Uses-as_adoption_error 1 _ (Uses-read_file (λ d. d.destination)))
        (λ current. either (has_landed sha256 manifest_appid p e current))
    where
      either : (b : Bool) → Uses 6 (if b then pure completed else restore e.backup)
      either true = Uses-weaken 0 6 _ (omega arith) (Uses-pure completed)
      either false = Uses-restore e.backup
  Uses-judge e false = Uses-weaken 6 7 _ (omega arith) (Uses-restore e.backup)

  Uses-discard_or_judge :
      (e : Entry) (b : Bool) → Uses 7 (discard_or_judge sha256 manifest_appid p e b)
  unfolding discard_or_judge
  Uses-discard_or_judge e true =
      Uses-weaken 1 7 _ (omega arith) (Uses-bind 1 0 _ _ (Uses-call _) (λ u. Uses-pure _))
  Uses-discard_or_judge e false =
      Uses-bind 0 7 _ (judge sha256 manifest_appid p e)
        (Uses-gets (λ w. is_some w.disk.destination.current)) (Uses-judge e)

  Uses-recover_on :
      (e : Entry) (current : ℕ × ℕ) → Uses 7 (recover_on sha256 manifest_appid p e current)
  unfolding recover_on
  Uses-recover_on e current =
      Uses-bind 0 7 _ _ (Uses-raise_if (not (mount_matches e current)) adoption_error)
        (λ u. Uses-discard_or_judge e (of_other_operation p.operation_id e))

  Uses-recover_from : (e : Entry) → Uses 8 (recover_from sha256 manifest_appid p e)
  unfolding recover_from
  Uses-recover_from e =
      Uses-bind 1 7 _ (recover_on sha256 manifest_appid p e)
        (Uses-bind 0 1 _ _
          (Uses-bind 0 0 _ _ (Uses-raise_if (not (destination_expected p e)) adoption_error)
            (λ u. Uses-raise_if (not (backup_expected p e.backup)) adoption_error))
          (λ u. Uses-as_adoption_error 1 _ Uses-lstat_steamapps))
        (Uses-recover_on e)

  Uses-reconcile_pending : Uses 9 (reconcile_pending sha256 manifest_appid p)
  unfolding reconcile_pending read_journal
  Uses-reconcile_pending =
      Uses-bind 1 8 _ (recover_from sha256 manifest_appid p)
        (Uses-as_adoption_error 1 _ (
          Uses-bind 1 0 _ decoded
            (Uses-bind 1 0 _ _ (Uses-call _) (λ u. Uses-gets (λ w. w.disk.journal.current)))
            Uses-decoded))
        Uses-recover_from

  -- A recovery makes at most nine system calls.
  pub Uses-reconcile_adoption : Uses 9 (reconcile_adoption sha256 manifest_appid p)
  unfolding reconcile_adoption
  Uses-reconcile_adoption =
      Uses-bind 0 9 _ (when_pending sha256 manifest_appid p)
        (Uses-gets (λ w. is_some w.disk.journal.current)) each
    where
      each : (b : Bool) → Uses 9 (when_pending sha256 manifest_appid p b)
      each true = Uses-reconcile_pending
      each false = Uses-weaken 0 9 _ (omega arith) (Uses-pure _)

module _ (sha256 : String → String) (subn : String → String → String × ℕ) (a : Adoption) where
  Uses-patched_manifest : Uses 1 (patched_manifest sha256 subn a.source a.install_dir_name)
  unfolding patched_manifest
  Uses-patched_manifest =
      Uses-bind 1 0 _ _ (Uses-bind 1 0 _ _ (Uses-call _) (λ u. Uses-raise_if _ _))
        (λ u. Uses-pure _)

  Uses-swap_manifest :
      (s : ℕ × ℕ) (t : String) (b : Bool) → Uses 6 (swap_manifest sha256 subn a s t b)
  unfolding swap_manifest
  Uses-swap_manifest s t b =
      Uses-bind 6 0 _ _
        (Uses-bind 3 3 _ _ (Uses-durable_write on_journal _)
          (λ u. Uses-as_adoption_error 3 _ (Uses-durable_write on_destination t)))
        (λ u. Uses-pure _)

  Uses-back_up_and_swap : (s : ℕ × ℕ) (t : String) → Uses 10 (back_up_and_swap sha256 subn a s t)
  unfolding back_up_and_swap
  Uses-back_up_and_swap s t =
      Uses-bind 4 6 _ (swap_manifest sha256 subn a s t)
        (Uses-bind 0 4 _ back_up (Uses-gets (λ w. is_some w.disk.destination.current)) Uses-back_up)
        (Uses-swap_manifest s t)

  -- An adoption makes at most fourteen system calls.
  pub Uses-adopt_manifest : Uses 14 (adopt_manifest sha256 subn a)
  unfolding adopt_manifest adopt_on
  Uses-adopt_manifest =
      Uses-bind 1 13 _ (adopt_on sha256 subn a) (Uses-as_adoption_error 1 _ Uses-lstat_steamapps)
        (λ s.
          Uses-bind 3 10 _ (back_up_and_swap sha256 subn a s)
            (Uses-bind 2 1 _ _ (Uses-bind 1 1 _ _ (Uses-call _) (λ u. Uses-call _))
              (λ u. Uses-patched_manifest))
            (Uses-back_up_and_swap s))
