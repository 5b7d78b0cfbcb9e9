-- ===== src/Adoption/Crash.antt =====
-- An adoption of src/steam_agent/execution/content_plane.py that ends anywhere, recoveries that end
-- anywhere, and the recovery that is let finish.
use steam_cli.Prelude.{
  ℕ, suc, ◌+◌, ◌≤◌, Option, some, List, [], ◌∷◌, String, ◌≡◌, refl, ap, ◌∙◌, inl, inr, arith,
}
use steam_cli.Exec.{Result, ok, err, Exec}
use steam_cli.Adoption.Disk.{manifest_path, Disk, Machine}
use steam_cli.Adoption.Adopt.{Adoption, adopt_manifest}
use steam_cli.Adoption.Reconcile.{
  Verdict, completed, restored, clean, stale, Place, reconcile_adoption,
}
use steam_cli.Adoption.Calls.{Runs}
use steam_cli.Adoption.Phases.{new_text, IsUntouched, IsPending, IsPhase, adopt_manifest-IsPhase}
use steam_cli.Adoption.Restoring.{IsJudged, place_of}
use steam_cli.Adoption.Recovery.{reconcile_adoption-IsJudged}
use steam_cli.Adoption.Uses.{Uses, Uses-reconcile_adoption, Uses-adopt_manifest}

-- A run that raises only where a call fails returns, with more calls than it makes.
pub Runs-returns :
    {A : Type 0} {P E : Disk → Type 0} {Q : A → Disk → Type 0} (k : ℕ) (m : Exec Machine A)
    (w : Machine)
    → Runs P m Q E
    → Uses k m
    → P w.disk
    → suc k ≤ w.calls
    → (a : A) × ((m w).0 ≡ ok a) × Q a (m w).1.disk
Runs-returns {A} {Q} k m w t u p enough = go (m w).0 refl
  where
    too_few : w.calls ≤ k + (m w).1.calls → (m w).1.calls ≡ 0 → ⊥
    too_few h z = omega arith

    go : (r : Result A) → (m w).0 ≡ r → (a : A) × ((m w).0 ≡ ok a) × Q a (m w).1.disk
    go (ok a) e = (a, e, t.returns w p a e)
    go (err x) e = absurd (too_few (u.at_most w) (t.raises w p x e).1)

-- What holds after a return and after a failure holds after the run.
Runs-leaves :
    {A : Type 0} {P E : Disk → Type 0} {Q : A → Disk → Type 0} (R : Disk → Type 0)
    (m : Exec Machine A) (w : Machine)
    → Runs P m Q E
    → ((a : A) → Q a (m w).1.disk → R (m w).1.disk)
    → (E (m w).1.disk → R (m w).1.disk)
    → P w.disk
    → R (m w).1.disk
Runs-leaves {A} R m w t f g p = go (m w).0 refl
  where
    go : (r : Result A) → (m w).0 ≡ r → R (m w).1.disk
    go (ok a) e = f a (t.returns w p a e)
    go (err x) e = g (t.raises w p x e).0

abbrev pub disk_with : Disk → ℕ → Machine
disk_with d n = record { disk = d; calls = n }

-- The disk that an adoption leaves that may make `n` calls.
unfoldable pub adopted :
    (String → String) → (String → String → String × ℕ) → Adoption → ℕ → Disk → Disk
unfolding adopt_manifest
adopted sha256 subn a n d = (adopt_manifest sha256 subn a (disk_with d n)).1.disk

-- Recoveries one after another, each with the number of calls that it may make.
unfoldable pub recovered : (String → String) → (String → Option ℕ) → Place → List ℕ → Disk → Disk
unfolding reconcile_adoption
recovered sha256 manifest_appid p [] d = d
recovered sha256 manifest_appid p (n ∷ ns) d =
    recovered sha256 manifest_appid p ns
      (reconcile_adoption sha256 manifest_appid p (disk_with d n)).1.disk

-- If the source's directory is substituted once and nothing is journaled, an adoption with at least
-- fifteen calls returns its destination, where the new manifest is then, journaled and with the old one
-- backed up.
pub adopt_manifest_returns :
    (sha256 : String → String) (subn : String → String → String × ℕ) (a : Adoption) (w : Machine)
    (stat : ℕ × ℕ)
    → (subn a.source a.install_dir_name).1 ≡ 1
    → IsUntouched sha256 subn a w.disk.destination.current stat w.disk
    → 15 ≤ w.calls
    → ((adopt_manifest sha256 subn a w).0 ≡ ok (manifest_path a.library a.appid))
      × IsPending sha256 subn a w.disk.destination.current stat
          (some (new_text sha256 subn a w.disk.destination.current stat))
          (adopt_manifest sha256 subn a w).1.disk
adopt_manifest_returns sha256 subn a w stat once start enough =
    let (p, returned, (is_path, pending)) =
      Runs-returns 14 _ w
        (adopt_manifest-IsPhase sha256 subn a w.disk.destination.current stat once)
        (Uses-adopt_manifest sha256 subn a) start enough in
    (returned ∙ ap ok is_path, pending)

module _ (sha256 : String → String) (collision_free : (s t : String) → sha256 s ≡ sha256 t → s ≡ t)
    (subn : String → String → String × ℕ) (manifest_appid : String → Option ℕ) (a : Adoption)
    (old : Option String) (stat : ℕ × ℕ) where
  adopted-IsPhase :
      (n : ℕ) (d : Disk)
      → (subn a.source a.install_dir_name).1 ≡ 1
      → IsUntouched sha256 subn a old stat d
      → IsPhase sha256 subn a old stat (adopted sha256 subn a n d)
  unfolding adopted
  adopted-IsPhase n d once start =
      Runs-leaves (IsPhase sha256 subn a old stat) _ (disk_with d n)
        (adopt_manifest-IsPhase sha256 subn a old stat once) (λ p q. inr (inr q.1)) (λ e. e) start

  judged-IsPhase :
      (v : Verdict) (d : Disk)
      → IsJudged sha256 collision_free subn manifest_appid a old stat v d
      → IsPhase sha256 subn a old stat d
  judged-IsPhase completed d q = inr (inr q)
  judged-IsPhase restored d q = inl q
  judged-IsPhase clean d q = inl q
  judged-IsPhase stale d q = absurd q

  recovered-IsPhase :
      (ns : List ℕ) (d : Disk)
      → IsPhase sha256 subn a old stat d
      → IsPhase sha256 subn a old stat (recovered sha256 manifest_appid (place_of a) ns d)
  unfolding recovered
  recovered-IsPhase [] d p = p
  recovered-IsPhase (n ∷ ns) d p = recovered-IsPhase ns _ (
      Runs-leaves (IsPhase sha256 subn a old stat) _ (disk_with d n)
        (reconcile_adoption-IsJudged sha256 collision_free subn manifest_appid a old stat)
        (λ v q. judged-IsPhase v _ q) (λ e. e) p)

-- If the source's directory is substituted once, no two texts have one checksum, and nothing is
-- journaled at first: an adoption that ends after any number of calls, and recoveries that do, leave a
-- disk from which a recovery with at least ten calls returns a verdict: completed with the new manifest
-- in place, or restored or clean with what was there before and no journal.
pub reconcile_adoption_after_crash :
    (sha256 : String → String) (subn : String → String → String × ℕ)
    (manifest_appid : String → Option ℕ) (a : Adoption) (old : Option String) (stat : ℕ × ℕ)
    (d : Disk) (n : ℕ) (ns : List ℕ) (m : ℕ)
    (collision_free : (s t : String) → sha256 s ≡ sha256 t → s ≡ t)
    → (subn a.source a.install_dir_name).1 ≡ 1
    → IsUntouched sha256 subn a old stat d
    → 10 ≤ m
    → (v : Verdict) × ((reconcile_adoption sha256 manifest_appid (place_of a) (
          disk_with
            (recovered sha256 manifest_appid (place_of a) ns (adopted sha256 subn a n d))
            m)).0
        ≡ ok v)
      × IsJudged sha256 collision_free subn manifest_appid a old stat v (
          recovered sha256 manifest_appid
            (place_of a)
            (m ∷ [])
            (recovered sha256 manifest_appid (place_of a) ns (adopted sha256 subn a n d)))
unfolding recovered
reconcile_adoption_after_crash sha256 subn manifest_appid a old stat d n ns m collision_free once
      start enough =
    Runs-returns 9 _ (disk_with _ m)
      (reconcile_adoption-IsJudged sha256 collision_free subn manifest_appid a old stat)
      (Uses-reconcile_adoption sha256 manifest_appid (place_of a))
      (recovered-IsPhase sha256 collision_free subn manifest_appid a old stat ns _
        (adopted-IsPhase sha256 collision_free subn manifest_appid a old stat n d once start))
      enough
