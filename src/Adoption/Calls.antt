-- ===== src/Adoption/Calls.antt =====
-- Rules for the actions of Adoption.Disk and Adoption.Adopt: what holds of the disk after a call, and
-- of the disk that a failing call leaves.
use mathlib.Core.Path.{subst}
use mathlib.Core.Option.{some-injective}
use steam_cli.Prelude.{
  ◌⊎◌, inl, inr, ℕ, zero, suc, Bool, true, false, Option, none, some, String, ◌≡◌, refl, sym, ◌∙◌,
}
use steam_cli.Exec.{Error, Result, ok, err, Exec, ◌>>=◌, ◌>>◌, pure, gets, raise_if, handle}
use steam_cli.Exec.Fallible.{ok-injective}
use steam_cli.Exec.Triple.{Triple-bind}
use steam_cli.Adoption.Disk.{
  File, Disk, Machine, call, same, spend, write_temporary, replace, durable_write,
}
use steam_cli.Adoption.Adopt.{
  as_adoption_error, adoption_for, or_os_error, lstat_steamapps, read_file,
}

-- From a disk with `P` a returned value has `Q`; a raise leaves a disk with `E`, and happens only at a
-- call that fails.
pub record Runs {A : Type 0} (P : Disk → Type 0) (m : Exec Machine A) (Q : A → Disk → Type 0)
    (E : Disk → Type 0) : Type 0 where
  pub returns : (w : Machine) → P w.disk → (a : A) → (m w).0 ≡ ok a → Q a (m w).1.disk
  pub raises :
      (w : Machine)
      → P w.disk
      → (e : Error) → (m w).0 ≡ err e
      → E (m w).1.disk × ((m w).1.calls ≡ 0)

module _ {P E : Disk → Type 0} where
  pub Runs-call :
      {Q : Unit {0} → Disk → Type 0} (f : Disk → Disk)
      → ((d : Disk) → P d → Q tt (f d))
      → ((d : Disk) → P d → E d)
      → Runs P (call f) Q E
  unfolding call
  Runs-call {Q} f step stop = record {
    returns = λ w p a h. done w w.calls p a h;
    raises = λ w p e h. failed w w.calls refl p e h;
  }
    where
      done :
          (w : Machine) (n : ℕ)
          → P w.disk
          → (a : Unit {0}) → (spend f n w).0 ≡ ok a
          → Q a (spend f n w).1.disk
      done w zero p a h = cc
      done w (suc n) p a h = step w.disk p

      failed :
          (w : Machine) (n : ℕ)
          → w.calls ≡ n
          → P w.disk
          → (x : Error) → (spend f n w).0 ≡ err x
          → E (spend f n w).1.disk × ((spend f n w).1.calls ≡ 0)
      failed w zero e p x h = (stop w.disk p, e)
      failed w (suc n) e p x h = cc

  pub Runs-bind :
      {A B : Type 0} {R : A → Disk → Type 0} {Q : B → Disk → Type 0} (m : Exec Machine A)
      (f : A → Exec Machine B)
      → Runs P m R E
      → ((a : A) → Runs (R a) (f a) Q E)
      → Runs P (m >>= f) Q E
  Runs-bind {R} {Q} m f t k =
      let both =
        Triple-bind {P = λ w. P w.disk} {Q = λ b w. Q b w.disk}
          {E = λ e w. E w.disk × (w.calls ≡ 0)} {R = λ a w. R a w.disk} m f
          (record { returns = t.returns; raises = t.raises })
          (λ a. record { returns = (k a).returns; raises = (k a).raises }) in
      record { returns = both.returns; raises = both.raises }

  pub Runs-pure :
      {A : Type 0} {Q : A → Disk → Type 0} (a : A)
      → ((d : Disk) → P d → Q a d)
      → Runs P (pure a) Q E
  unfolding ◌>>=◌
  Runs-pure {Q} a q = record {
    returns = λ w p b h. subst (λ x. Q x w.disk) (ok-injective h) (q w.disk p);
    raises = λ w p e h. cc;
  }

  pub Runs-gets :
      {A : Type 0} {Q : A → Disk → Type 0} (f : Disk → A)
      → ((d : Disk) → P d → Q (f d) d)
      → Runs P (gets (λ w. f w.disk)) Q E
  unfolding ◌>>=◌
  Runs-gets {Q} f q = record {
    returns = λ w p b h. subst (λ x. Q x w.disk) (ok-injective h) (q w.disk p);
    raises = λ w p e h. cc;
  }

  -- A test that no disk with `P` fails.
  pub Runs-raise_if :
      {Q : Unit {0} → Disk → Type 0} (b : Bool) (e : Error)
      → ((d : Disk) → P d → b ≡ false)
      → ((d : Disk) → P d → Q tt d)
      → Runs P (raise_if b e) Q E
  unfolding ◌>>=◌
  Runs-raise_if true e never q = record {
    returns = λ w p a h. cc;
    raises = λ w p x h. cc (never w.disk p);
  }
  Runs-raise_if false e never q = record { returns = λ w p a h. q w.disk p; raises = λ w p x h. cc }

  pub Runs-weaken :
      {A : Type 0} {P' : Disk → Type 0} {Q : A → Disk → Type 0} (m : Exec Machine A)
      → ((d : Disk) → P d → P' d)
      → Runs P' m Q E
      → Runs P m Q E
  Runs-weaken m f t = record {
    returns = λ w p a h. t.returns w (f w.disk p) a h;
    raises = λ w p e h. t.raises w (f w.disk p) e h;
  }

  pub Runs-as_adoption_error :
      {A : Type 0} {Q : A → Disk → Type 0} (m : Exec Machine A)
      → Runs P m Q E
      → Runs P (as_adoption_error m) Q E
  unfolding as_adoption_error
  Runs-as_adoption_error {A} {Q} m t = record {
    returns = λ w p a h. kept w (m w).0 refl p a h;
    raises = λ w p e h. out w (m w).0 refl p e h;
  }
    where
      kept :
          (w : Machine) (r : Result A)
          → (m w).0 ≡ r
          → P w.disk
          → (a : A) → (handle (r, (m w).1) adoption_for).0 ≡ ok a
          → Q a (handle (r, (m w).1) adoption_for).1.disk
      kept w (ok b) e p a h = t.returns w p a (e ∙ h)
      kept w (err x) e p a h = cc

      out :
          (w : Machine) (r : Result A)
          → (m w).0 ≡ r
          → P w.disk
          → (x : Error) → (handle (r, (m w).1) adoption_for).0 ≡ err x
          → E (handle (r, (m w).1) adoption_for).1.disk
            × ((handle (r, (m w).1) adoption_for).1.calls ≡ 0)
      out w (ok b) e p x h = cc
      out w (err y) e p x h = t.raises w p y e

  -- The calls that change nothing but may fail.
  pub Runs-same :
      {Q : Unit {0} → Disk → Type 0}
      → ((d : Disk) → P d → Q tt d)
      → ((d : Disk) → P d → E d)
      → Runs P (call same) Q E
  Runs-same q stop = Runs-call same q stop

module _ {P E : Disk → Type 0} where
  -- `_durable_write`: the disk is as before but for the temporary, until it is as after.
  pub Runs-durable_write :
      {C : Type 0} {Q : Unit {0} → Disk → Type 0} (on : (File C → File C) → Disk → Disk) (c : C)
      → ((d : Disk) → P d → E d)
      → ((d : Disk) → P d → E (on (write_temporary c) d))
      → ((d : Disk) → P d → Q tt (on replace (on (write_temporary c) d)))
      → ((d : Disk) → Q tt d → E d)
      → Runs P (durable_write on c) Q E
  unfolding durable_write
  Runs-durable_write {Q} on c before between after stop =
      Runs-bind {R = λ _ d. Q tt d} _ _
        (Runs-bind {R = λ _ e. (d : Disk) × P d × (e ≡ on (write_temporary c) d)} _ _
          (Runs-call (on (write_temporary c)) (λ d p. (d, p, refl)) before)
          (λ u.
            Runs-call (on replace)
              (λ e p. subst (λ d. Q tt (on replace d)) (sym p.2) (after p.0 p.1))
              (λ e p. subst E (sym p.2) (between p.0 p.1))))
        (λ u. Runs-same (λ d q. q) stop)

  -- `or_os_error` of what is there.
  Runs-or_os_error :
      {A : Type 0} {Q : A → Disk → Type 0} (o : Option A)
      → ((d : Disk) → P d → (a : A) × (o ≡ some a) × Q a d)
      → Runs P (or_os_error o) Q E
  unfolding ◌>>=◌
  Runs-or_os_error {Q} none there = record {
    returns = λ w p a h. cc;
    raises = λ w p x h. cc (there w.disk p).1;
  }
  Runs-or_os_error {Q} (some b) there = record {
    returns = λ w p a h.
        subst (λ x. Q x w.disk) (some-injective _ _ (sym (there w.disk p).1) ∙ ok-injective h)
          (there w.disk p).2;
    raises = λ w p x h. cc;
  }

Runs-at :
    {P E : Disk → Type 0} {A B : Type 0} {Q : B → Disk → Type 0} (f : A → Exec Machine B)
    (known given : A)
    → Runs P (f known) Q E
    → Runs (λ d. P d × (given ≡ known)) (f given) Q E
Runs-at {P} {E} {Q} f known given t = record {
  returns = λ w p b h.
      subst (λ x. Q b (f x w).1.disk) (sym p.1)
        (t.returns w p.0 b (subst (λ x. (f x w).0 ≡ ok b) p.1 h));
  raises = λ w p e h.
      subst (λ x. E (f x w).1.disk × ((f x w).1.calls ≡ 0)) (sym p.1)
        (t.raises w p.0 e (subst (λ x. (f x w).0 ≡ err e) p.1 h));
}

module _ {P E : Disk → Type 0} where
  -- What a disk holds, where every disk with `P` has it.
  Runs-found :
      {A : Type 0} {Q : A → Disk → Type 0} (f : Disk → Option A)
      → ((d : Disk) → P d → (a : A) × (f d ≡ some a) × Q a d)
      → ((d : Disk) → P d → E d)
      → Runs P (call same >> gets (λ w. f w.disk) >>= or_os_error) Q E
  Runs-found f there stop =
      Runs-bind {R = λ o d. P d × (o ≡ f d)} _ _
        (Runs-bind {R = λ _ d. P d} _ _ (Runs-same (λ d p. p) stop)
          (λ u. Runs-gets f (λ d p. (p, refl))))
        (λ o. Runs-or_os_error o (λ d p. ((there d p.0).0, p.1 ∙ (there d p.0).1, (there d p.0).2)))

  -- The rest of a block whose first value is known.
  pub Runs-bind_known :
      {A B : Type 0} {R : Disk → Type 0} {Q : B → Disk → Type 0} (m : Exec Machine A)
      (f : A → Exec Machine B) (known : A)
      → Runs P m (λ a d. R d × (a ≡ known)) E
      → Runs R (f known) Q E
      → Runs P (m >>= f) Q E
  Runs-bind_known {R} m f known t k =
      Runs-bind {R = λ a d. R d × (a ≡ known)} m f t (λ given. Runs-at f known given k)

  -- A file that is there is read.
  pub Runs-read_file :
      {Q : String → Disk → Type 0} (at : Disk → File String)
      → ((d : Disk) → P d → (c : String) × ((at d).current ≡ some c) × Q c d)
      → ((d : Disk) → P d → E d)
      → Runs P (read_file at) Q E
  unfolding read_file
  Runs-read_file at there stop = Runs-found (λ d. (at d).current) there stop

  -- The mount is there.
  pub Runs-lstat_steamapps :
      {Q : (ℕ × ℕ) → Disk → Type 0}
      → ((d : Disk) → P d → (s : ℕ × ℕ) × (d.steamapps ≡ some s) × Q s d)
      → ((d : Disk) → P d → E d)
      → Runs P lstat_steamapps Q E
  unfolding lstat_steamapps
  Runs-lstat_steamapps there stop = Runs-found (λ d. d.steamapps) there stop

-- From either of two properties.
pub Runs-either :
    {P R E : Disk → Type 0} {A : Type 0} {Q : A → Disk → Type 0} (m : Exec Machine A)
    → Runs P m Q E
    → Runs R m Q E
    → Runs (λ d. P d ⊎ R d) m Q E
Runs-either m s t = record {
  returns = λ w p a h. elim p [ inl l ↦ s.returns w l a h | inr r ↦ t.returns w r a h ];
  raises = λ w p e h. elim p [ inl l ↦ s.raises w l e h | inr r ↦ t.raises w r e h ];
}
