-- ===== src/Exec/Keeps.antt =====
-- Invariants of actions: one rule for each way to build an action.
use steam_cli.Prelude.{◌≡◌, refl, Bool, true, false, if◌then◌else◌}
use steam_cli.Exec.{Error, Result, ok, err, Exec, pure, raise, raise_if, gets, continue, ◌>>=◌}

-- `m` keeps `P`, whether it returns or raises.
pub record Keeps {ℓ κ} {S A : Type ℓ} (P : S → Type κ) (m : Exec S A) : Type (ℓ ⊔ κ) where
  pub at : (s : S) → P s → P (m s).1

module _ {ℓ κ} {S A : Type ℓ} {P : S → Type κ} where
  pub Keeps-gets : (read : S → A) → Keeps P (gets read)
  unfolding ◌>>=◌
  Keeps-gets read = record { at = λ s kept. kept }

  -- Each branch may use the outcome of the test.
  pub Keeps-if :
      (test : Bool) (first_branch other_branch : Exec S A)
      → (test ≡ true → Keeps P first_branch)
      → (test ≡ false → Keeps P other_branch)
      → Keeps P (if test then first_branch else other_branch)
  unfolding ◌>>=◌
  Keeps-if true first_branch other_branch on off = on refl
  Keeps-if false first_branch other_branch on off = off refl

  pub Keeps-raise : (e : Error) → Keeps P (raise {A = A} e)
  unfolding ◌>>=◌
  Keeps-raise e = record { at = λ s kept. kept }

  pub Keeps-pure : (a : A) → Keeps P (pure a)
  unfolding ◌>>=◌
  Keeps-pure a = record { at = λ s kept. kept }

module _ {ℓ κ} {S A B : Type ℓ} {P : S → Type κ} where
  -- The rest of a block may use what its first action returned.
  pub Keeps-bind_value :
      (m : Exec S A) (f : A → Exec S B)
      → Keeps P m
      → ((s : S) (a : A) → P s → (m s).0 ≡ ok a → P (f a (m s).1).1)
      → Keeps P (m >>= f)
  unfolding ◌>>=◌
  Keeps-bind_value m f km kf = record { at = λ s h. go s h (m s).0 refl }
    where
      go : (s : S) (h : P s) (r : Result A) → (m s).0 ≡ r → P (continue r f (m s).1).1
      go s h (ok a) e = kf s a h e
      go s h (err x) e = km.at s h

  pub Keeps-bind :
      (m : Exec S A) (rest : A → Exec S B)
      → Keeps P m
      → ((a : A) → Keeps P (rest a))
      → Keeps P (m >>= rest)
  Keeps-bind m rest held each =
      Keeps-bind_value m rest held λ s a h returned. (each a).at (m s).1 (held.at s h)

module _ {κ} {S : Type 0} {P : S → Type κ} where
  pub Keeps-raise_if : (b : Bool) (e : Error) → Keeps P (raise_if b e)
  unfolding ◌>>=◌
  Keeps-raise_if true e = record { at = λ s h. h }
  Keeps-raise_if false e = record { at = λ s h. h }

module _ {κ} {S B : Type 0} {P : S → Type κ} where
  -- The rest of a block may use that the test failed.
  pub Keeps-unless :
      (b : Bool) (e : Error) (m : Exec S B)
      → (b ≡ false → Keeps P m)
      → Keeps P (raise_if b e >>= λ _. m)
  unfolding ◌>>=◌
  Keeps-unless true e m k = record { at = λ s h. h }
  Keeps-unless false e m k = k refl

pub ruleset keeps_rules =
    (Keeps-pure, Keeps-raise, Keeps-gets, Keeps-if, Keeps-raise_if, Keeps-bind)
