-- ===== src/Exec/Triple.antt =====
-- Actions between a precondition and a postcondition, one rule for each way to build an action.
use mathlib.Core.Path.{subst}
use steam_cli.Prelude.{◌≡◌, refl, ap, Bool, true, false, if◌then◌else◌}
use steam_cli.Exec.{Error, Result, ok, err, Exec, pure, raise, raise_if, gets, continue, ◌>>=◌}
use steam_cli.Exec.Keeps.{Keeps}

-- From a state with `P` a returned value and its state have `Q`, a raised error and its state `E`.
pub record Triple {ℓ κ} {S A : Type ℓ} (P : S → Type κ) (m : Exec S A) (Q : A → S → Type κ)
    (E : Error → S → Type κ) : Type (ℓ ⊔ κ) where
  pub returns : (s : S) → P s → (a : A) → (m s).0 ≡ ok a → Q a (m s).1
  pub raises : (s : S) → P s → (e : Error) → (m s).0 ≡ err e → E e (m s).1

abbrev value_or {ℓ} : {A : Type ℓ} → A → Result A → A
value_or d (ok a) = a
value_or d (err _) = d

abbrev error_or {ℓ} : {A : Type ℓ} → Error → Result A → Error
error_or d (ok a) = d
error_or d (err e) = e

module _ {ℓ κ} {S A : Type ℓ} {P : S → Type κ} {Q : A → S → Type κ} {E : Error → S → Type κ} where
  pub Triple-pure : (a : A) → ((s : S) → P s → Q a s) → Triple P (pure a) Q E
  unfolding ◌>>=◌
  Triple-pure a q = record {
    returns = λ s p b h. subst (λ x. Q x s) (ap (value_or a) h) (q s p);
    raises = λ s p e h. cc;
  }

  pub Triple-raise : (x : Error) → ((s : S) → P s → E x s) → Triple P (raise {A = A} x) Q E
  unfolding ◌>>=◌
  Triple-raise x q = record {
    returns = λ s p b h. cc;
    raises = λ s p e h. subst (λ y. E y s) (ap (error_or x) h) (q s p);
  }

  pub Triple-gets : (f : S → A) → ((s : S) → P s → Q (f s) s) → Triple P (gets f) Q E
  unfolding ◌>>=◌
  Triple-gets f q = record {
    returns = λ s p b h. subst (λ x. Q x s) (ap (value_or (f s)) h) (q s p);
    raises = λ s p e h. cc;
  }

  pub Triple-if :
      (b : Bool) (m n : Exec S A)
      → (b ≡ true → Triple P m Q E)
      → (b ≡ false → Triple P n Q E)
      → Triple P (if b then m else n) Q E
  Triple-if true m n km kn = km refl
  Triple-if false m n km kn = kn refl

  -- An action that keeps a property, whatever it returns.
  pub Triple-weaken :
      {P' : S → Type κ} (m : Exec S A) → ((s : S) → P s → P' s) → Triple P' m Q E → Triple P m Q E
  Triple-weaken m f t = record {
    returns = λ s p a h. t.returns s (f s p) a h;
    raises = λ s p e h. t.raises s (f s p) e h;
  }

module _ {ℓ κ} {S A : Type ℓ} {P : S → Type κ} where
  pub Triple-Keeps : (m : Exec S A) → Keeps P m → Triple P m (λ _. P) (λ _. P)
  Triple-Keeps m k = record { returns = λ s p a h. k.at s p; raises = λ s p e h. k.at s p }

module _ {ℓ κ} {S A B : Type ℓ} {P : S → Type κ} {Q : B → S → Type κ} {E : Error → S → Type κ} where
  pub Triple-bind :
      {R : A → S → Type κ} (m : Exec S A) (f : A → Exec S B)
      → Triple P m R E
      → ((a : A) → Triple (R a) (f a) Q E)
      → Triple P (m >>= f) Q E
  unfolding ◌>>=◌
  Triple-bind {R} m f t k = record {
    returns = λ s p b h. back s b (m s).0 (λ a e. t.returns s p a e) h refl;
    raises = λ s p x h. out s x (m s).0 (λ a e. t.returns s p a e) (λ y e. t.raises s p y e) h refl;
  }
    where
      back :
          (s : S) (b : B) (r : Result A)
          → ((a : A) → (m s).0 ≡ ok a → R a (m s).1)
          → (continue r f (m s).1).0 ≡ ok b
          → (m s).0 ≡ r
          → Q b (continue r f (m s).1).1
      back s b (ok a) g h e = (k a).returns (m s).1 (g a e) b h
      back s b (err x) g h e = cc

      out :
          (s : S) (x : Error) (r : Result A)
          → ((a : A) → (m s).0 ≡ ok a → R a (m s).1)
          → ((y : Error) → (m s).0 ≡ err y → E y (m s).1)
          → (continue r f (m s).1).0 ≡ err x
          → (m s).0 ≡ r
          → E x (continue r f (m s).1).1
      out s x (ok a) g l h e = (k a).raises (m s).1 (g a e) x h
      out s x (err y) g l h e = subst (λ z. E z (m s).1) (ap (error_or y) h) (l y e)

module _ {κ} {S B : Type 0} {P : S → Type κ} {Q : B → S → Type κ} {E : Error → S → Type κ} where
  pub Triple-unless :
      (b : Bool) (x : Error) (m : Exec S B)
      → ((s : S) → P s → b ≡ true → E x s)
      → (b ≡ false → Triple P m Q E)
      → Triple P (raise_if b x >>= λ _. m) Q E
  unfolding ◌>>=◌
  Triple-unless true x m bad k = record {
    returns = λ s p b h. cc;
    raises = λ s p e h. subst (λ y. E y s) (ap (error_or x) h) (bad s p refl);
  }
  Triple-unless false x m bad k = k refl

-- What both postconditions say of the state holds of the state that the action leaves.
pub Triple-after {ℓ κ} :
    {S A : Type ℓ} {P : S → Type κ} {Q : A → S → Type κ} {E : Error → S → Type κ} (R : S → Type κ)
    (m : Exec S A)
    → Triple P m Q E
    → ((a : A) (s : S) → Q a s → R s)
    → ((e : Error) (s : S) → E e s → R s)
    → (s : S) → P s
    → R (m s).1
Triple-after {A} R m t f g s p = go (m s).0 refl
  where
    go : (r : Result A) → (m s).0 ≡ r → R (m s).1
    go (ok a) e = f a (m s).1 (t.returns s p a e)
    go (err x) e = g x (m s).1 (t.raises s p x e)
