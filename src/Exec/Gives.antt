-- ===== src/Exec/Gives.antt =====
-- What holds of the values that an action returns, whatever the state; nothing is said of a raise.
use mathlib.Core.Path.{subst}
use steam_cli.Prelude.{◌≡◌, refl, ap, Bool, true, false, if◌then◌else◌}
use steam_cli.Exec.{Error, Result, ok, err, Exec, pure, raise, raise_if, continue, ◌>>=◌}

pub record Gives {ℓ κ} {S A : Type ℓ} (P : A → Type κ) (m : Exec S A) : Type (ℓ ⊔ κ) where
  pub of : (s : S) (a : A) → (m s).0 ≡ ok a → P a

abbrev value_or {ℓ} : {A : Type ℓ} → A → Result A → A
value_or d (ok a) = a
value_or d (err _) = d

module _ {ℓ κ} {S A : Type ℓ} {P : A → Type κ} where
  pub Gives-pure : (a : A) → P a → Gives {S = S} P (pure a)
  unfolding ◌>>=◌
  Gives-pure a p = record { of = λ s b h. subst P (ap (value_or a) h) p }

  pub Gives-raise : (e : Error) → Gives {S = S} P (raise e)
  unfolding ◌>>=◌
  Gives-raise e = record { of = λ s b h. cc }

  pub Gives-if :
      (b : Bool) (m n : Exec S A)
      → (b ≡ true → Gives P m)
      → (b ≡ false → Gives P n)
      → Gives P (if b then m else n)
  unfolding ◌>>=◌
  Gives-if true m n km kn = km refl
  Gives-if false m n km kn = kn refl

module _ {ℓ κ} {S A B : Type ℓ} {P : B → Type κ} where
  -- The rest of a block may use what its first action returned.
  pub Gives-bind_value :
      (m : Exec S A) (f : A → Exec S B)
      → ((s : S) (a : A) → (m s).0 ≡ ok a → Gives P (f a))
      → Gives P (m >>= f)
  unfolding ◌>>=◌
  Gives-bind_value m f k = record { of = λ s b h. go s b (m s).0 refl h }
    where
      go : (s : S) (b : B) (r : Result A) → (m s).0 ≡ r → (continue r f (m s).1).0 ≡ ok b → P b
      go s b (ok a) e h = (k s a e).of (m s).1 b h
      go s b (err x) e h = cc

  pub Gives-bind : (m : Exec S A) (f : A → Exec S B) → ((a : A) → Gives P (f a)) → Gives P (m >>= f)
  unfolding ◌>>=◌
  Gives-bind m f k = Gives-bind_value m f (λ s a _. k a)

module _ {κ} {S B : Type 0} {P : B → Type κ} where
  pub Gives-raise_if :
      (b : Bool) (e : Error) (m : Exec S B)
      → (b ≡ false → Gives P m)
      → Gives P (raise_if b e >>= λ _. m)
  unfolding ◌>>=◌
  Gives-raise_if true e m k = record { of = λ s b h. cc }
  Gives-raise_if false e m k = k refl
