-- ===== src/Exec/Fallible.antt =====
-- Functions that change no object and may raise.
use mathlib.Core.Path.{subst}
use steam_cli.Prelude.{Bool, true, false, ◌≡◌, refl, ap}
use steam_cli.Exec.{Error, Result, ok, err}

infixl 5 ◌>>=◌ ◌>>◌
unfoldable pub ◌>>=◌ {ℓ κ} : {A : Type ℓ} {B : Type κ} → Result A → (A → Result B) → Result B
ok a >>= f = f a
err e >>= f = err e

abbrev pub ◌>>◌ {ℓ} : {B : Type ℓ} → Result (Unit {0}) → Result B → Result B
m >> n = m >>= λ _. n

-- `if c: raise e`
abbrev pub refuse_if : Bool → Error → Result (Unit {0})
refuse_if true e = err e
refuse_if false e = ok tt

abbrev value_or {ℓ} : {A : Type ℓ} → A → Result A → A
value_or d (ok a) = a
value_or d (err _) = d

pub ok-injective {ℓ} : {A : Type ℓ} {a b : A} → ok a ≡ ok b → a ≡ b
ok-injective {a} h = ap (value_or a) h

-- What holds of a value that is returned; nothing is said of a raise.
pub record Ensures {ℓ κ} {A : Type ℓ} (P : A → Type κ) (r : Result A) : Type (ℓ ⊔ κ) where
  pub of : (a : A) → r ≡ ok a → P a

pub Ensures-bind {ℓ κ μ} :
    {A : Type ℓ} {B : Type κ} {P : B → Type μ} (m : Result A) (f : A → Result B)
    → ((a : A) → m ≡ ok a → Ensures P (f a))
    → Ensures P (m >>= f)
unfolding ◌>>=◌
Ensures-bind (ok a) f k = k a refl
Ensures-bind (err e) f k = record { of = λ b h. cc }

pub Ensures-ok {ℓ κ} : {A : Type ℓ} {P : A → Type κ} (a : A) → P a → Ensures P (ok a)
Ensures-ok {P} a p = record { of = λ b h. subst P (ok-injective h) p }

pub Ensures-refuse_if {ℓ κ} :
    {B : Type ℓ} {P : B → Type κ} (b : Bool) (e : Error) (r : Result B)
    → (b ≡ false → Ensures P r)
    → Ensures P (refuse_if b e >> r)
unfolding ◌>>=◌
Ensures-refuse_if true e r k = record { of = λ b h. cc }
Ensures-refuse_if false e r k = k refl
