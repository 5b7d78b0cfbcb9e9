-- ===== src/Checked.antt =====
-- Functions that raise a `ValueError`: checks, one after the other, and the value that comes after
-- them. `none` is a check that raises nothing.
use Prim.Native.Char.{Char}
use steam_cli.Prelude.{
  ℕ, suc, Bool, true, false, ◌||◌, Option, none, some, String, if◌then◌else◌, ◌⊎◌, inl, inr, ◌≡◌,
  refl, ap, arith,
}

abbrev pub fault_if {ℓ} : {E : Type ℓ} → Bool → E → Option E
fault_if true e = some e
fault_if false e = none

infixr 4 ◌then_check◌
abbrev pub ◌then_check◌ {ℓ} : {E : Type ℓ} → Option E → Option E → Option E
none then_check rest = rest
some e then_check rest = some e

-- The number of code points.
unfoldable pub len : String → ℕ
len String.[] = 0
len (String.◌∷◌ c s) = suc (len s)

unfoldable pub any_char : (Char → Bool) → String → Bool
any_char p String.[] = false
any_char p (String.◌∷◌ c s) = p c || any_char p s

-- The value of a function whose checks come first.
abbrev pub checked {ℓ} : {E A : Type ℓ} → Option E → A → E ⊎ A
checked none a = inr a
checked (some e) a = inl e

pub checked-cong {ℓ} :
    {E A : Type ℓ} (c d : Option E) {a b : A}
    → c ≡ d
    → (c ≡ none → a ≡ b)
    → checked c a ≡ checked d b
checked-cong none none h k = ap inr (k refl)
checked-cong none (some e) h k = cc
checked-cong (some e) none h k = cc
checked-cong (some e) (some f) h k = ground arith

-- What a value that is returned says of the checks.
pub checked-inr {ℓ} :
    {E A : Type ℓ} (c : Option E) {a b : A} → checked c a ≡ inr b → (c ≡ none) × (b ≡ a)
checked-inr none h = (refl, ground arith)
checked-inr (some e) h = cc

-- The next step of a function that may raise.
infixl 5 ◌>>=◌
abbrev pub ◌>>=◌ {ℓ} : {E A B : Type ℓ} → E ⊎ A → (A → E ⊎ B) → E ⊎ B
inl e >>= f = inl e
inr a >>= f = f a

-- A value that a chain returns comes from values that its steps returned.
pub >>=-inr {ℓ} :
    {E A B : Type ℓ} (m : E ⊎ A) (f : A → E ⊎ B) {b : B}
    → (m >>= f) ≡ inr b
    → (a : A) × (m ≡ inr a) × (f a ≡ inr b)
>>=-inr (inl e) f h = cc
>>=-inr (inr a) f h = (a, refl, h)

abbrev pub value_or {ℓ} : {E A : Type ℓ} → A → E ⊎ A → A
value_or d (inl e) = d
value_or d (inr a) = a

pub inr_inj {ℓ} : {E A : Type ℓ} {a b : A} → ◌≡◌ {A = E ⊎ A} (inr a) (inr b) → a ≡ b
inr_inj {a} h = ap (value_or a) h

-- A test that raises before a value.
pub unless_raised {ℓ} :
    {E A : Type ℓ} (t : Bool) (e : E) (m : E ⊎ A) {b : A}
    → (if t then inl e else m) ≡ inr b
    → (t ≡ false) × (m ≡ inr b)
unless_raised true e m h = cc
unless_raised false e m h = (refl, h)

pub then_check-none {ℓ} :
    {E : Type ℓ} (c d : Option E) → (c then_check d) ≡ none → (c ≡ none) × (d ≡ none)
then_check-none none d h = (refl, h)
then_check-none (some e) d h = cc

pub checked_then-cong {ℓ} :
    {E A : Type ℓ} (c d : Option E) {m n : E ⊎ A}
    → c ≡ d
    → (c ≡ none → m ≡ n)
    → (checked c tt >>= λ _. m) ≡ (checked d tt >>= λ _. n)
checked_then-cong none none h k = k refl
checked_then-cong none (some e) h k = cc
checked_then-cong (some e) none h k = cc
checked_then-cong (some e) (some f) h k = ground arith

abbrev fault_or {ℓ} : {E A : Type ℓ} → E → E ⊎ A → E
fault_or d (inl e) = e
fault_or d (inr a) = d

pub inl_inj {ℓ} : {E A : Type ℓ} {a b : E} → ◌≡◌ {A = E ⊎ A} (inl a) (inl b) → a ≡ b
inl_inj {a} h = ap (fault_or a) h
