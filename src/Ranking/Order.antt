-- ===== src/Ranking/Order.antt =====
-- The order of Python's numbers, texts and tuples of both.
use Prim.Native.Char.{code}
use steam_cli.Prelude.{
  ℕ, zero, suc, Bool, true, false, if◌then◌else◌, leb, ◌≤◌, List, [], ◌∷◌, String, ◌≡◌, refl, arith,
}

-- `negsuc n` is -(n + 1).
pub data ℤ : Type 0 where
  pos negsuc : ℕ → ℤ

abbrev pub neg : ℕ → ℤ
neg zero = pos 0
neg (suc n) = negsuc n

abbrev pub negate : ℤ → ℤ
negate (pos n) = neg n
negate (negsuc n) = pos (suc n)

unfoldable pub int_le : ℤ → ℤ → Bool
int_le (pos a) (pos b) = leb a b
int_le (pos a) (negsuc b) = false
int_le (negsuc a) (pos b) = true
int_le (negsuc a) (negsuc b) = leb b a

-- What a comparison must satisfy to be a total order.
pub record IsOrder {ℓ} {A : Type ℓ} (le : A → A → Bool) : Type ℓ where
  pub total : (a b : A) → le a b ≡ false → le b a ≡ true
  pub trans : (a b c : A) → le a b ≡ true → le b c ≡ true → le a c ≡ true
  pub antisymm : (a b : A) → le a b ≡ true → le b a ≡ true → a ≡ b

pub int_le-IsOrder : IsOrder int_le
unfolding int_le
int_le-IsOrder = record { total = total; trans = trans; antisymm = antisymm }
  where
    total : (a b : ℤ) → int_le a b ≡ false → int_le b a ≡ true
    total (pos a) (pos b) h = ground arith
    total (pos a) (negsuc b) h = refl
    total (negsuc a) (pos b) h = ground arith
    total (negsuc a) (negsuc b) h = ground arith

    trans : (a b c : ℤ) → int_le a b ≡ true → int_le b c ≡ true → int_le a c ≡ true
    trans (pos a) (pos b) (pos c) h k = ground arith
    trans (pos a) (pos b) (negsuc c) h k = ground arith
    trans (pos a) (negsuc b) c h k = ground arith
    trans (negsuc a) (pos b) (pos c) h k = refl
    trans (negsuc a) (pos b) (negsuc c) h k = ground arith
    trans (negsuc a) (negsuc b) (pos c) h k = refl
    trans (negsuc a) (negsuc b) (negsuc c) h k = ground arith

    antisymm : (a b : ℤ) → int_le a b ≡ true → int_le b a ≡ true → a ≡ b
    antisymm (pos a) (pos b) h k = ground arith
    antisymm (pos a) (negsuc b) h k = ground arith
    antisymm (negsuc a) (pos b) h k = ground arith
    antisymm (negsuc a) (negsuc b) h k = ground arith

-- Lexicographic, a prefix first.
unfoldable pub list_le {ℓ} : {A : Type ℓ} → (A → A → Bool) → List A → List A → Bool
list_le le [] ys = true
list_le le (x ∷ xs) [] = false
list_le le (x ∷ xs) (y ∷ ys) =
    let rest = list_le le xs ys in if le x y then (if le y x then rest else true) else false

module _ {ℓ} {A : Type ℓ} (le : A → A → Bool) (o : IsOrder le) where
  list_total : (a b : List A) → list_le le a b ≡ false → list_le le b a ≡ true
  unfolding list_le
  list_total [] b h = ground arith
  list_total (x ∷ xs) [] h = refl
  list_total (x ∷ xs) (y ∷ ys) h = ground (arith, o.total x y, list_total xs ys)

  list_trans :
      (a b c : List A) → list_le le a b ≡ true → list_le le b c ≡ true → list_le le a c ≡ true
  unfolding list_le
  list_trans [] b c h k = refl
  list_trans (x ∷ xs) [] c h k = ground arith
  list_trans (x ∷ xs) (y ∷ ys) [] h k = ground arith
  list_trans (x ∷ xs) (y ∷ ys) (z ∷ zs) h k =
      ground (arith, o.trans x y z, o.trans z x y, o.trans y z x, o.total x z, list_trans xs ys zs)

  list_antisymm : (a b : List A) → list_le le a b ≡ true → list_le le b a ≡ true → a ≡ b
  unfolding list_le
  list_antisymm [] [] h k = refl
  list_antisymm [] (y ∷ ys) h k = ground arith
  list_antisymm (x ∷ xs) [] h k = ground arith
  list_antisymm (x ∷ xs) (y ∷ ys) h k = ground (arith, o.antisymm x y, list_antisymm xs ys)

  pub list_le-IsOrder : IsOrder (list_le le)
  list_le-IsOrder = record { total = list_total; trans = list_trans; antisymm = list_antisymm }

-- A key is a tuple of numbers and texts; a text is compared by its code points.
abbrev pub Key : Type 0
Key = List (List ℤ)

abbrev pub number : ℤ → List ℤ
number z = z ∷ []

abbrev pub nat : ℕ → List ℤ
nat n = number (pos n)

unfoldable pub text : String → List ℤ
text String.[] = []
text (String.◌∷◌ c s) = pos (code c) ∷ text s

unfoldable pub key_le : Key → Key → Bool
unfolding list_le int_le
key_le a b = list_le (list_le int_le) a b

pub key_le-IsOrder : IsOrder key_le
unfolding key_le
key_le-IsOrder = list_le-IsOrder (list_le int_le) (list_le-IsOrder int_le int_le-IsOrder)

-- A smaller tuple has the smaller first number, and among equal ones the smaller rest.
pub key_le-nat :
    (m n : ℕ) (ks ls : Key)
    → key_le (nat m ∷ ks) (nat n ∷ ls) ≡ true
    → (m ≤ n) × (m ≡ n → key_le ks ls ≡ true)
unfolding key_le list_le int_le
key_le-nat m n ks ls h = (ground arith, λ same. ground arith)

pub key_le-neg :
    (m n : ℕ) (ks ls : Key)
    → key_le (number (neg m) ∷ ks) (number (neg n) ∷ ls) ≡ true
    → (n ≤ m) × (m ≡ n → key_le ks ls ≡ true)
unfolding key_le list_le int_le
key_le-neg zero zero ks ls h = (ground arith, λ same. ground arith)
key_le-neg zero (suc n) ks ls h = cc
key_le-neg (suc m) zero ks ls h = (ground arith, λ same. ground arith)
key_le-neg (suc m) (suc n) ks ls h = (ground arith, λ same. ground arith)
