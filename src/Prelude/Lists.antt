-- ===== src/Prelude/Lists.antt =====
-- List functions over Boolean tests and the native numbers.
use Prim.Native.Nat.{ℕ, suc, ◌+◌, ◌≤◌}
use mathlib.Core.Path.{◌≡◌, refl, subst, ap}
use mathlib.Core.Bool.{Bool, true, false, ◌&&◌, ◌||◌}
use mathlib.Core.Option.{Option, none, some}
use mathlib.Core.List.{List, [], ◌∷◌, ◌++◌, map}
use native.Mathlib.Omega.{arith}
use mathlib.Core.Logic.{inl, inr}
use steam_cli.Prelude.Tests.{if◌then◌else◌, Bool-cases}

module _ {ℓ} {A : Type ℓ} where
  abbrev pub length : List A → ℕ
  length [] = 0
  length (x ∷ xs) = suc (length xs)

  -- The items that pass a test, in order.
  abbrev pub select : (A → Bool) → List A → List A
  select p [] = []
  select p (x ∷ xs) = let rest = select p xs in if p x then x ∷ rest else rest

  -- The first item that passes a test.
  abbrev pub first : (A → Bool) → List A → Option A
  first p [] = none
  first p (x ∷ xs) = let rest = first p xs in if p x then some x else rest

  abbrev pub any : (A → Bool) → List A → Bool
  any p [] = false
  any p (x ∷ xs) = p x || any p xs

  abbrev pub all : (A → Bool) → List A → Bool
  all p [] = true
  all p (x ∷ xs) = p x && all p xs

  -- How many items pass a test.
  abbrev pub count_where : (A → Bool) → List A → ℕ
  count_where p [] = 0
  count_where p (x ∷ xs) = if p x then suc (count_where p xs) else count_where p xs

  abbrev pub update_where : (A → Bool) → (A → A) → List A → List A
  update_where p f [] = []
  update_where p f (x ∷ xs) = (if p x then f x else x) ∷ update_where p f xs

  -- A predicate holds of every item.
  abbrev pub All {κ} : (A → Type κ) → List A → Type κ
  All P [] = Unit
  All P (x ∷ xs) = P x × All P xs

  pub count_where-append :
      (p : A → Bool) (xs ys : List A)
      → count_where p (xs ++ ys) ≡ count_where p xs + count_where p ys
  count_where-append p [] ys = omega arith
  count_where-append p (x ∷ xs) ys = ground (arith, count_where-append p xs ys)

  pub any-append : (p : A → Bool) (xs ys : List A) → any p (xs ++ ys) ≡ (any p xs || any p ys)
  any-append p [] ys = refl
  any-append p (x ∷ xs) ys = ground (arith, any-append p xs ys)

  -- An update that turns no failing item into a passing one adds none.
  pub count_where-update_where :
      (q p : A → Bool) (f : A → A) (xs : List A)
      → ((x : A) → p x ≡ true → q (f x) ≡ true → q x ≡ true)
      → count_where q (update_where p f xs) ≤ count_where q xs
  count_where-update_where q p f [] h = omega arith
  count_where-update_where q p f (x ∷ xs) h =
      ground (arith, count_where-update_where q p f xs h, h x)

  pub any-count_where : (p : A → Bool) (xs : List A) → any p xs ≡ false → count_where p xs ≡ 0
  any-count_where p [] h = refl
  any-count_where p (x ∷ xs) h = ground (arith, any-count_where p xs)

  pub All-append {κ} : (P : A → Type κ) (xs ys : List A) → All P xs → All P ys → All P (xs ++ ys)
  All-append P [] ys h k = k
  All-append P (x ∷ xs) ys h k = (h.0, All-append P xs ys h.1 k)

  pub All-update_where {κ} :
      (P : A → Type κ) (p : A → Bool) (f : A → A)
      → ((x : A) → p x ≡ true → P x → P (f x))
      → (xs : List A) → All P xs
      → All P (update_where p f xs)
  All-update_where P p f keep [] h = tt
  All-update_where P p f keep (x ∷ xs) h = (at_head (p x) refl, All-update_where P p f keep xs h.1)
    where
      at_head : (b : Bool) → p x ≡ b → P (if b then f x else x)
      at_head true e = keep x e h.0
      at_head false e = h.0

  -- An update that leaves the found item alone, and moves no item in or out of the search.
  pub first-update_where :
      (q p : A → Bool) (f : A → A) (xs : List A) {a : A}
      → ((x : A) → q (f x) ≡ q x)
      → first q xs ≡ some a
      → first q (update_where p f xs) ≡ some (if p a then f a else a)
  first-update_where q p f [] same h = ground arith
  first-update_where q p f (x ∷ xs) {a} same h =
      ground (arith, first-update_where q p f xs {a = a} same, same x)

  pub first-append :
      (q : A → Bool) (xs ys : List A) {a : A} → first q xs ≡ some a → first q (xs ++ ys) ≡ some a
  first-append q [] ys h = ground arith
  first-append q (x ∷ xs) ys {a} h = ground (arith, first-append q xs ys {a = a})

  pub first-holds : (q : A → Bool) (xs : List A) {a : A} → first q xs ≡ some a → q a ≡ true
  first-holds q [] h = ground arith
  first-holds q (x ∷ xs) {a} h = ground (arith, first-holds q xs {a = a})

  pub first-count_where :
      (q p : A → Bool) (xs : List A) {a : A}
      → first q xs ≡ some a
      → p a ≡ true
      → 1 ≤ count_where p xs
  first-count_where q p [] h k = ground arith
  first-count_where q p (x ∷ xs) {a} h k = ground (arith, first-count_where q p xs {a = a})

  pub length-select : (p : A → Bool) (xs : List A) → length (select p xs) ≡ count_where p xs
  length-select p [] = refl
  length-select p (x ∷ xs) = ground (arith, length-select p xs)

  pub count_where_mono :
      (p q : A → Bool) (xs : List A)
      → ((x : A) → p x ≡ true → q x ≡ true)
      → count_where p xs ≤ count_where q xs
  count_where_mono p q [] h = omega arith
  count_where_mono p q (x ∷ xs) h = ground (arith, count_where_mono p q xs h, h x)

  pub All-first {κ} :
      (P : A → Type κ) (q : A → Bool) (xs : List A) {a : A} → All P xs → first q xs ≡ some a → P a
  All-first P q [] h e = cc
  All-first P q (x ∷ xs) {a} h e = elim (Bool-cases (q x)) [
    | inl here ↦ subst P (ground arith) h.0
    | inr later ↦ All-first P q xs h.1 (ground arith)
  ]

  pub All-map {κ} : (P Q : A → Type κ) → ((x : A) → P x → Q x) → (xs : List A) → All P xs → All Q xs
  All-map P Q f [] h = tt
  All-map P Q f (x ∷ xs) h = (f x h.0, All-map P Q f xs h.1)

  pub All-not_any : (p : A → Bool) (xs : List A) → All (λ x. p x ≡ false) xs → any p xs ≡ false
  All-not_any p [] h = refl
  All-not_any p (x ∷ xs) h = ground (arith, All-not_any p xs h.1)

pub length-map {ℓ κ} :
    {A : Type ℓ} {B : Type κ} (f : A → B) (xs : List A) → length (map f xs) ≡ length xs
length-map f [] = refl
length-map f (x ∷ xs) = ap suc (length-map f xs)

pub select-holds {ℓ} :
    {A : Type ℓ} (p : A → Bool) (xs : List A) → All (λ x. p x ≡ true) (select p xs)
select-holds p [] = tt
select-holds p (x ∷ xs) = go (p x) refl (select-holds p xs)
  where
    go :
        (b : Bool)
        → p x ≡ b
        → All (λ y. p y ≡ true) (select p xs)
        → All (λ y. p y ≡ true) (if b then x ∷ select p xs else select p xs)
    go true e rest = (e, rest)
    go false e rest = rest

pub All-select {ℓ κ} :
    {A : Type ℓ} (P : A → Type κ) (p : A → Bool) (xs : List A) → All P xs → All P (select p xs)
All-select P p [] h = tt
All-select P p (x ∷ xs) h = go (p x) (All-select P p xs h.1)
  where
    go : (b : Bool) → All P (select p xs) → All P (if b then x ∷ select p xs else select p xs)
    go true rest = (h.0, rest)
    go false rest = rest
