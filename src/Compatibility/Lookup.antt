-- ===== src/Compatibility/Lookup.antt =====
-- Searches of a list in any order, for the maps of src/steam_agent/compatibility.py.
use mathlib.Core.List.{Permᴰ}
use mathlib.Core.List.Permᴰ
use mathlib.Core.Path.{subst}
use steam_cli.Prelude.{
  ◌≤◌, Bool, true, false, ◌&&◌, if◌then◌else◌, some, List, [], ◌∷◌, any, select, first, count_where,
  ◌≡◌, refl, ap, ◌∙◌, arith, Bool-cases, inl, inr,
}
use steam_cli.Ranking.Reorder.{any-Permᴰ}
use steam_cli.Compatibility.Texts.{unique_by}

module _ {ℓ} {A : Type ℓ} (p : A → Bool) where
  pub count_where-Permᴰ : {xs ys : List A} → Permᴰ xs ys → count_where p xs ≡ count_where p ys
  count_where-Permᴰ Permᴰ.nil = refl
  count_where-Permᴰ (Permᴰ.cons e d) = ground (arith, count_where-Permᴰ d, ap p e)
  count_where-Permᴰ (Permᴰ.swap e d) = ground (arith, ap p e, ap p d)
  count_where-Permᴰ (Permᴰ.trans d e) = count_where-Permᴰ d ∙ count_where-Permᴰ e

  -- An item that is the only one of its kind is found in any order.
  pub first-Permᴰ : {xs ys : List A} → Permᴰ xs ys → count_where p xs ≤ 1 → first p xs ≡ first p ys
  first-Permᴰ Permᴰ.nil h = refl
  first-Permᴰ (Permᴰ.cons {a} {b} {l₁ = xs} {l₂ = ys} e d) h =
      at_head (p a) (p b) (ap p e) refl (first-Permᴰ d)
    where
      at_head :
          (s t : Bool)
          → s ≡ t
          → p a ≡ s
          → (count_where p xs ≤ 1 → first p xs ≡ first p ys)
          → (if s then some a else first p xs) ≡ (if t then some b else first p ys)
      at_head true true k l rest = ap some e
      at_head true false k l rest = cc
      at_head false true k l rest = cc
      at_head false false k l rest = rest (ground arith)
  first-Permᴰ (Permᴰ.swap {a} {b} {a'} {b'} {l} e d) h = ground (arith, ap p e, ap p d, e, d)
  first-Permᴰ (Permᴰ.trans {l₁ = xs} {l₂ = ys} d e) h =
      first-Permᴰ d h ∙ first-Permᴰ e (subst (λ n. n ≤ 1) (count_where-Permᴰ d) h)

  pub select-Permᴰ : {xs ys : List A} → Permᴰ xs ys → Permᴰ (select p xs) (select p ys)
  select-Permᴰ Permᴰ.nil = Permᴰ.nil
  select-Permᴰ (Permᴰ.cons {a} {b} {l₁ = xs} {l₂ = ys} e d) =
      go (p a) (p b) (ap p e) (select-Permᴰ d)
    where
      go :
          (s t : Bool)
          → s ≡ t
          → Permᴰ (select p xs) (select p ys)
          → Permᴰ
              (if s then a ∷ select p xs else select p xs)
              (if t then b ∷ select p ys else select p ys)
      go true true k rest = Permᴰ.cons e rest
      go true false k rest = cc
      go false true k rest = cc
      go false false k rest = rest
  select-Permᴰ (Permᴰ.swap {a} {b} {a'} {b'} {l} e d) =
      subst (λ x. Permᴰ (select p (a ∷ b ∷ l)) (select p (x ∷ b' ∷ l))) d
        (subst (λ x. Permᴰ (select p (a ∷ b ∷ l)) (select p (b ∷ x ∷ l))) e (go (p a) (p b)))
    where
      rest : List A
      rest = select p l

      go :
          (s t : Bool)
          → Permᴰ
              (if s then a ∷ (if t then b ∷ rest else rest) else (if t then b ∷ rest else rest))
              (if t then b ∷ (if s then a ∷ rest else rest) else (if s then a ∷ rest else rest))
      go true true = Permᴰ.swap refl refl
      go true false = Permᴰ.refl (a ∷ rest)
      go false true = Permᴰ.refl (b ∷ rest)
      go false false = Permᴰ.refl rest
  select-Permᴰ (Permᴰ.trans d e) = Permᴰ.trans (select-Permᴰ d) (select-Permᴰ e)

  -- Items that are the same where they pass, in a list without repetition, are one at most.
  pub unique_by-count :
      (same : A → A → Bool)
      → ((x y : A) → p x ≡ true → p y ≡ true → same x y ≡ true)
      → (xs : List A) → unique_by same xs ≡ true
      → count_where p xs ≤ 1
  unfolding unique_by
  unique_by-count same alike [] h = omega arith
  unique_by-count same alike (x ∷ xs) h = elim (Bool-cases (p x)) [
    | inl here ↦ ground (arith, none_left here xs)
    | inr other ↦ ground (arith, unique_by-count same alike xs)
  ]
    where
      none_left : p x ≡ true → (ys : List A) → any (same x) ys ≡ false → count_where p ys ≡ 0
      none_left here [] k = refl
      none_left here (y ∷ ys) k = ground (arith, none_left here ys, alike x y)

pub any-cong {ℓ} :
    {A : Type ℓ} (p q : A → Bool) (xs : List A) → ((x : A) → p x ≡ q x) → any p xs ≡ any q xs
any-cong p q [] h = refl
any-cong p q (x ∷ xs) h = ground (arith, h x, any-cong p q xs h)

pub count_where-select {ℓ} :
    {A : Type ℓ} (p q : A → Bool) (xs : List A)
    → count_where p (select q xs) ≡ count_where (λ x. q x && p x) xs
count_where-select p q [] = refl
count_where-select p q (x ∷ xs) = ground (arith, count_where-select p q xs)

-- A repetition in one order is one in any order.
module _ {ℓ} {A : Type ℓ} (same : A → A → Bool) (symmetric : (x y : A) → same x y ≡ same y x) where
  pub unique_by-Permᴰ : {xs ys : List A} → Permᴰ xs ys → unique_by same xs ≡ unique_by same ys
  unfolding unique_by
  unique_by-Permᴰ Permᴰ.nil = refl
  unique_by-Permᴰ (Permᴰ.cons {a} {b} {l₁ = xs} {l₂ = ys} e d) =
      ground (arith, any-Permᴰ (same a) d, unique_by-Permᴰ d, ap (λ c. any (same c) ys) e)
  unique_by-Permᴰ (Permᴰ.swap {a} {b} {a'} {b'} {l} e d) = ground (arith, symmetric a b, e, d)
  unique_by-Permᴰ (Permᴰ.trans d e) = unique_by-Permᴰ d ∙ unique_by-Permᴰ e
