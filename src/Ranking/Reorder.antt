-- ===== src/Ranking/Reorder.antt =====
-- A sort by a key without ties gives the same list for every order of its input.
use mathlib.Core.List.{Permᴰ}
use steam_cli.Prelude.{
  ℕ, suc, length, Bool, true, not, ◌&&◌, List, [], ◌∷◌, map, ◌≡◌, ◌≢◌, refl, ap, sym, ◌∙◌, arith,
  any, ◌==◌, ◌≤◌, count_where, false, Bool-cases, inl, inr,
}
use steam_cli.Ranking.Order.{Key, key_le-IsOrder}
use steam_cli.Ranking.Sort.{insert_by, sort_by}

-- `len(ids) == len(set(ids))`
unfoldable pub is_unique : List ℕ → Bool
is_unique [] = true
is_unique (n ∷ ns) = not (any (λ m. m == n) ns) && is_unique ns

pub map-Permᴰ {ℓ κ} :
    {A : Type ℓ} {B : Type κ} (f : A → B) {xs ys : List A}
    → Permᴰ xs ys
    → Permᴰ (map f xs) (map f ys)
map-Permᴰ f Permᴰ.nil = Permᴰ.nil
map-Permᴰ f (Permᴰ.cons e d) = Permᴰ.cons (ap f e) (map-Permᴰ f d)
map-Permᴰ f (Permᴰ.swap e d) = Permᴰ.swap (ap f e) (ap f d)
map-Permᴰ f (Permᴰ.trans d e) = Permᴰ.trans (map-Permᴰ f d) (map-Permᴰ f e)

pub length-Permᴰ {ℓ} : {A : Type ℓ} {xs ys : List A} → Permᴰ xs ys → length xs ≡ length ys
length-Permᴰ Permᴰ.nil = refl
length-Permᴰ (Permᴰ.cons e d) = ap suc (length-Permᴰ d)
length-Permᴰ (Permᴰ.swap e d) = refl
length-Permᴰ (Permᴰ.trans d e) = length-Permᴰ d ∙ length-Permᴰ e

pub any-Permᴰ {ℓ} : {A : Type ℓ} (p : A → Bool) {xs ys : List A} → Permᴰ xs ys → any p xs ≡ any p ys
any-Permᴰ p Permᴰ.nil = refl
any-Permᴰ p (Permᴰ.cons {a} {b} e d) = ground (arith, any-Permᴰ p d, ap p e)
any-Permᴰ p (Permᴰ.swap e d) = ground (arith, ap p e, ap p d)
any-Permᴰ p (Permᴰ.trans d e) = any-Permᴰ p d ∙ any-Permᴰ p e

pub is_unique-Permᴰ : {xs ys : List ℕ} → Permᴰ xs ys → is_unique xs ≡ is_unique ys
unfolding is_unique
is_unique-Permᴰ Permᴰ.nil = refl
is_unique-Permᴰ (Permᴰ.cons {a} {b} {l₁ = xs} {l₂ = ys} e d) =
    ground (arith, any-Permᴰ (λ m. m == b) d, is_unique-Permᴰ d, ap (λ n. any (λ m. m == n) xs) e)
is_unique-Permᴰ (Permᴰ.swap {a} {b} {a'} {b'} {l} e d) = ground (arith, e, d)
is_unique-Permᴰ (Permᴰ.trans d e) = is_unique-Permᴰ d ∙ is_unique-Permᴰ e

-- An AppID of a list without repetition is that of one item at most.
pub is_unique-count {ℓ} :
    {A : Type ℓ} (ident : A → ℕ) (n : ℕ) (xs : List A)
    → is_unique (map ident xs) ≡ true
    → count_where (λ x. ident x == n) xs ≤ 1
unfolding is_unique
is_unique-count ident n [] h = omega arith
is_unique-count {A} ident n (x ∷ xs) h = elim (Bool-cases (ident x == n)) [
  | inl here ↦ ground (arith, none_left (ground arith) xs)
  | inr other ↦ ground (arith, is_unique-count ident n xs)
]
  where
    none_left :
        ident x ≡ n
        → (ys : List A) → any (λ m. m == ident x) (map ident ys) ≡ false
        → count_where (λ y. ident y == n) ys ≡ 0
    none_left here [] k = refl
    none_left here (y ∷ ys) k = ground (arith, none_left here ys)

module _ {ℓ} {A : Type ℓ} (key : A → Key) where
  insert_by_comm :
      (a b : A) (xs : List A)
      → key a ≢ key b
      → insert_by key a (insert_by key b xs) ≡ insert_by key b (insert_by key a xs)
  unfolding insert_by
  insert_by_comm a b [] h =
      ground (arith, key_le-IsOrder.antisymm (key a) (key b), key_le-IsOrder.total (key a) (key b))
  insert_by_comm a b (x ∷ xs) h = ground (
    arith,
    insert_by_comm a b xs h,
    key_le-IsOrder.antisymm (key a) (key b),
    key_le-IsOrder.total (key a) (key b),
    key_le-IsOrder.trans (key a) (key b) (key x),
    key_le-IsOrder.trans (key b) (key a) (key x),
    key_le-IsOrder.total (key a) (key x),
    key_le-IsOrder.total (key b) (key x),
    key_le-IsOrder.trans (key a) (key x) (key b),
    key_le-IsOrder.trans (key b) (key x) (key a),
  )

module _ {ℓ} {A : Type ℓ} (key : A → Key) (ident : A → ℕ)
    (no_ties : (a b : A) → key a ≡ key b → ident a ≡ ident b) where
  pub sort_by-Permᴰ :
      {xs ys : List A}
      → Permᴰ xs ys
      → is_unique (map ident xs) ≡ true
      → sort_by key xs ≡ sort_by key ys
  unfolding sort_by is_unique
  sort_by-Permᴰ Permᴰ.nil h = refl
  sort_by-Permᴰ (Permᴰ.cons {a} {b} {l₁ = l} e d) h =
      ap (λ c. insert_by key c (sort_by key l)) e
      ∙ ap (insert_by key b) (sort_by-Permᴰ d (ground arith))
  sort_by-Permᴰ (Permᴰ.swap {a} {b} {a'} {b'} {l} e d) h =
      insert_by_comm key a b (sort_by key l) (λ same. apart (no_ties a b same))
      ∙ ap (λ c. insert_by key c (insert_by key a (sort_by key l))) d
      ∙ ap (λ c. insert_by key a' (insert_by key c (sort_by key l))) e
    where
      apart : ident a ≢ ident b
      apart same = ground arith
  sort_by-Permᴰ (Permᴰ.trans d e) h =
      sort_by-Permᴰ d h ∙ sort_by-Permᴰ e (sym (is_unique-Permᴰ (map-Permᴰ ident d)) ∙ h)

  -- The same for items that a function makes, whose identity it keeps.
  pub sort_by-map-Permᴰ {κ} :
      {B : Type κ} (make : B → A) (of : B → ℕ) {xs ys : List B}
      → ((b : B) → ident (make b) ≡ of b)
      → Permᴰ xs ys
      → is_unique (map of xs) ≡ true
      → sort_by key (map make xs) ≡ sort_by key (map make ys)
  sort_by-map-Permᴰ {B} make of {xs} same d h =
      sort_by-Permᴰ (map-Permᴰ make d) (ap is_unique (idents xs) ∙ h)
    where
      idents : (bs : List B) → map ident (map make bs) ≡ map of bs
      idents [] = refl
      idents (b ∷ bs) =
          ap (λ n. n ∷ map ident (map make bs)) (same b) ∙ ap (λ ns. of b ∷ ns) (idents bs)
