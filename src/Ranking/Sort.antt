-- ===== src/Ranking/Sort.antt =====
-- `sorted(items, key=…)` and `min(items, key=…)`.
use mathlib.Core.List.{Permᴰ}
use mathlib.Core.List.Permᴰ
use mathlib.Core.Path.{subst}
use mathlib.Core.Option.{some-injective}
use steam_cli.Prelude.{
  Bool, true, false, if◌then◌else◌, Option, none, some, List, [], ◌∷◌, ◌≡◌, refl, sym, ap, ◌∙◌,
  arith, All, All-map, Bool-cases, inl, inr,
}
use steam_cli.Ranking.Order.{Key, key_le, key_le-IsOrder}

module _ {ℓ} {A : Type ℓ} (key : A → Key) where
  -- Before the first item whose key is not smaller: equal keys keep their order.
  unfoldable pub insert_by : A → List A → List A
  unfolding key_le
  insert_by x [] = x ∷ []
  insert_by x (y ∷ ys) =
      let rest = insert_by x ys in if key_le (key x) (key y) then x ∷ y ∷ ys else y ∷ rest

  unfoldable pub sort_by : List A → List A
  unfolding insert_by
  sort_by [] = []
  sort_by (x ∷ xs) = insert_by x (sort_by xs)

  -- The first item whose key is least; `none` is the default.
  unfoldable pub min_by : List A → Option A
  unfolding key_le
  min_by [] = none
  min_by (x ∷ xs) = elim (min_by xs) [
    | none ↦ some x
    | some y ↦ if key_le (key x) (key y) then some x else some y
  ]

  -- Every later key is at least as large.
  abbrev pub IsLeast : A → List A → Type 0
  IsLeast x ys = All (λ y. key_le (key x) (key y) ≡ true) ys

  abbrev pub IsSortedBy : List A → Type 0
  IsSortedBy [] = Unit
  IsSortedBy (x ∷ xs) = IsLeast x xs × IsSortedBy xs

  insert_by-IsLeast :
      (x y : A) (ys : List A)
      → key_le (key y) (key x) ≡ true
      → IsLeast y ys
      → IsLeast y (insert_by x ys)
  unfolding insert_by
  insert_by-IsLeast x y [] h l = (h, tt)
  insert_by-IsLeast x y (z ∷ zs) h l =
      go (key_le (key x) (key z)) refl (insert_by-IsLeast x y zs h l.1)
    where
      go :
          (b : Bool)
          → key_le (key x) (key z) ≡ b
          → IsLeast y (insert_by x zs)
          → IsLeast y (if b then x ∷ z ∷ zs else z ∷ insert_by x zs)
      go true e rest = (h, l)
      go false e rest = (l.0, rest)

  insert_by-IsSortedBy : (x : A) (ys : List A) → IsSortedBy ys → IsSortedBy (insert_by x ys)
  unfolding insert_by
  insert_by-IsSortedBy x [] s = (tt, tt)
  insert_by-IsSortedBy x (y ∷ ys) s =
      go (key_le (key x) (key y)) refl (insert_by-IsSortedBy x ys s.1)
    where
      go :
          (b : Bool)
          → key_le (key x) (key y) ≡ b
          → IsSortedBy (insert_by x ys)
          → IsSortedBy (if b then x ∷ y ∷ ys else y ∷ insert_by x ys)
      go true e rest =
          ((e, All-map _ _ (λ z h. key_le-IsOrder.trans (key x) (key y) (key z) e h) ys s.0), s)
      go false e rest =
          (insert_by-IsLeast x y ys (key_le-IsOrder.total (key x) (key y) e) s.0, rest)

  pub sort_by-IsSortedBy : (xs : List A) → IsSortedBy (sort_by xs)
  unfolding sort_by
  sort_by-IsSortedBy [] = tt
  sort_by-IsSortedBy (x ∷ xs) = insert_by-IsSortedBy x (sort_by xs) (sort_by-IsSortedBy xs)

  insert_by-perm : (x : A) (ys : List A) → Permᴰ (insert_by x ys) (x ∷ ys)
  unfolding insert_by
  insert_by-perm x [] = Permᴰ.refl (x ∷ [])
  insert_by-perm x (y ∷ ys) = go (key_le (key x) (key y)) (insert_by-perm x ys)
    where
      go :
          (b : Bool)
          → Permᴰ (insert_by x ys) (x ∷ ys)
          → Permᴰ (if b then x ∷ y ∷ ys else y ∷ insert_by x ys) (x ∷ y ∷ ys)
      go true rest = Permᴰ.refl _
      go false rest = Permᴰ.trans (Permᴰ.cons refl rest) (Permᴰ.swap refl refl)

  pub sort_by-perm : (xs : List A) → Permᴰ (sort_by xs) xs
  unfolding sort_by
  sort_by-perm [] = Permᴰ.nil
  sort_by-perm (x ∷ xs) =
      Permᴰ.trans (insert_by-perm x (sort_by xs)) (Permᴰ.cons refl (sort_by-perm xs))

  key_le_self : (x : A) → key_le (key x) (key x) ≡ true
  key_le_self x = ground (arith, key_le-IsOrder.total (key x) (key x))

  -- The least of a first item and of the least of the others.
  abbrev lesser : A → Option A → Option A
  lesser x none = some x
  lesser x (some y) = if key_le (key x) (key y) then some x else some y

  pub min_by-none : (xs : List A) → min_by xs ≡ none → xs ≡ []
  unfolding min_by
  min_by-none [] h = refl
  min_by-none (x ∷ xs) h = ground arith

  IsLeast-trans :
      (x y : A) (zs : List A) → key_le (key x) (key y) ≡ true → IsLeast y zs → IsLeast x zs
  IsLeast-trans x y zs h l =
      All-map _ _ (λ z k. key_le-IsOrder.trans (key x) (key y) (key z) h k) zs l

  -- The minimum is one of the items, and no later than any of them.
  pub min_by-IsLeast : (xs : List A) (m : A) → min_by xs ≡ some m → IsLeast m xs
  unfolding min_by
  min_by-IsLeast [] m h = tt
  min_by-IsLeast (x ∷ xs) m h = go (min_by-IsLeast xs) (min_by xs) refl h
    where
      go :
          ((y : A) → min_by xs ≡ some y → IsLeast y xs)
          → (o : Option A) → min_by xs ≡ o
          → lesser x o ≡ some m
          → IsLeast m (x ∷ xs)
      go later none e k =
          subst (λ z. IsLeast z (x ∷ xs)) (some-injective _ _ k)
            (key_le_self x, subst (IsLeast x) (sym (min_by-none xs e)) tt)
      go later (some y) e k = elim (Bool-cases (key_le (key x) (key y))) [
        | inl le ↦
            subst (λ z. IsLeast z (x ∷ xs)) (some-injective _ _ (ground arith))
              (key_le_self x, IsLeast-trans x y xs le (later y e))
        | inr gt ↦
            subst (λ z. IsLeast z (x ∷ xs)) (some-injective _ _ (ground arith))
              (key_le-IsOrder.total (key x) (key y) gt, later y e)
      ]

  pub All-min_by {κ} : (P : A → Type κ) (xs : List A) (m : A) → All P xs → min_by xs ≡ some m → P m
  unfolding min_by
  All-min_by P [] m a h = cc
  All-min_by P (x ∷ xs) m a h = go (λ y. All-min_by P xs y a.1) (min_by xs) refl h
    where
      go :
          ((y : A) → min_by xs ≡ some y → P y)
          → (o : Option A) → min_by xs ≡ o
          → lesser x o ≡ some m
          → P m
      go later none e k = subst P (some-injective _ _ k) a.0
      go later (some y) e k = elim (Bool-cases (key_le (key x) (key y))) [
        | inl le ↦ subst P (some-injective _ _ (ground arith)) a.0
        | inr gt ↦ later m (e ∙ ap some (some-injective _ _ (ground arith)))
      ]
