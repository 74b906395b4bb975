-- ===== src/Base/Sort.antt =====
-- slices.SortFunc: the result is ascending in the comparison and holds the same elements. The order
-- of elements that compare equal is Go's to choose; here they keep theirs, and no theorem uses it.
use gopoke.Base.Tests.{if◌then◌else◌, Bool-cases}
use gopoke.Base.Lists.{any, length, count, take, All, All-take}
use Prim.Native.Nat.{ℕ, zero, suc}
use mathlib.Core.Path.{◌≡◌, refl, ap, ◌∙◌}
use mathlib.Core.Logic.{inl, inr}
use mathlib.Core.Bool.{Bool, true, false, ◌||◌}
use mathlib.Core.List.{List, [], ◌∷◌}
use native.Mathlib.Omega.{arith}

module _ {ℓ} {A : Type ℓ} where
  count-true : (xs : List A) → count (λ _. true) xs ≡ length xs
  count-true [] = refl
  count-true (x ∷ xs) = omega (arith, count-true xs)

module _ {ℓ} {A : Type ℓ} (before : A → A → Bool) where
  -- Go's comparison is negative: `before a b`.
  unfoldable pub insert : A → List A → List A
  insert x [] = x ∷ []
  insert x (y ∷ ys) = let rest = insert x ys in if before y x then y ∷ rest else x ∷ y ∷ ys

  unfoldable pub sort : List A → List A
  unfolding insert
  sort [] = []
  sort (x ∷ xs) = insert x (sort xs)

  -- No later element comes before an earlier one.
  abbrev pub IsSorted : List A → Type ℓ
  IsSorted [] = Unit
  IsSorted (x ∷ xs) = All (λ y. before y x ≡ false) xs × IsSorted xs

  pub count-insert : (p : A → Bool) (x : A) (xs : List A) → count p (insert x xs) ≡ count p (x ∷ xs)
  unfolding insert
  count-insert p x [] = refl
  count-insert p x (y ∷ ys) = elim (Bool-cases (before y x)) [
    | inl e ↦ rw e (omega (arith, count-insert p x ys))
    | inr e ↦ rw e
  ]

  -- Sorting keeps every element as often as it was.
  pub count-sort : (p : A → Bool) (xs : List A) → count p (sort xs) ≡ count p xs
  unfolding sort
  count-sort p [] = refl
  count-sort p (x ∷ xs) = omega (arith, count-insert p x (sort xs), count-sort p xs)

  any-insert : (p : A → Bool) (x : A) (xs : List A) → any p (insert x xs) ≡ (p x || any p xs)
  unfolding insert
  any-insert p x [] = refl
  any-insert p x (y ∷ ys) = elim (Bool-cases (before y x)) [
    | inl e ↦ rw e (ground (arith, any-insert p x ys))
    | inr e ↦ rw e
  ]

  pub any-sort : (p : A → Bool) (xs : List A) → any p (sort xs) ≡ any p xs
  unfolding sort
  any-sort p [] = refl
  any-sort p (x ∷ xs) = any-insert p x (sort xs) ∙ ap (λ b. p x || b) (any-sort p xs)

  pub length-sort : (xs : List A) → length (sort xs) ≡ length xs
  length-sort xs = omega (arith, count-sort (λ _. true) xs, count-true (sort xs), count-true xs)

  pub All-insert {κ} : (P : A → Type κ) (x : A) (xs : List A) → P x → All P xs → All P (insert x xs)
  unfolding insert
  All-insert P x [] h a = (h, a)
  All-insert P x (y ∷ ys) h a = elim (Bool-cases (before y x)) [
    | inl e ↦ rw e (a.0, All-insert P x ys h a.1)
    | inr e ↦ rw e (h, a)
  ]

  pub All-sort {κ} : (P : A → Type κ) (xs : List A) → All P xs → All P (sort xs)
  unfolding sort
  All-sort P [] a = tt
  All-sort P (x ∷ xs) a = All-insert P x (sort xs) a.0 (All-sort P xs a.1)

  -- `before` is a strict weak order, as slices.SortFunc asks of its comparison.
  pub record IsOrder : Type ℓ where
    pub asym : (x y : A) → before x y ≡ true → before y x ≡ false
    pub weak : (x y z : A) → before y x ≡ false → before z y ≡ false → before z x ≡ false

  weaken :
      IsOrder
      → (x y : A) (ys : List A) → before y x ≡ false
      → All (λ z. before z y ≡ false) ys
      → All (λ z. before z x ≡ false) ys
  weaken o x y [] e a = tt
  weaken o x y (z ∷ zs) e a = (o.weak x y z e a.0, weaken o x y zs e a.1)

  insert-IsSorted : IsOrder → (x : A) (xs : List A) → IsSorted xs → IsSorted (insert x xs)
  unfolding insert
  insert-IsSorted o x [] s = (tt, tt)
  insert-IsSorted o x (y ∷ ys) s = elim (Bool-cases (before y x)) [
    | inl e ↦
        rw e
          (All-insert (λ z. before z y ≡ false) x ys (o.asym y x e) s.0, insert-IsSorted o x ys s.1)
    | inr e ↦ rw e ((e, weaken o x y ys e s.0), s)
  ]

  pub sort-IsSorted : IsOrder → (xs : List A) → IsSorted (sort xs)
  unfolding sort
  sort-IsSorted o [] = tt
  sort-IsSorted o (x ∷ xs) = insert-IsSorted o x (sort xs) (sort-IsSorted o xs)

  pub IsSorted-take : (n : ℕ) (xs : List A) → IsSorted xs → IsSorted (take n xs)
  IsSorted-take zero xs s = tt
  IsSorted-take (suc n) [] s = tt
  IsSorted-take (suc n) (x ∷ xs) s =
      (All-take (λ y. before y x ≡ false) n xs s.0, IsSorted-take n xs s.1)
