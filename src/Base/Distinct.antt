-- ===== src/Base/Distinct.antt =====
-- Lists in which no two elements are the same under a test, and the loops that keep them so.
use gopoke.Base.Tests.{if◌then◌else◌, Bool-cases}
use gopoke.Base.Lists.{filter, any}
use gopoke.Base.Update.{find, update_first}
use mathlib.Core.Path.{◌≡◌, refl, fun_ext}
use mathlib.Core.Logic.{inl, inr}
use mathlib.Core.Bool.{Bool, true, false, not, ◌&&◌, ◌||◌}
use mathlib.Core.List.{List, [], ◌∷◌, ◌++◌}
use mathlib.Core.Option.{none, some}
use native.Mathlib.Omega.{arith}

module _ {ℓ} {A : Type ℓ} where
  pub any-append : (p : A → Bool) (xs ys : List A) → any p (xs ++ ys) ≡ (any p xs || any p ys)
  any-append p [] ys = refl
  any-append p (x ∷ xs) ys = ground (arith, any-append p xs ys)

  pub any-filter : (p q : A → Bool) (xs : List A) → any p xs ≡ false → any p (filter q xs) ≡ false
  any-filter p q [] h = refl
  any-filter p q (x ∷ xs) h = ground (arith, any-filter p q xs)

  -- No element that fails a test is found by it.
  pub any-filter-not : (p : A → Bool) (xs : List A) → any p (filter (λ x. not (p x)) xs) ≡ false
  any-filter-not p [] = refl
  any-filter-not p (x ∷ xs) = ground (arith, any-filter-not p xs)

  pub filter-eq_of_any :
      (p : A → Bool) (xs : List A) → any p xs ≡ false → filter (λ x. not (p x)) xs ≡ xs
  filter-eq_of_any p [] h = refl
  filter-eq_of_any p (x ∷ xs) h = ground (arith, filter-eq_of_any p xs)

  pub any-of_find : (p : A → Bool) (xs : List A) → find p xs ≡ none → any p xs ≡ false
  unfolding find
  any-of_find p [] h = refl
  any-of_find p (x ∷ xs) h = ground (arith, any-of_find p xs)

  pub find-of_any : (p : A → Bool) (xs : List A) → any p xs ≡ false → find p xs ≡ none
  unfolding find
  find-of_any p [] h = refl
  find-of_any p (x ∷ xs) h = ground (arith, find-of_any p xs)

  -- What is found passes the test.
  pub find-matches : (p : A → Bool) (xs : List A) {a : A} → find p xs ≡ some a → p a ≡ true
  unfolding find
  find-matches p [] h = cc
  find-matches p (x ∷ xs) {a} h = ground (arith, find-matches p xs {a = a})

  pub find-update_first :
      (p : A → Bool) (f : A → A) (xs : List A) {a : A}
      → find p xs ≡ some a
      → p (f a) ≡ true
      → find p (update_first p f xs) ≡ some (f a)
  unfolding find update_first
  find-update_first p f [] h k = cc
  find-update_first p f (x ∷ xs) {a} h k = ground (arith, find-update_first p f xs {a = a})

  -- An update of what one test finds is not seen by a test that the update leaves alone.
  pub find-update_first_other :
      (p q : A → Bool) (f : A → A) (xs : List A)
      → ((x : A) → p x ≡ true → q x ≡ false)
      → ((x : A) → p x ≡ true → q (f x) ≡ false)
      → find q (update_first p f xs) ≡ find q xs
  unfolding find update_first
  find-update_first_other p q f [] h k = refl
  find-update_first_other p q f (x ∷ xs) h k =
      ground (arith, h x, k x, find-update_first_other p q f xs h k)

  pub find-append :
      (p : A → Bool) (xs : List A) (x : A)
      → find p xs ≡ none
      → find p (xs ++ x ∷ []) ≡ (if p x then some x else none)
  unfolding find
  find-append p [] x h = refl
  find-append p (y ∷ ys) x h = ground (arith, find-append p ys x)

  pub find-append_other :
      (p : A → Bool) (xs : List A) (x : A) → p x ≡ false → find p (xs ++ x ∷ []) ≡ find p xs
  unfolding find
  find-append_other p [] x h = ground arith
  find-append_other p (y ∷ ys) x h = ground (arith, find-append_other p ys x)

  pub any-update_first :
      (g p : A → Bool) (f : A → A)
      → ((x : A) → g (f x) ≡ g x)
      → (xs : List A) → any g (update_first p f xs) ≡ any g xs
  unfolding update_first
  any-update_first g p f e [] = refl
  any-update_first g p f e (x ∷ xs) = ground (arith, e x, any-update_first g p f e xs)

  pub any_mono :
      (g h : A → Bool)
      → ((x : A) → h x ≡ false → g x ≡ false)
      → (xs : List A) → any h xs ≡ false
      → any g xs ≡ false
  any_mono g h m [] e = refl
  any_mono g h m (x ∷ xs) e = ground (arith, m x, any_mono g h m xs)

  any-update_first-some :
      (g p : A → Bool) (f : A → A) (xs : List A) {a : A}
      → find p xs ≡ some a
      → g (f a) ≡ false
      → any g xs ≡ false
      → any g (update_first p f xs) ≡ false
  unfolding find update_first
  any-update_first-some g p f [] e h k = refl
  any-update_first-some g p f (x ∷ xs) {a} e h k =
      ground (arith, any-update_first-some g p f xs {a = a})

  -- At most one element passes the test.
  abbrev pub AtMostOne : (A → Bool) → List A → Type 0
  AtMostOne p [] = Unit
  AtMostOne p (x ∷ xs) = (p x ≡ true → any p xs ≡ false) × AtMostOne p xs

  any-outside :
      (p q : A → Bool) (xs : List A)
      → any p xs ≡ false
      → any (λ y. not (p y) && q y) xs ≡ false
      → any q xs ≡ false
  any-outside p q [] h k = refl
  any-outside p q (x ∷ xs) h k = ground (arith, any-outside p q xs)

module _ {ℓ} {A : Type ℓ} (same : A → A → Bool) where
  abbrev pub IsDistinct : List A → Type 0
  IsDistinct [] = Unit
  IsDistinct (x ∷ xs) = (any (same x) xs ≡ false) × IsDistinct xs

  pub IsDistinct-append :
      (xs : List A) (x : A)
      → IsDistinct xs
      → any (λ y. same y x) xs ≡ false
      → IsDistinct (xs ++ x ∷ [])
  IsDistinct-append [] x d h = (refl, tt)
  IsDistinct-append (y ∷ ys) x d h =
      ground (arith, any-append (same y) ys (x ∷ []), IsDistinct-append ys x)

  pub IsDistinct-filter : (p : A → Bool) (xs : List A) → IsDistinct xs → IsDistinct (filter p xs)
  IsDistinct-filter p [] d = tt
  IsDistinct-filter p (x ∷ xs) d = ground (arith, any-filter (same x) p xs, IsDistinct-filter p xs)

  -- An update that keeps what `same` compares.
  pub IsDistinct-update_first :
      (p : A → Bool) (f : A → A)
      → ((x y : A) → same (f x) y ≡ same x y)
      → ((x y : A) → same y (f x) ≡ same y x)
      → (xs : List A) → IsDistinct xs
      → IsDistinct (update_first p f xs)
  unfolding update_first
  IsDistinct-update_first p f l r [] d = tt
  IsDistinct-update_first p f l r (x ∷ xs) d = elim (Bool-cases (p x)) [
    | inl e ↦ rw e (rw (fun_ext (l x)) d.0, d.1)
    | inr e ↦ rw e (
      rw (any-update_first (same x) p f (λ y. r y x) xs) d.0,
      IsDistinct-update_first p f l r xs d.1,
    )
  ]

  -- An update to an element that clashes with none but the one it replaces.
  pub IsDistinct-rewrite :
      (p : A → Bool) (f : A → A) (xs : List A) {a : A}
      → find p xs ≡ some a
      → AtMostOne p xs
      → any (λ y. not (p y) && same y (f a)) xs ≡ false
      → any (λ y. not (p y) && same (f a) y) xs ≡ false
      → IsDistinct xs
      → IsDistinct (update_first p f xs)
  unfolding find update_first
  IsDistinct-rewrite p f [] e o l r d = tt
  IsDistinct-rewrite p f (x ∷ xs) {a} e o l r d = ground (
    arith,
    o.0,
    any-outside p (same (f a)) xs,
    any-update_first-some (same x) p f xs {a = a},
    IsDistinct-rewrite p f xs {a = a},
  )
