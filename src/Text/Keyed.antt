-- ===== src/Text/Keyed.antt =====
-- Lists of records under a text that names them: what `find` sees after an update or an append.
use gopoke.Base.{
  ◌≡◌, refl, ap, ◌∙◌, Bool, true, false, none, some, List, [], ◌∷◌, ◌++◌, not, filter, arith,
  Bool-cases, inl, inr, if◌then◌else◌,
}
use gopoke.Base.Update.{find, update_first}
use gopoke.Base.Distinct.{
  find-matches, find-update_first, find-update_first_other, find-append, find-append_other,
  find-of_any, any-filter-not,
}
use gopoke.Text.Defs.{Text, text_eq}
use gopoke.Text.Laws.{eq_of_text_eq, text_eq_refl}

module _ {A : Type 0} (key : A → Text) where
  abbrev pub at : Text → A → Bool
  at k x = text_eq (key x) k

  -- A record named otherwise than `k` is not the one named `q`, if `k` is.
  at-of_eq : (k q : Text) (x : A) → at k x ≡ true → at q x ≡ text_eq k q
  at-of_eq k q x h = ap (λ t. text_eq t q) (eq_of_text_eq (key x) k h)

  pub find-update :
      (k q : Text) (f : A → A) (xs : List A) {a : A}
      → ((x : A) → key (f x) ≡ key x)
      → find (at k) xs ≡ some a
      → find (at q) (update_first (at k) f xs)
        ≡ (if text_eq k q then some (f a) else find (at q) xs)
  find-update k q f xs {a} keeps e = elim (Bool-cases (text_eq k q)) [
    | inl h ↦ rw h (
        rw (← eq_of_text_eq k q h)
          (find-update_first (at k) f xs e (rw (keeps a) (find-matches (at k) xs e))))
    | inr h ↦ rw h (
        find-update_first_other (at k) (at q) f xs (λ x m. at-of_eq k q x m ∙ h)
          (λ x m. rw (keeps x) (at-of_eq k q x m ∙ h)))
  ]

  pub find-add :
      (k q : Text) (xs : List A) (a : A)
      → key a ≡ k
      → find (at k) xs ≡ none
      → find (at q) (xs ++ a ∷ []) ≡ (if text_eq k q then some a else find (at q) xs)
  find-add k q xs a named e = elim (Bool-cases (text_eq k q)) [
    | inl h ↦
        rw h (rw (← eq_of_text_eq k q h) (find-append (at k) xs a e ∙ rw (named, text_eq_refl k)))
    | inr h ↦ rw h (find-append_other (at q) xs a (rw named h))
  ]

  find-remove_ne :
      (k q : Text)
      → text_eq k q ≡ false
      → (xs : List A) → find (at q) (filter (λ x. not (at k x)) xs) ≡ find (at q) xs
  unfolding find
  find-remove_ne k q h [] = refl
  find-remove_ne k q h (x ∷ xs) = ground (arith, at-of_eq k q x, find-remove_ne k q h xs)

  pub find-remove :
      (k q : Text) (xs : List A)
      → find (at q) (filter (λ x. not (at k x)) xs) ≡ (if text_eq k q then none else find (at q) xs)
  find-remove k q xs = elim (Bool-cases (text_eq k q)) [
    | inl h ↦ rw h (rw (← eq_of_text_eq k q h) (find-of_any (at k) _ (any-filter-not (at k) xs)))
    | inr h ↦ rw h (find-remove_ne k q h xs)
  ]
