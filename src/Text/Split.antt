-- ===== src/Text/Split.antt =====
-- Parts of a text between separators: strings.Split and strings.Join at one character.
use gopoke.Base.{
  ℕ, ◌≡◌, ◌≢◌, refl, ap, ◌∙◌, Bool, true, false, List, [], ◌∷◌, ◌++◌, All, any, ◌==◌, arith,
}
use gopoke.Text.Defs.{Text}

abbrev pub extend : Bool → ℕ → List Text → List Text
extend true c ls = [] ∷ ls
extend false c [] = (c ∷ []) ∷ []
extend false c (l ∷ ls) = (c ∷ l) ∷ ls

module _ (sep : ℕ) where
  -- strings.Split
  unfoldable pub split_on : Text → List Text
  split_on [] = [] ∷ []
  split_on (c ∷ s) = extend (c == sep) c (split_on s)

  -- strings.Join
  unfoldable pub join_on : List Text → Text
  join_on [] = []
  join_on (l ∷ []) = l
  join_on (l ∷ k ∷ ls) = l ++ sep ∷ join_on (k ∷ ls)

  -- A text without the separator in it.
  abbrev pub IsPart : Text → Type 0
  IsPart l = any (λ c. c == sep) l ≡ false

  pub split_on-append : (l s : Text) → IsPart l → split_on (l ++ sep ∷ s) ≡ l ∷ split_on s
  unfolding split_on
  split_on-append [] s h = ground arith
  split_on-append (c ∷ l) s h = ground (arith, split_on-append l s)

  pub split_on-part : (l : Text) → IsPart l → split_on l ≡ l ∷ []
  unfolding split_on
  split_on-part [] h = refl
  split_on-part (c ∷ l) h = ground (arith, split_on-part l)

  -- Split undoes join, on at least one part.
  pub split_on-join_on :
      (l : Text) (ls : List Text) → All IsPart (l ∷ ls) → split_on (join_on (l ∷ ls)) ≡ l ∷ ls
  unfolding join_on
  split_on-join_on l [] h = split_on-part l h.0
  split_on-join_on l (k ∷ ls) h =
      split_on-append l (join_on (k ∷ ls)) h.0 ∙ ap (λ r. l ∷ r) (split_on-join_on k ls h.1)

  join_on-extend :
      (b : Bool) (c : ℕ) (ls : List Text)
      → b ≡ (c == sep)
      → ls ≢ []
      → join_on (extend b c ls) ≡ c ∷ join_on ls
  unfolding join_on
  join_on-extend true c [] e h = absurd (h refl)
  join_on-extend true c (l ∷ ls) e h = ground arith
  join_on-extend false c [] e h = absurd (h refl)
  join_on-extend false c (l ∷ []) e h = refl
  join_on-extend false c (l ∷ k ∷ ls) e h = refl

  pub split_on-ne_nil : (s : Text) → split_on s ≢ []
  unfolding split_on
  split_on-ne_nil [] e = cc
  split_on-ne_nil (c ∷ s) e = ground (arith, split_on-ne_nil s)

  -- Join undoes split.
  pub join_on-split_on : (s : Text) → join_on (split_on s) ≡ s
  unfolding split_on
  join_on-split_on [] = unfold join_on in refl
  join_on-split_on (c ∷ s) =
      join_on-extend (c == sep) c (split_on s) refl (split_on-ne_nil s)
      ∙ ap (λ r. c ∷ r) (join_on-split_on s)

  extend-IsPart :
      (b : Bool) (c : ℕ) (ls : List Text)
      → (c == sep) ≡ b
      → All IsPart ls
      → All IsPart (extend b c ls)
  extend-IsPart true c ls e h = (refl, h)
  extend-IsPart false c [] e h = (ground arith, tt)
  extend-IsPart false c (l ∷ ls) e h = (ground (arith, h.0), h.1)

  pub split_on-IsPart : (s : Text) → All IsPart (split_on s)
  unfolding split_on
  split_on-IsPart [] = (refl, tt)
  split_on-IsPart (c ∷ s) = extend-IsPart _ c (split_on s) refl (split_on-IsPart s)
