-- ===== src/Text/Trim.antt =====
-- About strings.TrimSpace.
use gopoke.Base.{ℕ, ◌≡◌, refl, ap, ◌∙◌, Bool, false, [], ◌∷◌, ◌++◌, any, reverse, arith}
use gopoke.Base.Distinct.{any-append}
use gopoke.Text.Defs.{Text, trim_space, drop_while, is_space}
use mathlib.Core.List.{reverse-append, reverse-reverse}

drop_while-none : (p : ℕ → Bool) (s : Text) → any p s ≡ false → drop_while p s ≡ s
unfolding drop_while
drop_while-none p [] h = refl
drop_while-none p (c ∷ s) h = ground arith

any-reverse : (p : ℕ → Bool) (s : Text) → any p s ≡ false → any p (reverse s) ≡ false
any-reverse p [] h = refl
any-reverse p (c ∷ s) h =
    rw (reverse-append (c ∷ []) s)
      (ground (arith, any-append p (reverse s) (c ∷ []), any-reverse p s))

-- Trimming takes off a space, and leaves a text without spaces as it is.
pub trim-none : (s : Text) → any is_space s ≡ false → trim_space (b' ' ∷ s) ≡ s
unfolding trim_space
trim-none s h =
    rw
      (
        drop_while-none is_space s h,
        drop_while-none is_space (reverse s) (any-reverse is_space s h),
      )
      (reverse-reverse s)

-- A text without spaces is not trimmed.
pub trim-same : (s : Text) → any is_space s ≡ false → trim_space s ≡ s
unfolding trim_space
trim-same s h =
    rw
      (
        drop_while-none is_space s h,
        drop_while-none is_space (reverse s) (any-reverse is_space s h),
      )
      (reverse-reverse s)

-- A text that starts and ends with no space is not trimmed.
pub trim-solid :
    (c d : ℕ) (s : Text)
    → is_space c ≡ false
    → is_space d ≡ false
    → trim_space (c ∷ s ++ d ∷ []) ≡ c ∷ s ++ d ∷ []
unfolding trim_space drop_while
trim-solid c d s hc hd = rw hc (
    rw (reverse-append (c ∷ s) (d ∷ [])) (
      rw hd (
        reverse-append (d ∷ []) (reverse (c ∷ s))
        ∙ ap (λ t. t ++ d ∷ []) (reverse-reverse (c ∷ s)))))
