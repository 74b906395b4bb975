-- ===== src/Text/Search.antt =====
-- strings.Cut and bytes.Index: the first place of a separator. Also strings.Split at CR LF.
use gopoke.Base.{
  ℕ, zero, suc, ◌+◌, ◌<◌, ◌≡◌, refl, false, ◌&&◌, Option, none, some, List, [], ◌∷◌, ◌++◌, any,
  take, drop, length, ◌==◌, arith, if◌then◌else◌,
}
use gopoke.Text.Defs.{Text, has_prefix}

abbrev pub cons_left : ℕ → Option (Text × Text) → Option (Text × Text)
cons_left c none = none
cons_left c (some (a, b)) = some (c ∷ a, b)

-- What stands before the first `sep`, and after it; `sep` is not empty.
unfoldable pub cut : Text → Text → Option (Text × Text)
unfolding has_prefix
cut sep [] = none
cut sep (c ∷ s) =
    let rest = cut sep s in
    if has_prefix (c ∷ s) sep then some ([], drop (length sep) (c ∷ s)) else cons_left c rest

abbrev pub push_line : ℕ → List Text → List Text
push_line c [] = (c ∷ []) ∷ []
push_line c (l ∷ ls) = (c ∷ l) ∷ ls

-- strings.Split(s, CR LF)
unfoldable pub split_crlf : Text → List Text
split_crlf [] = [] ∷ []
split_crlf (c ∷ []) = (c ∷ []) ∷ []
split_crlf (c ∷ d ∷ s) =
    let next = [] ∷ split_crlf s in
    let same = push_line c (split_crlf (d ∷ s)) in
    if (c == b'\r') && (d == b'\n') then next else same

abbrev pub blank_line : Text
blank_line = b'\r' ∷ b'\n' ∷ b'\r' ∷ b'\n' ∷ []

-- A text with no CR in it.
abbrev pub IsLine : Text → Type 0
IsLine s = any (λ c. c == b'\r') s ≡ false

pub cut-line :
    (s rest : Text) → IsLine s → cut blank_line (s ++ blank_line ++ rest) ≡ some (s, rest)
unfolding cut
cut-line [] rest h = refl
cut-line (c ∷ s) rest h = ground (arith, cut-line s rest)

-- The blank line is not found before it is complete.
pub cut-take :
    (s rest : Text) (n : ℕ)
    → IsLine s
    → n < length s + 4
    → cut blank_line (take n (s ++ blank_line ++ rest)) ≡ none
unfolding cut
cut-take [] rest zero h k = refl
cut-take [] rest (suc zero) h k = refl
cut-take [] rest (suc (suc zero)) h k = refl
cut-take [] rest (suc (suc (suc zero))) h k = refl
cut-take [] rest (suc (suc (suc (suc n)))) h k = absurd (omega arith)
cut-take (c ∷ s) rest zero h k = refl
cut-take (c ∷ s) rest (suc n) h k = ground (arith, cut-take s rest n)

pub split_crlf-line : (s : Text) → IsLine s → split_crlf s ≡ s ∷ []
unfolding split_crlf
split_crlf-line [] h = refl
split_crlf-line (c ∷ []) h = refl
split_crlf-line (c ∷ d ∷ s) h = ground (arith, split_crlf-line (d ∷ s))
