-- ===== src/Text/FilePath/Laws.antt =====
-- About Clean and Rel of package path/filepath.
use gopoke.Base.{
  ℕ, ◌≡◌, ◌≢◌, refl, sym, ap, ◌∙◌, Bool, true, false, ◌||◌, List, [], ◌∷◌, ◌++◌, All, All-append,
  reverse, ◌==◌, arith, Bool-cases, inl, inr,
}
use gopoke.Text.Defs.{Text, codes, text_eq, is_empty, has_prefix}
use gopoke.Text.Laws.{eq_of_text_eq}
use gopoke.Text.Split.{
  IsPart, split_on, join_on, split_on-join_on, split_on-IsPart, split_on-ne_nil, extend,
}
use gopoke.Text.FilePath.{
  is_abs, go_up, clean_element, clean_elements, parts, clean, strip_common, ups, rel, or_dot,
}
use mathlib.Core.Bool.{false≢true}
use mathlib.Core.List.{append_assoc, append-nil, reverse-append}

strip_common-append :
    (bs ts : List Text)
    → (common : List Text) × (bs ≡ common ++ (strip_common bs ts).0)
      × (ts ≡ common ++ (strip_common bs ts).1)
unfolding strip_common
strip_common-append [] ts = ([], refl, refl)
strip_common-append (b ∷ bs) [] = ([], refl, refl)
strip_common-append (b ∷ bs) (t ∷ ts) = elim (Bool-cases (text_eq b t)) [
  | inl e ↦
      let (common, left, right) = strip_common-append bs ts in
      (
        b ∷ common,
        rw e (ap (λ r. b ∷ r) left),
        rw e (rw (eq_of_text_eq b t e) (ap (λ r. t ∷ r) right)),
      )
  | inr e ↦ ([], rw e, rw e)
]

-- A relative path that goes up is ".." or starts with "../".
abbrev pub goes_up : Text → Bool
goes_up r = text_eq r (codes "..") || has_prefix r (codes "../")

goes_up-join : (es : List Text) → goes_up (or_dot (join_on b'/' (codes ".." ∷ es))) ≡ true
unfolding join_on text_eq has_prefix
goes_up-join [] = refl
goes_up-join (e ∷ es) = refl

down_of : (up down : List Text) → goes_up (or_dot (join_on b'/' (ups up ++ down))) ≡ false → up ≡ []
down_of [] down h = refl
down_of (u ∷ us) down h = cc (goes_up-join (ups us ++ down))

-- A target that Rel does not reach by going up lies in the base: its elements are those of the base
-- and more.
pub parts-of_rel :
    (base target : Text)
    → goes_up (rel base target) ≡ false
    → (rest : List Text) × (parts target ≡ parts base ++ rest)
unfolding rel
parts-of_rel base target h =
    let (common, left, right) = strip_common-append (parts base) (parts target) in
    let none_up =
      down_of (strip_common (parts base) (parts target)).0
        (strip_common (parts base) (parts target)).1 h in
    (
      (strip_common (parts base) (parts target)).1,
      right
          ∙ ap (λ r. r ++ (strip_common (parts base) (parts target)).1)
              (sym (left ∙ rw none_up (append-nil common))),
    )

-- An element that Clean keeps in a rooted path.
abbrev pub IsElement : Text → Type 0
IsElement e =
    (is_empty e ≡ false)
    × (text_eq e (codes ".") ≡ false)
    × (text_eq e (codes "..") ≡ false)
    × IsPart b'/' e

go_up-IsElement :
    (out : List Text) (e : Text) → All IsElement out → All IsElement (go_up true out e)
go_up-IsElement [] e a = tt
go_up-IsElement (top ∷ below) e a = let (plain, rest) = a in rw plain.2 rest

clean_element-IsElement :
    (out : List Text) (e : Text)
    → All IsElement out
    → IsPart b'/' e
    → All IsElement (clean_element true out e)
unfolding clean_element
clean_element-IsElement out e a h = elim (Bool-cases (is_empty e || text_eq e (codes "."))) [
  | inl skip ↦ rw skip a
  | inr name ↦ rw name (elim (Bool-cases (text_eq e (codes ".."))) [
    | inl up ↦ rw up (go_up-IsElement out e a)
    | inr down ↦ rw down ((ground arith, ground arith, down, h), a)
  ])
]

All-reverse : (xs : List Text) → All IsElement xs → All IsElement (reverse xs)
All-reverse [] a = tt
All-reverse (x ∷ xs) a =
    rw (reverse-append (x ∷ []) xs)
      (All-append IsElement (reverse xs) (x ∷ []) (All-reverse xs a.1) (a.0, tt))

clean_elements-IsElement :
    (out es : List Text)
    → All IsElement out
    → All (IsPart b'/') es
    → All IsElement (clean_elements true out es)
unfolding clean_elements
clean_elements-IsElement out [] a b = All-reverse out a
clean_elements-IsElement out (e ∷ es) a b =
    clean_elements-IsElement (clean_element true out e) es (clean_element-IsElement out e a b.0) b.1

-- A rooted path has no "." and no ".." left in it.
pub parts-IsElement : (path : Text) → is_abs path ≡ true → All IsElement (parts path)
unfolding parts
parts-IsElement path h =
    rw h (clean_elements-IsElement [] (split_on b'/' path) tt (split_on-IsPart b'/' path))

extend-append :
    (b : Bool) (c : ℕ) (ls ks : List Text) → ls ≢ [] → extend b c ls ++ ks ≡ extend b c (ls ++ ks)
extend-append true c ls ks h = refl
extend-append false c [] ks h = absurd (h refl)
extend-append false c (l ∷ ls) ks h = refl

split_on-append_all :
    (a s : Text) → split_on b'/' (a ++ b'/' ∷ s) ≡ split_on b'/' a ++ split_on b'/' s
unfolding split_on
split_on-append_all [] s = refl
split_on-append_all (c ∷ a) s =
    ap (extend (c == b'/') c) (split_on-append_all a s)
    ∙ sym (extend-append (c == b'/') c (split_on b'/' a) (split_on b'/' s) (split_on-ne_nil b'/' a))

join_on-front : (es : List Text) (s : Text) → All IsElement es → join_on b'/' es ≢ b'/' ∷ s
unfolding join_on
join_on-front [] s a e = cc e
join_on-front ([] ∷ es) s a e = cc (a.0.0)
join_on-front ((c ∷ e) ∷ []) s a h = ground (arith, a.0.3, h)
join_on-front ((c ∷ e) ∷ d ∷ es) s a h = ground (arith, a.0.3, h)

pub append-of_has_prefix : (s p : Text) → has_prefix s p ≡ true → (r : Text) × (s ≡ p ++ r)
unfolding has_prefix
append-of_has_prefix s [] h = (s, refl)
append-of_has_prefix [] (p ∷ ps) h = absurd (false≢true h)
append-of_has_prefix (c ∷ s) (p ∷ ps) h =
    let (r, e) = append-of_has_prefix s ps (ground arith) in
    let same : c ≡ p = ground arith in (r, ap (λ t. c ∷ t) e ∙ ap (λ x. x ∷ (ps ++ r)) same)

IsPart-of_IsElement : (es : List Text) → All IsElement es → All (IsPart b'/') es
IsPart-of_IsElement [] a = tt
IsPart-of_IsElement (e ∷ es) a = (a.0.3, IsPart-of_IsElement es a.1)

parts_extend :
    (ts ds : List Text) (s : Text)
    → All IsElement ts
    → All IsElement ds
    → join_on b'/' ts ≡ join_on b'/' ds ++ b'/' ∷ s
    → ts ≡ ds ++ split_on b'/' s
parts_extend ts [] s a b e = absurd (join_on-front ts s a (unfold join_on in e))
parts_extend [] (d ∷ ds) s a b e =
    absurd (nil_append (join_on b'/' (d ∷ ds)) s (unfold join_on in e))
  where
    nil_append : (x s : Text) → [] ≢ x ++ b'/' ∷ s
    nil_append [] s h = cc
    nil_append (c ∷ x) s h = cc
parts_extend (t ∷ ts) (d ∷ ds) s a b e =
    sym (split_on-join_on b'/' t ts (IsPart-of_IsElement (t ∷ ts) a))
    ∙ ap (split_on b'/') e
    ∙ split_on-append_all (join_on b'/' (d ∷ ds)) s
    ∙ ap (λ r. r ++ split_on b'/' s) (split_on-join_on b'/' d ds (IsPart-of_IsElement (d ∷ ds) b))

cons_tail : (c d : ℕ) (a b : Text) → c ∷ a ≡ d ∷ b → a ≡ b
cons_tail c d a b e = cc e

clean_abs : (path : Text) → is_abs path ≡ true → clean path ≡ b'/' ∷ join_on b'/' (parts path)
unfolding clean
clean_abs path h = rw h

pub is_abs-clean : (path : Text) → is_abs path ≡ true → is_abs (clean path) ≡ true
unfolding is_abs
is_abs-clean path h = rw (clean_abs path h)

-- A rooted path whose clean form starts with that of another and a slash lies below it.
pub parts-of_has_prefix :
    (dest target : Text)
    → is_abs dest ≡ true
    → is_abs target ≡ true
    → has_prefix (clean target) (clean dest ++ codes "/") ≡ true
    → (rest : List Text) × (parts target ≡ parts dest ++ rest)
parts-of_has_prefix dest target hd ht h =
    let (s, e) = append-of_has_prefix (clean target) (clean dest ++ codes "/") h in
    let below : b'/' ∷ join_on b'/' (parts target)
        ≡ b'/' ∷ (join_on b'/' (parts dest) ++ b'/' ∷ s) =
      sym (clean_abs target ht)
      ∙ e
      ∙ ap (λ t. t ++ codes "/" ++ s) (clean_abs dest hd)
      ∙ append_assoc (b'/' ∷ join_on b'/' (parts dest)) (codes "/") s in
    (
      split_on b'/' s,
      parts_extend (parts target) (parts dest) s (parts-IsElement target ht)
          (parts-IsElement dest hd) (cons_tail b'/' b'/' _ _ below),
    )
