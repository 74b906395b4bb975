-- ===== src/Diagnostics/Laws.antt =====
-- About the diagnostics that internal/diagnostics/parser.go finds.
use gopoke.Base.{
  ℕ, zero, suc, ◌<◌, ◌≤◌, ◌≡◌, refl, sym, ap, ◌∙◌, Bool, true, false, not, Option, none, some, List,
  [], ◌∷◌, ◌++◌, All, All-append, any, length, length-append, reverse, drop, ◌==◌, arith,
  Bool-cases, inl, inr, if◌then◌else◌,
}
use mathlib.Core.List.{reverse-append}
use gopoke.Base.Int.{ℤ, pos, negsuc}
use gopoke.Text.{Text, codes, is_empty, trim_space, drop_while, has_prefix}
use gopoke.Text.Decimal.{
  max_int, is_digit, format, atoi, format-IsDigit, format-ne_nil, atoi-format,
}
use gopoke.Text.Lines.{scan_lines}
use gopoke.Diagnostics.{
  Kind, compile, panic, Diagnostic, field, is_go_name, positive_of, number, is_number, located,
  compile_message, compile_column, is_drive, in_drive, compile_fields, compile_line, is_blank, span,
  is_frame_end, or_one, or_panic, frame_column, frame_line, go_name, or_else, frame_name,
  frame_file, frame_fields, frame, add, compile_lines, panic_prefix, panic_lines,
  parse_compile_errors, parse_runtime_panics, parse_all,
}

field-append : (a s : Text) → any (λ c. c == b':') a ≡ false → field (a ++ b':' ∷ s) ≡ some (a, s)
unfolding field
field-append [] s h = refl
field-append (c ∷ a) s h = ground (arith, field-append a s)

number-format : (n : ℕ) → 0 < n → n ≤ max_int → number (format n) ≡ some n
number-format n h m = rw (atoi-format n m) (ground arith)

is_number-format : (n : ℕ) → is_number (format n) ≡ true
is_number-format n = ground (arith, format-ne_nil n, format-IsDigit n)

no_colon : (s : Text) → any (λ c. not (is_digit c)) s ≡ false → any (λ c. c == b':') s ≡ false
no_colon [] h = refl
no_colon (c ∷ s) h = ground (arith, no_colon s)

not_drive : (a : Text) → is_go_name a ≡ true → is_drive a ≡ false
not_drive [] h = refl
not_drive (c ∷ []) h = ground arith
not_drive (c ∷ d ∷ s) h = refl

-- The line that the compiler prints for a place and a message.
abbrev pub printed : Text → ℕ → ℕ → Text → Text
printed file n k message = file ++ b':' ∷ (format n ++ b':' ∷ (format k ++ b':' ∷ b' ' ∷ message))

-- A compiler message is read back: the file, which holds no colon and ends in ".go", the line, the
-- column, and the message without the space around it; the two numbers are positive ints.
pub compile_line-printed :
    (file : Text) (n k : ℕ) (message : Text)
    → any (λ c. c == b':') file ≡ false
    → is_go_name file ≡ true
    → 0 < n
    → n ≤ max_int
    → 0 < k
    → k ≤ max_int
    → trim_space (printed file n k message) ≡ printed file n k message
    → compile_line (printed file n k message)
      ≡ some (record {
        kind = compile;
        file = file;
        line = n;
        column = k;
        message = trim_space message;
        raw = printed file n k message;
      })
unfolding compile_line
compile_line-printed file n k message plain named hn mn hk mk trimmed =
    rw
      (
        trimmed,
        field-append file (format n ++ b':' ∷ (format k ++ b':' ∷ b' ' ∷ message)) plain,
        not_drive file named,
        named,
      )
      (rw
        (
          field-append (format n) (format k ++ b':' ∷ b' ' ∷ message)
              (no_colon (format n) (format-IsDigit n)),
          is_number-format n,
        )
        (rw
          (
            field-append (format k) (b' ' ∷ message) (no_colon (format k) (format-IsDigit k)),
            is_number-format k,
          )
          (rw (number-format n hn mn, number-format k hk mk) (unfold trim_space in refl))))

-- A place in a Go file that an editor can open: lines and columns count from 1.
pub record IsLocated (d : Diagnostic) : Type 0 where
  pub file : is_go_name d.file ≡ true
  pub line : 0 < d.line
  pub column : 0 < d.column

abbrev OnLocated : Option Diagnostic → Type 0
OnLocated none = Unit
OnLocated (some d) = IsLocated d

abbrev OnPositive : Option ℕ → Type 0
OnPositive none = Unit
OnPositive (some n) = 0 < n

positive_of-OnPositive : (o : Option ℤ) → OnPositive (positive_of o)
positive_of-OnPositive none = tt
positive_of-OnPositive (some (pos zero)) = tt
positive_of-OnPositive (some (pos (suc n))) =
    let positive : (suc n == 0) ≡ false = ground arith in rw positive (omega arith)
positive_of-OnPositive (some (negsuc n)) = tt

or_one-OnPositive : (o : Option ℕ) → OnPositive o → OnPositive (or_one o)
or_one-OnPositive none h = omega arith
or_one-OnPositive (some k) h = h

located-OnLocated :
    (kind : Kind) (file : Text) (o p : Option ℕ) (message raw : Text)
    → is_go_name file ≡ true
    → OnPositive o
    → OnPositive p
    → OnLocated (located kind file o p message raw)
located-OnLocated kind file (some n) (some k) message raw g h j = record {
  file = g;
  line = h;
  column = j;
}
located-OnLocated kind file (some n) none message raw g h j = tt
located-OnLocated kind file none p message raw g h j = located_none kind file p message raw
  where
    located_none :
        (kind : Kind) (file : Text) (p : Option ℕ) (message raw : Text)
        → OnLocated (located kind file none p message raw)
    located_none kind file none message raw = tt
    located_none kind file (some k) message raw = tt

-- A branch that has no result keeps what the other has.
OnLocated-if :
    (b : Bool) (o : Option Diagnostic)
    → (b ≡ true → OnLocated o)
    → OnLocated (if b then o else none)
OnLocated-if true o h = h refl
OnLocated-if false o h = tt

compile_column-OnLocated :
    (raw file : Text) (o : Option (Text × Text))
    → is_go_name file ≡ true
    → OnLocated (compile_column raw file o)
compile_column-OnLocated raw file none g = tt
compile_column-OnLocated raw file (some (n, rest)) g =
    OnLocated-if (is_number n) (compile_message raw file n (field rest)) (λ _. message (field rest))
  where
    message : (o : Option (Text × Text)) → OnLocated (compile_message raw file n o)
    message none = tt
    message (some (l, [])) = tt
    message (some (l, c ∷ s)) =
        OnLocated-if (is_number l)
          (located compile file (number n) (number l) (trim_space (c ∷ s)) raw)
          (λ _.
            located-OnLocated compile file (number n) (number l) (trim_space (c ∷ s)) raw g
              (positive_of-OnPositive (atoi n)) (positive_of-OnPositive (atoi l)))

frame_column-OnLocated :
    (raw pending file n : Text) (p : Text × Text)
    → is_go_name file ≡ true
    → OnLocated (frame_column raw pending file n p)
frame_column-OnLocated raw pending file n (k, rest) g = elim (Bool-cases (is_empty k)) [
  | inl e ↦ rw e tt
  | inr e ↦ rw e (
      OnLocated-if (is_frame_end rest)
        (located panic file (number n) (or_one (number k)) (or_panic pending) raw)
        (λ _.
          located-OnLocated panic file (number n) (or_one (number k)) (or_panic pending) raw g
            (positive_of-OnPositive (atoi n))
            (or_one-OnPositive (number k) (positive_of-OnPositive (atoi k)))))
]

frame_line-OnLocated :
    (raw pending file : Text) (p : Text × Text)
    → is_go_name file ≡ true
    → OnLocated (frame_line raw pending file p)
frame_line-OnLocated raw pending file ([], b) g = tt
frame_line-OnLocated raw pending file (d ∷ n, b) g = elim (Bool-cases (has_prefix b (codes ":"))) [
  | inl e ↦ rw e (frame_column-OnLocated raw pending file (d ∷ n) (span is_digit (drop 1 b)) g)
  | inr e ↦ rw e (
      OnLocated-if (is_frame_end b)
        (located panic file (number (d ∷ n)) (some 1) (or_panic pending) raw)
        (λ _.
          located-OnLocated panic file (number (d ∷ n)) (some 1) (or_panic pending) raw g
            (positive_of-OnPositive (atoi (d ∷ n))) (omega arith)))
]

has_prefix-append : (s t p : Text) → has_prefix s p ≡ true → has_prefix (s ++ t) p ≡ true
unfolding has_prefix
has_prefix-append [] t [] h = any_prefix t
  where
    any_prefix : (t : Text) → has_prefix t [] ≡ true
    any_prefix [] = refl
    any_prefix (c ∷ t) = refl
has_prefix-append [] t (p ∷ ps) h = cc
has_prefix-append (c ∷ s) t [] h = refl
has_prefix-append (c ∷ s) t (p ∷ ps) h = ground (arith, has_prefix-append s t ps)

go_name-append :
    (drive name : Text) → is_go_name name ≡ true → is_go_name (drive ++ b':' ∷ name) ≡ true
go_name-append drive name h =
    let ended : has_prefix (reverse name) (codes "og.") ≡ true = ground arith in
    let turned : reverse (drive ++ b':' ∷ name) ≡ reverse name ++ b':' ∷ [] ++ reverse drive =
      reverse-append drive (b':' ∷ name)
      ∙ ap (λ r. r ++ reverse drive) (reverse-append (b':' ∷ []) name) in
    let kept : has_prefix (reverse (drive ++ b':' ∷ name)) (codes "og.") ≡ true = rw turned (
      has_prefix-append (reverse name ++ b':' ∷ []) (reverse drive) (codes "og.")
        (has_prefix-append (reverse name) (b':' ∷ []) (codes "og.") ended)) in
    rw kept (ground (arith, length-append drive (b':' ∷ name)))

in_drive-OnLocated :
    (drive : Text) (next : Text → Text → Option Diagnostic) (o : Option (Text × Text))
    → ((file s : Text) → is_go_name file ≡ true → OnLocated (next file s))
    → OnLocated (in_drive drive next o)
in_drive-OnLocated drive next none h = tt
in_drive-OnLocated drive next (some (name, rest)) h =
    OnLocated-if (is_go_name name) (next (drive ++ b':' ∷ name) rest)
      (λ e. h (drive ++ b':' ∷ name) rest (go_name-append drive name e))

frame_file-OnLocated :
    (raw pending rest : Text) (o : Option Text)
    → ((f : Text) → o ≡ some f → is_go_name f ≡ true)
    → OnLocated (frame_file raw pending rest o)
frame_file-OnLocated raw pending rest none h = tt
frame_file-OnLocated raw pending rest (some f) h =
    frame_line-OnLocated raw pending f (span is_digit rest) (h f refl)

compile_fields-OnLocated :
    (raw : Text) (o : Option (Text × Text)) → OnLocated (compile_fields raw o)
compile_fields-OnLocated raw none = tt
compile_fields-OnLocated raw (some (a, rest)) = elim (Bool-cases (is_drive a)) [
  | inl e ↦ rw e (
      in_drive-OnLocated a (λ file s. compile_column raw file (field s)) (field rest)
        (λ file s g. compile_column-OnLocated raw file (field s) g))
  | inr e ↦ rw e (
      OnLocated-if (is_go_name a) (compile_column raw a (field rest))
        (λ g. compile_column-OnLocated raw a (field rest) g))
]

go_name-ends : (a f : Text) → go_name a ≡ some f → is_go_name f ≡ true
go_name-ends a f e = elim (Bool-cases (is_go_name a)) [
  | inl g ↦ let same : a ≡ f = ground (arith, g) in rw (← same) g
  | inr g ↦ absurd (none_some f (sym (rw g) ∙ e))
]
  where
    none_some : (f : Text) → none ≡ some f → ⊥
    none_some f h = cc

or_else-ends :
    (o p : Option Text) (f : Text)
    → ((g : Text) → o ≡ some g → is_go_name g ≡ true)
    → ((g : Text) → p ≡ some g → is_go_name g ≡ true)
    → or_else o p ≡ some f
    → is_go_name f ≡ true
or_else-ends none p f h k e = k f e
or_else-ends (some a) p f h k e = h f e

frame_name-ends : (a f : Text) → frame_name a ≡ some f → is_go_name f ≡ true
unfolding frame_name
frame_name-ends [] f e = cc
frame_name-ends (c ∷ s) f e = elim (Bool-cases (is_blank c)) [
  | inl b ↦
      or_else-ends (frame_name s) (go_name (c ∷ s)) f (frame_name-ends s) (go_name-ends (c ∷ s))
        (sym (rw b) ∙ e)
  | inr b ↦ go_name-ends (c ∷ s) f (sym (rw b) ∙ e)
]

frame_fields-OnLocated :
    (raw pending : Text) (o : Option (Text × Text)) → OnLocated (frame_fields raw pending o)
frame_fields-OnLocated raw pending none = tt
frame_fields-OnLocated raw pending (some (a, rest)) =
    let drive = drop_while is_blank a in
    elim (Bool-cases (is_drive drive)) [
      | inl e ↦ rw e (
          in_drive-OnLocated drive (λ file s. frame_line raw pending file (span is_digit s))
            (field rest) (λ file s g. frame_line-OnLocated raw pending file (span is_digit s) g))
      | inr e ↦ rw e (frame_file-OnLocated raw pending rest (frame_name a) (frame_name-ends a))
    ]

All-add :
    (o : Option Diagnostic) (ds : List Diagnostic)
    → OnLocated o
    → All IsLocated ds
    → All IsLocated (add o ds)
All-add none ds h a = a
All-add (some d) ds h a = (h, a)

compile_lines-IsLocated : (ls : List Text) → All IsLocated (compile_lines ls)
unfolding compile_lines
compile_lines-IsLocated [] = tt
compile_lines-IsLocated (l ∷ ls) =
    All-add (compile_line l) (compile_lines ls)
      (unfold compile_line in compile_fields-OnLocated l (field (trim_space l)))
      (compile_lines-IsLocated ls)

panic_lines-IsLocated : (pending : Text) (ls : List Text) → All IsLocated (panic_lines pending ls)
unfolding panic_lines
panic_lines-IsLocated pending [] = tt
panic_lines-IsLocated pending (l ∷ ls) =
    elim (Bool-cases (has_prefix (trim_space l) panic_prefix)) [
      | inl e ↦
          rw e (panic_lines-IsLocated (trim_space (drop (length panic_prefix) (trim_space l))) ls)
      | inr e ↦ rw e (
          All-add (frame pending l) (panic_lines pending ls)
            (unfold frame in frame_fields-OnLocated l pending (field l))
            (panic_lines-IsLocated pending ls))
    ]

-- Whatever a program prints, every diagnostic that ParseAll finds in it is a place in a file whose
-- name ends in ".go", at a line and a column that count from 1.
pub parse_all-IsLocated : (stderr : Text) → All IsLocated (parse_all stderr)
unfolding parse_all parse_compile_errors parse_runtime_panics
parse_all-IsLocated stderr =
    All-append IsLocated (parse_compile_errors stderr) (parse_runtime_panics stderr)
      (compile_lines-IsLocated (scan_lines stderr).0)
      (panic_lines-IsLocated [] (scan_lines stderr).0)
