-- ===== src/Diagnostics.antt =====
-- internal/diagnostics/parser.go. The two regular expressions are matchers by clauses: no group but
-- the first can hold a colon, so the leftmost match that Go's package regexp prefers is the only one.
pub mod Laws
mod Tests
use gopoke.Base.{
  ℕ, ◌+◌, ◌-◌, Bool, true, false, ◌&&◌, ◌||◌, not, Option, none, some, List, [], ◌∷◌, ◌++◌, reverse,
  drop, length, any, leb, ◌==◌, if◌then◌else◌,
}
use gopoke.Base.Int.{ℤ, pos, negsuc}
use gopoke.Text.{Text, codes, is_empty, has_prefix, trim_space, drop_while}
use gopoke.Text.Decimal.{is_digit, atoi}
use gopoke.Text.Lines.{scan_lines}

pub data Kind : Type 0 where
  compile panic : Kind

pub record Diagnostic : Type 0 where
  pub kind : Kind
  pub file : Text
  pub line : ℕ
  pub column : ℕ
  pub message : Text
  pub raw : Text

-- [A-Za-z]
abbrev pub is_letter : ℕ → Bool
is_letter c = (leb b'A' c && leb c b'Z') || (leb b'a' c && leb c b'z')

-- The part up to the next colon, and what follows the colon.
abbrev pub cons_field : ℕ → Option (Text × Text) → Option (Text × Text)
cons_field c none = none
cons_field c (some (a, b)) = some (c ∷ a, b)

unfoldable pub field : Text → Option (Text × Text)
field [] = none
field (c ∷ s) = let rest = field s in if c == b':' then some ([], s) else cons_field c rest

-- strings.HasSuffix(name, ".go"), past at least one character.
abbrev pub is_go_name : Text → Bool
is_go_name name = has_prefix (reverse name) (codes "og.") && leb 4 (length name)

-- strconv.Atoi and the test that the number is positive.
abbrev pub positive_of : Option ℤ → Option ℕ
positive_of none = none
positive_of (some (pos n)) = if n == 0 then none else some n
positive_of (some (negsuc n)) = none

abbrev pub number : Text → Option ℕ
number s = positive_of (atoi s)

-- [0-9]+
abbrev pub is_number : Text → Bool
is_number s = not (is_empty s) && not (any (λ c. not (is_digit c)) s)

abbrev pub located : Kind → Text → Option ℕ → Option ℕ → Text → Text → Option Diagnostic
located kind file (some n) (some k) message raw =
    some (record { kind = kind; file = file; line = n; column = k; message = message; raw = raw })
located kind file (some n) none message raw = none
located kind file none k message raw = none

-- The end of compilePattern past the file: two numbers, and a message that is not empty.
abbrev pub compile_message : Text → Text → Text → Option (Text × Text) → Option Diagnostic
compile_message raw file n none = none
compile_message raw file n (some (l, [])) = none
compile_message raw file n (some (l, c ∷ s)) =
    if is_number l
    then located compile file (number n) (number l) (trim_space (c ∷ s)) raw
    else none

abbrev pub compile_column : Text → Text → Option (Text × Text) → Option Diagnostic
compile_column raw file none = none
compile_column raw file (some (n, rest)) =
    if is_number n then compile_message raw file n (field rest) else none

abbrev pub compile_file : Text → Text → Text → Option Diagnostic
compile_file raw file rest = if is_go_name file then compile_column raw file (field rest) else none

-- (?:[A-Za-z]:)?
abbrev pub is_drive : Text → Bool
is_drive [] = false
is_drive (c ∷ []) = is_letter c
is_drive (c ∷ d ∷ s) = false

abbrev pub in_drive :
    Text → (Text → Text → Option Diagnostic) → Option (Text × Text) → Option Diagnostic
in_drive drive next none = none
in_drive drive next (some (name, rest)) =
    if is_go_name name then next (drive ++ b':' ∷ name) rest else none

abbrev pub compile_fields : Text → Option (Text × Text) → Option Diagnostic
compile_fields raw none = none
compile_fields raw (some (a, rest)) =
    if is_drive a
    then in_drive a (λ file s. compile_column raw file (field s)) (field rest)
    else compile_file raw a rest

-- One line in ParseCompileErrors, as the scanner gives it, with no newline in it.
unfoldable pub compile_line : Text → Option Diagnostic
unfolding field atoi
compile_line line = compile_fields line (field (trim_space line))

-- The \s of package regexp.
abbrev pub is_blank : ℕ → Bool
is_blank c = c == b'\t' || c == b'\n' || c == 12 || c == b'\r' || c == b' '

abbrev pub is_hex : ℕ → Bool
is_hex c = is_digit c || (leb b'a' c && leb c b'f') || (leb b'A' c && leb c b'F')

abbrev pub cons_left : ℕ → Text × Text → Text × Text
cons_left c (a, b) = (c ∷ a, b)

-- The longest part of the front that passes a test, and the rest.
unfoldable pub span : (ℕ → Bool) → Text → Text × Text
span p [] = ([], [])
span p (c ∷ s) = let rest = span p s in if p c then cons_left c rest else ([], c ∷ s)

abbrev pub blank_after : Text × Text → Bool
blank_after ([], rest) = false
blank_after (c ∷ a, rest) = is_empty (drop_while is_blank rest)

-- \s*(?:\+0x[0-9a-fA-F]+)?\s*$
unfoldable pub is_frame_end : Text → Bool
unfolding drop_while span has_prefix
is_frame_end s =
    let t = drop_while is_blank s in
    if is_empty t then true else has_prefix t (codes "+0x") && blank_after (span is_hex (drop 3 t))

-- The column of a frame is 1 if there is none, or none that is positive.
abbrev pub or_one : Option ℕ → Option ℕ
or_one none = some 1
or_one (some k) = some k

abbrev pub or_panic : Text → Text
or_panic [] = codes "runtime panic"
or_panic (c ∷ s) = c ∷ s

abbrev pub frame_column : Text → Text → Text → Text → Text × Text → Option Diagnostic
frame_column raw pending file n (k, rest) =
    if is_empty k
    then none
    else if is_frame_end rest
    then located panic file (number n) (or_one (number k)) (or_panic pending) raw
    else none

abbrev pub frame_line : Text → Text → Text → Text × Text → Option Diagnostic
frame_line raw pending file ([], rest) = none
frame_line raw pending file (d ∷ n, b) =
    if has_prefix b (codes ":")
    then frame_column raw pending file (d ∷ n) (span is_digit (drop 1 b))
    else if is_frame_end b
    then located panic file (number (d ∷ n)) (some 1) (or_panic pending) raw
    else none

abbrev pub go_name : Text → Option Text
go_name a = if is_go_name a then some a else none

abbrev pub or_else : Option Text → Option Text → Option Text
or_else none o = o
or_else (some a) o = some a

-- \s*([^:\n]+\.go): the blanks before the name are taken off greedily, and given back if what is
-- left is no name.
unfoldable pub frame_name : Text → Option Text
frame_name [] = none
frame_name (c ∷ s) =
    let past = or_else (frame_name s) (go_name (c ∷ s)) in
    if is_blank c then past else go_name (c ∷ s)

abbrev pub frame_file : Text → Text → Text → Option Text → Option Diagnostic
frame_file raw pending rest none = none
frame_file raw pending rest (some file) = frame_line raw pending file (span is_digit rest)

abbrev pub frame_fields : Text → Text → Option (Text × Text) → Option Diagnostic
frame_fields raw pending none = none
frame_fields raw pending (some (a, rest)) =
    let drive = drop_while is_blank a in
    if is_drive drive
    then in_drive drive (λ file s. frame_line raw pending file (span is_digit s)) (field rest)
    else frame_file raw pending rest (frame_name a)

-- One line in ParseRuntimePanics that is no panic line.
unfoldable pub frame : Text → Text → Option Diagnostic
unfolding field atoi span is_frame_end frame_name
frame pending line = frame_fields line pending (field line)

abbrev pub add : Option Diagnostic → List Diagnostic → List Diagnostic
add none ds = ds
add (some d) ds = d ∷ ds

unfoldable pub compile_lines : List Text → List Diagnostic
unfolding compile_line
compile_lines [] = []
compile_lines (l ∷ ls) = add (compile_line l) (compile_lines ls)

abbrev pub panic_prefix : Text
panic_prefix = codes "panic:"

-- The loop of ParseRuntimePanics, with pendingMessage.
unfoldable pub panic_lines : Text → List Text → List Diagnostic
unfolding frame
panic_lines pending [] = []
panic_lines pending (l ∷ ls) =
    let t = trim_space l in
    let after = panic_lines (trim_space (drop (length panic_prefix) t)) ls in
    let on = add (frame pending l) (panic_lines pending ls) in
    if has_prefix t panic_prefix then after else on

-- ParseCompileErrors; the error of the scanner is not looked at.
unfoldable pub parse_compile_errors : Text → List Diagnostic
unfolding compile_lines scan_lines
parse_compile_errors stderr = compile_lines (scan_lines stderr).0

-- ParseRuntimePanics
unfoldable pub parse_runtime_panics : Text → List Diagnostic
unfolding panic_lines scan_lines
parse_runtime_panics stderr = panic_lines [] (scan_lines stderr).0

-- ParseAll
unfoldable pub parse_all : Text → List Diagnostic
unfolding parse_compile_errors parse_runtime_panics
parse_all stderr = parse_compile_errors stderr ++ parse_runtime_panics stderr
