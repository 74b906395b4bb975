-- ===== src/Project/Dotenv.antt =====
-- internal/project/env_loader.go. strconv.Unquote is an argument; a map is a list with one entry for
-- a key.
pub mod RoundTrip
use gopoke.Base.{
  ℕ, suc, ◌+◌, Bool, true, false, ◌&&◌, ◌||◌, not, Option, none, some, List, [], ◌∷◌, ◌++◌, filter,
  all, drop, leb, ◌==◌, if◌then◌else◌, Result, ok, err,
}
use gopoke.Text.{Text, codes, text_eq, is_empty, has_prefix, trim_space}
use gopoke.Text.Search.{cut}
use gopoke.Text.Decimal.{is_digit}
use gopoke.Text.Lines.{scan_lines}

pub record Entry : Type 0 where
  pub key : Text
  pub value : Text

-- The warnings, each with the number of its line.
pub data Warning : Type 0 where
  expected_assignment : ℕ → Warning
  invalid_key : ℕ → Text → Warning
  invalid_quoted_value : ℕ → Warning
  scan_error : Warning

-- What a line comes to.
pub data Line : Type 0 where
  skipped no_assignment bad_value : Line
  bad_key : Text → Line
  assigned : Text → Text → Line

abbrev pub is_name_start : ℕ → Bool
is_name_start c = (leb b'A' c && leb c b'Z') || (leb b'a' c && leb c b'z') || c == b'_'

abbrev pub is_name_char : ℕ → Bool
is_name_char c = is_name_start c || is_digit c

-- envKeyPattern: ^[A-Za-z_][A-Za-z0-9_]*$
unfoldable pub is_env_key : Text → Bool
is_env_key [] = false
is_env_key (c ∷ s) = is_name_start c && all is_name_char s

-- The text before a "#" that starts it or follows a blank.
unfoldable pub before_comment : Bool → Text → Text
before_comment after_blank [] = []
before_comment after_blank (c ∷ s) =
    let rest = before_comment (c == b' ' || c == b'\t') s in
    if c == b'#' && after_blank then [] else c ∷ rest

abbrev pub cons_char : ℕ → Option Text → Option Text
cons_char c none = none
cons_char c (some t) = some (c ∷ t)

-- A text with its last character taken off, if that is the given one.
unfoldable pub without_last : ℕ → Text → Option Text
without_last q [] = none
without_last q (c ∷ []) = if c == q then some [] else none
without_last q (c ∷ d ∷ s) = cons_char c (without_last q (d ∷ s))

abbrev pub unquoted : (Text → Option Text) → Text → Option Text → Option Text
unquoted unquote raw none = none
unquoted unquote raw (some inner) = unquote raw

-- parseDotEnvValue
unfoldable pub parse_dot_env_value : (Text → Option Text) → Text → Option Text
unfolding without_last before_comment trim_space
parse_dot_env_value unquote [] = some []
parse_dot_env_value unquote (c ∷ s) =
    if c == b'\''
    then without_last b'\'' s
    else if c == b'"'
    then unquoted unquote (c ∷ s) (without_last b'"' s)
    else some (trim_space (before_comment true (c ∷ s)))

abbrev pub with_value : Text → Option Text → Line
with_value key none = bad_value
with_value key (some value) = assigned key value

abbrev pub assignment : (Text → Option Text) → Option (Text × Text) → Line
assignment unquote none = no_assignment
assignment unquote (some ([], value)) = no_assignment
assignment unquote (some (c ∷ s, value)) =
    let key = trim_space (c ∷ s) in
    if is_env_key key
    then with_value key (parse_dot_env_value unquote (trim_space value))
    else bad_key key

abbrev pub without_export : Text → Text
without_export s = if has_prefix s (codes "export ") then trim_space (drop 7 s) else s

-- The body of the loop, for one line.
unfoldable pub read_line : (Text → Option Text) → Text → Line
unfolding trim_space has_prefix cut is_env_key parse_dot_env_value
read_line unquote raw =
    let trimmed = trim_space raw in
    if is_empty trimmed || has_prefix trimmed (codes "#")
    then skipped
    else assignment unquote (cut (codes "=") (without_export trimmed))

-- values[key] = value
abbrev pub put : Entry → List Entry → List Entry
put e es = filter (λ f. not (text_eq f.key e.key)) es ++ e ∷ []

abbrev pub apply : ℕ → Line → List Entry × List Warning → List Entry × List Warning
apply n skipped (es, ws) = (es, ws)
apply n no_assignment (es, ws) = (es, ws ++ expected_assignment n ∷ [])
apply n bad_value (es, ws) = (es, ws ++ invalid_quoted_value n ∷ [])
apply n (bad_key key) (es, ws) = (es, ws ++ invalid_key n key ∷ [])
apply n (assigned key value) (es, ws) = (put (record { key = key; value = value }) es, ws)

-- The loop from line `n` on.
unfoldable pub read_lines :
    (Text → Option Text) → ℕ → List Text → List Entry × List Warning → List Entry × List Warning
unfolding read_line text_eq
read_lines unquote n [] seen = seen
read_lines unquote n (l ∷ ls) seen =
    read_lines unquote (suc n) ls (apply n (read_line unquote l) seen)

abbrev pub with_scan_error : Bool → List Entry × List Warning → List Entry × List Warning
with_scan_error false seen = seen
with_scan_error true (es, ws) = (es, ws ++ scan_error ∷ [])

-- parseDotEnv
unfoldable pub parse_dot_env : (Text → Option Text) → Text → List Entry × List Warning
unfolding read_lines scan_lines
parse_dot_env unquote content =
    let (lines, long) = scan_lines content in
    with_scan_error long (read_lines unquote 1 lines ([], []))

-- What os.ReadFile returns for the file .env.
pub data DotEnvFile : Type 0 where
  missing unreadable : DotEnvFile
  content : Text → DotEnvFile

-- loadDotEnvFile, or none on an error.
unfoldable pub load_dot_env_file :
    (Text → Option Text) → DotEnvFile → Option (List Entry × List Warning)
unfolding parse_dot_env
load_dot_env_file unquote missing = some ([], [])
load_dot_env_file unquote unreadable = none
load_dot_env_file unquote (content s) = some (parse_dot_env unquote s)
