-- ===== src/Project/Dotenv/RoundTrip.antt =====
-- About internal/project/env_loader.go.
use gopoke.Base.{
  ℕ, ◌≡◌, ◌≢◌, subst, refl, ap, ◌∙◌, true, false, Option, some, List, [], ◌∷◌, ◌++◌, all, any,
  arith, ◌==◌, suc, All, map, ltb,
}
use gopoke.Text.{Text, codes, is_empty, has_prefix, trim_space, is_space}
use gopoke.Text.Trim.{trim-solid, trim-same}
use gopoke.Base.Distinct.{any-append}
use gopoke.Text.Split.{IsPart, split_on-join_on}
use gopoke.Text.Lines.{
  newline, byte_length, max_scan_token_size, drop_cr, tokens, scan_lines, join_lines,
}
use gopoke.Text.Search.{cut}
use gopoke.Project.Dotenv.{
  Entry, Warning, assigned, is_name_char, is_env_key, without_last, parse_dot_env_value, assignment,
  read_line, put, apply, read_lines, parse_dot_env,
}
use mathlib.Core.List.{append_assoc}

without_last-append : (q : ℕ) (s : Text) → without_last q (s ++ q ∷ []) ≡ some s
unfolding without_last
without_last-append q [] = ground arith
without_last-append q (c ∷ []) = ground (arith, without_last-append q [])
without_last-append q (c ∷ d ∷ s) = rw (without_last-append q (d ∷ s))

-- A line that gives a value in single quotes to a key.
abbrev pub quoted : Text → Text → Text
quoted key value = key ++ b'=' ∷ b'\'' ∷ (value ++ b'\'' ∷ [])

name_plain :
    (c : ℕ)
    → is_name_char c ≡ true
    → (is_space c ≡ false) × (c == b'=' ≡ false) × (c == b'#' ≡ false) × (c == b' ' ≡ false)
unfolding is_space
name_plain c h = (ground arith, ground arith, ground arith, ground arith)

cut-key :
    (key rest : Text)
    → all is_name_char key ≡ true
    → cut (codes "=") (key ++ b'=' ∷ rest) ≡ some (key, rest)
unfolding cut has_prefix
cut-key [] rest h = refl
cut-key (c ∷ key) rest h = ground (arith, cut-key key rest, name_plain c)

-- A line that starts with a key and "=" has no "export " in front.
no_export :
    (key rest prefix : Text)
    → all is_name_char key ≡ true
    → any (λ c. c == b' ') prefix ≡ true
    → any (λ c. c == b'=') prefix ≡ false
    → has_prefix (key ++ b'=' ∷ rest) prefix ≡ false
unfolding has_prefix
no_export key rest [] h a b = cc a
no_export [] rest (p ∷ ps) h a b = ground arith
no_export (k ∷ key) rest (p ∷ ps) h a b = ground (arith, no_export key rest ps, name_plain k)

plain_key : (key : Text) → all is_name_char key ≡ true → any is_space key ≡ false
plain_key [] h = refl
plain_key (c ∷ key) h = ground (arith, plain_key key, name_plain c)

names_of : (key : Text) → is_env_key key ≡ true → all is_name_char key ≡ true
unfolding is_env_key
names_of [] h = refl
names_of (c ∷ key) h = ground arith

value-quoted :
    (unquote : Text → Option Text) (value : Text)
    → parse_dot_env_value unquote (b'\'' ∷ value ++ b'\'' ∷ []) ≡ some value
unfolding parse_dot_env_value
value-quoted unquote value = without_last-append b'\'' value

value-assigned :
    (unquote : Text → Option Text) (c : ℕ) (key value : Text)
    → is_env_key (c ∷ key) ≡ true
    → assignment unquote (some (c ∷ key, b'\'' ∷ value ++ b'\'' ∷ [])) ≡ assigned (c ∷ key) value
value-assigned unquote c key value h =
    let names = names_of (c ∷ key) h in
    rw (trim-same (c ∷ key) (plain_key (c ∷ key) names)) (
      rw h (
        rw (trim-solid b'\'' b'\'' value (unfold is_space in refl) (unfold is_space in refl))
          (rw (value-quoted unquote value))))

no_key : is_env_key [] ≢ true
unfolding is_env_key
no_key h = cc h

first_plain : (c : ℕ) (key : Text) → is_env_key (c ∷ key) ≡ true → is_name_char c ≡ true
unfolding is_env_key
first_plain c key h = ground arith

quoted-solid :
    (c : ℕ) (key value : Text)
    → is_space c ≡ false
    → trim_space (quoted (c ∷ key) value) ≡ quoted (c ∷ key) value
quoted-solid c key value h =
    let front = b'=' ∷ b'\'' ∷ value in
    let shape : c ∷ ((key ++ front) ++ b'\'' ∷ []) ≡ quoted (c ∷ key) value =
      ap (λ t. c ∷ t) (append_assoc key front (b'\'' ∷ [])) in
    subst (λ t. trim_space t ≡ t) shape
      (trim-solid c b'\'' (key ++ front) h (unfold is_space in refl))

-- A line that gives a key a value in single quotes is read back as that key and value, whatever the
-- value is.
pub read_line-quoted :
    (unquote : Text → Option Text) (key value : Text)
    → is_env_key key ≡ true
    → read_line unquote (quoted key value) ≡ assigned key value
unfolding read_line
read_line-quoted unquote [] value h = absurd (no_key h)
read_line-quoted unquote (c ∷ key) value h =
    let names = names_of (c ∷ key) h in
    let plain = name_plain c (first_plain c key h) in
    let rest = b'\'' ∷ (value ++ b'\'' ∷ []) in
    rw (quoted-solid c key value plain.0) (
      rw plain.2 (
        rw (no_export (c ∷ key) rest (codes "export ") names refl refl)
          (rw (cut-key (c ∷ key) rest names) (value-assigned unquote c key value h))))

-- A file of such lines.
abbrev pub line_of : Entry → Text
line_of e = quoted e.key e.value

-- The map that assignments in a row leave.
abbrev pub puts : List Entry → List Entry → List Entry
puts [] seen = seen
puts (e ∷ es) seen = puts es (put e seen)

read_lines-quoted :
    (unquote : Text → Option Text) (es : List Entry) (n : ℕ) (seen : List Entry) (ws : List Warning)
    → All (λ e. is_env_key e.key ≡ true) es
    → read_lines unquote n (map line_of es) (seen, ws) ≡ (puts es seen, ws)
unfolding read_lines
read_lines-quoted unquote [] n seen ws h = refl
read_lines-quoted unquote (e ∷ es) n seen ws h =
    ap (λ l. read_lines unquote (suc n) (map line_of es) (apply n l (seen, ws)))
      (read_line-quoted unquote e.key e.value h.0)
    ∙ read_lines-quoted unquote es (suc n) (put e seen) ws h.1

drop_cr-quote : (s : Text) → drop_cr (s ++ b'\'' ∷ []) ≡ s ++ b'\'' ∷ []
unfolding drop_cr
drop_cr-quote [] = refl
drop_cr-quote (c ∷ []) = refl
drop_cr-quote (c ∷ d ∷ s) = ap (λ t. c ∷ t) (drop_cr-quote (d ∷ s))

-- A line that the scanner hands on as it is.
abbrev IsToken : Text → Type 0
IsToken l =
    (is_empty l ≡ false) × (drop_cr l ≡ l) × (ltb (byte_length l) max_scan_token_size ≡ true)

tokens-IsToken : (ls : List Text) → All IsToken ls → tokens ls ≡ (ls, false)
unfolding tokens
tokens-IsToken [] a = refl
tokens-IsToken (l ∷ ls) a = rw a.0.0 (rw a.0.2 (rw (a.0.1, tokens-IsToken ls a.1)))

-- An entry that a line in single quotes can hold: a key by the pattern, a value without a newline,
-- and a line that fits the buffer of the scanner.
pub record IsWritable (e : Entry) : Type 0 where
  pub key : is_env_key e.key ≡ true
  pub value : IsPart newline e.value
  pub fits : ltb (byte_length (line_of e)) max_scan_token_size ≡ true

keys_of : (es : List Entry) → All IsWritable es → All (λ e. is_env_key e.key ≡ true) es
keys_of [] a = tt
keys_of (e ∷ es) a = (a.0.key, keys_of es a.1)

key_line : (key : Text) → all is_name_char key ≡ true → IsPart newline key
unfolding is_space
key_line [] h = refl
key_line (c ∷ key) h = ground (arith, key_line key)

line-IsPart :
    (key value : Text)
    → IsPart newline key
    → IsPart newline value
    → IsPart newline (quoted key value)
line-IsPart key value h k =
    rw (any-append (λ c. c == newline) key (b'=' ∷ b'\'' ∷ (value ++ b'\'' ∷ [])))
      (rw h (rw (any-append (λ c. c == newline) value (b'\'' ∷ [])) (rw k)))

parts_of : (es : List Entry) → All IsWritable es → All (IsPart newline) (map line_of es)
parts_of [] a = tt
parts_of (e ∷ es) a =
    (line-IsPart e.key e.value (key_line e.key (names_of e.key a.0.key)) a.0.value, parts_of es a.1)

line-IsToken : (e : Entry) → IsWritable e → IsToken (line_of e)
line-IsToken e w =
    let front = e.key ++ b'=' ∷ b'\'' ∷ e.value in
    let shape : front ++ b'\'' ∷ [] ≡ line_of e =
      append_assoc e.key (b'=' ∷ b'\'' ∷ e.value) (b'\'' ∷ []) in
    (not_empty e.key, subst (λ l. drop_cr l ≡ l) shape (drop_cr-quote front), w.fits)
  where
    not_empty : (key : Text) → is_empty (quoted key e.value) ≡ false
    not_empty [] = refl
    not_empty (c ∷ key) = refl

tokens_of : (es : List Entry) → All IsWritable es → All IsToken (map line_of es)
tokens_of [] a = tt
tokens_of (e ∷ es) a = (line-IsToken e a.0, tokens_of es a.1)

-- A file of entries, each on a line of its own with its value in single quotes, is parsed back to
-- these entries, the last one for a key that has several, and without a warning.
pub parse_dot_env-quoted :
    (unquote : Text → Option Text) (e : Entry) (es : List Entry)
    → All IsWritable (e ∷ es)
    → parse_dot_env unquote (join_lines (map line_of (e ∷ es))) ≡ (puts (e ∷ es) [], [])
unfolding parse_dot_env scan_lines
parse_dot_env-quoted unquote e es a =
    rw (split_on-join_on newline (line_of e) (map line_of es) (parts_of (e ∷ es) a)) (
      rw (tokens-IsToken (map line_of (e ∷ es)) (tokens_of (e ∷ es) a))
        (read_lines-quoted unquote (e ∷ es) 1 [] [] (keys_of (e ∷ es) a)))
