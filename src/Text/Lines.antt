-- ===== src/Text/Lines.antt =====
-- Lines of a text: strings.Split and strings.Join at newlines, and the lines of bufio.Scanner.
use gopoke.Base.{ℕ, ◌+◌, Bool, true, false, ◌&&◌, List, [], ◌∷◌, ltb, ◌==◌, if◌then◌else◌}
use gopoke.Text.Defs.{Text, is_empty}
use gopoke.Text.Split.{split_on, join_on}

abbrev pub newline : ℕ
newline = 10

-- strings.Split(s, newline)
abbrev pub split_lines : Text → List Text
split_lines s = split_on newline s

-- strings.Join(ls, newline)
abbrev pub join_lines : List Text → Text
join_lines ls = join_on newline ls

-- The bytes of a text in UTF-8.
abbrev pub byte_length : Text → ℕ
byte_length [] = 0
byte_length (c ∷ s) =
    (if ltb c 0x80 then 1 else if ltb c 0x800 then 2 else if ltb c 0x10000 then 3 else 4)
    + byte_length s

-- bufio.MaxScanTokenSize
abbrev pub max_scan_token_size : ℕ
max_scan_token_size = 65536

-- A line without the CR at its end.
unfoldable pub drop_cr : Text → Text
drop_cr [] = []
drop_cr (c ∷ []) = if c == b'\r' then [] else c ∷ []
drop_cr (c ∷ d ∷ s) = c ∷ drop_cr (d ∷ s)

abbrev pub add_line : Text → List Text × Bool → List Text × Bool
add_line l (ls, long) = (drop_cr l ∷ ls, long)

-- The tokens of bufio.ScanLines: the text after the last newline is one if it is not empty. A line
-- that does not fit the buffer ends the scan with bufio.ErrTooLong, which the flag tells.
unfoldable pub tokens : List Text → List Text × Bool
unfolding drop_cr
tokens [] = ([], false)
tokens (l ∷ ls) =
    let more = tokens ls in
    if is_empty l && is_empty ls
    then ([], false)
    else if ltb (byte_length l) max_scan_token_size
    then add_line l more
    else ([], true)

-- What a bufio.Scanner makes of a text.
unfoldable pub scan_lines : Text → List Text × Bool
unfolding tokens split_on
scan_lines s = tokens (split_lines s)
