-- ===== src/RichOutput/Tests.antt =====
-- Runs of the parser of marker lines.
use gopoke.Base.{◌≡◌, refl, Bool, [], ◌∷◌, ◌++◌, not}
use gopoke.Text.{Text, codes, is_empty, trim_space, has_prefix}
use gopoke.RichOutput.{parse}
use gopoke.Text.Lines.{newline}
use gopoke.RichOutput.Laws.{parse-parse}

-- A stand-in for json.Valid that takes every text with something in it.
abbrev nonempty : Text → Bool
nonempty s = not (is_empty s)

abbrev mixed : Text
mixed = codes "hi" ++ newline ∷ codes " //gopoke:table [1]" ++ newline ∷ codes "bye"

mixed_parsed : parse nonempty mixed ≡ (
  codes "hi" ++ newline ∷ codes "bye",
  record { block_type = codes "table"; payload = codes "[1]" } ∷ [],
)
unfolding parse trim_space has_prefix
mixed_parsed = refl

parse-parse_example : parse nonempty (parse nonempty mixed).0 ≡ ((parse nonempty mixed).0, [])
parse-parse_example = parse-parse nonempty mixed
