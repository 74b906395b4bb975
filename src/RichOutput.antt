-- ===== src/RichOutput.antt =====
-- internal/richoutput/parser.go: the marker lines of a program's output.
pub mod Laws
mod Tests
use gopoke.Base.{
  ℕ, zero, suc, ◌+◌, Bool, true, false, not, ◌||◌, Option, none, some, List, [], ◌∷◌, ◌++◌, reverse,
  drop, length, ==_iff, ◌==◌, if◌then◌else◌,
}
use gopoke.Text.Split.{split_on, join_on}
use gopoke.Text.Lines.{newline, split_lines, join_lines}
use gopoke.Text.{Text, codes, is_empty, has_prefix, trim_space}

-- RichBlock; the data is the JSON text as it stands in the output.
pub record RichBlock : Type 0 where
  pub block_type : Text
  pub payload : Text

-- markerPrefix
abbrev pub marker_prefix : Text
marker_prefix = codes "//gopoke:"

-- strings.IndexByte(s, ' ') with the text on both sides, if there is a space.
abbrev pub cons_left : ℕ → Option (Text × Text) → Option (Text × Text)
cons_left c none = none
cons_left c (some (a, b)) = some (c ∷ a, b)

unfoldable pub cut_space : Text → Option (Text × Text)
cut_space [] = none
cut_space (c ∷ s) = let rest = cut_space s in if c == 32 then some ([], s) else cons_left c rest

-- The line kept, or its block.
abbrev pub sort_line :
    Text → Option RichBlock → List Text × List RichBlock → List Text × List RichBlock
sort_line line none (clean, blocks) = (line ∷ clean, blocks)
sort_line line (some b) (clean, blocks) = (clean, b ∷ blocks)

module _ (json_valid : Text → Bool) where
  -- A block, if it has a type and a payload that is valid JSON.
  abbrev pub block_of : Option (Text × Text) → Option RichBlock
  block_of none = none
  block_of (some (kind, tail)) =
      let payload = trim_space tail in
      if is_empty kind || is_empty payload
      then none
      else if json_valid payload
      then some (record { block_type = kind; payload = payload })
      else none

  -- The tests of the loop on one line: the block that it is, or none if it stays in the output.
  unfoldable pub marker : Text → Option RichBlock
  unfolding cut_space
  marker line =
      let trimmed = trim_space line in
      if has_prefix trimmed marker_prefix
      then block_of (cut_space (drop (length marker_prefix) trimmed))
      else none

  -- The loop of Parse over the lines.
  unfoldable pub parse_lines : List Text → List Text × List RichBlock
  unfolding marker
  parse_lines [] = ([], [])
  parse_lines (l ∷ ls) = sort_line l (marker l) (parse_lines ls)

  -- Parse; no blocks are Go's nil.
  unfoldable pub parse : Text → Text × List RichBlock
  unfolding parse_lines split_on join_on
  parse [] = ([], [])
  parse (c ∷ s) =
      let (clean, blocks) = parse_lines (split_lines (c ∷ s)) in (join_lines clean, blocks)
