-- ===== src/RichOutput/Laws.antt =====
-- About Parse of internal/richoutput/parser.go, and splitting and joining lines.
use gopoke.Base.{
  ℕ, ◌≡◌, refl, ap, Bool, true, false, Option, none, some, List, [], ◌∷◌, ◌++◌, All, any, ◌==◌,
  arith,
}
use gopoke.Text.{Text, trim_space, has_prefix}
use gopoke.Text.Lines.{newline, split_lines, join_lines}
use gopoke.Text.Split.{IsPart, split_on-join_on, join_on-split_on, split_on-IsPart}
use gopoke.RichOutput.{RichBlock, marker_prefix, cut_space, marker, sort_line, parse_lines, parse}

-- A line without a newline in it.
abbrev IsLine : Text → Type 0
IsLine l = IsPart newline l

module _ (json_valid : Text → Bool) where
  -- A line that stays in the output.
  abbrev pub IsPlain : Text → Type 0
  IsPlain l = marker json_valid l ≡ none

  sort_line-Plain :
      (P : Text → Type 0) (l : Text) (o : Option RichBlock) (r : List Text × List RichBlock)
      → marker json_valid l ≡ o
      → P l
      → All P r.0
      → All IsPlain r.0
      → All P (sort_line l o r).0 × All IsPlain (sort_line l o r).0
  sort_line-Plain P l none r e p all plain = ((p, all), (e, plain))
  sort_line-Plain P l (some b) r e p all plain = (all, plain)

  -- The clean lines are lines of the output, and plain.
  parse_lines-Plain :
      (P : Text → Type 0) (ls : List Text)
      → All P ls
      → All P (parse_lines json_valid ls).0 × All IsPlain (parse_lines json_valid ls).0
  unfolding parse_lines
  parse_lines-Plain P [] h = (tt, tt)
  parse_lines-Plain P (l ∷ ls) h =
      let (all, plain) = parse_lines-Plain P ls h.1 in
      sort_line-Plain P l _ (parse_lines json_valid ls) refl h.0 all plain

  parse_lines_plain : (ls : List Text) → All IsPlain ls → parse_lines json_valid ls ≡ (ls, [])
  unfolding parse_lines
  parse_lines_plain [] h = refl
  parse_lines_plain (l ∷ ls) h = rw (parse_lines_plain ls h.1, h.0)

  parse_split :
      (s : Text) (ls : List Text)
      → split_lines s ≡ ls
      → All IsPlain ls
      → parse json_valid s ≡ (s, [])
  unfolding parse
  parse_split [] ls e h = refl
  parse_split (c ∷ s) ls e h =
      rw (e, parse_lines_plain ls h)
        (ap (λ (t : Text). (t, [])) (rw (← e) (join_on-split_on newline (c ∷ s))))

  parse_joined :
      (ls : List Text)
      → All IsLine ls
      → All IsPlain ls
      → parse json_valid (join_lines ls) ≡ (join_lines ls, [])
  parse_joined [] lines h = unfold parse in refl
  parse_joined (l ∷ ls) lines h =
      parse_split (join_lines (l ∷ ls)) (l ∷ ls) (split_on-join_on newline l ls lines) h

  -- Output with no marker line in it is returned as it is, with no blocks.
  pub parse_plain : (s : Text) → All IsPlain (split_lines s) → parse json_valid s ≡ (s, [])
  parse_plain s h = parse_split s (split_lines s) refl h

  -- Parsing the clean output again changes nothing and finds no block: no marker is left in it.
  pub parse-parse :
      (s : Text) → parse json_valid (parse json_valid s).0 ≡ ((parse json_valid s).0, [])
  unfolding parse
  parse-parse [] = refl
  parse-parse (c ∷ s) =
      let (lines, plain) =
        parse_lines-Plain IsLine (split_lines (c ∷ s)) (split_on-IsPart newline (c ∷ s)) in
      parse_joined (parse_lines json_valid (split_lines (c ∷ s))).0 lines plain

  cut_space-append :
      (kind payload : Text)
      → any (λ c. c == 32) kind ≡ false
      → cut_space (kind ++ 32 ∷ payload) ≡ some (kind, payload)
  unfolding cut_space
  cut_space-append [] payload h = refl
  cut_space-append (c ∷ kind) payload h = ground (arith, cut_space-append kind payload)

  -- A line of the protocol is read back as its block: the type has no space, and the payload is
  -- valid JSON with no space around it.
  pub marker-line :
      (c : ℕ) (kind : Text) (d : ℕ) (payload : Text)
      → any (λ c. c == 32) (c ∷ kind) ≡ false
      → json_valid (d ∷ payload) ≡ true
      → trim_space (d ∷ payload) ≡ d ∷ payload
      → trim_space (marker_prefix ++ (c ∷ kind) ++ 32 ∷ d ∷ payload)
        ≡ marker_prefix ++ (c ∷ kind) ++ 32 ∷ d ∷ payload
      → marker json_valid (marker_prefix ++ (c ∷ kind) ++ 32 ∷ d ∷ payload)
        ≡ some (record { block_type = c ∷ kind; payload = d ∷ payload })
  unfolding marker has_prefix
  marker-line c kind d payload word valid tight trimmed =
      rw trimmed (rw (cut_space-append (c ∷ kind) (d ∷ payload) word) (rw (tight, valid)))
