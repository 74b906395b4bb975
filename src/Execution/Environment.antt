-- ===== src/Execution/Environment.antt =====
-- mergeEnvironment of internal/execution/snippet_runner.go. A map is a function; the order in which
-- Go lists its entries is not fixed.
use gopoke.Base.{Option, none, some, List, [], ◌∷◌, if◌then◌else◌}
use gopoke.Text.{Text, codes, text_eq, is_empty, trim_space}
use gopoke.Text.Search.{cut}

abbrev pub Environment : Type 0
Environment = Text → Option Text

abbrev pub set : Text → Text → Environment → Environment
set key value merged k = if text_eq key k then some value else merged k

abbrev pub key_value : Text → Option (Text × Text) → Text × Text
key_value entry none = (entry, [])
key_value entry (some (key, value)) = (key, value)

-- The loop over `base`: a later entry of a key replaces an earlier one.
unfoldable pub from_base : List Text → Environment → Environment
unfolding cut text_eq
from_base [] merged = merged
from_base (entry ∷ base) merged =
    let (key, value) = key_value entry (cut (codes "=") entry) in
    from_base base (set key value merged)

abbrev pub override : Option Text → Option Text → Option Text
override none v = v
override (some w) v = some w

-- mergeEnvironment
unfoldable pub merge_environment : List Text → Environment → Environment
unfolding from_base trim_space
merge_environment base overrides key =
    let below = from_base base (λ k. none) key in
    if is_empty (trim_space key) then below else override (overrides key) below
