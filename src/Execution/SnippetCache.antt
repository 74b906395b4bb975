-- ===== src/Execution/SnippetCache.antt =====
-- The directory .gopoke-run-cache of internal/execution/snippet_runner.go: stableSnippetFilePath and
-- cleanSnippetCache. SHA-256 is an argument, and so is which files os.Remove can remove.
use gopoke.Base.{
  ℕ, Bool, not, ◌&&◌, ◌||◌, List, [], ◌∷◌, ◌++◌, filter, reverse, if◌then◌else◌, ltb, ◌+◌, ◌-◌, ◌/◌,
  ◌%◌, take, false,
}
use gopoke.Text.{Text, codes, text_eq, has_prefix}

abbrev pub hex_digit : ℕ → ℕ
hex_digit n = if ltb n 10 then b'0' + n else b'a' + (n - 10)

-- hex.EncodeToString
unfoldable pub hex : Text → Text
hex [] = []
hex (c ∷ s) = hex_digit (c / 16) ∷ hex_digit (c % 16) ∷ hex s

-- The name of the file for a snippet, in stableSnippetFilePath.
unfoldable pub snippet_file_name : (Text → Text) → Text → Text
unfolding hex
snippet_file_name sha256 snippet = codes "snippet-" ++ hex (take 12 (sha256 snippet)) ++ codes ".go"

pub record CacheEntry : Type 0 where
  pub name : Text
  pub is_dir : Bool

abbrev pub has_suffix : Text → Text → Bool
has_suffix s suffix = has_prefix (reverse s) (reverse suffix)

unfoldable pub is_snippet_file : Text → Bool
unfolding has_prefix
is_snippet_file name = has_prefix name (codes "snippet-") && has_suffix name (codes ".go")

-- Whether cleanSnippetCache tries to remove an entry.
unfoldable pub is_stale : Text → CacheEntry → Bool
unfolding is_snippet_file text_eq
is_stale keep e = if e.is_dir || text_eq e.name keep then false else is_snippet_file e.name

-- cleanSnippetCache
unfoldable pub clean_snippet_cache : (Text → Bool) → Text → List CacheEntry → List CacheEntry
unfolding is_stale
clean_snippet_cache removable keep entries =
    filter (λ e. not (is_stale keep e && removable e.name)) entries

-- os.WriteFile in the cache directory.
unfoldable pub write_file : Text → List CacheEntry → List CacheEntry
unfolding text_eq
write_file name entries =
    filter (λ e. not (text_eq e.name name)) entries ++ record { name = name; is_dir = false } ∷ []
