-- ===== src/Playground.antt =====
-- internal/playground/client.go. What the HTTP client answers is an argument. A body is the sequence of
-- its bytes, and the hash in it is ASCII.
pub mod Laws
mod Tests
use gopoke.Base.{
  ℕ, ◌+◌, ◌*◌, Bool, true, false, ◌&&◌, ◌||◌, Option, none, some, List, [], ◌∷◌, ◌++◌, all, drop,
  take, length, reverse, Result, ok, err, ltb, leb, ◌==◌, if◌then◌else◌,
}
use gopoke.Text.{Text, codes, is_empty, has_prefix, trim_space}
use gopoke.Text.Lines.{byte_length}

-- maxSourceBytes
abbrev pub max_source_bytes : ℕ
max_source_bytes = 64 * 1024

-- ShareResult
pub record ShareResult : Type 0 where
  pub url : Text
  pub hash : Text

-- http.NewRequestWithContext fails, httpClient.Do fails, or a response with its status and its body
-- comes, or with a body that cannot be read.
pub data Reply : Type 0 where
  no_request no_response : Reply
  response : ℕ → Option (List ℕ) → Reply

pub data Error : Type 0 where
  source_too_long request_failed response_failed read_failed : Error
  empty_hash invalid_input : Error
  not_found : Text → Error
  status_failed : ℕ → Error

abbrev pub play_url : Text
play_url = codes "https://go.dev/play/p/"

abbrev pub with_hash : Text → Result Error ShareResult
with_hash hash =
    if is_empty hash then err empty_hash else ok (record { url = play_url ++ hash; hash = hash })

abbrev pub shared_body : Option (List ℕ) → Result Error ShareResult
shared_body none = err read_failed
shared_body (some body) = with_hash (trim_space (take 256 body))

abbrev pub shared : Reply → Result Error ShareResult
shared no_request = err request_failed
shared no_response = err response_failed
shared (response status body) =
    if status == 200 then shared_body body else err (status_failed status)

-- Share, where `post` is the answer to the upload.
unfoldable pub share : (Text → Reply) → Text → Result Error ShareResult
unfolding trim_space
share post source =
    if ltb max_source_bytes (byte_length source) then err source_too_long else shared (post source)

abbrev pub is_hash_char : ℕ → Bool
is_hash_char c =
    (leb b'a' c && leb c b'z')
    || (leb b'A' c && leb c b'Z')
    || (leb b'0' c && leb c b'9')
    || c == b'_'
    || c == b'-'

-- strings.TrimSuffix(after, ".go")
unfoldable pub without_go : Text → Text
unfolding has_prefix
without_go s = if has_prefix (reverse s) (codes "og.") then reverse (drop 3 (reverse s)) else s

-- The prefixes of extractHash.
abbrev pub url_prefixes : List Text
url_prefixes =
    play_url
    ∷ codes "http://go.dev/play/p/"
    ∷ codes "https://play.golang.org/p/"
    ∷ codes "http://play.golang.org/p/"
    ∷ []

-- The loop over the characters of the input.
abbrev pub raw_hash : Text → Text
raw_hash input = if all is_hash_char input then input else []

-- The loop over the prefixes.
unfoldable pub hash_behind : List Text → Text → Text
unfolding has_prefix without_go
hash_behind [] input = raw_hash input
hash_behind (p ∷ ps) input =
    let hash = without_go (drop (length p) input) in
    let rest = hash_behind ps input in
    if has_prefix input p then (if is_empty hash then rest else hash) else rest

-- extractHash
unfoldable pub extract_hash : Text → Text
unfolding trim_space hash_behind
extract_hash input =
    let trimmed = trim_space input in
    if is_empty trimmed then [] else hash_behind url_prefixes trimmed

abbrev pub imported_body : Option (List ℕ) → Result Error (List ℕ)
imported_body none = err read_failed
imported_body (some body) = ok (take (max_source_bytes + 1) body)

abbrev pub imported : Text → Reply → Result Error (List ℕ)
imported hash no_request = err request_failed
imported hash no_response = err response_failed
imported hash (response status body) =
    if status == 404
    then err (not_found hash)
    else if status == 200
    then imported_body body
    else err (status_failed status)

-- Import, where `get` is the answer to the request of a URL.
unfoldable pub import_source : (Text → Reply) → Text → Result Error (List ℕ)
unfolding extract_hash
import_source get input =
    let hash = extract_hash input in
    if is_empty hash
    then err invalid_input
    else imported hash (get (play_url ++ hash ++ codes ".go"))
