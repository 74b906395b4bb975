-- ===== src/Playground/Laws.antt =====
-- About the hashes of internal/playground/client.go.
use gopoke.Base.{
  ℕ, ◌≡◌, refl, sym, ap, ◌∙◌, subst, Bool, true, false, false≢true, Option, none, some, List, [],
  ◌∷◌, ◌++◌, all, any, take, reverse, Bool-cases, inl, inr, ok, ◌==◌, arith,
}
use mathlib.Core.List.{reverse-append}
use gopoke.Base.Distinct.{any-append}
use gopoke.Text.{Text, codes, is_empty, is_space, has_prefix, trim_space}
use gopoke.Text.Trim.{trim-same}
use gopoke.Text.FilePath.Laws.{append-of_has_prefix}
use gopoke.Playground.{
  Reply, play_url, is_hash_char, without_go, url_prefixes, raw_hash, hash_behind, extract_hash,
  ShareResult, response, no_request, no_response, with_hash, shared_body, shared, share, imported,
  import_source,
}

-- A hash of the playground.
pub record IsHash (h : Text) : Type 0 where
  pub named : is_empty h ≡ false
  pub allowed : all is_hash_char h ≡ true

none_in :
    (q : ℕ → Bool) (h : Text)
    → ((c : ℕ) → is_hash_char c ≡ true → q c ≡ false)
    → all is_hash_char h ≡ true
    → any q h ≡ false
none_in q [] a e = refl
none_in q (c ∷ h) a e = ground (arith, a c, none_in q h a)

any-reverse : (q : ℕ → Bool) (s : Text) → any q s ≡ false → any q (reverse s) ≡ false
any-reverse q [] h = refl
any-reverse q (c ∷ s) h =
    rw (reverse-append (c ∷ []) s)
      (ground (arith, any-append q (reverse s) (c ∷ []), any-reverse q s))

-- A text does not start with one that has a character which it lacks.
has_prefix-lacks :
    (q : ℕ → Bool) (s p : Text) → any q s ≡ false → any q p ≡ true → has_prefix s p ≡ false
has_prefix-lacks q s p n h = elim (Bool-cases (has_prefix s p)) [
  | inl e ↦
      let (r, same) = append-of_has_prefix s p e in
      let found : any q s ≡ true = ground (arith, ap (any q) same, any-append q p r, h) in
      absurd (false≢true (sym n ∙ found))
  | inr e ↦ e
]

without_go-hash : (h : Text) → all is_hash_char h ≡ true → without_go h ≡ h
unfolding without_go
without_go-hash h a =
    let dotless : any (λ c. c == b'.') h ≡ false =
      none_in (λ c. c == b'.') h (λ c e. ground arith) a in
    rw
      (has_prefix-lacks (λ c. c == b'.') (reverse h) (codes "og.")
        (any-reverse (λ c. c == b'.') h dotless) refl)
      refl

raw_hash-hash : (h : Text) → all is_hash_char h ≡ true → raw_hash h ≡ h
raw_hash-hash h a = rw a refl

no_slash :
    (h p : Text)
    → all is_hash_char h ≡ true
    → any (λ c. c == b'/') p ≡ true
    → has_prefix h p ≡ false
no_slash h p a e =
    has_prefix-lacks (λ c. c == b'/') h p (none_in (λ c. c == b'/') h (λ c e. ground arith) a) e

hash_behind-raw : (h : Text) → all is_hash_char h ≡ true → hash_behind url_prefixes h ≡ h
unfolding hash_behind
hash_behind-raw h a =
    rw
      (
        no_slash h play_url a refl,
        no_slash h (codes "http://go.dev/play/p/") a refl,
        no_slash h (codes "https://play.golang.org/p/") a refl,
        no_slash h (codes "http://play.golang.org/p/") a refl,
      )
      (raw_hash-hash h a)

hash_behind-url : (h : Text) → IsHash h → hash_behind url_prefixes (play_url ++ h) ≡ h
unfolding hash_behind has_prefix
hash_behind-url h i = rw (without_go-hash h i.allowed, i.named) refl

-- A raw hash is extracted as it is.
pub extract_hash-raw : (h : Text) → IsHash h → extract_hash h ≡ h
unfolding extract_hash
extract_hash-raw h i =
    rw (trim-same h (none_in is_space h (λ c e. ground arith) i.allowed), i.named)
      (hash_behind-raw h i.allowed)

-- So is the hash in the URL that Share returns.
pub extract_hash-url : (h : Text) → IsHash h → extract_hash (play_url ++ h) ≡ h
unfolding extract_hash
extract_hash-url h i =
    let solid : any is_space (play_url ++ h) ≡ false =
      ground (
        arith,
        any-append is_space play_url h,
        none_in is_space h (λ c e. ground arith) i.allowed,
      ) in
    rw (trim-same (play_url ++ h) solid) (hash_behind-url h i)

shared_body-url :
    (body : Option (List ℕ)) (r : ShareResult)
    → shared_body body ≡ ok r
    → (r.url ≡ play_url ++ r.hash) × (is_empty r.hash ≡ false)
shared_body-url none r e = cc
shared_body-url (some body) r e = go (trim_space (take 256 body)) e
  where
    go : (h : Text) → with_hash h ≡ ok r → (r.url ≡ play_url ++ r.hash) × (is_empty r.hash ≡ false)
    go [] e = cc
    go (c ∷ h) e =
        let same : record { url = play_url ++ c ∷ h; hash = c ∷ h } ≡ r = cc e in
        subst (λ x. (x.url ≡ play_url ++ x.hash) × (is_empty x.hash ≡ false)) same (refl, refl)

shared_url :
    (reply : Reply) (r : ShareResult)
    → shared reply ≡ ok r
    → (r.url ≡ play_url ++ r.hash) × (is_empty r.hash ≡ false)
shared_url no_request r e = cc
shared_url no_response r e = cc
shared_url (response status body) r e = elim (Bool-cases (status == 200)) [
  | inl t ↦ shared_body-url body r (ground (arith, t, e))
  | inr f ↦ absurd (ground (arith, f, e))
]

share-shared :
    (post : Text → Reply) (source : Text) (r : ShareResult)
    → share post source ≡ ok r
    → shared (post source) ≡ ok r
unfolding share
share-shared post source r e = ground (arith, e)

-- What Share returns can be imported, by its URL or by its hash: both fetch the same source, from the
-- URL of the hash, if the answer's hash has only the characters of one.
pub share-import :
    (post get : Text → Reply) (source : Text) (r : ShareResult)
    → share post source ≡ ok r
    → all is_hash_char r.hash ≡ true
    → (import_source get r.url ≡ imported r.hash (get (play_url ++ r.hash ++ codes ".go")))
      × (import_source get r.hash ≡ imported r.hash (get (play_url ++ r.hash ++ codes ".go")))
unfolding import_source
share-import post get source r e a =
    let (at, named) = shared_url (post source) r (share-shared post source r e) in
    let hash : IsHash r.hash = record { named = named; allowed = a } in
    let from_url : extract_hash r.url ≡ r.hash =
      ap extract_hash at ∙ extract_hash-url r.hash hash in
    (rw (from_url, named) refl, rw (extract_hash-raw r.hash hash, named) refl)
