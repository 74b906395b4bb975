-- ===== src/Playground/Tests.antt =====
-- Runs of the playground's client.
use gopoke.Base.{◌≡◌, refl, some, [], ◌++◌}
use gopoke.Text.{Text, codes}
use gopoke.Playground.{
  Reply, ShareResult, response, play_url, share, extract_hash, imported, import_source,
}
use gopoke.Playground.Laws.{share-import}

-- The server answers with the hash on a line, and knows one source.
abbrev post : Text → Reply
post source = response 200 (some (codes "aB_3-x\n"))

abbrev get : Text → Reply
get url = response 200 (some (codes "package main"))

abbrev result : ShareResult
result = record { url = codes "https://go.dev/play/p/aB_3-x"; hash = codes "aB_3-x" }

share-import_example :
    (import_source get result.url
      ≡ imported result.hash (get (play_url ++ result.hash ++ codes ".go")))
    × (import_source get result.hash
        ≡ imported result.hash (get (play_url ++ result.hash ++ codes ".go")))
unfolding share
share-import_example = share-import post get (codes "x") result refl refl

go_suffix : extract_hash (codes " http://play.golang.org/p/q1.go ") ≡ codes "q1"
unfolding extract_hash
go_suffix = refl

-- Behind a prefix the characters are not looked at.
unchecked : extract_hash (codes "https://go.dev/play/p/../../x?y=1") ≡ codes "../../x?y=1"
unfolding extract_hash
unchecked = refl

no_hash : extract_hash (codes "https://example.org/p/a") ≡ []
unfolding extract_hash
no_hash = refl
