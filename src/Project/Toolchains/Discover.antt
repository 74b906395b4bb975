-- ===== src/Project/Toolchains/Discover.antt =====
-- DiscoverToolchains of internal/project/toolchains.go, while its context is alive. What os.ReadDir
-- lists, and what `version` prints, are arguments.
pub mod Paths
use gopoke.Base.{
  ℕ, Bool, true, false, not, ◌&&◌, ◌||◌, Option, none, some, List, [], ◌∷◌, ◌++◌, any, all, drop,
  filter, Result, ok, err, CtxError, leb, if◌then◌else◌,
}
use gopoke.Base.Sort.{sort}
use gopoke.Text.{Text, codes, text_eq, text_lt, is_empty, has_prefix, trim_space}
use gopoke.Text.Split.{split_on}
use gopoke.Project.Toolchains
use gopoke.Project.Toolchains.{Binaries, resolve_toolchain_binary}

-- ToolchainInfo
pub record ToolchainInfo : Type 0 where
  pub name : Text
  pub path : Text
  pub version : Text

-- An entry of a directory of PATH: its name, and whether it is a directory.
pub record DirEntry : Type 0 where
  pub name : Text
  pub is_dir : Bool

pub data Error : Type 0 where
  context : CtxError → Error
  none_found : Error

abbrev pub is_number : Text → Bool
is_number s = not (is_empty s) && all (λ c. leb b'0' c && leb c b'9') s

-- goToolchainPattern: `go`, alone or with numbers between dots behind it.
unfoldable pub is_toolchain_name : Text → Bool
unfolding has_prefix split_on
is_toolchain_name name =
    let version = drop 2 name in
    has_prefix name (codes "go") && (is_empty version || all is_number (split_on b'.' version))

-- A map of names, to which one is added.
abbrev pub add_name : Text → List Text → List Text
add_name name names = if any (text_eq name) names then names else name ∷ names

-- The loop over the entries of a directory.
unfoldable pub add_entries : List DirEntry → List Text → List Text
unfolding is_toolchain_name text_eq
add_entries [] names = names
add_entries (e ∷ es) names =
    add_entries es (
      if e.is_dir then names else if is_toolchain_name e.name then add_name e.name names else names)

abbrev pub add_listed : Option (List DirEntry) → List Text → List Text
add_listed none names = names
add_listed (some es) names = add_entries es names

-- The loop over the directories of PATH.
unfoldable pub add_dirs : (Text → Option (List DirEntry)) → List Text → List Text → List Text
unfolding add_entries trim_space
add_dirs read_dir [] names = names
add_dirs read_dir (d ∷ ds) names =
    add_dirs read_dir ds (if is_empty (trim_space d) then names else add_listed (read_dir d) names)

-- The names in the order in which they are tried.
unfoldable pub tried_names : List Text → List Text
unfolding sort text_lt text_eq
tried_names names = codes "go" ∷ sort text_lt (filter (λ n. not (text_eq n (codes "go"))) names)

abbrev pub printed : Option Text → Text
printed none = codes "unknown"
printed (some output) = if is_empty (trim_space output) then codes "unknown" else trim_space output

-- toolchainVersion
unfoldable pub toolchain_version : (Text → Option Text) → Text → Text
unfolding trim_space
toolchain_version run path = printed (run path)

-- One round of the last loop: `next` is the rest of it, over the paths that are seen.
abbrev pub place :
    (Text → Option Text)
    → Text
    → Result Toolchains.Error Text
    → List Text
    → (List Text → List ToolchainInfo)
    → List ToolchainInfo
place run name (err e) seen next = next seen
place run name (ok p) seen next =
    let rest = next (p ∷ seen) in
    if any (text_eq p) seen
    then next seen
    else record { name = name; path = p; version = toolchain_version run p } ∷ rest

-- The last loop.
unfoldable pub resolve_names :
    Binaries → (Text → Option Text) → List Text → List Text → List ToolchainInfo
unfolding resolve_toolchain_binary toolchain_version text_eq
resolve_names b run [] seen = []
resolve_names b run (n ∷ ns) seen =
    place run n (resolve_toolchain_binary b n) seen (resolve_names b run ns)

abbrev pub some_found : List ToolchainInfo → Result Error (List ToolchainInfo)
some_found [] = err none_found
some_found (t ∷ ts) = ok (t ∷ ts)

-- DiscoverToolchains, over the directories of PATH.
unfoldable pub discover_toolchains :
    Binaries
    → (Text → Option (List DirEntry))
    → (Text → Option Text)
    → List Text
    → Option CtxError
    → Result Error (List ToolchainInfo)
unfolding resolve_names tried_names add_dirs
discover_toolchains b read_dir run path (some e) = err (context e)
discover_toolchains b read_dir run path none =
    some_found (resolve_names b run (tried_names (add_dirs read_dir path (codes "go" ∷ []))) [])
