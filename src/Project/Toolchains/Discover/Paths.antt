-- ===== src/Project/Toolchains/Discover/Paths.antt =====
-- About the paths that DiscoverToolchains of internal/project/toolchains.go returns.
use gopoke.Base.{
  ◌≡◌, refl, ◌∙◌, subst, Bool, false, Option, none, some, List, [], ◌∷◌, All, any, Bool-cases, inl,
  inr, Result, ok, err, CtxError, arith,
}
use gopoke.Base.Distinct.{IsDistinct}
use gopoke.Text.{Text, codes, text_eq, text_eq_sym}
use gopoke.Project.Toolchains
use gopoke.Project.Toolchains.{Binaries, resolve_toolchain_binary}
use gopoke.Project.Toolchains.Discover.{
  ToolchainInfo, DirEntry, place, tried_names, add_dirs, resolve_names, some_found,
  discover_toolchains,
}

abbrev pub same_path : ToolchainInfo → ToolchainInfo → Bool
same_path t u = text_eq t.path u.path

-- What stands in a result: the path of its name.
pub record IsResolved (b : Binaries) (t : ToolchainInfo) : Type 0 where
  pub resolved : resolve_toolchain_binary b t.name ≡ ok t.path

-- Toolchains whose paths are new and distinct, and each the one that its name resolves to.
record Fresh (b : Binaries) (seen : List Text) (ts : List ToolchainInfo) : Type 0 where
  unseen : All (λ t. any (text_eq t.path) seen ≡ false) ts
  distinct : IsDistinct same_path ts
  resolved : All (IsResolved b) ts

weaken_seen :
    (p : Text) (seen : List Text) (ts : List ToolchainInfo)
    → All (λ t. any (text_eq t.path) (p ∷ seen) ≡ false) ts
    → All (λ t. any (text_eq t.path) seen ≡ false) ts
weaken_seen p seen [] a = tt
weaken_seen p seen (t ∷ ts) a = (ground (arith, a.0), weaken_seen p seen ts a.1)

apart :
    (p : Text) (seen : List Text) (ts : List ToolchainInfo)
    → All (λ u. any (text_eq u.path) (p ∷ seen) ≡ false) ts
    → any (λ u. text_eq p u.path) ts ≡ false
apart p seen [] a = refl
apart p seen (u ∷ ts) a =
    let other : text_eq p u.path ≡ false = text_eq_sym p u.path ∙ ground (arith, a.0) in
    rw other (apart p seen ts a.1)

place-Fresh :
    (b : Binaries) (run : Text → Option Text) (name : Text) (r : Result Toolchains.Error Text)
    (seen : List Text) (next : List Text → List ToolchainInfo)
    → resolve_toolchain_binary b name ≡ r
    → ((seen : List Text) → Fresh b seen (next seen))
    → Fresh b seen (place run name r seen next)
place-Fresh b run name (err e) seen next h f = f seen
place-Fresh b run name (ok p) seen next h f = elim (Bool-cases (any (text_eq p) seen)) [
  | inl e ↦ rw e (f seen)
  | inr e ↦
      let rest = f (p ∷ seen) in
      rw e (record {
        unseen = (e, weaken_seen p seen _ rest.unseen);
        distinct = (apart p seen _ rest.unseen, rest.distinct);
        resolved = (record { resolved = h }, rest.resolved);
      })
]

resolve_names-Fresh :
    (b : Binaries) (run : Text → Option Text) (names : List Text) (seen : List Text)
    → Fresh b seen (resolve_names b run names seen)
unfolding resolve_names
resolve_names-Fresh b run [] seen = record { unseen = tt; distinct = tt; resolved = tt }
resolve_names-Fresh b run (n ∷ ns) seen =
    place-Fresh b run n (resolve_toolchain_binary b n) seen (resolve_names b run ns) refl
      (resolve_names-Fresh b run ns)

found-Fresh :
    (b : Binaries) (us ts : List ToolchainInfo)
    → some_found us ≡ ok ts
    → Fresh b [] us
    → IsDistinct same_path ts × All (IsResolved b) ts
found-Fresh b [] ts h f = cc
found-Fresh b (u ∷ us) ts h f =
    let same : u ∷ us ≡ ts = cc h in
    subst (λ ts. IsDistinct same_path ts × All (IsResolved b) ts) same (f.distinct, f.resolved)

-- The toolchains that DiscoverToolchains returns have distinct paths, and each path is what
-- ResolveToolchainBinary makes of the toolchain's name.
pub discover_toolchains-distinct :
    (b : Binaries) (read_dir : Text → Option (List DirEntry)) (run : Text → Option Text)
    (path : List Text) (ctx : Option CtxError) (ts : List ToolchainInfo)
    → discover_toolchains b read_dir run path ctx ≡ ok ts
    → IsDistinct same_path ts × All (IsResolved b) ts
unfolding discover_toolchains
discover_toolchains-distinct b read_dir run path (some e) ts h = cc
discover_toolchains-distinct b read_dir run path none ts h =
    let names = tried_names (add_dirs read_dir path (codes "go" ∷ [])) in
    found-Fresh b (resolve_names b run names []) ts h (resolve_names-Fresh b run names [])
