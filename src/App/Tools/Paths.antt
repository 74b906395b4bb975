-- ===== src/App/Tools/Paths.antt =====
-- About the PATH that applyToolchainPaths of internal/app/app.go sets.
use gopoke.Base.{
  ℕ, ◌≡◌, refl, sym, ap, ◌∙◌, Bool, false, Option, List, [], ◌∷◌, ◌++◌, not, reverse, ◌==◌, All,
  All-append, Bool-cases, inl, inr, ok,
}
use mathlib.Core.List.{append_assoc, append-nil}
use gopoke.Text.{Text, is_empty, drop_while}
use gopoke.Text.Split.{split_on, join_on, IsPart, split_on-append, split_on-join_on}
use gopoke.Text.FilePath.{is_abs, or_dot, clean, dir_of}
use gopoke.Settings.{GlobalSettings}
use gopoke.App.Tools.{Environ, is_file, tool_dir, prepended, path_with, apply_toolchain_paths}

-- The directories of a PATH; an empty one has none.
abbrev pub path_dirs : Text → List Text
path_dirs [] = []
path_dirs (c ∷ s) = split_on b':' (c ∷ s)

split-front :
    (d : Text) (ds : List Text) (s : Text)
    → All (IsPart b':') (d ∷ ds)
    → split_on b':' (join_on b':' (d ∷ ds) ++ b':' ∷ s) ≡ (d ∷ ds) ++ split_on b':' s
unfolding join_on
split-front d [] s h = split_on-append b':' d s h.0
split-front d (k ∷ ds) s h =
    ap (split_on b':') (append_assoc d (b':' ∷ join_on b':' (k ∷ ds)) (b':' ∷ s))
    ∙ split_on-append b':' d (join_on b':' (k ∷ ds) ++ b':' ∷ s) h.0
    ∙ ap (λ r. d ∷ r) (split-front k ds s h.1)

or_dot-named : (s : Text) → is_empty (or_dot s) ≡ false
or_dot-named [] = refl
or_dot-named (c ∷ s) = refl

path_dirs-split : (s : Text) → is_empty s ≡ false → path_dirs s ≡ split_on b':' s
path_dirs-split [] h = cc
path_dirs-split (c ∷ s) h = refl

longer : (s t : Text) (c : ℕ) → is_empty (s ++ c ∷ t) ≡ false
longer [] t c = refl
longer (d ∷ s) t c = refl

joined_named :
    (d : Text) (ds : List Text) → is_empty d ≡ false → is_empty (join_on b':' (d ∷ ds)) ≡ false
unfolding join_on
joined_named d [] h = h
joined_named d (k ∷ ds) h = longer d (join_on b':' (k ∷ ds)) b':'

path_with-dirs :
    (ds : List Text) (current : Text)
    → All (IsPart b':') ds
    → All (λ d. is_empty d ≡ false) ds
    → path_dirs (path_with ds current) ≡ ds ++ path_dirs current
unfolding path_with
path_with-dirs [] current h n = refl
path_with-dirs (d ∷ ds) [] h n =
    path_dirs-split _ (joined_named d ds n.0)
    ∙ split_on-join_on b':' d ds h
    ∙ sym (append-nil (d ∷ ds))
path_with-dirs (d ∷ ds) (c ∷ s) h n =
    path_dirs-split _ (longer (join_on b':' (d ∷ ds)) (c ∷ s) b':') ∙ split-front d ds (c ∷ s) h

clean-named : (path : Text) → is_empty (clean path) ≡ false
unfolding clean
clean-named path = elim (Bool-cases (is_abs path)) [
  | inl e ↦ rw e refl
  | inr e ↦ rw e (or_dot-named _)
]

dir_of-named : (path : Text) → is_empty (dir_of path) ≡ false
unfolding dir_of
dir_of-named path = clean-named (reverse (drop_while (λ c. not (c == b'/')) (reverse path)))

dirs-named :
    (stat : Text → Option Bool) (tool : Text) → All (λ d. is_empty d ≡ false) (tool_dir stat tool)
dirs-named stat tool = elim (Bool-cases (is_empty tool)) [
  | inl e ↦ rw e tt
  | inr e ↦ elim (Bool-cases (is_file (stat tool))) [
    | inl f ↦ rw (e, f) (dir_of-named tool, tt)
    | inr f ↦ rw (e, f) tt
  ]
]

prepended-named :
    (stat : Text → Option Bool) (gs : GlobalSettings)
    → All (λ d. is_empty d ≡ false) (prepended stat gs)
unfolding prepended
prepended-named stat gs =
    All-append _ (tool_dir stat gs.go_path ++ tool_dir stat gs.gopls_path) _
      (All-append _ (tool_dir stat gs.go_path) _ (dirs-named stat gs.go_path)
        (dirs-named stat gs.gopls_path))
      (dirs-named stat gs.staticcheck_path)

-- After applyToolchainPaths the directories of PATH are those of the configured tools that are files,
-- in the order go, gopls, staticcheck, and then those that were there; if no tool's directory has a
-- colon in its name.
pub apply_toolchain_paths-path_dirs :
    (stat : Text → Option Bool) (gs : GlobalSettings) (env : Environ)
    → All (IsPart b':') (prepended stat gs)
    → path_dirs (apply_toolchain_paths {E = Unit {0}} stat (ok gs) env).path
      ≡ prepended stat gs ++ path_dirs env.path
unfolding apply_toolchain_paths
apply_toolchain_paths-path_dirs stat gs env h =
    path_with-dirs (prepended stat gs) env.path h (prepended-named stat gs)
