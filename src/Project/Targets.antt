-- ===== src/Project/Targets.antt =====
-- internal/project/targets.go over a directory tree. filepath.WalkDir visits a directory before the
-- directories in it, which come in the order of their names; what go/build and go/parser say of a
-- file comes with the file.
use gopoke.Base.{
  Bool, true, false, ◌&&◌, ◌||◌, not, Option, none, some, List, [], ◌∷◌, ◌++◌, reverse, any, Result,
  ok, err, CtxError, if◌then◌else◌,
}
use gopoke.Base.Sort.{sort}
use gopoke.Text.{Text, codes, text_eq, text_lt, is_empty, has_prefix}

-- RunTarget
pub record RunTarget : Type 0 where
  pub package_path : Text
  pub command : Text
  pub path : Text

-- An entry of a directory that may be a source file: whether it matches the build constraints, and,
-- if it can be parsed, its package name and whether it declares a function main.
pub record SourceFile : Type 0 where
  pub name : Text
  pub is_dir : Bool
  pub matches : Bool
  pub parsed : Option (Text × Bool)

pub data Error : Type 0 where
  context : CtxError → Error
  root_required resolve_failed walk_failed read_failed parse_failed : Error

mutual
  -- A directory with its name, its entries (none if they cannot be read), and its subdirectories.
  pub data Dir : Type 0 where
    dir : Text → Option (List SourceFile) → Dirs → Dir

  pub data Dirs : Type 0 where
    nil : Dirs
    cons : Dir → Dirs → Dirs

-- skippedDirectories
abbrev pub skipped : Text → Bool
skipped name =
    text_eq name (codes ".git")
    || text_eq name (codes ".idea")
    || text_eq name (codes ".vscode")
    || text_eq name (codes "node_modules")
    || text_eq name (codes "vendor")

-- A directory that the walk keeps, by its path from the root: empty for the root, and else with a
-- slash in front.
pub record Found : Type 0 where
  pub relative : Text
  pub entries : Option (List SourceFile)

abbrev pub child_path : Text → Text → Text
child_path parent name = parent ++ codes "/" ++ name

-- The walk below the root, where hidden directories are skipped too.
unfoldable mutual
  unfolding text_eq has_prefix

  pub walk_dir : Text → Dir → List Found
  walk_dir parent (dir name entries below) =
      let path = child_path parent name in
      let kept = record { relative = path; entries = entries } ∷ walk_dirs path below in
      if skipped name || has_prefix name (codes ".") then [] else kept

  pub walk_dirs : Text → Dirs → List Found
  walk_dirs parent nil = []
  walk_dirs parent (cons d ds) = walk_dir parent d ++ walk_dirs parent ds

-- The walk from the root.
unfoldable pub walk : Dir → List Found
unfolding walk_dirs text_eq
walk (dir name entries below) =
    if skipped name then [] else record { relative = []; entries = entries } ∷ walk_dirs [] below

abbrev pub is_go_source : SourceFile → Bool
is_go_source f =
    not f.is_dir
    && has_prefix (reverse f.name) (reverse (codes ".go"))
    && not (has_prefix (reverse f.name) (reverse (codes "_test.go")))
    && f.matches

abbrev pub or_name : Text → Text → Text
or_name package_path name = if is_empty package_path then name else package_path

abbrev pub with_file :
    Option (Text × Bool) → (Text → Bool → Result Error Bool) → Text → Bool → Result Error Bool
with_file none next package_path main = err parse_failed
with_file (some (name, m)) next package_path main = next (or_name package_path name) (main || m)

-- The loop over the Go files, with packageName and hasMainFunc.
unfoldable pub inspect : List SourceFile → Text → Bool → Result Error Bool
unfolding has_prefix text_eq
inspect [] package_path main = ok (text_eq package_path (codes "main") && main)
inspect (f ∷ fs) package_path main =
    let here = with_file f.parsed (inspect fs) package_path main in
    let past = inspect fs package_path main in if is_go_source f then here else past

-- isRunnableMainPackage
unfoldable pub is_runnable_main_package : Option (List SourceFile) → Result Error Bool
unfolding inspect
is_runnable_main_package none = err read_failed
is_runnable_main_package (some fs) = inspect fs [] false

-- The path of a directory that the walk comes to, below the root; the root "/" ends in a slash already.
abbrev pub path_below : Text → Text → Text
path_below root relative = if text_eq root (codes "/") then relative else root ++ relative

abbrev pub target_at : Text → Text → RunTarget
target_at root [] = record { package_path = codes "."; command = codes "go run ."; path = root }
target_at root (c ∷ s) = record {
  package_path = codes "." ++ c ∷ s;
  command = codes "go run ." ++ c ∷ s;
  path = path_below root (c ∷ s);
}

abbrev pub add_target :
    Result Error Bool → RunTarget → Result Error (List RunTarget) → Result Error (List RunTarget)
add_target (err e) t rest = err e
add_target (ok false) t rest = rest
add_target (ok true) t (err e) = err e
add_target (ok true) t (ok ts) = ok (t ∷ ts)

-- The loop over the directories.
unfoldable pub runnable : Text → List Found → Result Error (List RunTarget)
unfolding is_runnable_main_package
runnable root [] = ok []
runnable root (f ∷ fs) =
    add_target (is_runnable_main_package f.entries) (target_at root f.relative) (runnable root fs)

abbrev pub package_before : RunTarget → RunTarget → Bool
package_before a b = text_lt a.package_path b.package_path

abbrev pub sorted : Result Error (List RunTarget) → Result Error (List RunTarget)
sorted (err e) = err e
sorted (ok ts) = ok (sort package_before ts)

-- DiscoverRunTargets of an absolute root with the tree below it, while the context is alive.
unfoldable pub discover_run_targets : Text → Dir → Result Error (List RunTarget)
unfolding runnable walk sort text_lt
discover_run_targets root tree = sorted (runnable root (walk tree))

-- hasRunTarget of service.go
unfoldable pub has_run_target : List RunTarget → Text → Bool
unfolding text_eq
has_run_target targets package_path = any (λ t. text_eq t.package_path package_path) targets
