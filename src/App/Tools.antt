-- ===== src/App/Tools.antt =====
-- The methods of internal/app/app.go that concern the tools of the system: applyToolchainPaths,
-- DetectToolVersions, FormatSnippet with internal/formatting/gofmt.go, and the playground's. What the
-- operating system, gofmt and the tools answer are arguments.
pub mod Paths
use gopoke.Base.{
  ℕ, Bool, true, false, Option, none, some, List, [], ◌∷◌, ◌++◌, Result, ok, err, CtxError,
  if◌then◌else◌,
}
use gopoke.Text.{Text, codes, is_empty, trim_space}
use gopoke.Text.FilePath.{dir_of}
use gopoke.Text.Split.{join_on}
use gopoke.Settings.{GlobalSettings}
use gopoke.Playground
use gopoke.Playground.{Reply, ShareResult, share, import_source}

-- The variables of the process that applyToolchainPaths sets; os.Getenv of one that is not set is empty.
pub record Environ : Type 0 where
  pub path : Text
  pub goroot : Text
  pub gopath : Text
  pub gomodcache : Text

-- A configured tool that os.Stat finds and that is no directory; none is a failed os.Stat.
abbrev pub is_file : Option Bool → Bool
is_file none = false
is_file (some true) = false
is_file (some false) = true

abbrev pub tool_dir : (Text → Option Bool) → Text → List Text
tool_dir stat tool =
    if is_empty tool then [] else if is_file (stat tool) then dir_of tool ∷ [] else []

-- `prepend`
unfoldable pub prepended : (Text → Option Bool) → GlobalSettings → List Text
unfolding dir_of
prepended stat gs =
    tool_dir stat gs.go_path ++ tool_dir stat gs.gopls_path ++ tool_dir stat gs.staticcheck_path

-- The new PATH.
unfoldable pub path_with : List Text → Text → Text
unfolding join_on
path_with [] current = current
path_with (d ∷ ds) current =
    if is_empty current then join_on b':' (d ∷ ds) else join_on b':' (d ∷ ds) ++ b':' ∷ current

abbrev pub set_if : Text → Text → Text
set_if value current = if is_empty value then current else value

abbrev pub goroot_of : (Text → Option Bool) → Text → Text → Text
goroot_of stat go_path current =
    if is_empty go_path
    then current
    else if is_file (stat go_path)
    then dir_of (dir_of go_path)
    else current

abbrev pub with_settings : (Text → Option Bool) → GlobalSettings → Environ → Environ
with_settings stat gs env = record {
  path = path_with (prepended stat gs) env.path;
  goroot = goroot_of stat gs.go_path env.goroot;
  gopath = set_if gs.go_path_override env.gopath;
  gomodcache = set_if gs.go_mod_cache_override env.gomodcache;
}

-- Application.applyToolchainPaths, with what GetSettings returns.
unfoldable pub apply_toolchain_paths :
    {E : Type 0} → (Text → Option Bool) → Result E GlobalSettings → Environ → Environ
unfolding path_with prepended dir_of
apply_toolchain_paths stat (err e) env = env
apply_toolchain_paths stat (ok gs) env = with_settings stat gs env

abbrev pub version_in : Option Text → Text
version_in none = []
version_in (some out) = trim_space out

-- One tool of ToolVersions: its path and its version.
abbrev pub detected : (Text → Option Text) → Option Text → Text × Text
detected run none = ([], [])
detected run (some path) = (path, version_in (run path))

-- DetectToolVersions, with exec.LookPath and the outputs of `go version`, `gopls version` and
-- `staticcheck -version`.
unfoldable pub detect_tool_versions :
    (Text → Option Text)
    → (Text → Option Text)
    → (Text → Option Text)
    → (Text → Option Text)
    → (Text × Text) × (Text × Text) × (Text × Text)
unfolding trim_space
detect_tool_versions look_path go gopls staticcheck = (
  detected go (look_path (codes "go")),
  detected gopls (look_path (codes "gopls")),
  detected staticcheck (look_path (codes "staticcheck")),
)

pub data Error : Type 0 where
  context : CtxError → Error
  source_required gofmt_failed input_required : Error
  playground : Playground.Error → Error

abbrev pub gofmt : Option Text → Result Error Text
gofmt none = err gofmt_failed
gofmt (some formatted) = ok formatted

-- GoSource, where `format` is format.Source.
unfoldable pub go_source : (Text → Option Text) → Text → Result Error Text
unfolding trim_space
go_source format source =
    if is_empty (trim_space source) then err source_required else gofmt (format source)

-- Application.FormatSnippet
unfoldable pub format_snippet : (Text → Option Text) → Option CtxError → Text → Result Error Text
unfolding go_source
format_snippet format (some e) source = err (context e)
format_snippet format none source = go_source format source

abbrev pub in_playground : {A : Type 0} → Result Playground.Error A → Result Error A
in_playground (ok a) = ok a
in_playground (err e) = err (playground e)

-- Application.PlaygroundShare
unfoldable pub playground_share : (Text → Reply) → Text → Result Error ShareResult
unfolding trim_space share
playground_share post source =
    if is_empty (trim_space source) then err source_required else in_playground (share post source)

-- Application.PlaygroundImport
unfoldable pub playground_import : (Text → Reply) → Text → Result Error (List ℕ)
unfolding trim_space import_source
playground_import get input =
    if is_empty (trim_space input)
    then err input_required
    else in_playground (import_source get input)
