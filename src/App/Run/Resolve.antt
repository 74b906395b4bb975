-- ===== src/App/Run/Resolve.antt =====
-- resolveRunRequest and resolveWorkingDirectory of internal/app/app.go.
pub mod Valid
use gopoke.Base.{
  ℕ, suc, ◌+◌, ◌-◌, ◌*◌, ◌%◌, ◌^◌, ltb, Bool, true, false, ◌||◌, Option, none, some, List, [], ◌∷◌,
  Result, ok, err, CtxError, if◌then◌else◌,
}
use gopoke.Base.Int.{ℤ, pos, negsuc}
use gopoke.Base.Update.{find}
use gopoke.Text.{Text, codes, text_eq, is_empty, trim_space}
use gopoke.Storage.Schema.{ProjectRecord}
use gopoke.Storage.Monad
use gopoke.Storage.Monad.{Store, Call, Action}
use gopoke.Storage.Projects.{record_project_open, project_by_path}
use gopoke.Storage.EnvVars.{project_env_map}
use gopoke.Execution.Environment.{Environment}
use gopoke.Execution.Start.{default_timeout}
use gopoke.Project.Targets
use gopoke.Project.Targets.{RunTarget, Dir, discover_run_targets}
use gopoke.Project.Toolchains
use gopoke.Project.Toolchains.{Binaries, resolve_toolchain_binary}
use gopoke.Storage.Step.{wrap, ◌>>=◌, stored, lift}
use gopoke.App.Step.{
  Error, snippet_required, no_scratch, inspect_failed, not_a_directory, not_a_target, path,
  toolchain, storage, targets, Step,
}
use gopoke.App.Paths
use gopoke.App.Paths.{System, resolve_input_path, resolve_project_working_directory}

-- execution.RunRequest
pub record Request : Type 0 where
  pub run_id : Text
  pub project_path : Text
  pub package_path : Text
  pub source : Text
  pub timeout_ms : ℤ

-- resolvedRunRequest
pub record ResolvedRequest : Type 0 where
  pub project_id : Text
  pub project_path : Text
  pub source : Text
  pub working_directory : Text
  pub toolchain : Text
  pub environment : Environment
  pub timeout : ℤ

-- What the operating system says of paths, directory trees and programs.
pub record Host : Type 0 where
  pub system : System
  pub tree : Text → Dir
  pub binaries : Binaries

-- What the calls of resolveRunRequest meet: those of the store, and ctx.Err() in the discovery.
pub record Calls : Type 0 where
  pub lookup : Call
  pub create : Call
  pub env : Call
  pub discover : Option CtxError

-- A signed 64-bit integer from its lowest bits.
abbrev pub signed : ℕ → ℤ
signed n = if ltb n (2 ^ 63) then pos n else negsuc (2 ^ 64 - n - 1)

-- `timeout := execution.DefaultTimeout; if request.TimeoutMS > 0 { ... }`
abbrev pub timeout_of : ℤ → ℤ
timeout_of (pos (suc n)) = signed ((suc n * 1000000) % 2 ^ 64)
timeout_of ms = default_timeout

abbrev pub discovered : Text → Dir → Option CtxError → Result Error (List RunTarget)
discovered project tree (some e) = err (targets (Targets.context e))
discovered project tree none = wrap targets (discover_run_targets project tree)

abbrev pub found_target : Option RunTarget → Result Error Text
found_target none = err not_a_target
found_target (some t) = ok t.path

abbrev pub target_in : Text → Result Error (List RunTarget) → Result Error Text
target_in package_path (err e) = err e
target_in package_path (ok ts) = found_target (find (λ t. text_eq t.package_path package_path) ts)

-- resolveWorkingDirectory
unfoldable pub resolve_working_directory :
    Host → Option CtxError → Text → Text → Text → Result Error Text
unfolding find text_eq trim_space discover_run_targets resolve_project_working_directory
resolve_working_directory host ctx project package_path saved =
    if is_empty (trim_space saved)
    then if is_empty package_path || text_eq package_path (codes ".")
      then ok project
      else target_in package_path (discovered project (host.tree project) ctx)
    else wrap path (resolve_project_working_directory host.system project saved)

abbrev pub checked_directory : Text → Option Bool → Result Error Text
checked_directory project none = err inspect_failed
checked_directory project (some false) = err not_a_directory
checked_directory project (some true) = ok project

abbrev pub checked_project : Host → Result Paths.Error Text → Result Error Text
checked_project host (err e) = err (path e)
checked_project host (ok project) = checked_directory project (host.system.is_dir project)

-- selectedPackage
abbrev pub selected_package : Text → Option ProjectRecord → Text
selected_package given none = given
selected_package given (some p) = if is_empty given then trim_space p.default_pkg else given

abbrev pub or_text : Text → Text → Text
or_text s default = if is_empty s then default else s

-- The project's record, made if there is none.
abbrev pub known_or_opened : Call → Text → Text → Option ProjectRecord → Step ProjectRecord
known_or_opened c project package_path none =
    stored storage (record_project_open c project (or_text package_path (codes ".")))
known_or_opened c project package_path (some p) = lift (ok p)

-- The part of resolveRunRequest for a directory.
unfoldable pub resolve_project : Host → Calls → Request → Text → Step ResolvedRequest
unfolding resolve_working_directory resolve_toolchain_binary project_by_path record_project_open
    project_env_map stored lift trim_space
resolve_project host calls request project = do
  found ← stored storage (project_by_path calls.lookup project)
  let package_path = selected_package (trim_space request.package_path) found
  p ← known_or_opened calls.create project package_path found
  dir ← lift (resolve_working_directory host calls.discover project package_path p.working_dir)
  env ← stored storage (project_env_map calls.env p.id)
  binary ← lift (
      wrap toolchain
        (resolve_toolchain_binary host.binaries (or_text (trim_space p.toolchain) (codes "go"))))
  lift (
      ok (record {
        project_id = p.id;
        project_path = project;
        source = request.source;
        working_directory = dir;
        toolchain = binary;
        environment = env;
        timeout = timeout_of request.timeout_ms;
      }))

-- The part of resolveRunRequest without a project.
unfoldable pub resolve_scratch : Host → Text → Request → Step ResolvedRequest
unfolding resolve_toolchain_binary lift
resolve_scratch host [] request = lift (err no_scratch)
resolve_scratch host (c ∷ dir) request = do
  binary ← lift (wrap toolchain (resolve_toolchain_binary host.binaries (codes "go")))
  lift (
      ok (record {
        project_id = [];
        project_path = c ∷ dir;
        source = request.source;
        working_directory = c ∷ dir;
        toolchain = binary;
        environment = λ k. none;
        timeout = timeout_of request.timeout_ms;
      }))

-- resolveRunRequest, with the scratch directory, empty if there is none.
unfoldable pub resolve_run_request : Host → Text → Calls → Request → Step ResolvedRequest
unfolding resolve_input_path resolve_project resolve_scratch trim_space lift
resolve_run_request host scratch calls request =
    if is_empty (trim_space request.source)
    then lift (err snippet_required)
    else if is_empty (trim_space request.project_path)
    then resolve_scratch host scratch request
    else do
      project ← lift (checked_project host (resolve_input_path host.system request.project_path))
      resolve_project host calls request project
