-- ===== src/Project/Service.antt =====
-- internal/project/service.go: Open, Recent and SetDefaultPackage over the store. What the file system
-- answers is an argument, and so is what each call of the store meets.
pub mod Laws
pub mod Default
use gopoke.Base.{
  ℕ, Bool, true, false, Option, none, some, List, [], ◌∷◌, map, Result, ok, err, CtxError,
  if◌then◌else◌,
}
use gopoke.Base.Int.{ℤ}
use gopoke.Base.Sort.{sort}
use gopoke.Base.Update.{find}
use gopoke.Text.{Text, text_eq, text_lt, is_empty}
use gopoke.Storage.Schema.{ProjectRecord, EnvVarRecord}
use gopoke.Storage.Monad
use gopoke.Storage.Monad.{Call}
use gopoke.Storage.Step.{Step as StoreStep, wrap, ◌>>=◌, stored, lift}
use gopoke.Storage.Projects.{
  project_by_path, record_project_open, update_project_default_package, recent_projects,
}
use gopoke.Storage.EnvVars.{project_env_vars, update_project_env_var}
use gopoke.Project.Targets
use gopoke.Project.Targets.{RunTarget, Dir, discover_run_targets, has_run_target}
use gopoke.Project.Module
use gopoke.Project.Module.{ModuleInfo, Stat, detect_module}
use gopoke.Project.Dotenv.{Entry, Warning, DotEnvFile, load_dot_env_file}

pub data Error : Type 0 where
  context : CtxError → Error
  path_required package_required resolve_failed inspect_failed : Error
  not_a_directory not_a_target dot_env_failed : Error
  detect : Module.Error → Error
  targets : Targets.Error → Error
  storage : Monad.Error → Error

abbrev pub Step : Type 0 → Type 0
Step A = StoreStep Error A

-- OpenProjectResult
pub record OpenProjectResult : Type 0 where
  pub project : ProjectRecord
  pub module_info : ModuleInfo
  pub run_targets : List RunTarget
  pub env_vars : List EnvVarRecord
  pub env_load_warnings : List Warning

-- The file system: filepath.Abs, the directory test of os.Stat (none if it fails), os.Stat of a go.mod,
-- the directory tree below a path, its .env file, and strconv.Unquote.
pub record Host : Type 0 where
  pub abs : Text → Option Text
  pub is_dir : Text → Option Bool
  pub stat : Text → Stat
  pub tree : Text → Dir
  pub dot_env : Text → DotEnvFile
  pub unquote : Text → Option Text

-- What ctx.Err() is at the start, in DetectModule and in DiscoverRunTargets, and what the calls of the
-- store meet.
pub record Calls : Type 0 where
  pub start : Option CtxError
  pub module_ctx : Option CtxError
  pub targets_ctx : Option CtxError
  pub known : Call
  pub opened : Call
  pub current : Call
  pub set : Text → Call
  pub list : Call

abbrev pub alive : Option CtxError → Result Error (Unit {0})
alive none = ok tt
alive (some e) = err (context e)

abbrev pub named : Text → Error → Result Error (Unit {0})
named s e = if is_empty s then err e else ok tt

abbrev pub absolute : Option Text → Result Error Text
absolute none = err resolve_failed
absolute (some path) = ok path

abbrev pub directory : Option Bool → Result Error (Unit {0})
directory none = err inspect_failed
directory (some true) = ok tt
directory (some false) = err not_a_directory

-- DiscoverRunTargets of an absolute path; a context that is alive at its start stays alive.
abbrev pub discovered : Host → Option CtxError → Text → Result Error (List RunTarget)
discovered host (some e) path = err (targets (Targets.context e))
discovered host none path = wrap targets (discover_run_targets path (host.tree path))

abbrev pub first_package : List RunTarget → Text
first_package [] = []
first_package (t ∷ ts) = t.package_path

-- The default package that Open records.
unfoldable pub default_package : Option ProjectRecord → List RunTarget → Text
unfolding has_run_target
default_package none ts = first_package ts
default_package (some p) ts =
    if has_run_target ts p.default_pkg then p.default_pkg else first_package ts

abbrev pub loaded : Option (List Entry × List Warning) → Result Error (List Entry × List Warning)
loaded none = err dot_env_failed
loaded (some r) = ok r

abbrev pub key_before : Entry → Entry → Bool
key_before a b = text_lt a.key b.key

abbrev pub masked_in : Option EnvVarRecord → Bool
masked_in none = false
masked_in (some v) = v.masked

-- Whether a key is masked in the project already.
unfoldable pub mask_of : List EnvVarRecord → Text → Bool
unfolding find text_eq
mask_of current key = masked_in (find (λ v. text_eq v.key key) current)

-- The loop over the keys of the file, in their order.
unfoldable pub set_each : (Text → Call) → Text → List EnvVarRecord → List Entry → Step (Unit {0})
unfolding update_project_env_var mask_of ◌>>=◌ stored lift
set_each set id current [] = lift (ok tt)
set_each set id current (e ∷ es) =
    stored storage (update_project_env_var (set e.key) id e.key e.value (mask_of current e.key))
    >>= λ _. set_each set id current es

abbrev pub set_from_file : Calls → Text → List Entry → Step (Unit {0})
set_from_file calls id [] = lift (ok tt)
set_from_file calls id (e ∷ es) = do
  current ← stored storage (project_env_vars calls.current id)
  set_each calls.set id current (sort key_before (e ∷ es))

abbrev pub result_of :
    ProjectRecord
    → ModuleInfo
    → List RunTarget
    → List EnvVarRecord
    → List Warning
    → OpenProjectResult
result_of p info ts vars warnings = record {
  project = p;
  module_info = info;
  run_targets = ts;
  env_vars = vars;
  env_load_warnings = warnings;
}

-- Service.Open past RecordProjectOpen.
unfoldable pub with_env :
    Host → Calls → Text → ModuleInfo → List RunTarget → ProjectRecord → Step OpenProjectResult
unfolding load_dot_env_file project_env_vars set_each stored lift
with_env host calls full info ts p = do
  file ← lift (loaded (load_dot_env_file host.unquote (host.dot_env full)))
  _ ← set_from_file calls p.id file.0
  vars ← stored storage (project_env_vars calls.list p.id)
  lift (ok (result_of p info ts vars file.1))

-- Service.Open past the checks of the path.
unfoldable pub open_directory : Host → Calls → Text → Step OpenProjectResult
unfolding detect_module discover_run_targets project_by_path default_package record_project_open
    with_env stored lift
open_directory host calls full = do
  info ← lift (wrap detect (detect_module host.abs host.stat calls.module_ctx full))
  ts ← lift (discovered host calls.targets_ctx full)
  existing ← stored storage (project_by_path calls.known full)
  p ← stored storage (record_project_open calls.opened full (default_package existing ts))
  with_env host calls full info ts p

-- Service.Open
unfoldable pub open_project : Host → Calls → Text → Step OpenProjectResult
unfolding open_directory lift
open_project host calls path = do
  _ ← lift (alive calls.start)
  _ ← lift (named path path_required)
  full ← lift (absolute (host.abs path))
  _ ← lift (directory (host.is_dir full))
  open_directory host calls full

-- Service.Recent
unfoldable pub recent : Call → ℤ → Step (List ProjectRecord)
unfolding recent_projects stored
recent c limit = stored storage (recent_projects c limit)

-- Service.SetDefaultPackage; filepath.Abs of a path that is absolute already is that path.
unfoldable pub set_default_package : Host → Calls → Text → Text → Step ProjectRecord
unfolding discover_run_targets has_run_target update_project_default_package stored lift
set_default_package host calls project_path package_path = do
  _ ← lift (alive calls.start)
  _ ← lift (named project_path path_required)
  _ ← lift (named package_path package_required)
  full ← lift (absolute (host.abs project_path))
  ts ← lift (discovered host calls.targets_ctx full)
  _ ← lift (if has_run_target ts package_path then ok tt else err not_a_target)
  stored storage (update_project_default_package calls.opened full package_path)
