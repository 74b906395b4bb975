-- ===== src/App/Files.antt =====
-- OpenGoFile, SaveGoFile and OpenProject of internal/app/app.go. What os.Stat, os.ReadFile and
-- os.WriteFile answer are arguments; the files that are written are listed.
pub mod Saved
pub mod Valid
use gopoke.Base.{
  ℕ, Bool, true, false, not, Option, none, some, List, [], ◌∷◌, reverse, take, Result, ok, err,
  CtxError, if◌then◌else◌,
}
use gopoke.Base.Int.{ℤ}
use gopoke.Text.{Text, codes, has_prefix}
use gopoke.Text.FilePath.{dir_of}
use gopoke.Storage.Schema.{ProjectRecord}
use gopoke.Storage.Monad.{Call}
use gopoke.Storage.Step.{Step as StoreStep, wrap, ◌>>=◌, lift}
use gopoke.Project.Targets
use gopoke.Project.Targets.{RunTarget}
use gopoke.Project.Service
use gopoke.Project.Service.{
  Host, Calls, OpenProjectResult, open_project, recent, set_default_package, discovered,
}
use gopoke.App.Paths
use gopoke.App.Paths.{System, resolve_input_path}

pub data Error : Type 0 where
  context : CtxError → Error
  not_initialized go_extension_required inspect_failed is_directory read_failed : Error
  must_exist write_failed : Error
  path : Paths.Error → Error
  service : Service.Error → Error

abbrev pub Step : Type 0 → Type 0
Step A = StoreStep Error A

-- A call of the project service, which is there once the application has started.
abbrev pub serve : {A : Type 0} → Bool → StoreStep Service.Error A → Step A
serve true m s = (wrap service (m s).0, (m s).1)
serve false m s = (err not_initialized, s)

-- Application.OpenProject
unfoldable pub open_project_at : Bool → System → Host → Calls → Text → Step OpenProjectResult
unfolding resolve_input_path open_project lift
open_project_at started sys host calls path_given =
    if started
    then (lift (wrap path (resolve_input_path sys path_given)) >>= λ full.
        serve true (open_project host calls full))
    else lift (err not_initialized)

-- Application.RecentProjects
unfoldable pub recent_projects_of : Bool → Call → ℤ → Step (List ProjectRecord)
unfolding recent
recent_projects_of started c limit = serve started (recent c limit)

-- Application.DiscoverRunTargets, with ctx.Err() at its start.
unfoldable pub discover_run_targets_at :
    System → Host → Option CtxError → Text → Step (List RunTarget)
unfolding resolve_input_path Targets.discover_run_targets lift
discover_run_targets_at sys host ctx path_given = do
  full ← lift (wrap path (resolve_input_path sys path_given))
  lift (wrap service (discovered host ctx full))

-- Application.SetProjectDefaultPackage
unfoldable pub set_default_package_at :
    Bool → System → Host → Calls → Text → Text → Step ProjectRecord
unfolding resolve_input_path set_default_package lift
set_default_package_at started sys host calls project_path package_path =
    if started
    then (lift (wrap path (resolve_input_path sys project_path)) >>= λ full.
        serve true (set_default_package host calls full package_path))
    else lift (err not_initialized)

-- strings.HasSuffix(path, ".go")
unfoldable pub is_go_file : Text → Bool
unfolding has_prefix
is_go_file name = has_prefix (reverse name) (reverse (codes ".go"))

-- os.WriteFile writes the whole content; cannot open the file; or fails behind some of the content, with
-- the file truncated.
pub data Write : Type 0 where
  complete not_opened : Write
  cut : ℕ → Write

-- The disk as the two methods see it: whether os.Stat finds a directory (none if it fails), what
-- os.ReadFile reads, and how os.WriteFile goes.
pub record Disk : Type 0 where
  pub stat : Text → Option Bool
  pub read : Text → Option Text
  pub write : Text → Write

-- OpenGoFileResult
pub record OpenGoFileResult : Type 0 where
  pub content : Text
  pub file_path : Text
  pub project_result : OpenProjectResult

abbrev pub go_path : Text → Result Error Text
go_path full = if is_go_file full then ok full else err go_extension_required

abbrev pub read_from : Option Text → Result Error Text
read_from none = err read_failed
read_from (some content) = ok content

abbrev pub content_of : Option Bool → Option Text → Result Error Text
content_of none content = err inspect_failed
content_of (some true) content = err is_directory
content_of (some false) content = read_from content

-- Application.OpenGoFile
unfoldable pub open_go_file : Bool → System → Host → Disk → Calls → Text → Step OpenGoFileResult
unfolding resolve_input_path is_go_file open_project_at dir_of lift
open_go_file started sys host disk calls file_path = do
  resolved ← lift (wrap path (resolve_input_path sys file_path))
  full ← lift (go_path resolved)
  content ← lift (content_of (disk.stat full) (disk.read full))
  result ← open_project_at started sys host calls (dir_of full)
  lift (ok record { content = content; file_path = full; project_result = result })

abbrev pub write_file : Write → Text → Text → Result Error (Unit {0}) × List (Text × Text)
write_file complete full content = (ok tt, (full, content) ∷ [])
write_file not_opened full content = (err write_failed, [])
write_file (cut n) full content = (err write_failed, (full, take n content) ∷ [])

abbrev pub save_found :
    Disk → Text → Text → Option Bool → Result Error (Unit {0}) × List (Text × Text)
save_found disk full content none = (err must_exist, [])
save_found disk full content (some is_dir) = write_file (disk.write full) full content

abbrev pub save_at :
    Disk → Text → Result Paths.Error Text → Result Error (Unit {0}) × List (Text × Text)
save_at disk content (err e) = (err (path e), [])
save_at disk content (ok full) =
    if is_go_file full
    then save_found disk full content (disk.stat full)
    else (err go_extension_required, [])

-- Application.SaveGoFile: its result, and the file that it changes, if it does, with what is then in it.
unfoldable pub save_go_file :
    System → Disk → Option CtxError → Text → Text → Result Error (Unit {0}) × List (Text × Text)
unfolding resolve_input_path is_go_file
save_go_file sys disk (some e) file_path content = (err (context e), [])
save_go_file sys disk none file_path content =
    save_at disk content (resolve_input_path sys file_path)
