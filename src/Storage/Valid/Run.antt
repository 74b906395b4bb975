-- ===== src/Storage/Valid/Run.antt =====
-- About the methods of internal/storage/store.go in sequence.
use gopoke.Base.{ℕ, Bool}
use gopoke.Base.Int.{ℤ}
use gopoke.Text.{Text}
use gopoke.Settings.{GlobalSettings}
use gopoke.Storage.Schema.{SnippetRecord, RunRecord}
use gopoke.Storage.Monad.{Store, Call}
use gopoke.Storage.Access
use gopoke.Storage.Projects
use gopoke.Storage.EnvVars
use gopoke.Storage.Snippets
use gopoke.Storage.Runs
use gopoke.Storage.Valid.{StoreIsValid}
use gopoke.Storage.Valid.Access.{bootstrap-Keeps, update_settings-Keeps}
use gopoke.Storage.Valid.Projects.{
  record_project_open-Keeps, update_project_default_package-Keeps,
  update_project_working_directory-Keeps, update_project_toolchain-Keeps,
}
use gopoke.Storage.Valid.EnvVars.{update_project_env_var-Keeps, delete_project_env_var-Keeps}
use gopoke.Storage.Valid.Snippets.{IsFresh, save_snippet-IsValid, delete_snippet-Keeps}
use gopoke.Storage.Valid.Runs.{record_run-Keeps}
use gopoke.Storage.Valid.Queries.{
  health-Keeps, load-Keeps, get_settings-Keeps, project_by_path-Keeps, recent_projects-Keeps,
  project_env_vars-Keeps, project_snippets-Keeps, snippet_by_id-Keeps, project_runs-Keeps,
}

-- A method of Store with its arguments.
pub data Method : Type 0 where
  bootstrap health load get_settings : Method
  update_settings : GlobalSettings → Method
  record_project_open : Text → Text → Method
  project_by_path : Text → Method
  update_project_default_package update_project_working_directory : Text → Text → Method
  update_project_toolchain : Text → Text → Method
  recent_projects : ℤ → Method
  update_project_env_var : Text → Text → Text → Bool → Method
  delete_project_env_var : Text → Text → Method
  project_env_vars project_snippets snippet_by_id delete_snippet : Text → Method
  save_snippet : SnippetRecord → Method
  record_run : RunRecord → Method
  project_runs : Text → ℤ → Method

module _ (lower : ℕ → ℕ) where
  -- The store after a call.
  unfoldable pub perform : Call → Method → Store → Store
  perform c bootstrap s = (Access.bootstrap c s).1
  perform c health s = (Access.health c s).1
  perform c load s = (Access.load c s).1
  perform c get_settings s = (Access.get_settings c s).1
  perform c (update_settings gs) s = (Access.update_settings c gs s).1
  perform c (record_project_open path pkg) s = (Projects.record_project_open c path pkg s).1
  perform c (project_by_path path) s = (Projects.project_by_path c path s).1
  perform c (update_project_default_package path value) s =
      (Projects.update_project_default_package c path value s).1
  perform c (update_project_working_directory path value) s =
      (Projects.update_project_working_directory c path value s).1
  perform c (update_project_toolchain path value) s =
      (Projects.update_project_toolchain c path value s).1
  perform c (recent_projects limit) s = (Projects.recent_projects c limit s).1
  perform c (update_project_env_var id key value masked) s =
      (EnvVars.update_project_env_var c id key value masked s).1
  perform c (delete_project_env_var id key) s = (EnvVars.delete_project_env_var c id key s).1
  perform c (project_env_vars id) s = (EnvVars.project_env_vars c id s).1
  perform c (project_snippets id) s = (Snippets.project_snippets c id s).1
  perform c (snippet_by_id id) s = (Snippets.snippet_by_id c id s).1
  perform c (delete_snippet id) s = (Snippets.delete_snippet c id s).1
  perform c (save_snippet r) s = (Snippets.save_snippet lower c r s).1
  perform c (record_run r) s = (Runs.record_run c r s).1
  perform c (project_runs id limit) s = (Runs.project_runs c id limit s).1

  -- What a call rests on: the random identifier of a new snippet is not in use.
  abbrev pub Allowed : Call → Method → Store → Type 0
  Allowed c (save_snippet r) s = IsFresh lower c r s
  Allowed c m s = Unit

  -- The stores that calls of the methods lead to, in any order and with any failures.
  pub data Reach (start : Store) : Store → Type 0 where
    here : Reach start start
    next :
        {s : Store} (c : Call) (m : Method)
        → Allowed c m s
        → Reach start s
        → Reach start (perform c m s)

  pub perform-IsValid :
      (c : Call) (m : Method) (s : Store)
      → Allowed c m s
      → StoreIsValid lower s
      → StoreIsValid lower (perform c m s)
  unfolding perform
  perform-IsValid c bootstrap s fresh h = (bootstrap-Keeps lower c).at s h
  perform-IsValid c health s fresh h = (health-Keeps lower c).at s h
  perform-IsValid c load s fresh h = (load-Keeps lower c).at s h
  perform-IsValid c get_settings s fresh h = (get_settings-Keeps lower c).at s h
  perform-IsValid c (update_settings gs) s fresh h = (update_settings-Keeps lower c gs).at s h
  perform-IsValid c (record_project_open path pkg) s fresh h =
      (record_project_open-Keeps lower c path pkg).at s h
  perform-IsValid c (project_by_path path) s fresh h = (project_by_path-Keeps lower c path).at s h
  perform-IsValid c (update_project_default_package path value) s fresh h =
      (update_project_default_package-Keeps lower c path value).at s h
  perform-IsValid c (update_project_working_directory path value) s fresh h =
      (update_project_working_directory-Keeps lower c path value).at s h
  perform-IsValid c (update_project_toolchain path value) s fresh h =
      (update_project_toolchain-Keeps lower c path value).at s h
  perform-IsValid c (recent_projects limit) s fresh h = (recent_projects-Keeps lower c limit).at s h
  perform-IsValid c (update_project_env_var id key value masked) s fresh h =
      (update_project_env_var-Keeps lower c id key value masked).at s h
  perform-IsValid c (delete_project_env_var id key) s fresh h =
      (delete_project_env_var-Keeps lower c id key).at s h
  perform-IsValid c (project_env_vars id) s fresh h = (project_env_vars-Keeps lower c id).at s h
  perform-IsValid c (project_snippets id) s fresh h = (project_snippets-Keeps lower c id).at s h
  perform-IsValid c (snippet_by_id id) s fresh h = (snippet_by_id-Keeps lower c id).at s h
  perform-IsValid c (delete_snippet id) s fresh h = (delete_snippet-Keeps lower c id).at s h
  perform-IsValid c (save_snippet r) s fresh h = save_snippet-IsValid lower c r s fresh h
  perform-IsValid c (record_run r) s fresh h = (record_run-Keeps lower c r).at s h
  perform-IsValid c (project_runs id limit) s fresh h = (project_runs-Keeps lower c id limit).at s h

  -- However the methods are called, and whatever fails in them, a valid store stays valid, as long
  -- as no new snippet is given an identifier in use: the cache and the state file hold distinct
  -- project paths, snippet identifiers, snippet names in a project and variable keys, and no more
  -- than 200 runs of a project.
  pub Reach-IsValid :
      {start s : Store} → Reach start s → StoreIsValid lower start → StoreIsValid lower s
  Reach-IsValid here v = v
  Reach-IsValid (next {s = t} c m ok r) v = perform-IsValid c m t ok (Reach-IsValid r v)
