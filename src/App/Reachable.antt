-- ===== src/App/Reachable.antt =====
-- About the methods of internal/app/app.go in sequence: those that change the store, the workers or the
-- active runs, and the exit of workers. Each is one step here; Start and Stop are not among them.
use gopoke.Base.{ℕ, ◌≡◌, Bool, Option, some, ok, CtxError}
use gopoke.Base.Update.{find}
use gopoke.Text.{Text}
use gopoke.Storage.Schema.{ProjectRecord}
use gopoke.Storage.Monad.{Store, Call}
use gopoke.Storage.Valid.Run
use gopoke.Storage.Valid.Snippets.{IsFresh}
use gopoke.Project.Service
use gopoke.Execution.Start
use gopoke.Project.Toolchains.{Binaries}
use gopoke.Runner.{
  Manager, ManagedWorker, FileSystem, Launch, at_path, start_worker, wait_for_worker_exit,
}
use gopoke.Runner.Stop.{Outside, stop_worker}
use gopoke.App.Step
use gopoke.App.Files.{Disk, open_project_at, set_default_package_at, open_go_file}
use gopoke.App.Registry.{cancel_run}
use gopoke.App.Paths.{System}
use gopoke.App.Projects.{
  project_env_vars_of, upsert_project_env_var, delete_env_var_of, set_project_working_directory,
  set_project_toolchain, project_snippets_of, delete_project_snippet, save_project_snippet,
  project_record_by_path, new_snippet,
}
use gopoke.App.Run.Resolve
use gopoke.App.Run.Resolve.{Request}
use gopoke.App.Run.{State, Course, run_snippet}

-- A method that works on one project, with its arguments but the project's path.
pub data Method : Type 0 where
  env_vars snippets : Method
  upsert_env_var : Text → Text → Bool → Method
  delete_env_var delete_snippet set_working_directory set_toolchain : Text → Method

-- What a method meets: the system, the programs, and its calls of the store.
pub record Setting : Type 0 where
  pub system : System
  pub binaries : Binaries
  pub lookup : Call
  pub first : Call
  pub second : Call

-- The store after a method.
unfoldable pub perform : Setting → Text → Method → Store → Store
perform o path env_vars s = (project_env_vars_of o.system o.lookup o.first path s).1
perform o path snippets s = (project_snippets_of o.system o.lookup o.first path s).1
perform o path (upsert_env_var key value masked) s =
    (upsert_project_env_var o.system o.lookup o.first path key value masked s).1
perform o path (delete_env_var key) s = (delete_env_var_of o.system o.lookup o.first path key s).1
perform o path (delete_snippet id) s =
    (delete_project_snippet o.system o.lookup o.first o.second path id s).1
perform o path (set_working_directory dir) s =
    (set_project_working_directory o.system o.lookup o.first path dir s).1
perform o path (set_toolchain given) s =
    (set_project_toolchain o.system o.binaries o.lookup o.first path given s).1

-- SaveProjectSnippet of a new snippet draws a random identifier that is not in use.
abbrev pub SavesFresh : (ℕ → ℕ) → Setting → Text → Text → Text → Text → Store → Type 0
SavesFresh lower o path id name content s =
    let found = project_record_by_path o.system o.lookup path s in
    (p : ProjectRecord)
    → found.0 ≡ ok p
    → IsFresh lower o.first (new_snippet id p.id name content) found.1

-- The states that the methods lead to, in any order and with any failures. UpdateGlobalSettings,
-- GetGlobalSettings, RecentProjects and Health are the methods of the store, which `called` has.
pub data Reach (lower : ℕ → ℕ) (start : State) : State → Type 0 where
  here : Reach lower start start
  performed :
      {st : State} (o : Setting) (path : Text) (m : Method)
      → Reach lower start st
      → Reach lower start (record st { store = perform o path m st.store })
  called :
      {st : State} (c : Call) (m : Run.Method)
      → Run.Allowed lower c m st.store
      → Reach lower start st
      → Reach lower start (record st { store = Run.perform lower c m st.store })
  saved :
      {st : State} (o : Setting) (path id name content : Text)
      → SavesFresh lower o path id name content st.store
      → Reach lower start st
      → Reach lower start (record st {
        store =
            (save_project_snippet lower o.system o.lookup o.first path id name content st.store).1;
      })
  opened :
      {st : State} (started : Bool) (sys : System) (host : Service.Host) (calls : Service.Calls)
      (path : Text)
      → Reach lower start st
      → Reach lower start
          (record st { store = (open_project_at started sys host calls path st.store).1 })
  file_opened :
      {st : State} (started : Bool) (sys : System) (host : Service.Host) (disk : Disk)
      (calls : Service.Calls) (path : Text)
      → Reach lower start st
      → Reach lower start
          (record st { store = (open_go_file started sys host disk calls path st.store).1 })
  package_set :
      {st : State} (started : Bool) (sys : System) (host : Service.Host) (calls : Service.Calls)
      (path package_path : Text)
      → Reach lower start st
      → Reach lower start (record st {
        store = (set_default_package_at started sys host calls path package_path st.store).1;
      })
  worker_started :
      {st : State} (m : Manager) (fs : FileSystem) (ctx : Option CtxError) (path : Text)
      (l : Launch)
      → st.workers ≡ some m
      → Reach lower start st
      → Reach lower start (record st { workers = some (start_worker fs ctx path l m).1 })
  worker_stopped :
      {st : State} (m : Manager) (fs : FileSystem) (o : Outside) (path : Text)
      → st.workers ≡ some m
      → Reach lower start st
      → Reach lower start (record st { workers = some (stop_worker fs o path m).1 })
  ran :
      {st : State} (host : Resolve.Host) (machine : Start.Host) (scratch : Text) (o : Course)
      (request : Request)
      → Reach lower start st
      → Reach lower start (run_snippet host machine scratch o request st).1
  canceled :
      {st : State} (ctx : Option CtxError) (run_id : Text)
      → Reach lower start st
      → Reach lower start (record st { runs = (cancel_run ctx run_id st.runs).1 })
  exited :
      {st : State} (m : Manager) (path : Text) (w : ManagedWorker)
      → st.workers ≡ some m
      → find (at_path path) m.live ≡ some w
      → Reach lower start st
      → Reach lower start (record st { workers = some (wait_for_worker_exit w m) })
