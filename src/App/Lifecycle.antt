-- ===== src/App/Lifecycle.antt =====
-- Start, Stop and the methods of internal/app/app.go that use the workers and the LSP manager.
pub mod Clean
use gopoke.Base.{
  ℕ, Bool, true, false, Option, none, some, List, [], ◌∷◌, Result, ok, err, CtxError, if◌then◌else◌,
}
use gopoke.Text.{Text}
use gopoke.Storage.Monad
use gopoke.Storage.Monad.{Store, Call}
use gopoke.Storage.Access.{bootstrap, get_settings}
use gopoke.Runner
use gopoke.Runner.{Worker, FileSystem, Launch, start_worker}
use gopoke.Runner.Stop.{Phase, waiting, killed, returned, Outside, stop_worker, stop_all}
use gopoke.Storage.Step.{wrap}
use gopoke.Lsp.Manager
use gopoke.Lsp.Manager.{start_for_project}
use gopoke.App.Paths
use gopoke.App.Paths.{System, resolve_input_path}
use gopoke.App.Tools.{Environ, apply_toolchain_paths}

-- Application, as far as these methods change it: the store, the environment of the process, the
-- scratch directory (none for an empty field), the directories on the disk that Start has made for it,
-- and the services that Start sets up.
pub record Application : Type 0 where
  pub store : Store
  pub environ : Environ
  pub scratch : Option Text
  pub scratch_dirs : List Text
  pub workers : Option Runner.Manager
  pub lsp : Option Manager.Manager

pub data Error : Type 0 where
  not_initialized scratch_mkdir_failed scratch_go_mod_failed : Error
  storage : Monad.Error → Error
  path : Paths.Error → Error
  worker : Runner.Error → Error
  lsp_failed : Manager.Error → Error

-- What Start meets: its calls of the store, os.Stat of the configured tools, the directory for this
-- process below os.TempDir(), and whether it and its go.mod can be written.
pub record Boot : Type 0 where
  pub boot : Call
  pub settings : Call
  pub stat : Text → Option Bool
  pub scratch : Text
  pub mkdir_ok : Bool
  pub go_mod_ok : Bool

abbrev pub set_up : Boot → Application → Application
set_up b a = record a {
  scratch = some b.scratch;
  scratch_dirs = b.scratch ∷ a.scratch_dirs;
  workers = some Runner.new_manager;
  lsp = some Manager.new_manager;
}

abbrev pub with_scratch : Boot → Application → Result Error (Unit {0}) × Application
with_scratch b a =
    if b.mkdir_ok
    then (if b.go_mod_ok
        then (ok tt, set_up b a)
        else (err scratch_go_mod_failed, record a { scratch_dirs = b.scratch ∷ a.scratch_dirs }))
    else (err scratch_mkdir_failed, a)

abbrev pub booted :
    Boot
    → Result Monad.Error (Unit {0}) × Store
    → Application
    → Result Error (Unit {0}) × Application
booted b (err e, s) a = (err (storage e), record a { store = s })
booted b (ok u, s) a =
    let (gs, s') = get_settings b.settings s in
    with_scratch b (record a { store = s'; environ = apply_toolchain_paths b.stat gs a.environ })

-- Application.Start, without its telemetry.
unfoldable pub start : Boot → Application → Result Error (Unit {0}) × Application
unfolding bootstrap get_settings apply_toolchain_paths
start b a = booted b (bootstrap b.boot a.store) a

-- os.RemoveAll of the scratch directory, whose error is not looked at.
abbrev pub without_scratch : Bool → Option Text → List Text → List Text
without_scratch remove_ok none dirs = dirs
without_scratch remove_ok (some d) dirs = Manager.cleanup remove_ok d dirs

abbrev pub stop_lsp_of : Bool → Option Manager.Manager → Option Manager.Manager
stop_lsp_of cleanup_ok none = none
stop_lsp_of cleanup_ok (some m) = some (Manager.stop cleanup_ok m)

-- Whether os.RemoveAll removes the scratch directory and the workspace of the LSP manager.
pub record Removals : Type 0 where
  pub scratch_ok : Bool
  pub workspace_ok : Bool

abbrev pub stop_workers_of :
    FileSystem
    → Option CtxError
    → (Text → Outside)
    → Option Runner.Manager
    → Phase × Option Runner.Manager
stop_workers_of fs ctx outside none = (returned none, none)
stop_workers_of fs ctx outside (some m) = let (p, m') = stop_all fs ctx outside m in (p, some m')

-- Application.Stop, up to its return or to where StopAll waits.
unfoldable pub stop :
    FileSystem → Option CtxError → (Text → Outside) → Removals → Application → Phase × Application
unfolding Manager.stop stop_all
stop fs ctx outside rm a =
    let (p, ws) = stop_workers_of fs ctx outside a.workers in
    (
      p,
      record a {
        scratch_dirs = without_scratch rm.scratch_ok a.scratch a.scratch_dirs;
        lsp = stop_lsp_of rm.workspace_ok a.lsp;
        workers = ws;
      },
    )

-- A method that uses the workers, which are there once the application has started.
abbrev pub with_workers :
    {A : Type 0}
    → Option Runner.Manager
    → (Runner.Manager → Result Error A × Runner.Manager)
    → Application
    → Result Error A × Application
with_workers none f a = (err not_initialized, a)
with_workers (some m) f a = let (r, m') = f m in (r, record a { workers = some m' })

abbrev pub worker_at :
    FileSystem
    → Option CtxError
    → Launch
    → Result Paths.Error Text
    → Runner.Manager
    → Result Error Worker × Runner.Manager
worker_at fs ctx l (err e) m = (err (path e), m)
worker_at fs ctx l (ok full) m = let (r, m') = start_worker fs ctx full l m in (wrap worker r, m')

-- Application.StartProjectWorker
unfoldable pub start_project_worker :
    System
    → FileSystem
    → Option CtxError
    → Launch
    → Text
    → Application
    → Result Error Worker × Application
unfolding resolve_input_path start_worker
start_project_worker sys fs ctx l project_path a =
    with_workers a.workers (worker_at fs ctx l (resolve_input_path sys project_path)) a

-- How StopProjectWorker stands: it waits, or has returned.
abbrev pub stop_result : Phase → Option (Result Error (Unit {0}))
stop_result (waiting gone) = none
stop_result (killed gone) = none
stop_result (returned none) = some (ok tt)
stop_result (returned (some e)) = some (err (worker e))

abbrev pub stop_worker_at :
    FileSystem
    → Outside
    → Result Paths.Error Text
    → Runner.Manager
    → Option (Result Error (Unit {0})) × Runner.Manager
stop_worker_at fs o (err e) m = (some (err (path e)), m)
stop_worker_at fs o (ok full) m = let (p, m') = stop_worker fs o full m in (stop_result p, m')

abbrev pub stop_in :
    Option Runner.Manager
    → (Runner.Manager → Option (Result Error (Unit {0})) × Runner.Manager)
    → Application
    → Option (Result Error (Unit {0})) × Application
stop_in none f a = (some (err not_initialized), a)
stop_in (some m) f a = let (r, m') = f m in (r, record a { workers = some m' })

-- Application.StopProjectWorker
unfoldable pub stop_project_worker :
    System
    → FileSystem
    → Outside
    → Text
    → Application
    → Option (Result Error (Unit {0})) × Application
unfolding resolve_input_path stop_worker
stop_project_worker sys fs o project_path a =
    stop_in a.workers (stop_worker_at fs o (resolve_input_path sys project_path)) a

abbrev pub lsp_at :
    Manager.Host
    → Option Manager.Manager
    → Result Paths.Error Text
    → Application
    → Result Error (Unit {0}) × Application
lsp_at host none r a = (err not_initialized, a)
lsp_at host (some m) (err e) a = (err (path e), a)
lsp_at host (some m) (ok full) a =
    let (r, m') = start_for_project host full m in (wrap lsp_failed r, record a { lsp = some m' })

-- Application.StartLSP
unfoldable pub start_lsp :
    System → Manager.Host → Text → Application → Result Error (Unit {0}) × Application
unfolding resolve_input_path start_for_project
start_lsp sys host project_path a = lsp_at host a.lsp (resolve_input_path sys project_path) a

-- Application.StopLSP
unfoldable pub stop_lsp : Bool → Application → Application
unfolding Manager.stop
stop_lsp cleanup_ok a = record a { lsp = stop_lsp_of cleanup_ok a.lsp }

-- The goroutine of a proxy ends.
abbrev pub lsp_served : ℕ → Option Manager.Manager → Option Manager.Manager
lsp_served h none = none
lsp_served h (some m) = some (Manager.serve_end h m)

abbrev pub lsp_or : {A : Type 0} → A → (Manager.Manager → A) → Option Manager.Manager → A
lsp_or d f none = d
lsp_or d f (some m) = f m

-- Application.LSPWebSocketPort
unfoldable pub lsp_web_socket_port : Application → ℕ
unfolding Manager.port
lsp_web_socket_port a = lsp_or 0 Manager.port a.lsp

-- Application.LSPWorkspaceInfo
unfoldable pub lsp_workspace_info : Application → Text × Text
unfolding Manager.workspace_info
lsp_workspace_info a = lsp_or ([], []) Manager.workspace_info a.lsp

-- Application.LSPStatus; none stands for the text "lsp not initialized".
unfoldable pub lsp_status : Application → Option (Bool × Option Manager.Error)
unfolding Manager.status
lsp_status a = lsp_or none (λ m. some (Manager.status m)) a.lsp
