-- ===== src/Lsp/Manager.antt =====
-- internal/lsp/manager.go. A *Proxy is known by a number; the directories that createWorkspace makes
-- and the goroutines in which a proxy serves are kept beside the manager's own fields.
pub mod Reachable
use gopoke.Base.{
  ℕ, suc, Bool, true, false, not, ◌&&◌, Option, none, some, List, [], ◌∷◌, filter, any, Result, ok,
  err, ◌==◌, if◌then◌else◌,
}
use gopoke.Text.{Text, text_eq}
use gopoke.Lsp.Workspace.{Workspace, workspace_dir, snippet_uri}

-- The errors of StartForProject.
pub data Error : Type 0 where
  gopls_not_found mkdir_failed go_mod_failed listen_failed : Error

-- Proxy
pub record Proxy : Type 0 where
  pub handle : ℕ
  pub port : ℕ

-- Manager, with none for an empty lastError. `dirs` are the workspace directories on the disk, and
-- `serving` are the proxies whose Serve has not returned; `next` is the number of the next proxy.
pub record Manager : Type 0 where
  pub proxy : Option Proxy
  pub workspace : Option Workspace
  pub project_path : Text
  pub ready : Bool
  pub last_error : Option Error
  pub dirs : List Text
  pub serving : List ℕ
  pub next : ℕ

-- NewManager
abbrev pub new_manager : Manager
new_manager = record {
  proxy = none;
  workspace = none;
  project_path = [];
  ready = false;
  last_error = none;
  dirs = [];
  serving = [];
  next = 0;
}

-- What StartForProject meets: whether os.RemoveAll removes the workspaces that it cleans up, whether
-- gopls is in PATH, whether the directory of the workspace and its go.mod can be written, and the port
-- that net.Listen takes.
pub record Host : Type 0 where
  pub cleanup_ok : Bool
  pub gopls : Bool
  pub mkdir_ok : Bool
  pub go_mod_ok : Bool
  pub listen : Option ℕ

abbrev pub remove : Text → List Text → List Text
remove dir dirs = filter (λ d. not (text_eq d dir)) dirs

-- workspace.cleanup, whose os.RemoveAll may fail; that error is not looked at.
abbrev pub cleanup : Bool → Text → List Text → List Text
cleanup true dir dirs = remove dir dirs
cleanup false dir dirs = dirs

abbrev pub make : Text → List Text → List Text
make dir dirs = dir ∷ remove dir dirs

abbrev pub cleaned : Bool → Option Workspace → List Text → List Text
cleaned cleanup_ok none dirs = dirs
cleaned cleanup_ok (some w) dirs = cleanup cleanup_ok w.dir dirs

-- stopLocked
unfoldable pub stop_locked : Bool → Manager → Manager
unfolding text_eq
stop_locked cleanup_ok m = record m {
  proxy = none;
  workspace = none;
  project_path = [];
  ready = false;
  dirs = cleaned cleanup_ok m.workspace m.dirs;
}

-- `if m.proxy != nil { m.stopLocked() }`
abbrev pub stop_running : Bool → Option Proxy → Manager → Manager
stop_running cleanup_ok none m = m
stop_running cleanup_ok (some p) m = stop_locked cleanup_ok m

abbrev pub failed : Error → Manager → Result Error (Unit {0}) × Manager
failed e m = (err e, record m { last_error = some e })

-- Past createWorkspace.
abbrev pub with_workspace :
    Bool → Option ℕ → Text → Text → Manager → Result Error (Unit {0}) × Manager
with_workspace cleanup_ok none project dir m =
    failed listen_failed (record m { dirs = cleanup cleanup_ok dir m.dirs })
with_workspace cleanup_ok (some port) project dir m = (
  ok tt,
  record m {
    proxy = some (record { handle = m.next; port = port });
    workspace = some (record { dir = dir; project_path = project });
    project_path = project;
    ready = true;
    last_error = none;
    serving = m.next ∷ m.serving;
    next = suc m.next;
  },
)

-- createWorkspace, which leaves the directory when the go.mod cannot be written, and what follows it.
abbrev pub in_project : Host → Text → Text → Manager → Result Error (Unit {0}) × Manager
in_project host project dir m =
    if host.mkdir_ok
    then (if host.go_mod_ok
        then with_workspace host.cleanup_ok host.listen project dir
            (record m { dirs = make dir m.dirs })
        else failed go_mod_failed (record m { dirs = make dir m.dirs }))
    else failed mkdir_failed m

abbrev pub start_stopped : Host → Text → Manager → Result Error (Unit {0}) × Manager
start_stopped host project m =
    if host.gopls
    then in_project host project (workspace_dir project) m
    else failed gopls_not_found m

-- Manager.StartForProject, which holds the lock throughout.
unfoldable pub start_for_project : Host → Text → Manager → Result Error (Unit {0}) × Manager
unfolding stop_locked workspace_dir text_eq
start_for_project host project m =
    start_stopped host project (stop_running host.cleanup_ok m.proxy m)

-- Manager.Stop
unfoldable pub stop : Bool → Manager → Manager
unfolding stop_locked
stop cleanup_ok m = stop_locked cleanup_ok m

abbrev pub is_current : ℕ → Option Proxy → Bool
is_current h none = false
is_current h (some p) = p.handle == h

-- The goroutine of StartForProject when Serve of its proxy has returned.
unfoldable pub serve_end : ℕ → Manager → Manager
serve_end h m = record m {
  ready = if is_current h m.proxy then false else m.ready;
  serving = filter (λ k. not (k == h)) m.serving;
}

abbrev pub port_of : Option Proxy → ℕ
port_of none = 0
port_of (some p) = p.port

-- Manager.Port
unfoldable pub port : Manager → ℕ
port m = port_of m.proxy

abbrev pub info_of : Option Workspace → Text × Text
info_of none = ([], [])
info_of (some w) = (w.dir, snippet_uri w)

-- Manager.WorkspaceInfo: the directory and the URI of the snippet.
unfoldable pub workspace_info : Manager → Text × Text
unfolding snippet_uri
workspace_info m = info_of m.workspace

-- Manager.Status
unfoldable pub status : Manager → Bool × Option Error
status m = (m.ready, m.last_error)
