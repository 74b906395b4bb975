-- ===== src/App/Tests.antt =====
-- Runs of the application on a small state.
use gopoke.Base.{
  ◌≡◌, refl, true, false, none, some, Option, Bool, [], ◌∷◌, Result, ok, CtxError, if◌then◌else◌,
}
use gopoke.Base.Int.{pos}
use gopoke.Base.Update.{find}
use gopoke.Text.{Text, codes, text_eq, trim_space}
use gopoke.Storage.Monad.{no_fault, missing, Store, Call}
use gopoke.Storage.Access.{bootstrap}
use gopoke.Execution.Capture.{new_writer}
use gopoke.Execution.Lifecycle
use gopoke.Execution.Start
use gopoke.Project.Targets.{dir, nil}
use gopoke.Runner.{launched, new_manager}
use gopoke.Runner.Reachable
use gopoke.Runner.Stop
use gopoke.Lsp.Manager
use gopoke.App.Tools.{Environ}
use gopoke.App.Files.{Disk, complete, save_go_file}
use gopoke.App.Files.Saved.{IsSaved, save_go_file-IsSaved}
use gopoke.App.Lifecycle as AppLifecycle
use gopoke.App.Lifecycle.{Removals}
use gopoke.App.Lifecycle.Clean
use gopoke.App.Lifecycle.Clean.{unstarted, lsp_dirs, stop-clean}
use gopoke.App.Registry.{registering, canceling, happen_all}
use gopoke.App.Registry.Laws.{lookup}
use gopoke.App.Paths.{System, resolve_project_working_directory}
use gopoke.App.Paths.Inside.{IsInside, resolve_project_working_directory-IsInside}
use gopoke.App.Run.Resolve
use gopoke.App.Run.Resolve.{Request, ResolvedRequest, resolve_run_request}
use gopoke.App.Run.{State, Course, run_snippet}
use gopoke.App.Run.Ends.{run_snippet-lookup}
use gopoke.App.Run.Cut.{Cut}
use gopoke.App.Step
use gopoke.App.Reachable.{Setting, upsert_env_var, perform}

abbrev is_dir : Text → Option Bool
is_dir path =
    if text_eq path (codes "/w/p")
    then some true
    else if text_eq path (codes "/w/p/sub")
    then some true
    else none

abbrev system : System
system = record { home = none; working_directory = some (codes "/w"); is_dir = is_dir }

resolve_project_working_directory-IsInside_example :
    IsInside system (codes "/w/p") (codes "/w/p/sub")
unfolding resolve_project_working_directory text_eq
resolve_project_working_directory-IsInside_example =
    resolve_project_working_directory-IsInside system (codes "/w/p") (codes " x/../sub ")
      (codes "/w/p/sub") refl

abbrev call : Call
call = record {
  ctx = none;
  now = 50;
  random = codes "77";
  write = no_fault;
  remove_ok = true;
  mkdir_ok = true;
  stat_ok = true;
}

abbrev host : Resolve.Host
host = record {
  system = system;
  tree = λ path. dir [] (some []) nil;
  binaries = record { stat = λ path. none; look_path = λ name. some (codes "/bin/go") };
}

abbrev machine : Start.Host
machine = record {
  files = record { abs = λ path. some path; is_dir = is_dir };
  mkdir_ok = true;
  write_ok = true;
  start_ok = true;
  removable = λ name. true;
  environ = [];
  sha256 = λ s. codes "0123456789ab";
}

abbrev course : Course
course = record {
  ctx = none;
  id = codes "run_1";
  cancel = 7;
  meanwhile = registering (codes "c") 8 ∷ canceling none (codes "b") ∷ [];
  started_at = 100;
  calls = record { lookup = call; create = call; env = call; discover = none };
  worker_ctx = none;
  launch = launched 42 100;
  command_ctx = none;
  ended = record {
    exit = Lifecycle.clean;
    ctx = none;
    out = new_writer 10 false;
    errors = new_writer 10 false;
    duration_ms = 5;
  };
  elapsed = 3;
  record_call = call;
}

abbrev request : Request
request = record {
  run_id = codes " a ";
  project_path = codes "p";
  package_path = [];
  source = codes "package main";
  timeout_ms = pos 0;
}

abbrev store : Store
store = record {
  root_dir = codes "/s";
  path = codes "/s/state.json";
  cached = none;
  file = missing;
  temps = [];
}

abbrev state : State
state = record {
  store = store;
  runs = record { active = record { run_id = codes "b"; cancel = 2 } ∷ []; canceled = [] };
  workers = some new_manager;
  cache = [];
}

run_snippet-lookup_example :
    let runs = (run_snippet host machine [] course request state).1.runs in
    let without = happen_all course.meanwhile state.runs in
    (lookup (codes "b") runs
      ≡ (if text_eq (codes "a") (codes "b") then none else lookup (codes "b") without))
    × (runs.canceled ≡ 7 ∷ without.canceled)
unfolding find text_eq trim_space
run_snippet-lookup_example =
    run_snippet-lookup host machine [] course request state (codes "b") refl refl (refl, (refl, tt))

-- The context is canceled before the worker is started.
abbrev cut_course : Course
cut_course = record course { worker_ctx = some CtxError.canceled }

abbrev cut_state : State
cut_state = record state { store = (bootstrap call state.store).1 }

abbrev resolution : Result Step.Error ResolvedRequest × Store
resolution = resolve_run_request host [] cut_course.calls request cut_state.store

abbrev resolved : ResolvedRequest
resolved = record {
  project_id = codes "prj_77";
  project_path = codes "/w/p";
  source = codes "package main";
  working_directory = codes "/w/p";
  toolchain = codes "/bin/go";
  environment = λ k. none;
  timeout = pos 15000000000;
}

abbrev setting : Setting
setting = record {
  system = system;
  binaries = host.binaries;
  lookup = call;
  first = call;
  second = call;
}

abbrev changed : State
changed = record state {
  store = perform setting (codes "p") (upsert_env_var (codes "K") (codes "v") true) state.store;
}

abbrev idle : Stop.Outside
idle = record { ctx = none; signal_ok = true; events = [] }

abbrev disk : Disk
disk = record { stat = λ path. some false; read = λ path. some []; write = λ path. complete }

save_go_file-IsSaved_example :
    IsSaved disk (codes "xy") (save_go_file system disk none (codes "a.go") (codes "xy"))
save_go_file-IsSaved_example = save_go_file-IsSaved system disk (codes "xy") none (codes "a.go")

written :
    save_go_file system disk none (codes "a.go") (codes "x")
    ≡ (ok tt, (codes "/w/a.go", codes "x") ∷ [])
unfolding save_go_file
written = refl

abbrev environ : Environ
environ = record { path = codes "/bin"; goroot = []; gopath = []; gomodcache = [] }

abbrev boot : AppLifecycle.Boot
boot = record {
  boot = call;
  settings = call;
  stat = λ path. none;
  scratch = codes "/tmp/s";
  mkdir_ok = true;
  go_mod_ok = true;
}

abbrev lsp_host : Manager.Host
lsp_host = record {
  cleanup_ok = true;
  gopls = true;
  mkdir_ok = true;
  go_mod_ok = true;
  listen = some 4000;
}

-- An application that has started and serves a project.
abbrev served_app : AppLifecycle.Application
served_app =
    (AppLifecycle.start_lsp system lsp_host (codes "p")
      (AppLifecycle.start boot (unstarted store environ)).1).1

abbrev nothing_happens : Text → Stop.Outside
nothing_happens path = record { ctx = none; signal_ok = true; events = [] }

abbrev removals : Removals
removals = record { scratch_ok = true; workspace_ok = true }

stop-clean_example :
    ((AppLifecycle.stop machine.files none nothing_happens removals served_app).1.scratch_dirs ≡ [])
    × (lsp_dirs (AppLifecycle.stop machine.files none nothing_happens removals served_app).1.lsp
        ≡ [])
stop-clean_example = stop-clean machine.files none nothing_happens removals refl refl (
    Clean.lsp_started system lsp_host (codes "p") refl refl
      (Clean.started boot refl refl (Clean.fresh store environ)))
