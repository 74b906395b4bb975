-- ===== src/Runner.antt =====
-- internal/runner/manager.go: one long-lived worker process for each project. A *managedWorker is
-- known by its number, `handle`. The operating system's answers are arguments: what filepath.Abs
-- and os.Stat say of a path, and what the command factory and command.Start return.
pub mod Exclusive
pub mod Reachable
pub mod Stop
mod Tests
use gopoke.Base.{
  ℕ, suc, ◌+◌, Bool, true, false, not, ◌&&◌, Option, none, some, List, [], ◌∷◌, ◌++◌, filter,
  Result, ok, err, CtxError, ◌==◌, if◌then◌else◌,
}
use gopoke.Base.Update.{find}
use gopoke.Text.{Text, text_eq, is_empty}

-- Worker
pub record Worker : Type 0 where
  pub project_path : Text
  pub started_at : ℕ
  pub pid : ℕ
  pub running : Bool

-- managedWorker
pub record ManagedWorker : Type 0 where
  pub handle : ℕ
  pub info : Worker

-- Manager. `workers` is the map by project path; `live` are the processes that have been started
-- and have not been seen to exit, and `next` is the number for the next worker.
pub record Manager : Type 0 where
  pub workers : List ManagedWorker
  pub live : List ManagedWorker
  pub next : ℕ

-- filepath.Abs and os.Stat: the directory test of a path, or none if os.Stat fails.
pub record FileSystem : Type 0 where
  pub abs : Text → Option Text
  pub is_dir : Text → Option Bool

pub data Error : Type 0 where
  context : CtxError → Error
  project_path_required resolve_failed inspect_failed not_a_directory : Error
  create_failed start_failed signal_failed kill_failed : Error

-- What launching the worker comes to: its process and start time, or the step that fails.
pub data Launch : Type 0 where
  factory_failed command_failed : Launch
  launched : ℕ → ℕ → Launch

abbrev pub checked_dir : Text → Option Bool → Result Error Text
checked_dir path none = err inspect_failed
checked_dir path (some false) = err not_a_directory
checked_dir path (some true) = ok path

abbrev pub checked_abs : FileSystem → Option Text → Result Error Text
checked_abs fs none = err resolve_failed
checked_abs fs (some path) = checked_dir path (fs.is_dir path)

-- normalizeProjectPath
unfoldable pub normalize_project_path : FileSystem → Text → Result Error Text
normalize_project_path fs path =
    if is_empty path then err project_path_required else checked_abs fs (fs.abs path)

abbrev pub at_path : Text → ManagedWorker → Bool
at_path path w = text_eq w.info.project_path path

abbrev pub has_handle : ℕ → ManagedWorker → Bool
has_handle h w = w.handle == h

-- m.workers[path] = worker
abbrev pub put : ManagedWorker → List ManagedWorker → List ManagedWorker
put w ws = filter (λ v. not (at_path w.info.project_path v)) ws ++ w ∷ []

abbrev pub new_worker : ℕ → Text → ℕ → ℕ → ManagedWorker
new_worker handle path pid now = record {
  handle = handle;
  info = record { project_path = path; started_at = now; pid = pid; running = true };
}

abbrev pub launch : Launch → Text → Manager → Result Error Worker × Manager
launch factory_failed path m = (err create_failed, m)
launch command_failed path m = (err start_failed, m)
launch (launched pid now) path m =
    let w = new_worker m.next path pid now in
    (ok w.info, record { workers = put w m.workers; live = m.live ++ w ∷ []; next = suc m.next })

abbrev pub reuse_or_launch :
    Option ManagedWorker → Launch → Text → Manager → Result Error Worker × Manager
reuse_or_launch none l path m = launch l path m
reuse_or_launch (some w) l path m = if w.info.running then (ok w.info, m) else launch l path m

abbrev pub start_at : Result Error Text → Launch → Manager → Result Error Worker × Manager
start_at (err e) l m = (err e, m)
start_at (ok path) l m = reuse_or_launch (find (at_path path) m.workers) l path m

-- Manager.StartWorker
unfoldable pub start_worker :
    FileSystem → Option CtxError → Text → Launch → Manager → Result Error Worker × Manager
unfolding find normalize_project_path
start_worker fs (some e) path l m = (err (context e), m)
start_worker fs none path l m = start_at (normalize_project_path fs path) l m

abbrev pub forget : Option ManagedWorker → Text → ℕ → List ManagedWorker → List ManagedWorker
forget none path h ws = ws
forget (some current) path h ws =
    if current.handle == h then filter (λ v. not (at_path path v)) ws else ws

-- waitForWorkerExit past command.Wait, for the worker `w`: the map forgets it if it is the current
-- worker of its project.
unfoldable pub wait_for_worker_exit : ManagedWorker → Manager → Manager
unfolding find
wait_for_worker_exit w m = record m {
  workers =
      forget (find (at_path w.info.project_path) m.workers) w.info.project_path w.handle m.workers;
  live = filter (λ v. not (has_handle w.handle v)) m.live;
}

abbrev pub running_in : Option ManagedWorker → Bool
running_in none = false
running_in (some w) = w.info.running

abbrev pub running_at : Option Text → Manager → Bool
running_at none m = false
running_at (some path) m = running_in (find (at_path path) m.workers)

-- Manager.IsRunning
unfoldable pub is_running : FileSystem → Text → Manager → Bool
unfolding find
is_running fs path m = running_at (fs.abs path) m

-- NewManager, without its options.
abbrev pub new_manager : Manager
new_manager = record { workers = []; live = []; next = 0 }
