-- ===== src/Runner/Stop.antt =====
-- StopWorker, waitForStop and StopAll of internal/runner/manager.go. While they wait, the lock is free:
-- what can happen meanwhile is a list of events, in their order.
pub mod Current
pub mod Gone
pub mod Returns
use gopoke.Base.{
  ℕ, Bool, true, false, ◌||◌, Option, none, some, List, [], ◌∷◌, map, Result, ok, err, CtxError,
  ◌==◌, if◌then◌else◌,
}
use gopoke.Base.Update.{find}
use gopoke.Text.{Text, text_eq}
use gopoke.Runner.{
  ManagedWorker, Manager, FileSystem, Error, context, signal_failed, kill_failed, Launch,
  normalize_project_path, at_path, start_worker, wait_for_worker_exit, running_in,
}

-- The live process of a project exits, and waitForWorkerExit takes the worker out, up to its Unlock;
-- waitForWorkerExit closes the channel `done` of the worker that is waited for, once it has taken that
-- out; StartWorker is called by another goroutine; the context ends; or the stop timeout passes, with
-- whether Process.Kill then does its work (or finds no process).
pub data Event : Type 0 where
  exited : Text → Event
  started : FileSystem → Option CtxError → Text → Launch → Event
  context_done : CtxError → Event
  timer : Bool → Event
  closed : Event

-- Where waitForStop stands: in its first select, in the second, or past its return; and in the selects,
-- whether its worker has been taken out, and only `done` is still open.
pub data Phase : Type 0 where
  waiting killed : Bool → Phase
  returned : Option Error → Phase

abbrev pub exit_of : Option ManagedWorker → Manager → Manager
exit_of none m = m
exit_of (some w) m = wait_for_worker_exit w m

-- What an event does to the manager.
unfoldable pub happen : Event → Manager → Manager
unfolding wait_for_worker_exit start_worker find
happen (exited path) m = exit_of (find (at_path path) m.live) m
happen (started fs ctx path l) m = (start_worker fs ctx path l m).1
happen (context_done e) m = m
happen (timer kill_ok) m = m
happen closed m = m

abbrev pub is_worker : ManagedWorker → Option ManagedWorker → Bool
is_worker w none = false
is_worker w (some v) = v.handle == w.handle

-- Both selects. Process.Kill of a process that has exited finds no process.
unfoldable pub react : ManagedWorker → Phase → Event → Manager → Phase
unfolding find
react w (returned e) event m = returned e
react w (waiting gone) (exited path) m = waiting (gone || is_worker w (find (at_path path) m.live))
react w (waiting gone) (started fs ctx path l) m = waiting gone
react w (waiting gone) (context_done e) m = returned (some (context e))
react w (waiting gone) (timer kill_ok) m =
    if kill_ok || gone then killed gone else returned (some kill_failed)
react w (waiting gone) closed m = if gone then returned none else waiting gone
react w (killed gone) (exited path) m = killed (gone || is_worker w (find (at_path path) m.live))
react w (killed gone) (started fs ctx path l) m = killed gone
react w (killed gone) (context_done e) m = returned (some (context e))
react w (killed gone) (timer kill_ok) m = killed gone
react w (killed gone) closed m = if gone then returned none else killed gone

-- waitForStop, up to the event at which it returns.
unfoldable pub wait_for_stop : ManagedWorker → Phase → List Event → Manager → Phase × Manager
unfolding react happen
wait_for_stop w (returned e) events m = (returned e, m)
wait_for_stop w (waiting gone) [] m = (waiting gone, m)
wait_for_stop w (waiting gone) (event ∷ events) m =
    wait_for_stop w (react w (waiting gone) event m) events (happen event m)
wait_for_stop w (killed gone) [] m = (killed gone, m)
wait_for_stop w (killed gone) (event ∷ events) m =
    wait_for_stop w (react w (killed gone) event m) events (happen event m)

-- One call of StopWorker: ctx.Err() when it is called, whether the interrupt is sent (or finds no
-- process), and what happens while it waits.
pub record Outside : Type 0 where
  pub ctx : Option CtxError
  pub signal_ok : Bool
  pub events : List Event

abbrev pub signalled : Outside → ManagedWorker → Manager → Phase × Manager
signalled o w m =
    if o.signal_ok
    then wait_for_stop w (waiting false) o.events m
    else (returned (some signal_failed), m)

abbrev pub stop_found : Outside → Option ManagedWorker → Manager → Phase × Manager
stop_found o none m = (returned none, m)
stop_found o (some w) m = if w.info.running then signalled o w m else (returned none, m)

abbrev pub stop_at : Outside → Result Error Text → Manager → Phase × Manager
stop_at o (err e) m = (returned (some e), m)
stop_at o (ok path) m = stop_found o (find (at_path path) m.workers) m

abbrev pub stop_alive : Option CtxError → Outside → Result Error Text → Manager → Phase × Manager
stop_alive (some e) o r m = (returned (some (context e)), m)
stop_alive none o r m = stop_at o r m

-- Manager.StopWorker
unfoldable pub stop_worker : FileSystem → Outside → Text → Manager → Phase × Manager
unfolding find normalize_project_path wait_for_stop
stop_worker fs o path m = stop_alive o.ctx o (normalize_project_path fs path) m

-- StopAll goes on to the next path if the call for this one has returned nil.
abbrev pub then_next : Phase → (Manager → Phase × Manager) → Manager → Phase × Manager
then_next (returned none) next m = next m
then_next (returned (some e)) next m = (returned (some e), m)
then_next (waiting gone) next m = (waiting gone, m)
then_next (killed gone) next m = (killed gone, m)

-- The loop of StopAll over the paths.
unfoldable pub stop_each : FileSystem → (Text → Outside) → List Text → Manager → Phase × Manager
unfolding stop_worker
stop_each fs outside [] m = (returned none, m)
stop_each fs outside (path ∷ paths) m =
    let r = stop_worker fs (outside path) path m in then_next r.0 (stop_each fs outside paths) r.1

abbrev pub project_paths : Manager → List Text
project_paths m = map (λ w. w.info.project_path) m.workers

abbrev pub stop_all_alive :
    FileSystem → Option CtxError → (Text → Outside) → Manager → Phase × Manager
stop_all_alive fs (some e) outside m = (returned (some (context e)), m)
stop_all_alive fs none outside m = stop_each fs outside (project_paths m) m

-- Manager.StopAll
unfoldable pub stop_all :
    FileSystem → Option CtxError → (Text → Outside) → Manager → Phase × Manager
unfolding stop_each
stop_all fs ctx outside m = stop_all_alive fs ctx outside m
