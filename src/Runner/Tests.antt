-- ===== src/Runner/Tests.antt =====
-- Runs of the worker manager.
use gopoke.Base.{◌≡◌, refl, true, false, some, none, ok, [], ◌∷◌, any}
use gopoke.Text.{Text, codes, text_eq, text_eq_refl}
use gopoke.Runner.{
  ManagedWorker, FileSystem, Manager, launched, new_worker, start_worker, wait_for_worker_exit,
  normalize_project_path, is_running, new_manager, has_handle,
}
use gopoke.Runner.Exclusive.{IsExclusive}
use gopoke.Runner.Reachable.{Reach, fresh, started, exited, Reach-IsExclusive}
use gopoke.Runner.Stop
use gopoke.Runner.Stop.{stop_worker, stop_all}
use gopoke.Runner.Stop.Gone.{stop_worker-Absent}
use gopoke.Runner.Stop.Returns.{EachEnds, has_returned, stop_all-returns}

-- Every path is absolute and a directory.
abbrev directories : FileSystem
directories = record { abs = λ p. some p; is_dir = λ p. some true }

abbrev worker_p : ManagedWorker
worker_p = new_worker 0 (codes "/p") 7 1

abbrev one_worker : Manager
one_worker = (start_worker directories none (codes "/p") (launched 7 1) new_manager).1

abbrev two_workers : Manager
two_workers = (start_worker directories none (codes "/q") (launched 8 2) one_worker).1

reused :
    start_worker directories none (codes "/p") (launched 9 3) two_workers
    ≡ (ok worker_p.info, two_workers)
unfolding start_worker text_eq
reused = refl

gone : is_running directories (codes "/p") (wait_for_worker_exit worker_p two_workers) ≡ false
unfolding start_worker wait_for_worker_exit is_running text_eq
gone = refl

abbrev two_started : Reach two_workers
two_started =
    started directories none (codes "/q") (launched 8 2)
      (started directories none (codes "/p") (launched 7 1) fresh)

-- While StopWorker waits, another goroutine asks for the same worker, the timeout passes, the other
-- project's worker exits first, and a new worker is started before `done` is closed.
abbrev outside : Stop.Outside
outside = record {
  ctx = none;
  signal_ok = true;
  events =
      Stop.started directories none (codes "/p") (launched 9 3)
      ∷ Stop.timer true
      ∷ Stop.exited (codes "/q")
      ∷ Stop.exited (codes "/p")
      ∷ Stop.started directories none (codes "/p") (launched 10 4)
      ∷ Stop.closed
      ∷ [];
}

stop_worker-Absent_example :
    let m = (stop_worker directories outside (codes "/p") two_workers).1 in
    (any (has_handle 0) m.live ≡ false) × (any (has_handle 0) m.workers ≡ false)
unfolding start_worker stop_worker text_eq normalize_project_path
stop_worker-Absent_example =
    stop_worker-Absent directories outside (codes "/p") (codes "/p") worker_p two_workers
      (Reach-IsExclusive two_started) refl refl refl

-- StopWorker has returned nil, and the project has a running worker.
stopped_and_running :
    let r = stop_worker directories outside (codes "/p") two_workers in
    (r.0 ≡ Stop.returned none) × (is_running directories (codes "/p") r.1 ≡ true)
unfolding start_worker stop_worker is_running text_eq
stopped_and_running = (refl, refl)

-- The worker that StopAll stops exits after the timeout.
abbrev each : Text → Stop.Outside
each path = record {
  ctx = none;
  signal_ok = true;
  events = Stop.timer true ∷ Stop.exited path ∷ Stop.closed ∷ [];
}

each-EachEnds : EachEnds directories each
unfolding normalize_project_path
each-EachEnds [] p h = cc
each-EachEnds (c ∷ s) p h =
    let same : c ∷ s ≡ p = cc h in rw (← same) (rw (text_eq_refl (c ∷ s)) refl)

stop_all-returns_example : has_returned (stop_all directories none each two_workers).0 ≡ true
unfolding start_worker text_eq
stop_all-returns_example =
    stop_all-returns directories none each two_workers (Reach-IsExclusive two_started) each-EachEnds

Reach-IsExclusive_example : IsExclusive (wait_for_worker_exit worker_p two_workers)
unfolding start_worker text_eq
Reach-IsExclusive_example = Reach-IsExclusive (
    exited (codes "/p") worker_p refl (
      started directories none (codes "/q") (launched 8 2)
        (started directories none (codes "/p") (launched 7 1) fresh)))
