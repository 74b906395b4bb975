-- ===== src/App/Run/Cut.antt =====
-- About RunSnippet of internal/app/app.go when its context ends before the command runs.
use gopoke.Base.{◌≡◌, ◌⊎◌, none, some, Option, Result, ok, CtxError, canceled, deadline_exceeded}
use gopoke.Base.Int.{negsuc}
use gopoke.Text.{Text}
use gopoke.Storage.Monad.{Store}
use gopoke.Execution.Outcome.{RunResult, RunStatus, run_status}
use gopoke.Execution.Start
use gopoke.Runner
use gopoke.Runner.{Manager, Worker, start_worker}
use gopoke.App.Step
use gopoke.App.Run.Resolve
use gopoke.App.Run.Resolve.{Request, ResolvedRequest}
use gopoke.App.Run.{State, Course, Error, record_run_result}

-- The status of a run whose context has ended.
abbrev pub status_of : CtxError → RunStatus
status_of canceled = RunStatus.canceled
status_of deadline_exceeded = RunStatus.timed_out

module _ (host : Resolve.Host) (machine : Start.Host) (scratch : Text) (o : Course)
    (request : Request) (r : ResolvedRequest) (c : CtxError) where
  -- The context ends by `c`: before the worker is started, or before the command is.
  abbrev pub Stops : Option Manager → Type 0
  Stops none = o.command_ctx ≡ some c
  Stops (some m) =
      (o.worker_ctx ≡ some c)
      ⊎ ((w : Worker) × ((start_worker machine.files o.worker_ctx r.project_path o.launch m).0
            ≡ ok w)
          × (o.command_ctx ≡ some c))

  -- The run has a result with that status, which is recorded in the store it has come to.
  abbrev Parts : Text → Store → Result Error RunResult × State → Type 0
  Parts id s (result, st) =
      (x : RunResult) × (result ≡ ok x)
      × (run_status x ≡ status_of c)
      × (x.exit_code ≡ negsuc 0)
      × (x.duration_ms ≡ o.elapsed)
      × (st.store ≡ record_run_result o.record_call id r.project_id o.started_at x s)

  -- The run has a result of that status, which is recorded in the store it has come to.
  pub record Cut (id : Text) (s : Store) (out : Result Error RunResult × State) : Type 0 where
    pub result : RunResult
    pub returned : out.0 ≡ ok result
    pub status : run_status result ≡ status_of c
    pub exit_code : result.exit_code ≡ negsuc 0
    pub duration_ms : result.duration_ms ≡ o.elapsed
    pub recorded :
        out.1.store ≡ record_run_result o.record_call id r.project_id o.started_at result s
