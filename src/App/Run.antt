-- ===== src/App/Run.antt =====
-- RunSnippet of internal/app/app.go and what it calls: resolveRunRequest, resolveWorkingDirectory and
-- recordRunResult, over the store, the active runs and the workers. The store is always there, as
-- NewWithDataRoot makes it.
pub mod Resolve
pub mod Safe
pub mod Ends
pub mod Cut
use gopoke.Base.{
  ℕ, Bool, true, false, Option, none, some, List, [], ◌∷◌, Result, ok, err, CtxError, canceled,
  deadline_exceeded, if◌then◌else◌,
}
use gopoke.Base.Int.{ℤ, pos, negsuc}
use gopoke.Text.{Text, codes, is_empty, trim_space}
use gopoke.Storage.Schema.{RunRecord}
use gopoke.Storage.Monad
use gopoke.Storage.Monad.{Store, Call}
use gopoke.Storage.Runs.{record_run}
use gopoke.Execution.Outcome.{RunResult, RunStatus, run_status, success, failed, timed_out}
use gopoke.Execution.Start
use gopoke.Execution.Start.{Ended, RunOptions, run_go_snippet_with_options}
use gopoke.Execution.SnippetCache.{CacheEntry}
use gopoke.Runner
use gopoke.Runner.{Manager, Launch, Worker, start_worker}
use gopoke.App.Registry
use gopoke.App.Registry.{Runs, Meanwhile, register_active_run, end_run, happen_all}
use gopoke.Project.Targets
use gopoke.App.Step
use gopoke.App.Run.Resolve
use gopoke.App.Run.Resolve.{Host, Request, ResolvedRequest, Calls, resolve_run_request}

-- What RunSnippet changes: the store, the map of active runs, the workers if they have been set up,
-- and the cache directory of the project.
pub record State : Type 0 where
  pub store : Store
  pub runs : Runs
  pub workers : Option Manager
  pub cache : List CacheEntry

-- What one run meets, in the order of its steps. `ctx` is ctx.Err() at the entry, `worker_ctx` and
-- `command_ctx` are runCtx.Err() where the worker and the command are started; `id` is
-- generateRunID(), `cancel` the number of its cancel function, and `elapsed` the time that a run
-- that is cut short has taken; `meanwhile` is what others do to the map of active runs.
pub record Course : Type 0 where
  pub ctx : Option CtxError
  pub id : Text
  pub cancel : ℕ
  pub meanwhile : List Meanwhile
  pub started_at : ℕ
  pub calls : Calls
  pub worker_ctx : Option CtxError
  pub launch : Launch
  pub command_ctx : Option CtxError
  pub ended : Ended
  pub elapsed : ℕ
  pub record_call : Call

pub data Error : Type 0 where
  context : CtxError → Error
  register : Registry.RunError → Error
  resolve : Step.Error → Error
  worker : Runner.Error → Error
  execute : Start.Error → Error

-- The context error in what a step returns, for errors.Is.
abbrev pub in_storage : Monad.Error → Option CtxError
in_storage (Monad.context c) = some c
in_storage e = none

abbrev pub in_targets : Targets.Error → Option CtxError
in_targets (Targets.context c) = some c
in_targets e = none

abbrev pub in_resolve : Step.Error → Option CtxError
in_resolve (Step.storage e) = in_storage e
in_resolve (Step.targets e) = in_targets e
in_resolve e = none

abbrev pub in_worker : Runner.Error → Option CtxError
in_worker (Runner.context c) = some c
in_worker e = none

abbrev pub in_execution : Start.Error → Option CtxError
in_execution (Start.context c) = some c
in_execution e = none

abbrev pub in_error : Error → Option CtxError
in_error (context c) = some c
in_error (register (Registry.context c)) = some c
in_error (register e) = none
in_error (resolve e) = in_resolve e
in_error (worker e) = in_worker e
in_error (execute e) = in_execution e

-- canceledRunResult
unfoldable pub canceled_run_result : ℕ → RunResult
canceled_run_result elapsed = record {
  stdout = [];
  stderr = codes "execution canceled";
  exit_code = negsuc 0;
  duration_ms = elapsed;
  timed_out = false;
  canceled = true;
  stdout_truncated = false;
  stderr_truncated = false;
}

-- timedOutRunResult
unfoldable pub timed_out_run_result : ℕ → RunResult
timed_out_run_result elapsed = record {
  stdout = [];
  stderr = codes "execution timed out";
  exit_code = negsuc 0;
  duration_ms = elapsed;
  timed_out = true;
  canceled = false;
  stdout_truncated = false;
  stderr_truncated = false;
}

abbrev pub status_text : RunStatus → Text
status_text RunStatus.success = codes "success"
status_text RunStatus.failed = codes "failed"
status_text RunStatus.canceled = codes "canceled"
status_text RunStatus.timed_out = codes "timed_out"

abbrev pub run_record : Text → Text → ℕ → RunResult → RunRecord
run_record run_id project_id started_at result = record {
  id = run_id;
  project_id = project_id;
  snippet_id = [];
  started_at = started_at;
  duration_ms = pos result.duration_ms;
  exit_code = result.exit_code;
  status = status_text (run_status result);
}

-- recordRunResult; its error is only logged.
unfoldable pub record_run_result : Call → Text → Text → ℕ → RunResult → Store → Store
unfolding record_run run_status
record_run_result c run_id project_id started_at result s =
    if is_empty project_id
    then s
    else (record_run c (run_record run_id project_id started_at result) s).1

abbrev pub cut_short : CtxError → ℕ → RunResult
cut_short canceled elapsed = canceled_run_result elapsed
cut_short deadline_exceeded elapsed = timed_out_run_result elapsed

abbrev pub keep : Course → Text → Text → RunResult → State → Result Error RunResult × State
keep o run_id project_id result st = (
  ok result,
  record st {
    store = record_run_result o.record_call run_id project_id o.started_at result st.store;
  },
)

-- What follows an error of a step: a run that is canceled or out of time has a result, which is
-- recorded, and any other error is returned.
abbrev pub recover :
    Course → Text → Text → Error → Option CtxError → State → Result Error RunResult × State
recover o run_id project_id e none st = (err e, st)
recover o run_id project_id e (some c) st = keep o run_id project_id (cut_short c o.elapsed) st

abbrev pub settle :
    Course → Text → Text → Result Start.Error RunResult → State → Result Error RunResult × State
settle o run_id project_id (err e) st = recover o run_id project_id (execute e) (in_execution e) st
settle o run_id project_id (ok result) st = keep o run_id project_id result st

abbrev pub options_of : ResolvedRequest → RunOptions
options_of r = record {
  working_directory = r.working_directory;
  environment = r.environment;
  toolchain = r.toolchain;
  timeout = r.timeout;
}

abbrev pub execute_for :
    Start.Host → Course → Text → ResolvedRequest → State → Result Error RunResult × State
execute_for machine o run_id r st =
    let (result, cache) =
      run_go_snippet_with_options machine o.command_ctx r.project_path r.source (options_of r)
        o.ended st.cache in
    settle o run_id r.project_id result (record st { cache = cache })

abbrev pub with_worker :
    Start.Host
    → Course
    → Text
    → ResolvedRequest
    → Result Runner.Error Worker
    → State
    → Result Error RunResult × State
with_worker machine o run_id r (err e) st =
    recover o run_id r.project_id (worker e) (in_worker e) st
with_worker machine o run_id r (ok w) st = execute_for machine o run_id r st

abbrev pub ensure_worker :
    Start.Host
    → Course
    → Text
    → ResolvedRequest
    → Option Manager
    → State
    → Result Error RunResult × State
ensure_worker machine o run_id r none st = execute_for machine o run_id r st
ensure_worker machine o run_id r (some m) st =
    let (started, m') = start_worker machine.files o.worker_ctx r.project_path o.launch m in
    with_worker machine o run_id r started (record st { workers = some m' })

abbrev pub with_request :
    Start.Host
    → Course
    → Text
    → Result Step.Error ResolvedRequest
    → State
    → Result Error RunResult × State
with_request machine o run_id (err e) st = recover o run_id [] (resolve e) (in_resolve e) st
with_request machine o run_id (ok r) st = ensure_worker machine o run_id r st.workers st

-- The body of RunSnippet past the registration.
unfoldable pub run_body :
    Resolve.Host
    → Start.Host
    → Text
    → Course
    → Text
    → Request
    → State
    → Result Error RunResult × State
unfolding resolve_run_request start_worker run_go_snippet_with_options record_run_result
    canceled_run_result timed_out_run_result
run_body host machine scratch o run_id request st =
    let (resolved, store) = resolve_run_request host scratch o.calls request st.store in
    with_request machine o run_id resolved (record st { store = store })

-- The deferred function, past what the others have done by then: the body does not look at the map.
abbrev pub ending : Text → Course → Result Error RunResult × State → Result Error RunResult × State
ending run_id o (result, st) =
    (result, record st { runs = end_run run_id o.cancel (happen_all o.meanwhile st.runs) })

abbrev pub registered :
    Resolve.Host
    → Start.Host
    → Text
    → Course
    → Text
    → Request
    → State
    → Result Registry.RunError (Unit {0})
    → Runs
    → Result Error RunResult × State
registered host machine scratch o run_id request st (err e) runs =
    (err (register e), record st { runs = record runs { canceled = o.cancel ∷ runs.canceled } })
registered host machine scratch o run_id request st (ok tt) runs =
    ending run_id o (run_body host machine scratch o run_id request (record st { runs = runs }))

abbrev pub named_or : Text → Text → Text
named_or id given = if is_empty (trim_space given) then id else trim_space given

abbrev pub run_named :
    Resolve.Host
    → Start.Host
    → Text
    → Course
    → Text
    → Request
    → State
    → Result Error RunResult × State
run_named host machine scratch o run_id request st =
    let (r, runs) = register_active_run run_id o.cancel st.runs in
    registered host machine scratch o run_id request st r runs

abbrev pub run_under :
    Resolve.Host
    → Start.Host
    → Text
    → Course
    → Option CtxError
    → Request
    → State
    → Result Error RunResult × State
run_under host machine scratch o (some e) request st = (err (context e), st)
run_under host machine scratch o none request st =
    run_named host machine scratch o (named_or o.id request.run_id) request st

-- RunSnippet; the diagnostics and the rich blocks of the result are not fields here.
unfoldable pub run_snippet :
    Resolve.Host → Start.Host → Text → Course → Request → State → Result Error RunResult × State
unfolding register_active_run end_run happen_all run_body trim_space
run_snippet host machine scratch o request st = run_under host machine scratch o o.ctx request st
