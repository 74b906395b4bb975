-- ===== src/App/Run/Safe.antt =====
-- About the body of RunSnippet of internal/app/app.go.
use gopoke.Base.{
  ℕ, ◌≡◌, refl, subst, ◌∙◌, Bool, true, false, Option, none, some, [], Result, ok, err, CtxError,
  if◌then◌else◌,
}
use gopoke.Text.{Text, is_empty}
use gopoke.Storage.Monad.{Store, Call}
use gopoke.Storage.Valid.{StoreIsValid}
use gopoke.Storage.Valid.Runs.{record_run-Keeps}
use gopoke.Execution.Outcome.{RunResult}
use gopoke.Execution.Start
use gopoke.Execution.Start.{run_go_snippet_with_options}
use gopoke.Runner
use gopoke.Runner.{Manager, Worker, start_worker}
use gopoke.Runner.Exclusive.{IsExclusive, start_worker-IsExclusive}
use gopoke.App.Step
use gopoke.App.Run.Resolve
use gopoke.App.Run.Resolve.{Request, ResolvedRequest, resolve_run_request}
use gopoke.App.Run.Resolve.Valid.{resolve_run_request-Preserves}
use gopoke.App.Run.{
  State, Course, Error, resolve, worker, execute, in_error, in_resolve, in_worker, in_execution,
  record_run_result, run_record, keep, recover, settle, execute_for, options_of, with_worker,
  ensure_worker, with_request, run_body,
}

abbrev pub WorkersAreExclusive : Option Manager → Type 0
WorkersAreExclusive none = Unit
WorkersAreExclusive (some m) = IsExclusive m

-- An error that a run returns is not that its context has ended.
abbrev pub NoContext : Result Error RunResult → Type 0
NoContext (ok r) = Unit
NoContext (err e) = in_error e ≡ none

module _ (lower : ℕ → ℕ) where
  -- A valid store, and exclusive workers.
  pub record IsSafe (st : State) : Type 0 where
    pub store : StoreIsValid lower st.store
    pub workers : WorkersAreExclusive st.workers

  -- What a part of a run makes of a state.
  pub record Fine (st : State) (out : Result Error RunResult × State) : Type 0 where
    pub runs : out.1.runs ≡ st.runs
    pub safe : IsSafe st → IsSafe out.1
    pub plain : NoContext out.0

  either-IsValid :
      (b : Bool) (s t : Store)
      → StoreIsValid lower s
      → StoreIsValid lower t
      → StoreIsValid lower (if b then s else t)
  either-IsValid true s t v w = v
  either-IsValid false s t v w = w

  record_run_result-IsValid :
      (c : Call) (run_id project_id : Text) (started_at : ℕ) (result : RunResult) (s : Store)
      → StoreIsValid lower s
      → StoreIsValid lower (record_run_result c run_id project_id started_at result s)
  unfolding record_run_result
  record_run_result-IsValid c run_id project_id started_at result s h =
      either-IsValid (is_empty project_id) s _ h
        ((record_run-Keeps lower c (run_record run_id project_id started_at result)).at s h)

  keep-Fine :
      (o : Course) (run_id project_id : Text) (result : RunResult) (st : State)
      → Fine st (keep o run_id project_id result st)
  keep-Fine o run_id project_id result st = record {
    runs = refl;
    safe = λ h. record {
      store =
          record_run_result-IsValid o.record_call run_id project_id o.started_at result st.store
            h.store;
      workers = h.workers;
    };
    plain = tt;
  }

  recover-Fine :
      (o : Course) (run_id project_id : Text) (e : Error) (c : Option CtxError) (st : State)
      → in_error e ≡ c
      → Fine st (recover o run_id project_id e c st)
  recover-Fine o run_id project_id e none st h = record { runs = refl; safe = λ v. v; plain = h }
  recover-Fine o run_id project_id e (some c) st h = keep-Fine o run_id project_id _ st

  settle-Fine :
      (o : Course) (run_id project_id : Text) (r : Result Start.Error RunResult) (st : State)
      → Fine st (settle o run_id project_id r st)
  settle-Fine o run_id project_id (ok result) st = keep-Fine o run_id project_id result st
  settle-Fine o run_id project_id (err e) st =
      recover-Fine o run_id project_id (execute e) (in_execution e) st refl

  -- A part that starts in a state with the same runs, which is safe if the state before it is.
  Fine-after :
      (st st' : State) {out : Result Error RunResult × State}
      → st'.runs ≡ st.runs
      → (IsSafe st → IsSafe st')
      → Fine st' out
      → Fine st out
  Fine-after st st' e g f = record { runs = f.runs ∙ e; safe = λ h. f.safe (g h); plain = f.plain }

  execute_for-Fine :
      (machine : Start.Host) (o : Course) (run_id : Text) (r : ResolvedRequest) (st : State)
      → Fine st (execute_for machine o run_id r st)
  execute_for-Fine machine o run_id r st =
      let ran =
        run_go_snippet_with_options machine o.command_ctx r.project_path r.source (options_of r)
          o.ended st.cache in
      let st' = record st { cache = ran.1 } in
      Fine-after st st' refl (λ h. record { store = h.store; workers = h.workers })
        (settle-Fine o run_id r.project_id ran.0 st')

  with_worker-Fine :
      (machine : Start.Host) (o : Course) (run_id : Text) (r : ResolvedRequest)
      (w : Result Runner.Error Worker) (st : State)
      → Fine st (with_worker machine o run_id r w st)
  with_worker-Fine machine o run_id r (ok w) st = execute_for-Fine machine o run_id r st
  with_worker-Fine machine o run_id r (err e) st =
      recover-Fine o run_id r.project_id (worker e) (in_worker e) st refl

  ensure_worker-Fine :
      (machine : Start.Host) (o : Course) (run_id : Text) (r : ResolvedRequest) (m : Option Manager)
      (st : State)
      → st.workers ≡ m
      → Fine st (ensure_worker machine o run_id r m st)
  ensure_worker-Fine machine o run_id r none st e = execute_for-Fine machine o run_id r st
  ensure_worker-Fine machine o run_id r (some m) st e =
      let started = start_worker machine.files o.worker_ctx r.project_path o.launch m in
      let st' = record st { workers = some started.1 } in
      Fine-after st st' refl
        (λ h. record {
          store = h.store;
          workers =
              start_worker-IsExclusive machine.files o.worker_ctx r.project_path o.launch m
                (subst WorkersAreExclusive e h.workers);
        })
        (with_worker-Fine machine o run_id r started.0 st')

  with_request-Fine :
      (machine : Start.Host) (o : Course) (run_id : Text) (r : Result Step.Error ResolvedRequest)
      (st : State)
      → Fine st (with_request machine o run_id r st)
  with_request-Fine machine o run_id (ok r) st =
      ensure_worker-Fine machine o run_id r st.workers st refl
  with_request-Fine machine o run_id (err e) st =
      recover-Fine o run_id [] (resolve e) (in_resolve e) st refl

  pub run_body-Fine :
      (host : Resolve.Host) (machine : Start.Host) (scratch : Text) (o : Course) (run_id : Text)
      (request : Request) (st : State)
      → Fine st (run_body host machine scratch o run_id request st)
  unfolding run_body
  run_body-Fine host machine scratch o run_id request st =
      let resolved = resolve_run_request host scratch o.calls request st.store in
      let st' = record st { store = resolved.1 } in
      Fine-after st st' refl
        (λ h. record {
          store =
              (resolve_run_request-Preserves lower host scratch o.calls request).at st.store
                h.store;
          workers = h.workers;
        })
        (with_request-Fine machine o run_id resolved.0 st')
