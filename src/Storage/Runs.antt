-- ===== src/Storage/Runs.antt =====
-- The run methods of store.go.
use gopoke.Base.{ℕ, Bool, true, false, List, [], ◌∷◌, ◌++◌, filter, ltb, ◌==◌, if◌then◌else◌}
use gopoke.Base.Int.{ℤ, pos, ltb_ℤ}
use gopoke.Base.Sort.{sort}
use gopoke.Text.{Text, codes, text_lt, is_empty}
use gopoke.Storage.Schema.{RunRecord, generate_id}
use gopoke.Storage.Monad.{
  project_id_required, run_status_required, Call, Action, pure, ◌>>=◌, ◌>>◌, check_context, require,
  require_nonblank,
}
use gopoke.Storage.Io.{load_locked, write_locked, persist}
use gopoke.Storage.Projects.{limited, limit_of}
use gopoke.Storage.Prune.{of_project, prune_run_records}

-- maxRunsPerProject
abbrev pub max_runs_per_project : ℕ
max_runs_per_project = 200

-- The identifier, the start and the duration that RecordRun fills in.
unfoldable pub completed : Call → RunRecord → RunRecord
unfolding generate_id
completed c r = record r {
  id = if is_empty r.id then generate_id (codes "run") c.random else r.id;
  started_at = if r.started_at == 0 then c.now else r.started_at;
  duration_ms = if ltb_ℤ r.duration_ms (pos 0) then pos 0 else r.duration_ms;
}

-- Store.RecordRun
unfoldable pub record_run : Call → RunRecord → Action RunRecord
unfolding load_locked write_locked completed
record_run c given = do
  check_context c.ctx
  require given.project_id project_id_required
  require_nonblank given.status run_status_required
  d ← load_locked
  let r = completed c given
  let rs = prune_run_records (d.runs ++ r ∷ []) r.project_id max_runs_per_project
  persist c (record d { runs = rs })
  pure r

-- The comparison of ProjectRuns: the later start first, then by identifier.
unfoldable pub run_before : RunRecord → RunRecord → Bool
run_before a b =
    if ltb b.started_at a.started_at
    then true
    else if ltb a.started_at b.started_at
    then false
    else text_lt a.id b.id

-- Store.ProjectRuns
unfoldable pub project_runs : Call → Text → ℤ → Action (List RunRecord)
unfolding load_locked sort
project_runs c project_id limit = do
  check_context c.ctx
  require project_id project_id_required
  n ← limit_of limit
  d ← load_locked
  pure (limited n (sort run_before (filter (of_project project_id) d.runs)))
