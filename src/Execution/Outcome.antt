-- ===== src/Execution/Outcome.antt =====
-- The end of RunGoSnippetWithOptions in internal/execution/snippet_runner.go, which turns the exit of
-- the command and the state of the context into a result; and the status that internal/app/app.go
-- records for it. Diagnostics and rich blocks are added to the result later, and are not fields here.
use gopoke.Base.{
  ℕ, ◌≡◌, refl, Bool, true, false, Option, none, some, Result, ok, err, CtxError, deadline_exceeded,
  ◌==◌, if◌then◌else◌,
}
use gopoke.Base.Int.{ℤ, pos, negsuc}
use gopoke.Text.{Text, codes, is_empty, trim_space}
use gopoke.Execution.Capture.{CaptureWriter}
use gopoke.Execution.Lifecycle.{Exit, clean, code, wait_failed}

pub record RunResult : Type 0 where
  pub stdout : Text
  pub stderr : Text
  pub exit_code : ℤ
  pub duration_ms : ℕ
  pub timed_out : Bool
  pub canceled : Bool
  pub stdout_truncated : Bool
  pub stderr_truncated : Bool

-- "run snippet command: %w", the one error past the start of the command.
pub data RunError : Type 0 where
  command_failed : RunError

-- The `result := Result{...}` after the wait. An output stays the sequence of its bytes, which a Go string
-- holds too; it is not decoded into runes.
unfoldable pub captured : CaptureWriter → CaptureWriter → ℕ → RunResult
captured out errors duration_ms = record {
  stdout = out.buffer;
  stderr = errors.buffer;
  exit_code = pos 0;
  duration_ms = duration_ms;
  timed_out = false;
  canceled = false;
  stdout_truncated = out.truncated;
  stderr_truncated = errors.truncated;
}

-- `if strings.TrimSpace(result.Stderr) == "" { result.Stderr = message }`
abbrev pub stderr_or : Text → Text → Text
stderr_or stderr message = if is_empty (trim_space stderr) then message else stderr

unfoldable pub after_timeout : RunResult → RunResult
after_timeout r = record r {
  timed_out = true;
  exit_code = negsuc 0;
  stderr = stderr_or r.stderr (codes "execution timed out");
}

unfoldable pub after_cancel : RunResult → RunResult
after_cancel r = record r {
  canceled = true;
  exit_code = negsuc 0;
  stderr = stderr_or r.stderr (codes "execution canceled");
}

-- What RunGoSnippetWithOptions returns, by the error of the wait and by runCtx.Err().
unfoldable pub finish : Exit → Option CtxError → RunResult → Result RunError RunResult
unfolding after_timeout after_cancel
finish clean ctx r = ok r
finish (code n) (some deadline_exceeded) r = ok (after_timeout r)
finish (code n) (some CtxError.canceled) r = ok (after_cancel r)
finish (code n) none r = ok (record r { exit_code = n })
finish wait_failed (some deadline_exceeded) r = ok (after_timeout r)
finish wait_failed (some CtxError.canceled) r = ok (after_cancel r)
finish wait_failed none r = err command_failed

-- The constants runStatus... of app.go.
pub data RunStatus : Type 0 where
  success failed canceled timed_out : RunStatus

abbrev pub is_zero : ℤ → Bool
is_zero (pos n) = n == 0
is_zero (negsuc n) = false

-- runStatusFromResult
unfoldable pub run_status : RunResult → RunStatus
run_status r =
    if r.canceled
    then RunStatus.canceled
    else if r.timed_out
    then RunStatus.timed_out
    else if is_zero r.exit_code
    then RunStatus.success
    else RunStatus.failed

-- The status of a run by how it ended.
abbrev pub status_of : Exit → Option CtxError → Option RunStatus
status_of clean ctx = some RunStatus.success
status_of e (some deadline_exceeded) = some RunStatus.timed_out
status_of e (some CtxError.canceled) = some RunStatus.canceled
status_of (code n) none = some (if is_zero n then RunStatus.success else RunStatus.failed)
status_of wait_failed none = none

abbrev pub status_in : Result RunError RunResult → Option RunStatus
status_in (ok r) = some (run_status r)
status_in (err e) = none

-- The recorded status of a finished command: success if it exited cleanly, even past the deadline;
-- else timed out or canceled if the context had ended so; else by its exit code; and no status
-- only if waiting itself failed under a live context.
pub status-finish :
    (e : Exit) (ctx : Option CtxError) (out errors : CaptureWriter) (duration_ms : ℕ)
    → status_in (finish e ctx (captured out errors duration_ms)) ≡ status_of e ctx
unfolding finish captured run_status
status-finish clean ctx out errors duration_ms = refl
status-finish (code n) (some deadline_exceeded) out errors duration_ms = refl
status-finish (code n) (some CtxError.canceled) out errors duration_ms = refl
status-finish (code n) none out errors duration_ms = refl
status-finish wait_failed (some deadline_exceeded) out errors duration_ms = refl
status-finish wait_failed (some CtxError.canceled) out errors duration_ms = refl
status-finish wait_failed none out errors duration_ms = refl
