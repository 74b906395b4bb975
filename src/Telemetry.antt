-- ===== src/Telemetry.antt =====
-- internal/telemetry/recorder.go: the startup and run events. Times and durations are nanoseconds.
pub mod Laws
mod Tests
use gopoke.Base.{
  ℕ, ◌-◌, Bool, true, false, not, Option, none, some, List, [], ◌∷◌, filter, Result, ok, err, ltb,
  if◌then◌else◌,
}
use gopoke.Base.Update.{find}
use gopoke.Text.{Text, text_eq, is_empty}

pub record StartupEvent : Type 0 where
  pub started_at : ℕ
  pub completed_at : ℕ
  pub duration : ℕ

pub record RunEvent : Type 0 where
  pub run_id : Text
  pub triggered_at : ℕ
  pub first_output_at : ℕ
  pub time_to_first_output : ℕ

-- The runState of a run, with the key of the map; firstOutputAt is never set by the code.
pub record RunState : Type 0 where
  pub run_id : Text
  pub triggered_at : ℕ
  pub first_output_at : ℕ
  pub closed : Bool

-- Recorder: the map `runs`.
abbrev pub Recorder : Type 0
Recorder = List RunState

pub data Error : Type 0 where
  run_id_required run_not_found : Error

-- `if t.Before(from) { t = from }`
abbrev pub not_before : ℕ → ℕ → ℕ
not_before t from = if ltb t from then from else t

-- MarkStartupComplete, with the clock's answer.
unfoldable pub mark_startup_complete : ℕ → ℕ → StartupEvent
mark_startup_complete now started_at = record {
  started_at = started_at;
  completed_at = not_before now started_at;
  duration = not_before now started_at - started_at;
}

abbrev pub of_run : Text → RunState → Bool
of_run run_id r = text_eq r.run_id run_id

-- r.runs[runID] = state
abbrev pub put : RunState → Recorder → Recorder
put state rs = state ∷ filter (λ r. not (of_run state.run_id r)) rs

-- MarkRunTriggered
unfoldable pub mark_run_triggered : Text → ℕ → Recorder → Result Error (Unit {0}) × Recorder
mark_run_triggered run_id triggered_at rs = if is_empty run_id then (err run_id_required, rs) else (
  ok tt,
  put (record { run_id = run_id; triggered_at = triggered_at; first_output_at = 0; closed = false })
      rs,
)

abbrev pub event_of : RunState → ℕ → RunEvent
event_of r first_output_at = record {
  run_id = r.run_id;
  triggered_at = r.triggered_at;
  first_output_at = not_before first_output_at r.triggered_at;
  time_to_first_output = not_before first_output_at r.triggered_at - r.triggered_at;
}

abbrev pub mark_found : Option RunState → ℕ → Recorder → Result Error (Option RunEvent) × Recorder
mark_found none at rs = (err run_not_found, rs)
mark_found (some r) at rs =
    if r.closed
    then (ok none, rs)
    else (ok (some (event_of r at)), put (record r { closed = true }) rs)

-- MarkFirstOutput; Go's (event, emitted) is an option.
unfoldable pub mark_first_output : Text → ℕ → Recorder → Result Error (Option RunEvent) × Recorder
unfolding find
mark_first_output run_id first_output_at rs =
    if is_empty run_id
    then (err run_id_required, rs)
    else mark_found (find (of_run run_id) rs) first_output_at rs
