-- ===== src/Telemetry/Laws.antt =====
-- About the recorder of internal/telemetry/recorder.go.
use gopoke.Base.{ℕ, ◌+◌, ◌≤◌, ◌≡◌, refl, false, none, some, ok, arith, if◌then◌else◌}
use gopoke.Base.Update.{find}
use gopoke.Text.{Text, text_eq, is_empty, text_eq_refl}
use gopoke.Text.Keyed.{find-remove}
use gopoke.Telemetry.{
  RunEvent, RunState, Recorder, of_run, put, mark_startup_complete, mark_run_triggered, event_of,
  mark_first_output,
}

abbrev id_of : RunState → Text
id_of r = r.run_id

-- The startup event is consistent: it ends no earlier than it starts, by exactly its duration.
pub startup_consistent :
    (now started_at : ℕ)
    → let e = mark_startup_complete now started_at in
      (e.started_at ≡ started_at)
      × (e.started_at + e.duration ≡ e.completed_at)
      × (now ≤ e.completed_at)
unfolding mark_startup_complete
startup_consistent now started_at = ground arith

find-put :
    (r : RunState) (q : Text) (rs : Recorder)
    → find (of_run q) (put r rs) ≡ (if text_eq r.run_id q then some r else find (of_run q) rs)
unfolding find
find-put r q rs = ground (arith, find-remove id_of r.run_id q rs)

-- The event of a run's first output.
pub record IsFirst (run_id : Text) (triggered_at output_at : ℕ) (e : RunEvent) : Type 0 where
  pub run : e.run_id ≡ run_id
  pub trigger : e.triggered_at ≡ triggered_at
  pub order : e.triggered_at + e.time_to_first_output ≡ e.first_output_at
  pub late : output_at ≤ e.first_output_at

-- After a run is triggered, its first output emits one event, with the trigger's time and a delay
-- that adds up; every later output of the run emits none.
pub mark_first_output_lem :
    (run_id : Text) (triggered_at first later : ℕ) (rs : Recorder)
    → is_empty run_id ≡ false
    → let (r₁, rs₁) = mark_run_triggered run_id triggered_at rs in
      let (r₂, rs₂) = mark_first_output run_id first rs₁ in
      let (r₃, rs₃) = mark_first_output run_id later rs₂ in
      (r₁ ≡ ok tt)
      × ((e : RunEvent) × (r₂ ≡ ok (some e)) × IsFirst run_id triggered_at first e)
      × (r₃ ≡ ok none)
      × (rs₃ ≡ rs₂)
unfolding mark_run_triggered mark_first_output
mark_first_output_lem run_id triggered_at first later rs named =
    let triggered : RunState = record {
      run_id = run_id;
      triggered_at = triggered_at;
      first_output_at = 0;
      closed = false;
    } in
    rw (named, text_eq_refl run_id)
      (
        refl,
        (
          event_of triggered first,
          refl,
          record { run = refl; trigger = refl; order = ground arith; late = ground arith },
        ),
        rw (text_eq_refl run_id),
        rw (text_eq_refl run_id),
      )
