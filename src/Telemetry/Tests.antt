-- ===== src/Telemetry/Tests.antt =====
-- Runs of the recorder.
use gopoke.Base.{◌≡◌, refl, none, [], ◌∷◌, false, ok}
use gopoke.Text.{codes, text_eq}
use gopoke.Telemetry.{Recorder, mark_run_triggered, mark_first_output}

abbrev one_run : Recorder
one_run = record { run_id = codes "x"; triggered_at = 1; first_output_at = 0; closed = false } ∷ []

-- The first output of a triggered run is reported once.
second_output :
    let (_, rs₁) = mark_run_triggered (codes "r") 10 one_run in
    let (_, rs₂) = mark_first_output (codes "r") 14 rs₁ in
    (mark_first_output (codes "r") 15 rs₂).0 ≡ ok none
unfolding mark_first_output mark_run_triggered text_eq
second_output = refl
