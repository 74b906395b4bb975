-- ===== src/App/Registry/Tests.antt =====
-- Runs of the registry of active runs.
use gopoke.Base.{◌≡◌, refl, none, [], ◌∷◌, ok}
use gopoke.Base.Update.{find}
use gopoke.Text.{codes, text_eq, trim_space}
use gopoke.App.Registry.{ActiveRun, Runs, cancel_run}
use gopoke.App.Registry.Laws.{restarted, restart_uncancelable}

abbrev run_a : ActiveRun
run_a = record { run_id = codes "a"; cancel = 1 }

abbrev two_runs : Runs
two_runs = record { active = run_a ∷ record { run_id = codes "b"; cancel = 2 } ∷ []; canceled = [] }

restart_example :
    let s' = restarted (codes "c") 3 4 two_runs in
    (cancel_run none (codes "c") s' ≡ (ok tt, s')) × (s'.canceled ≡ 3 ∷ 3 ∷ [])
unfolding find text_eq trim_space
restart_example = restart_uncancelable (codes "c") 3 4 two_runs refl refl refl
