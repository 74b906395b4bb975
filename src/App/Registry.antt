-- ===== src/App/Registry.antt =====
-- The active runs of internal/app/app.go: registerActiveRun, unregisterActiveRun and CancelRun. A
-- context.CancelFunc is the number of the run that it cancels.
pub mod Laws
pub mod Others
mod Tests
use gopoke.Base.{
  ℕ, Bool, true, false, not, Option, none, some, List, [], ◌∷◌, ◌++◌, filter, any, Result, ok, err,
  CtxError, if◌then◌else◌,
}
use gopoke.Base.Update.{find}
use gopoke.Text.{Text, text_eq, is_empty, trim_space}

pub record ActiveRun : Type 0 where
  pub run_id : Text
  pub cancel : ℕ

-- The map activeRuns, with the runs whose cancel function has been called, the latest first.
pub record Runs : Type 0 where
  pub active : List ActiveRun
  pub canceled : List ℕ

pub data RunError : Type 0 where
  already_active : Text → RunError
  context : CtxError → RunError

abbrev pub named : Text → ActiveRun → Bool
named run_id r = text_eq r.run_id run_id

-- delete(a.activeRuns, runID)
abbrev pub delete : Text → List ActiveRun → List ActiveRun
delete run_id rs = filter (λ r. not (named run_id r)) rs

-- registerActiveRun
unfoldable pub register_active_run : Text → ℕ → Runs → Result RunError (Unit {0}) × Runs
register_active_run run_id cancel s =
    if any (named run_id) s.active
    then (err (already_active run_id), s)
    else (ok tt, record s { active = s.active ++ record { run_id = run_id; cancel = cancel } ∷ [] })

-- unregisterActiveRun
unfoldable pub unregister_active_run : Text → Runs → Runs
unregister_active_run run_id s = record s { active = delete run_id s.active }

abbrev pub cancel_found : Text → Option ActiveRun → Runs → Runs
cancel_found run_id none s = s
cancel_found run_id (some r) s = record {
  active = delete run_id s.active;
  canceled = r.cancel ∷ s.canceled;
}

-- The part of CancelRun past its tests.
abbrev pub cancel_active : Text → Runs → Runs
cancel_active run_id s =
    if is_empty run_id then s else cancel_found run_id (find (named run_id) s.active) s

-- CancelRun
unfoldable pub cancel_run : Option CtxError → Text → Runs → Result RunError (Unit {0}) × Runs
unfolding find
cancel_run (some e) given s = (err (context e), s)
cancel_run none given s = (ok tt, cancel_active (trim_space given) s)

-- The deferred function of RunSnippet: `cancel(); a.unregisterActiveRun(runID)`.
unfoldable pub end_run : Text → ℕ → Runs → Runs
unfolding unregister_active_run
end_run run_id cancel s = unregister_active_run run_id (record s { canceled = cancel ∷ s.canceled })

-- What others do to the map while a run goes on, each under the lock of the map: another RunSnippet
-- registers or ends, or CancelRun is called.
pub data Meanwhile : Type 0 where
  registering : Text → ℕ → Meanwhile
  canceling : Option CtxError → Text → Meanwhile
  ending : Text → ℕ → Meanwhile

-- A RunSnippet that is refused calls its cancel function.
abbrev pub refused : ℕ → Result RunError (Unit {0}) → Runs → Runs
refused cancel (ok u) s = s
refused cancel (err e) s = record s { canceled = cancel ∷ s.canceled }

unfoldable pub happen : Meanwhile → Runs → Runs
unfolding register_active_run cancel_run end_run
happen (registering run_id cancel) s =
    let (r, s') = register_active_run run_id cancel s in refused cancel r s'
happen (canceling ctx given) s = (cancel_run ctx given s).1
happen (ending run_id cancel) s = end_run run_id cancel s

unfoldable pub happen_all : List Meanwhile → Runs → Runs
unfolding happen
happen_all [] s = s
happen_all (e ∷ es) s = happen_all es (happen e s)
