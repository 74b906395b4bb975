-- ===== src/Storage/Valid/Runs.antt =====
-- About the methods of internal/storage/store.go in Storage/Runs.antt.
use gopoke.Base.{ℕ, ◌≤◌, List, [], ◌∷◌, ◌++◌, count, arith, Bool-cases, inl, inr, count-append}
use gopoke.Text.{Text, text_eq, eq_of_text_eq}
use gopoke.Storage.Schema.{RunRecord, Snapshot}
use gopoke.Storage.Monad.{Call}
use gopoke.Storage.Prune.{of_project, prune_run_records}
use gopoke.Storage.Prune.Counts.{count-prune_le, count-prune_mono}
use gopoke.Storage.Runs.{max_runs_per_project, completed, record_run}
use gopoke.Storage.Valid.{Keeps}
use gopoke.Storage.Valid.Rules.{
  Keeps-pure, Keeps-check, Keeps-raise_if, Keeps-load, Keeps-write, IsValid-stamp,
}

-- One more run, then pruned: the bound holds for its project and for every other.
pub prune-append_le :
    (rs : List RunRecord) (r : RunRecord) (k : ℕ)
    → ((p : Text) → count (of_project p) rs ≤ k)
    → (p : Text) → count (of_project p) (prune_run_records (rs ++ r ∷ []) r.project_id k) ≤ k
prune-append_le rs r k h p = elim (Bool-cases (text_eq r.project_id p)) [
  | inl e ↦ rw (← eq_of_text_eq r.project_id p e) (count-prune_le (rs ++ r ∷ []) r.project_id k)
  | inr e ↦ ground (
    arith,
    h p,
    count-append (of_project p) rs (r ∷ []),
    count-prune_mono (rs ++ r ∷ []) r.project_id k (of_project p),
  )
]

abbrev pruned : Call → RunRecord → Snapshot → List RunRecord
pruned c r d =
    prune_run_records (d.runs ++ completed c r ∷ []) (completed c r).project_id max_runs_per_project

module _ (lower : ℕ → ℕ) where
  pub record_run-Keeps : (c : Call) (r : RunRecord) → Keeps lower (record_run c r)
  unfolding record_run
  record_run-Keeps c r = Keeps-check lower _ _ (
      Keeps-raise_if lower _ _ _ (λ _. Keeps-raise_if lower _ _ _ (λ _. Keeps-load lower _ (λ d v.
        Keeps-write lower c.write c.remove_ok _ _
          (IsValid-stamp lower c.now (record d { runs = pruned c r d })
            (record {
              version = v.version;
              paths = v.paths;
              ids = v.ids;
              names = v.names;
              keys = v.keys;
              runs = prune-append_le d.runs (completed c r) max_runs_per_project v.runs;
            }))
          (Keeps-pure lower _)))))
