-- ===== src/Storage/Prune.antt =====
-- pruneRunRecords of store.go: which runs of a project are kept.
pub mod Counts
pub mod Newest
use gopoke.Base.{
  ℕ, suc, Bool, true, false, ◌&&◌, not, List, [], ◌∷◌, map, filter, any, count, drop, ltb, leb,
  ◌==◌, if◌then◌else◌,
}
use gopoke.Base.Sort.{sort}
use gopoke.Text.{Text, text_eq}
use gopoke.Storage.Schema.{RunRecord}

-- `struct { index int; run RunRecord }`
pub record IndexedRun : Type 0 where
  pub index : ℕ
  pub run : RunRecord

abbrev pub of_project : Text → RunRecord → Bool
of_project project_id r = text_eq r.project_id project_id

-- The runs with their indices, as `range` gives them.
abbrev pub indexed : ℕ → List RunRecord → List IndexedRun
indexed i [] = []
indexed i (r ∷ rs) = record { index = i; run = r } ∷ indexed (suc i) rs

abbrev pub started_before : IndexedRun → IndexedRun → Bool
started_before a b = ltb b.run.started_at a.run.started_at

abbrev pub has_index : ℕ → IndexedRun → Bool
has_index i e = e.index == i

-- The runs of the project past the first `max_keep`, the latest first: the map `drop` of the code.
unfoldable pub dropped : List RunRecord → Text → ℕ → List IndexedRun
unfolding sort
dropped runs project_id max_keep =
    drop max_keep (sort started_before (filter (λ e. of_project project_id e.run) (indexed 0 runs)))

abbrev pub is_dropped : List IndexedRun → IndexedRun → Bool
is_dropped gone e = any (has_index e.index) gone

abbrev pub run_of : IndexedRun → RunRecord
run_of e = e.run

-- pruneRunRecords
unfoldable pub prune_run_records : List RunRecord → Text → ℕ → List RunRecord
unfolding dropped
prune_run_records runs project_id max_keep =
    if leb (count (of_project project_id) runs) max_keep
    then runs
    else map run_of
        (filter (λ e. not (is_dropped (dropped runs project_id max_keep) e)) (indexed 0 runs))
