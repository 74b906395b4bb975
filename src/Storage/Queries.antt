-- ===== src/Storage/Queries.antt =====
-- About RecentProjects and ProjectRuns of internal/storage/store.go.
use gopoke.Base.{
  ℕ, ◌≤◌, ◌≡◌, min, Bool, false, List, ok, count, length, arith, Bool-cases, inl, inr, ◌==◌, leb,
  filter, length-take, count-split, if◌then◌else◌, ◌||◌,
}
use gopoke.Base.Int.{pos}
use gopoke.Base.Sort.{
  sort, count-sort, length-sort, IsSorted, IsOrder, sort-IsSorted, IsSorted-take,
}
use gopoke.Text.{Text, is_empty, text_lt_asym, text_lt_weak}
use gopoke.Storage.Schema.{RunRecord, Snapshot}
use gopoke.Storage.Monad.{Store, Call, ◌>>=◌}
use gopoke.Storage.Projects.{limited}
use gopoke.Storage.Prune.{of_project}
use gopoke.Storage.Runs.{run_before, project_runs}
use gopoke.Storage.Effects.{loaded, healthy}

run_before-IsOrder : IsOrder run_before
unfolding run_before
run_before-IsOrder = record {
  asym = λ x y h. ground (arith, text_lt_asym x.id y.id);
  weak = λ x y z h k. ground (arith, text_lt_weak x.id y.id z.id);
}

-- How many records a limit lets through; 0 is no limit.
abbrev pub allowed : ℕ → ℕ → ℕ
allowed limit n = if limit == 0 then n else min limit n

module _ {A : Type 0} (before : A → A → Bool) (order : IsOrder before) where
  limited-IsSorted : (limit : ℕ) (xs : List A) → IsSorted before (limited limit (sort before xs))
  limited-IsSorted limit xs =
      elim (Bool-cases (limit == 0 || leb (length (sort before xs)) limit)) [
        | inl e ↦ rw e (sort-IsSorted before order xs)
        | inr e ↦ rw e (IsSorted-take before limit (sort before xs) (sort-IsSorted before order xs))
      ]

  length-limited :
      (limit : ℕ) (xs : List A)
      → length (limited limit (sort before xs)) ≡ allowed limit (length xs)
  length-limited limit xs =
      ground (arith, length-sort before xs, length-take limit (sort before xs))

  count-limited :
      (p : A → Bool) (limit : ℕ) (xs : List A)
      → count p (limited limit (sort before xs)) ≤ count p xs
  count-limited p limit xs =
      ground (arith, count-sort before p xs, count-split p limit (sort before xs))

-- ProjectRuns does so for the runs of one project, and returns none of another.
pub project_runs_lem :
    (c : Call) (s : Store) (d : Snapshot) (project_id : Text) (limit : ℕ)
    → is_empty project_id ≡ false
    → let mine = filter (of_project project_id) d.runs in
      (rs : List RunRecord) × ((project_runs (healthy c) project_id (pos limit) (loaded s d)).0
        ≡ ok rs)
      × IsSorted run_before rs
      × (length rs ≡ allowed limit (length mine))
      × ((p : RunRecord → Bool) → count p rs ≤ count p mine)
unfolding project_runs ◌>>=◌
project_runs_lem c s d project_id limit named =
    let mine = filter (of_project project_id) d.runs in
    (
      limited limit (sort run_before mine),
      rw named,
      limited-IsSorted run_before run_before-IsOrder limit mine,
      length-limited run_before run_before-IsOrder limit mine,
      λ p. count-limited run_before run_before-IsOrder p limit mine,
    )
