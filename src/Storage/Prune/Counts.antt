-- ===== src/Storage/Prune/Counts.antt =====
-- About pruneRunRecords of internal/storage/store.go: the numbers of runs.
use gopoke.Base.{
  ℕ, suc, ◌≤◌, ◌≡◌, refl, ◌∙◌, Bool, ◌&&◌, not, List, [], ◌∷◌, map, filter, count, take, arith,
  Bool-cases, inl, inr, leb, leb→le, count-le-length, count-filter, count_mono, count-split,
  count-map, length-take_le,
}
use gopoke.Base.Sort.{sort, count-sort}
use gopoke.Text.{Text}
use gopoke.Storage.Schema.{RunRecord}
use gopoke.Storage.Prune.{
  IndexedRun, of_project, indexed, started_before, dropped, is_dropped, run_of, prune_run_records,
}

pub count-indexed :
    (p : RunRecord → Bool) (i : ℕ) (rs : List RunRecord)
    → count (λ e. p e.run) (indexed i rs) ≡ count p rs
count-indexed p i [] = refl
count-indexed p i (r ∷ rs) = omega (arith, count-indexed p (suc i) rs)

abbrev pub kept_by : List IndexedRun → IndexedRun → Bool
kept_by gone e = not (is_dropped gone e)

-- None of the dropped runs passes the test for those that stay.
count-kept_by : (gone : List IndexedRun) → count (kept_by gone) gone ≡ 0
count-kept_by [] = refl
count-kept_by (e ∷ es) =
    ground
      (arith, count-kept_by es, count_mono (kept_by (e ∷ es)) (kept_by es) (λ x h. ground arith) es)

module _ (runs : List RunRecord) (project_id : Text) (max_keep : ℕ) where
  abbrev pub mine : List IndexedRun
  mine = filter (λ e. of_project project_id e.run) (indexed 0 runs)

  abbrev pub gone : List IndexedRun
  gone = dropped runs project_id max_keep

  pub count-survivors :
      count (kept_by gone) mine ≡ count (kept_by gone) (take max_keep (sort started_before mine))
  unfolding dropped
  count-survivors = omega (
    arith,
    count-sort started_before (kept_by gone) mine,
    count-split (kept_by gone) max_keep (sort started_before mine),
    count-kept_by gone,
  )

  -- The runs that stay, as they are counted in the list with indices.
  pub count-stay :
      (p : RunRecord → Bool)
      → count p (map run_of (filter (kept_by gone) (indexed 0 runs)))
        ≡ count (λ e. kept_by gone e && p e.run) (indexed 0 runs)
  count-stay p =
      count-map p run_of (filter (kept_by gone) (indexed 0 runs))
      ∙ count-filter (λ e. p e.run) (kept_by gone) (indexed 0 runs)

  -- A pruned project has at most the given number of runs.
  pub count-prune_le :
      count (of_project project_id) (prune_run_records runs project_id max_keep) ≤ max_keep
  unfolding prune_run_records
  count-prune_le = elim (Bool-cases (leb (count (of_project project_id) runs) max_keep)) [
    | inl e ↦ rw e (leb→le _ _ e)
    | inr e ↦ rw e (
        omega (
          arith,
          count-stay (of_project project_id),
          count_mono (λ x. kept_by gone x && of_project project_id x.run)
              (λ x. of_project project_id x.run && kept_by gone x) (λ x h. ground arith)
              (indexed 0 runs),
          count-filter (kept_by gone) (λ x. of_project project_id x.run) (indexed 0 runs),
          count-survivors,
          count-le-length (kept_by gone) (take max_keep (sort started_before mine)),
          length-take_le max_keep (sort started_before mine),
        ))
  ]

  -- Pruning adds no run.
  pub count-prune_mono :
      (p : RunRecord → Bool) → count p (prune_run_records runs project_id max_keep) ≤ count p runs
  unfolding prune_run_records
  count-prune_mono p = elim (Bool-cases (leb (count (of_project project_id) runs) max_keep)) [
    | inl e ↦ rw e (omega arith)
    | inr e ↦ rw e (
        omega (
          arith,
          count-stay p,
          count_mono (λ x. kept_by gone x && p x.run) (λ x. p x.run) (λ x h. ground arith)
              (indexed 0 runs),
          count-indexed p 0 runs,
        ))
  ]
