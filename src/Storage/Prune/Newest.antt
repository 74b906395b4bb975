-- ===== src/Storage/Prune/Newest.antt =====
-- About pruneRunRecords of internal/storage/store.go: which runs go.
use gopoke.Base.{
  ℕ, suc, ◌+◌, ◌≤◌, ◌≡◌, refl, min, Bool, ◌&&◌, not, some, List, [], ◌∷◌, ◌++◌, filter, count,
  length, take, drop, get_elem?, arith, Bool-cases, inl, inr, leb, if◌then◌else◌, count-filter,
  count_mono, count-append, any-of_count, take-append-drop, length-take, length-filter, count-swap,
}
use gopoke.Base.Sort.{sort, count-sort, length-sort}
use gopoke.Text.{Text}
use gopoke.Storage.Schema.{RunRecord}
use gopoke.Storage.Prune.{
  IndexedRun, of_project, indexed, started_before, has_index, dropped, is_dropped,
  prune_run_records,
}
use gopoke.Storage.Prune.Counts.{count-indexed, count-stay, count-survivors, kept_by}

-- An indexed run is the run that the list has at its index.
abbrev IsAt : List RunRecord → ℕ → IndexedRun → Type 0
IsAt rs i e = (k : ℕ) × (e.index ≡ i + k) × (get_elem? rs k ≡ some e.run)

count-index :
    (i j : ℕ) (rs : List RunRecord)
    → count (has_index j) (indexed i rs) ≤ (if leb i j then 1 else 0)
count-index i j [] = ground arith
count-index i j (r ∷ rs) = ground (arith, count-index (suc i) j rs)

-- Under an index that occurs once, what stands before the cut is not dropped.
count-front :
    (xs gone : List IndexedRun)
    → ((i : ℕ) → count (has_index i) (xs ++ gone) ≤ 1)
    → count (λ e. not (is_dropped gone e)) xs ≡ length xs
count-front [] gone once = refl
count-front (x ∷ xs) gone once =
    let rest = count-front xs gone (λ i. ground (arith, once i)) in
    ground (
      arith,
      rest,
      once x.index,
      count-append (has_index x.index) xs gone,
      any-of_count (has_index x.index) gone,
    )

module _ (runs : List RunRecord) (project_id : Text) (max_keep : ℕ) where
  abbrev mine : List IndexedRun
  mine = filter (λ e. of_project project_id e.run) (indexed 0 runs)

  abbrev ranked : List IndexedRun
  ranked = sort started_before mine

  abbrev gone : List IndexedRun
  gone = dropped runs project_id max_keep

  index_once : (i : ℕ) → count (has_index i) (take max_keep ranked ++ drop max_keep ranked) ≤ 1
  index_once i = rw take-append-drop (
      omega (
        arith,
        count-sort started_before (has_index i) mine,
        count-filter (has_index i) (λ e. of_project project_id e.run) (indexed 0 runs),
        count_mono (λ e. of_project project_id e.run && has_index i e) (has_index i)
            (λ x h. ground arith) (indexed 0 runs),
        index_le i,
      ))
    where
      index_le : (i : ℕ) → count (has_index i) (indexed 0 runs) ≤ 1
      index_le i = ground (arith, count-index 0 i runs)

  -- Pruning keeps exactly as many runs of the project as it may.
  pub count-prune :
      count (of_project project_id) (prune_run_records runs project_id max_keep)
      ≡ min max_keep (count (of_project project_id) runs)
  unfolding prune_run_records dropped
  count-prune = elim (Bool-cases (leb (count (of_project project_id) runs) max_keep)) [
    | inl e ↦ rw e (ground arith)
    | inr e ↦ rw e (
        omega (
          arith,
          count-stay runs project_id max_keep (of_project project_id),
          count-swap (kept_by gone) (λ x. of_project project_id x.run) (indexed 0 runs),
          count-filter (kept_by gone) (λ x. of_project project_id x.run) (indexed 0 runs),
          count-survivors runs project_id max_keep,
          count-front (take max_keep ranked) (drop max_keep ranked) index_once,
          length-take max_keep ranked,
          length-sort started_before mine,
          length-filter (λ x. of_project project_id x.run) (indexed 0 runs),
          count-indexed (of_project project_id) 0 runs,
        ))
  ]
