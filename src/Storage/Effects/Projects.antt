-- ===== src/Storage/Effects/Projects.antt =====
-- About RecordProjectOpen and ProjectByPath of internal/storage/store.go.
use gopoke.Base.{
  ◌≡◌, refl, false, Option, none, some, [], ◌∷◌, ◌++◌, Result, ok, arith, if◌then◌else◌,
}
use gopoke.Base.Update.{find, update_first}
use gopoke.Text.{Text, text_eq, is_empty}
use gopoke.Text.FilePath.{clean}
use gopoke.Storage.Schema.{ProjectRecord, Snapshot}
use gopoke.Storage.Monad.{Error, Store, Call, ◌>>=◌}
use gopoke.Storage.Io.{write_locked, assign_projects, stamp}
use gopoke.Storage.Projects.{
  at_path, reopen, first_open, open_found, record_project_open, project_by_path,
}
use gopoke.Storage.Effects.{loaded, healthy}
use gopoke.Text.Keyed.{find-update, find-add}

abbrev path_of : ProjectRecord → Text
path_of p = p.path

-- The answer of ProjectByPath.
abbrev pub lookup : Call → Text → Store → Result Error (Option ProjectRecord)
lookup c path s = (project_by_path (healthy c) path s).0

lookup_lem :
    (c : Call) (q : Text) (s : Store) (d : Snapshot)
    → is_empty q ≡ false
    → lookup c q (loaded s d) ≡ ok (find (at_path (clean q)) d.projects)
unfolding project_by_path ◌>>=◌
lookup_lem c q s d h = rw (h, lookup)

module _ (c c' : Call) (s : Store) (d : Snapshot) (path default_package : Text) where
  -- RecordProjectOpen with the answer of its search.
  abbrev opening : Option ProjectRecord → Result Error ProjectRecord × Store
  opening o = open_found (healthy c) (clean path) default_package d o (loaded s d)

  opening_lem :
      (o : Option ProjectRecord)
      → find (at_path (clean path)) d.projects ≡ o
      → (q : Text) → is_empty q ≡ false
      → (p : ProjectRecord) × ((opening o).0 ≡ ok p)
        × (lookup c' q (opening o).1
            ≡ (if text_eq (clean path) (clean q) then ok (some p) else lookup c' q (loaded s d)))
  unfolding ◌>>=◌ write_locked assign_projects
  opening_lem (some p) e q h =
      let ps = update_first (at_path (clean path)) (reopen c.now default_package) d.projects in
      (
        reopen c.now default_package p,
        refl,
        ground (
          arith,
          lookup_lem c' q (opening (some p)).1 (stamp c.now (record d { projects = ps })) h,
          lookup_lem c' q s d h,
          find-update path_of (clean path) (clean q) (reopen c.now default_package) d.projects
              (λ x. refl) e,
        ),
      )
  opening_lem none e q h =
      let p = first_open (healthy c) (clean path) default_package in
      (
        p,
        refl,
        ground (
          arith,
          lookup_lem c' q (opening none).1
              (stamp c.now (record d { projects = d.projects ++ p ∷ [] })) h,
          lookup_lem c' q s d h,
          find-add path_of (clean path) (clean q) d.projects p refl e,
        ),
      )

  -- RecordProjectOpen on a loaded store, when nothing fails, returns a record that ProjectByPath
  -- then finds under the cleaned path, and leaves the answer for every other path as it was.
  pub open-lookup :
      (q : Text)
      → is_empty path ≡ false
      → is_empty q ≡ false
      → let (r, s') = record_project_open (healthy c) path default_package (loaded s d) in
        (p : ProjectRecord) × (r ≡ ok p)
        × (lookup c' q s'
            ≡ (if text_eq (clean path) (clean q) then ok (some p) else lookup c' q (loaded s d)))
  unfolding record_project_open ◌>>=◌
  open-lookup q named h = rw named (opening_lem (find (at_path (clean path)) d.projects) refl q h)
