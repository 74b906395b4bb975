-- ===== src/Storage/Valid/Projects.antt =====
-- About the methods of internal/storage/store.go in Storage/Projects.antt.
use gopoke.Base.{ℕ, ◌≡◌, refl, Option, none, some, List}
use gopoke.Base.Update.{find, update_first}
use gopoke.Base.Distinct.{IsDistinct, IsDistinct-append, IsDistinct-update_first, any-of_find}
use gopoke.Text.{Text}
use gopoke.Storage.Schema.{ProjectRecord, Snapshot}
use gopoke.Storage.Monad.{Error, Call}
use gopoke.Storage.Projects.{
  at_path, reopen, first_open, open_found, record_project_open, update_found, update_project,
  update_project_default_package, update_project_working_directory, update_project_toolchain,
}
use gopoke.Storage.Valid.{same_path, IsValid, Keeps}
use gopoke.Storage.Valid.Rules.{
  Keeps-pure, Keeps-raise, Keeps-check, Keeps-raise_if, Keeps-load, Keeps-write,
  Keeps-assign_projects, IsValid-projects, IsValid-stamp,
}

-- A rewriting of a record that keeps its path.
abbrev KeepsPath : (ProjectRecord → ProjectRecord) → Type 0
KeepsPath f = (p : ProjectRecord) → (f p).path ≡ p.path

update-IsDistinct :
    (path : Text) (f : ProjectRecord → ProjectRecord) (ps : List ProjectRecord)
    → KeepsPath f
    → IsDistinct same_path ps
    → IsDistinct same_path (update_first (at_path path) f ps)
update-IsDistinct path f ps k =
    IsDistinct-update_first same_path (at_path path) f (λ p q. rw (k p)) (λ p q. rw (k p)) ps

module _ (lower : ℕ → ℕ) where
  open_found-Keeps :
      (c : Call) (path default_package : Text) (d : Snapshot) (o : Option ProjectRecord)
      → find (at_path path) d.projects ≡ o
      → IsValid lower d
      → Keeps lower (open_found c path default_package d o)
  open_found-Keeps c path default_package d (some p) e v =
      let h =
        update-IsDistinct path (reopen c.now default_package) d.projects (λ q. refl) v.paths in
      Keeps-assign_projects lower _ _ h (
        Keeps-write lower _ _ _ _ (IsValid-stamp lower _ _ (IsValid-projects lower d _ h v))
          (Keeps-pure lower _))
  open_found-Keeps c path default_package d none e v =
      let h =
        IsDistinct-append same_path d.projects (first_open c path default_package) v.paths
          (any-of_find (at_path path) d.projects e) in
      Keeps-write lower _ _ _ _ (IsValid-stamp lower _ _ (IsValid-projects lower d _ h v))
        (Keeps-pure lower _)

  -- RecordProjectOpen keeps the invariant, whatever fails.
  pub record_project_open-Keeps :
      (c : Call) (path default_package : Text)
      → Keeps lower (record_project_open c path default_package)
  unfolding record_project_open
  record_project_open-Keeps c path default_package = Keeps-check lower _ _ (
      Keeps-raise_if lower _ _ _
        (λ _. Keeps-load lower _ (λ d v. open_found-Keeps c _ default_package d _ refl v)))

  update_found-Keeps :
      (c : Call) (path : Text) (f : ProjectRecord → ProjectRecord) (d : Snapshot)
      (o : Option ProjectRecord)
      → KeepsPath f
      → IsValid lower d
      → Keeps lower (update_found c path f d o)
  update_found-Keeps c path f d none k v = Keeps-raise lower _
  update_found-Keeps c path f d (some p) k v =
      let h = update-IsDistinct path f d.projects k v.paths in
      Keeps-assign_projects lower _ _ h (
        Keeps-write lower _ _ _ _ (IsValid-stamp lower _ _ (IsValid-projects lower d _ h v))
          (Keeps-pure lower _))

  update_project-Keeps :
      (c : Call) (path value : Text) (missing : Error) (f : ProjectRecord → ProjectRecord)
      → KeepsPath f
      → Keeps lower (update_project c path value missing f)
  update_project-Keeps c path value missing f k = Keeps-check lower _ _ (
      Keeps-raise_if lower _ _ _ (λ _.
        Keeps-raise_if lower _ _ _
          (λ _. Keeps-load lower _ (λ d v. update_found-Keeps c _ f d _ k v))))

  pub update_project_default_package-Keeps :
      (c : Call) (path value : Text) → Keeps lower (update_project_default_package c path value)
  unfolding update_project_default_package
  update_project_default_package-Keeps c path value =
      update_project-Keeps c path value _ _ (λ p. refl)

  pub update_project_working_directory-Keeps :
      (c : Call) (path value : Text) → Keeps lower (update_project_working_directory c path value)
  unfolding update_project_working_directory
  update_project_working_directory-Keeps c path value =
      update_project-Keeps c path value _ _ (λ p. refl)

  pub update_project_toolchain-Keeps :
      (c : Call) (path value : Text) → Keeps lower (update_project_toolchain c path value)
  unfolding update_project_toolchain
  update_project_toolchain-Keeps c path value = update_project-Keeps c path value _ _ (λ p. refl)
