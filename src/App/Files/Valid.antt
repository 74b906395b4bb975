-- ===== src/App/Files/Valid.antt =====
-- About the store under OpenProject, OpenGoFile and SetProjectDefaultPackage of internal/app/app.go.
use gopoke.Base.{ℕ, Bool, true, false, ok}
use gopoke.Text.{Text}
use gopoke.Text.FilePath.{dir_of}
use gopoke.Storage.Step.{Step as StoreStep, wrap, lift}
use gopoke.Storage.Valid.Step.{Preserves, Preserves-lift, Preserves-bind}
use gopoke.Project.Service
use gopoke.Project.Service.{Host, Calls, open_project, set_default_package}
use gopoke.Project.Service.Laws.{open_project-Preserves, set_default_package-Preserves}
use gopoke.App.Paths.{System, resolve_input_path}
use gopoke.App.Files
use gopoke.App.Files.{
  Disk, go_path, content_of, serve, open_project_at, set_default_package_at, open_go_file,
}

module _ (lower : ℕ → ℕ) where
  serve-Preserves :
      {A : Type 0} (started : Bool) (m : StoreStep Service.Error A)
      → Preserves lower m
      → Preserves lower (serve started m)
  serve-Preserves true m p = record { at = p.at }
  serve-Preserves false m p = record { at = λ s h. h }

  pub open_project_at-Preserves :
      (started : Bool) (sys : System) (host : Host) (calls : Calls) (given : Text)
      → Preserves lower (open_project_at started sys host calls given)
  unfolding open_project_at
  open_project_at-Preserves true sys host calls given =
      Preserves-bind lower _ _ (Preserves-lift lower _) (λ full.
        serve-Preserves true (open_project host calls full)
          (open_project-Preserves lower host calls full))
  open_project_at-Preserves false sys host calls given = Preserves-lift lower _

  pub set_default_package_at-Preserves :
      (started : Bool) (sys : System) (host : Host) (calls : Calls) (path package_path : Text)
      → Preserves lower (set_default_package_at started sys host calls path package_path)
  unfolding set_default_package_at
  set_default_package_at-Preserves true sys host calls path package_path =
      Preserves-bind lower _ _ (Preserves-lift lower _) (λ full.
        serve-Preserves true (set_default_package host calls full package_path)
          (set_default_package-Preserves lower host calls full package_path))
  set_default_package_at-Preserves false sys host calls path package_path = Preserves-lift lower _

  pub open_go_file-Preserves :
      (started : Bool) (sys : System) (host : Host) (disk : Disk) (calls : Calls) (path : Text)
      → Preserves lower (open_go_file started sys host disk calls path)
  unfolding open_go_file
  open_go_file-Preserves started sys host disk calls path =
      Preserves-bind lower (lift (wrap Files.path (resolve_input_path sys path))) _
        (Preserves-lift lower _)
        (λ resolved.
          Preserves-bind lower (lift (go_path resolved)) _ (Preserves-lift lower _) (λ full.
            Preserves-bind lower (lift (content_of (disk.stat full) (disk.read full))) _
              (Preserves-lift lower _)
              (λ content.
                Preserves-bind lower _ _
                  (open_project_at-Preserves started sys host calls (dir_of full))
                  (λ result.
                    Preserves-lift lower (
                      ok
                        record { content = content; file_path = full; project_result = result })))))
