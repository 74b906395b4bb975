-- ===== src/App/Run/Resolve/Valid.antt =====
-- About the store under resolveRunRequest of internal/app/app.go.
use gopoke.Base.{ℕ, Bool-cases, inl, inr, Option, none, some, [], ◌∷◌, ok}
use gopoke.Text.{Text, is_empty, trim_space}
use gopoke.Storage.Schema.{ProjectRecord}
use gopoke.Storage.Monad.{Call}
use gopoke.Storage.Valid.Projects.{record_project_open-Keeps}
use gopoke.Storage.Valid.Queries.{project_by_path-Keeps, project_env_map-Keeps}
use gopoke.Storage.Valid.Step.{Preserves, Preserves-lift, Preserves-stored, Preserves-bind}
use gopoke.App.Run.Resolve.{
  Host, Calls, Request, selected_package, known_or_opened, resolve_project, resolve_scratch,
  resolve_run_request,
}

module _ (lower : ℕ → ℕ) where
  known_or_opened-Preserves :
      (c : Call) (project package_path : Text) (o : Option ProjectRecord)
      → Preserves lower (known_or_opened c project package_path o)
  known_or_opened-Preserves c project package_path none =
      Preserves-stored lower _ _ (record_project_open-Keeps lower c project _)
  known_or_opened-Preserves c project package_path (some p) = Preserves-lift lower (ok p)

  resolve_project-Preserves :
      (host : Host) (calls : Calls) (request : Request) (project : Text)
      → Preserves lower (resolve_project host calls request project)
  unfolding resolve_project
  resolve_project-Preserves host calls request project =
      Preserves-bind lower _ _
        (Preserves-stored lower _ _ (project_by_path-Keeps lower calls.lookup project))
        (λ found.
          Preserves-bind lower _ _
            (known_or_opened-Preserves calls.create project
              (selected_package (trim_space request.package_path) found) found)
            (λ p. Preserves-bind lower _ _ (Preserves-lift lower _) (λ dir.
              Preserves-bind lower _ _
                (Preserves-stored lower _ _ (project_env_map-Keeps lower calls.env p.id))
                (λ env.
                  Preserves-bind lower _ _ (Preserves-lift lower _)
                    (λ binary. Preserves-lift lower _)))))

  resolve_scratch-Preserves :
      (host : Host) (scratch : Text) (request : Request)
      → Preserves lower (resolve_scratch host scratch request)
  unfolding resolve_scratch
  resolve_scratch-Preserves host [] request = Preserves-lift lower _
  resolve_scratch-Preserves host (c ∷ dir) request =
      Preserves-bind lower _ _ (Preserves-lift lower _) (λ binary. Preserves-lift lower _)

  pub resolve_run_request-Preserves :
      (host : Host) (scratch : Text) (calls : Calls) (request : Request)
      → Preserves lower (resolve_run_request host scratch calls request)
  unfolding resolve_run_request
  resolve_run_request-Preserves host scratch calls request =
      elim (Bool-cases (is_empty (trim_space request.source))) [
        | inl e ↦ rw e (Preserves-lift lower _)
        | inr f ↦ rw f (elim (Bool-cases (is_empty (trim_space request.project_path))) [
          | inl t ↦ rw t (resolve_scratch-Preserves host scratch request)
          | inr u ↦ rw u (
              Preserves-bind lower _ _ (Preserves-lift lower _)
                (λ project. resolve_project-Preserves host calls request project))
        ])
      ]
