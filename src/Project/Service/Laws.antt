-- ===== src/Project/Service/Laws.antt =====
-- About the store under the methods of internal/project/service.go.
use gopoke.Base.{ℕ, List, [], ◌∷◌, ok, err, if◌then◌else◌}
use gopoke.Base.Int.{ℤ}
use gopoke.Text.{Text}
use gopoke.Storage.Schema.{ProjectRecord, EnvVarRecord}
use gopoke.Storage.Monad.{Call}
use gopoke.Storage.Valid.Projects.{record_project_open-Keeps, update_project_default_package-Keeps}
use gopoke.Storage.Valid.EnvVars.{update_project_env_var-Keeps}
use gopoke.Storage.Valid.Queries.{
  project_by_path-Keeps, recent_projects-Keeps, project_env_vars-Keeps,
}
use gopoke.Storage.Step.{lift, wrap}
use gopoke.Storage.Valid.Step.{Preserves, Preserves-lift, Preserves-stored, Preserves-bind}
use gopoke.Project.Module.{ModuleInfo}
use gopoke.Project.Targets.{RunTarget, has_run_target}
use gopoke.Project.Dotenv.{Entry}
use gopoke.Project.Service.{
  path_required, package_required, alive, named, absolute, directory, discovered, loaded, detect,
  not_a_target, with_env, open_directory, Host, Calls, set_each, set_from_file, open_project,
  recent, set_default_package,
}

module _ (lower : ℕ → ℕ) where
  set_each-Preserves :
      (set : Text → Call) (id : Text) (current : List EnvVarRecord) (es : List Entry)
      → Preserves lower (set_each set id current es)
  unfolding set_each
  set_each-Preserves set id current [] = Preserves-lift lower _
  set_each-Preserves set id current (e ∷ es) =
      Preserves-bind lower _ _
        (Preserves-stored lower _ _
          (update_project_env_var-Keeps lower (set e.key) id e.key e.value _))
        (λ _. set_each-Preserves set id current es)

  set_from_file-Preserves :
      (calls : Calls) (id : Text) (es : List Entry) → Preserves lower (set_from_file calls id es)
  set_from_file-Preserves calls id [] = Preserves-lift lower _
  set_from_file-Preserves calls id (e ∷ es) =
      Preserves-bind lower _ _
        (Preserves-stored lower _ _ (project_env_vars-Keeps lower calls.current id))
        (λ current. set_each-Preserves calls.set id current _)

  with_env-Preserves :
      (host : Host) (calls : Calls) (full : Text) (info : ModuleInfo) (ts : List RunTarget)
      (p : ProjectRecord)
      → Preserves lower (with_env host calls full info ts p)
  unfolding with_env
  with_env-Preserves host calls full info ts p =
      Preserves-bind lower (lift (loaded _)) _ (Preserves-lift lower _) (λ file.
        Preserves-bind lower (set_from_file calls p.id file.0) _
          (set_from_file-Preserves calls p.id file.0)
          (λ _.
            Preserves-bind lower _ _
              (Preserves-stored lower _ _ (project_env_vars-Keeps lower calls.list p.id))
              (λ vars. Preserves-lift lower _)))

  open_directory-Preserves :
      (host : Host) (calls : Calls) (full : Text) → Preserves lower (open_directory host calls full)
  unfolding open_directory
  open_directory-Preserves host calls full =
      Preserves-bind lower (lift (wrap detect _)) _ (Preserves-lift lower _) (λ info.
        Preserves-bind lower (lift (discovered host calls.targets_ctx full)) _
          (Preserves-lift lower _)
          (λ ts.
            Preserves-bind lower _ _
              (Preserves-stored lower _ _ (project_by_path-Keeps lower calls.known full))
              (λ existing.
                Preserves-bind lower _ _
                  (Preserves-stored lower _ _ (record_project_open-Keeps lower calls.opened full _))
                  (λ p. with_env-Preserves host calls full info ts p))))

  -- Open leaves a valid store valid, on every path: with whatever the file system answers, whichever
  -- call of the store fails, and whatever stands in the .env file.
  pub open_project-Preserves :
      (host : Host) (calls : Calls) (path : Text) → Preserves lower (open_project host calls path)
  unfolding open_project
  open_project-Preserves host calls path =
      Preserves-bind lower (lift (alive calls.start)) _ (Preserves-lift lower _) (λ _.
        Preserves-bind lower (lift (named path path_required)) _ (Preserves-lift lower _) (λ _.
          Preserves-bind lower (lift (absolute (host.abs path))) _ (Preserves-lift lower _) (λ full.
            Preserves-bind lower (lift (directory (host.is_dir full))) _ (Preserves-lift lower _)
              (λ _. open_directory-Preserves host calls full))))

  pub recent-Preserves : (c : Call) (limit : ℤ) → Preserves lower (recent c limit)
  unfolding recent
  recent-Preserves c limit = Preserves-stored lower _ _ (recent_projects-Keeps lower c limit)

  pub set_default_package-Preserves :
      (host : Host) (calls : Calls) (project_path package_path : Text)
      → Preserves lower (set_default_package host calls project_path package_path)
  unfolding set_default_package
  set_default_package-Preserves host calls project_path package_path =
      Preserves-bind lower (lift (alive calls.start)) _ (Preserves-lift lower _) (λ _.
        Preserves-bind lower (lift (named project_path path_required)) _ (Preserves-lift lower _)
          (λ _.
            Preserves-bind lower (lift (named package_path package_required)) _
              (Preserves-lift lower _)
              (λ _.
                Preserves-bind lower (lift (absolute (host.abs project_path))) _
                  (Preserves-lift lower _)
                  (λ full.
                    Preserves-bind lower (lift (discovered host calls.targets_ctx full)) _
                      (Preserves-lift lower _)
                      (λ ts.
                        Preserves-bind lower
                          (lift
                            (if has_run_target ts package_path then ok tt else err not_a_target))
                          _ (Preserves-lift lower _)
                          (λ _. Preserves-stored lower _ _ (
                            update_project_default_package-Keeps lower calls.opened full
                              package_path)))))))
