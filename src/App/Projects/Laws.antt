-- ===== src/App/Projects/Laws.antt =====
-- About the store under the methods of internal/app/app.go that work on one project.
use gopoke.Base.{ℕ, Bool, true, false, Option, none, some, err}
use gopoke.Text.{Text, text_eq}
use gopoke.Storage.Schema.{SnippetRecord}
use gopoke.Storage.Monad.{Call}
use gopoke.Storage.Valid.Projects.{
  update_project_working_directory-Keeps, update_project_toolchain-Keeps,
}
use gopoke.Storage.Valid.EnvVars.{update_project_env_var-Keeps, delete_project_env_var-Keeps}
use gopoke.Storage.Valid.Snippets.{delete_snippet-Keeps}
use gopoke.Storage.Valid.Queries.{
  project_by_path-Keeps, project_env_vars-Keeps, project_snippets-Keeps, snippet_by_id-Keeps,
}
use gopoke.Project.Toolchains.{Binaries}
use gopoke.Base.{if◌then◌else◌}
use gopoke.Storage.Snippets.{delete_snippet}
use gopoke.Storage.Step.{stored, lift}
use gopoke.App.Step.{storage, other_project}
use gopoke.App.Paths.{System}
use gopoke.Storage.Valid.Step.{Preserves, Preserves-lift, Preserves-stored, Preserves-bind}
use gopoke.App.Projects.{
  project_record_by_path, project_env_vars_of, upsert_project_env_var, delete_env_var_of,
  set_project_working_directory, set_project_toolchain, project_snippets_of, delete_found,
  delete_project_snippet,
}

module _ (lower : ℕ → ℕ) (sys : System) (c c' : Call) (project_path : Text) where
  pub project_record-Preserves : Preserves lower (project_record_by_path sys c project_path)
  unfolding project_record_by_path
  project_record-Preserves = Preserves-bind lower _ _ (Preserves-lift lower _) (λ absolute.
      Preserves-bind lower _ _ (Preserves-stored lower _ _ (project_by_path-Keeps lower c absolute))
        (λ found. Preserves-lift lower _))

  pub env_vars-Preserves : Preserves lower (project_env_vars_of sys c c' project_path)
  unfolding project_env_vars_of
  env_vars-Preserves =
      Preserves-bind lower _ _ project_record-Preserves
        (λ p. Preserves-stored lower _ _ (project_env_vars-Keeps lower c' p.id))

  pub upsert-Preserves :
      (key value : Text) (masked : Bool)
      → Preserves lower (upsert_project_env_var sys c c' project_path key value masked)
  unfolding upsert_project_env_var
  upsert-Preserves key value masked = Preserves-bind lower _ _ project_record-Preserves (λ p.
      Preserves-stored lower _ _ (update_project_env_var-Keeps lower c' p.id key value masked))

  pub delete_env_var-Preserves :
      (key : Text) → Preserves lower (delete_env_var_of sys c c' project_path key)
  unfolding delete_env_var_of
  delete_env_var-Preserves key =
      Preserves-bind lower _ _ project_record-Preserves
        (λ p. Preserves-stored lower _ _ (delete_project_env_var-Keeps lower c' p.id key))

  pub working_directory-Preserves :
      (dir : Text) → Preserves lower (set_project_working_directory sys c c' project_path dir)
  unfolding set_project_working_directory
  working_directory-Preserves dir = Preserves-bind lower _ _ project_record-Preserves (λ p.
      Preserves-bind lower _ _ (Preserves-lift lower _) (λ resolved.
        Preserves-stored lower _ _
          (update_project_working_directory-Keeps lower c' p.path resolved)))

  pub toolchain-Preserves :
      (binaries : Binaries) (given : Text)
      → Preserves lower (set_project_toolchain sys binaries c c' project_path given)
  unfolding set_project_toolchain
  toolchain-Preserves binaries given = Preserves-bind lower _ _ project_record-Preserves (λ p.
      Preserves-bind lower _ _ (Preserves-lift lower _) (λ binary.
        Preserves-stored lower _ _ (update_project_toolchain-Keeps lower c' p.path binary)))

  pub snippets-Preserves : Preserves lower (project_snippets_of sys c c' project_path)
  unfolding project_snippets_of
  snippets-Preserves =
      Preserves-bind lower _ _ project_record-Preserves
        (λ p. Preserves-stored lower _ _ (project_snippets-Keeps lower c' p.id))

  delete_chosen-Preserves :
      (c'' : Call) (snippet_id : Text) (b : Bool)
      → Preserves lower
          (if b then stored storage (delete_snippet c'' snippet_id) else lift (err other_project))
  delete_chosen-Preserves c'' snippet_id true =
      Preserves-stored lower _ _ (delete_snippet-Keeps lower c'' snippet_id)
  delete_chosen-Preserves c'' snippet_id false = Preserves-lift lower _

  delete_found-Preserves :
      (c'' : Call) (project_id snippet_id : Text) (o : Option SnippetRecord)
      → Preserves lower (delete_found c'' project_id snippet_id o)
  delete_found-Preserves c'' project_id snippet_id none = Preserves-lift lower _
  delete_found-Preserves c'' project_id snippet_id (some x) =
      delete_chosen-Preserves c'' snippet_id (text_eq x.project_id project_id)

  pub delete_snippet-Preserves :
      (c'' : Call) (snippet_id : Text)
      → Preserves lower (delete_project_snippet sys c c' c'' project_path snippet_id)
  unfolding delete_project_snippet
  delete_snippet-Preserves c'' snippet_id = Preserves-bind lower _ _ project_record-Preserves (λ p.
      Preserves-bind lower _ _
        (Preserves-stored lower _ _ (snippet_by_id-Keeps lower c' snippet_id))
        (λ found. delete_found-Preserves c'' p.id snippet_id found))
