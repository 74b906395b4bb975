-- ===== src/Storage/Valid/Queries.antt =====
-- About the methods of internal/storage/store.go that only read.
use gopoke.Base.{ℕ, List, Option, Result, ok, err}
use gopoke.Base.Int.{ℤ}
use gopoke.Text.{Text}
use gopoke.Storage.Monad.{Error, Store, Call, continue, pure, ◌>>=◌}
use gopoke.Storage.Access.{health, load, get_settings}
use gopoke.Storage.Schema.{EnvVarRecord}
use gopoke.Storage.Projects.{project_by_path, recent_projects}
use gopoke.Storage.EnvVars.{lookup, project_env_vars, project_env_map}
use gopoke.Storage.Snippets.{project_snippets, snippet_by_id}
use gopoke.Storage.Runs.{project_runs}
use gopoke.Storage.Valid.{StoreIsValid, Keeps}
use gopoke.Storage.Valid.Rules.{
  Keeps-pure, Keeps-check, Keeps-raise_if, Keeps-load, Keeps-load_last, Keeps-limit,
}

module _ (lower : ℕ → ℕ) where
  pub health-Keeps : (c : Call) → Keeps lower (health c)
  unfolding health
  health-Keeps c = Keeps-check lower _ _ (Keeps-load lower _ (λ d v. record { at = λ s h. h }))

  pub load-Keeps : (c : Call) → Keeps lower (load c)
  unfolding load
  load-Keeps c = Keeps-check lower _ _ (Keeps-load_last lower)

  pub get_settings-Keeps : (c : Call) → Keeps lower (get_settings c)
  unfolding get_settings
  get_settings-Keeps c = Keeps-check lower _ _ (Keeps-load lower _ (λ d v. Keeps-pure lower _))

  pub project_by_path-Keeps : (c : Call) (path : Text) → Keeps lower (project_by_path c path)
  unfolding project_by_path
  project_by_path-Keeps c path =
      Keeps-check lower _ _
        (Keeps-raise_if lower _ _ _ (λ _. Keeps-load lower _ (λ d v. Keeps-pure lower _)))

  pub recent_projects-Keeps : (c : Call) (limit : ℤ) → Keeps lower (recent_projects c limit)
  unfolding recent_projects
  recent_projects-Keeps c limit =
      Keeps-check lower _ _
        (Keeps-limit lower limit _ (λ n. Keeps-load lower _ (λ d v. Keeps-pure lower _)))

  pub project_env_vars-Keeps : (c : Call) (id : Text) → Keeps lower (project_env_vars c id)
  unfolding project_env_vars
  project_env_vars-Keeps c id =
      Keeps-check lower _ _
        (Keeps-raise_if lower _ _ _ (λ _. Keeps-load lower _ (λ d v. Keeps-pure lower _)))

  abbrev map_of : List EnvVarRecord → Text → Option Text
  map_of vs k = lookup k vs

  continue-IsValid :
      (r : Result Error (List EnvVarRecord)) (s : Store)
      → StoreIsValid lower s
      → StoreIsValid lower (continue r (λ vs. pure (map_of vs)) s).1
  unfolding pure
  continue-IsValid (ok vs) s h = h
  continue-IsValid (err e) s h = h

  pub project_env_map-Keeps : (c : Call) (id : Text) → Keeps lower (project_env_map c id)
  unfolding project_env_map ◌>>=◌
  project_env_map-Keeps c id = record {
    at = λ s h.
        continue-IsValid (project_env_vars c id s).0 (project_env_vars c id s).1
          ((project_env_vars-Keeps c id).at s h);
  }

  pub project_snippets-Keeps : (c : Call) (id : Text) → Keeps lower (project_snippets c id)
  unfolding project_snippets
  project_snippets-Keeps c id =
      Keeps-check lower _ _
        (Keeps-raise_if lower _ _ _ (λ _. Keeps-load lower _ (λ d v. Keeps-pure lower _)))

  pub snippet_by_id-Keeps : (c : Call) (id : Text) → Keeps lower (snippet_by_id c id)
  unfolding snippet_by_id
  snippet_by_id-Keeps c id =
      Keeps-check lower _ _
        (Keeps-raise_if lower _ _ _ (λ _. Keeps-load lower _ (λ d v. Keeps-pure lower _)))

  pub project_runs-Keeps :
      (c : Call) (id : Text) (limit : ℤ) → Keeps lower (project_runs c id limit)
  unfolding project_runs
  project_runs-Keeps c id limit = Keeps-check lower _ _ (
      Keeps-raise_if lower _ _ _
        (λ _. Keeps-limit lower limit _ (λ n. Keeps-load lower _ (λ d v. Keeps-pure lower _))))
