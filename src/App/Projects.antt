-- ===== src/App/Projects.antt =====
-- The methods of internal/app/app.go that work on one project of the store: projectRecordByPath and
-- those that use it.
pub mod Laws
use gopoke.Base.{
  ℕ, Bool, true, false, not, Option, none, some, List, [], ◌∷◌, Result, ok, err, if◌then◌else◌,
}
use gopoke.Text.{Text, text_eq, trim_space}
use gopoke.Storage.Schema.{ProjectRecord, SnippetRecord, EnvVarRecord}
use gopoke.Storage.Monad.{Call}
use gopoke.Storage.Projects.{
  project_by_path, update_project_working_directory, update_project_toolchain,
}
use gopoke.Storage.EnvVars.{project_env_vars, update_project_env_var, delete_project_env_var}
use gopoke.Storage.Snippets.{project_snippets, snippet_by_id, save_snippet, delete_snippet}
use gopoke.Project.Toolchains.{Binaries, resolve_toolchain_binary}
use gopoke.App.Paths
use gopoke.App.Paths.{System, resolve_input_path, resolve_project_working_directory}
use gopoke.Storage.Step.{wrap, ◌>>=◌, stored, lift}
use gopoke.App.Step.{Error, project_not_found, other_project, path, toolchain, storage, Step}

abbrev pub found_project : Option ProjectRecord → Result Error ProjectRecord
found_project none = err project_not_found
found_project (some p) = ok p

-- projectRecordByPath
unfoldable pub project_record_by_path : System → Call → Text → Step ProjectRecord
unfolding resolve_input_path project_by_path stored lift
project_record_by_path sys c project_path = do
  absolute ← lift (wrap path (resolve_input_path sys project_path))
  found ← stored storage (project_by_path c absolute)
  lift (found_project found)

-- Application.ProjectEnvVars
unfoldable pub project_env_vars_of : System → Call → Call → Text → Step (List EnvVarRecord)
unfolding project_record_by_path project_env_vars stored
project_env_vars_of sys c c' project_path = do
  p ← project_record_by_path sys c project_path
  stored storage (project_env_vars c' p.id)

-- Application.UpsertProjectEnvVar
unfoldable pub upsert_project_env_var :
    System → Call → Call → Text → Text → Text → Bool → Step EnvVarRecord
unfolding project_record_by_path update_project_env_var stored
upsert_project_env_var sys c c' project_path key value masked = do
  p ← project_record_by_path sys c project_path
  stored storage (update_project_env_var c' p.id key value masked)

-- Application.DeleteProjectEnvVar
unfoldable pub delete_env_var_of : System → Call → Call → Text → Text → Step (Unit {0})
unfolding project_record_by_path delete_project_env_var stored
delete_env_var_of sys c c' project_path key = do
  p ← project_record_by_path sys c project_path
  stored storage (delete_project_env_var c' p.id key)

-- Application.SetProjectWorkingDirectory
unfoldable pub set_project_working_directory :
    System → Call → Call → Text → Text → Step ProjectRecord
unfolding project_record_by_path resolve_project_working_directory update_project_working_directory
    stored lift
set_project_working_directory sys c c' project_path working_directory = do
  p ← project_record_by_path sys c project_path
  dir ← lift (wrap path (resolve_project_working_directory sys p.path working_directory))
  stored storage (update_project_working_directory c' p.path dir)

-- Application.SetProjectToolchain
unfoldable pub set_project_toolchain :
    System → Binaries → Call → Call → Text → Text → Step ProjectRecord
unfolding project_record_by_path resolve_toolchain_binary update_project_toolchain stored lift
set_project_toolchain sys binaries c c' project_path given = do
  p ← project_record_by_path sys c project_path
  binary ← lift (wrap toolchain (resolve_toolchain_binary binaries given))
  stored storage (update_project_toolchain c' p.path binary)

-- Application.ProjectSnippets
unfoldable pub project_snippets_of : System → Call → Call → Text → Step (List SnippetRecord)
unfolding project_record_by_path project_snippets stored
project_snippets_of sys c c' project_path = do
  p ← project_record_by_path sys c project_path
  stored storage (project_snippets c' p.id)

abbrev pub new_snippet : Text → Text → Text → Text → SnippetRecord
new_snippet snippet_id project_id name content = record {
  id = trim_space snippet_id;
  project_id = project_id;
  name = name;
  content = content;
  created_at = 0;
  updated_at = 0;
}

-- Application.SaveProjectSnippet
unfoldable pub save_project_snippet :
    (ℕ → ℕ) → System → Call → Call → Text → Text → Text → Text → Step SnippetRecord
unfolding project_record_by_path save_snippet trim_space stored
save_project_snippet lower sys c c' project_path snippet_id name content = do
  p ← project_record_by_path sys c project_path
  stored storage (save_snippet lower c' (new_snippet snippet_id p.id name content))

abbrev pub delete_found : Call → Text → Text → Option SnippetRecord → Step (Unit {0})
delete_found c project_id snippet_id none = lift (ok tt)
delete_found c project_id snippet_id (some x) =
    if text_eq x.project_id project_id
    then stored storage (delete_snippet c snippet_id)
    else lift (err other_project)

-- Application.DeleteProjectSnippet
unfoldable pub delete_project_snippet : System → Call → Call → Call → Text → Text → Step (Unit {0})
unfolding project_record_by_path snippet_by_id delete_snippet text_eq stored lift
delete_project_snippet sys c c' c'' project_path snippet_id = do
  p ← project_record_by_path sys c project_path
  found ← stored storage (snippet_by_id c' snippet_id)
  delete_found c'' p.id snippet_id found
