-- ===== src/Storage/EnvVars.antt =====
-- The environment-variable methods of store.go.
use gopoke.Base.{
  Bool, true, false, ◌&&◌, not, Option, none, some, List, [], ◌∷◌, ◌++◌, filter, any, if◌then◌else◌,
}
use gopoke.Base.Sort.{sort}
use gopoke.Base.Update.{find, update_first}
use gopoke.Text.{Text, codes, text_eq, text_lt, trim_space}
use gopoke.Storage.Schema.{EnvVarRecord, Snapshot, generate_id}
use gopoke.Storage.Monad.{
  project_id_required, env_var_key_required, Call, Action, pure, ◌>>=◌, ◌>>◌, check_context,
  require,
}
use gopoke.Storage.Io.{load_locked, write_locked, assign_env_vars, persist}

abbrev pub at_key : Text → Text → EnvVarRecord → Bool
at_key project_id key v = text_eq v.project_id project_id && text_eq v.key key

abbrev pub set_value : Text → Bool → EnvVarRecord → EnvVarRecord
set_value value masked v = record v { value = value; masked = masked }

abbrev pub new_var : Call → Text → Text → Text → Bool → EnvVarRecord
new_var c project_id key value masked = record {
  id = generate_id (codes "env") c.random;
  project_id = project_id;
  key = key;
  value = value;
  masked = masked;
}

abbrev pub set_found :
    Call → Text → Text → Text → Bool → Snapshot → Option EnvVarRecord → Action EnvVarRecord
set_found c project_id key value masked d (some v) = do
  let vs = update_first (at_key project_id key) (set_value value masked) d.env_vars
  assign_env_vars vs
  persist c (record d { env_vars = vs })
  pure (set_value value masked v)
set_found c project_id key value masked d none = do
  let v = new_var c project_id key value masked
  persist c (record d { env_vars = d.env_vars ++ v ∷ [] })
  pure v

-- Store.UpdateProjectEnvVar
unfoldable pub update_project_env_var : Call → Text → Text → Text → Bool → Action EnvVarRecord
unfolding load_locked write_locked find update_first assign_env_vars generate_id
update_project_env_var c project_id key value masked = do
  check_context c.ctx
  require project_id project_id_required
  let trimmed = trim_space key
  require trimmed env_var_key_required
  d ← load_locked
  set_found c project_id trimmed value masked d (find (at_key project_id trimmed) d.env_vars)

abbrev pub delete_if : Bool → Call → Snapshot → Action (Unit {0})
delete_if true c d = persist c d
delete_if false c d = pure tt

-- Store.DeleteProjectEnvVar
unfoldable pub delete_project_env_var : Call → Text → Text → Action (Unit {0})
unfolding load_locked write_locked
delete_project_env_var c project_id key = do
  check_context c.ctx
  require project_id project_id_required
  let trimmed = trim_space key
  require trimmed env_var_key_required
  d ← load_locked
  let filtered = filter (λ v. not (at_key project_id trimmed v)) d.env_vars
  delete_if (any (at_key project_id trimmed) d.env_vars) c (record d { env_vars = filtered })

unfoldable pub key_before : EnvVarRecord → EnvVarRecord → Bool
key_before a b = text_lt a.key b.key

-- Store.ProjectEnvVars
unfoldable pub project_env_vars : Call → Text → Action (List EnvVarRecord)
unfolding load_locked sort key_before
project_env_vars c project_id = do
  check_context c.ctx
  require project_id project_id_required
  d ← load_locked
  pure (sort key_before (filter (λ v. text_eq v.project_id project_id) d.env_vars))

-- A Go map that a loop fills: a later entry for a key replaces an earlier one.
abbrev pub lookup : Text → List EnvVarRecord → Option Text
lookup k [] = none
lookup k (v ∷ vs) = elim (lookup k vs) [
  | none ↦ if text_eq v.key k then some v.value else none
  | some x ↦ some x
]

-- Store.ProjectEnvMap, as the lookup function of the map.
unfoldable pub project_env_map : Call → Text → Action (Text → Option Text)
unfolding project_env_vars
project_env_map c project_id = do vs ← project_env_vars c project_id; pure (λ k. lookup k vs)
