-- ===== src/Storage/Schema.antt =====
-- internal/storage/schema.go: the records of the state file. A time.Time is the number of
-- nanoseconds since Go's zero time, so IsZero is a test for 0.
use gopoke.Base.{ℕ, ◌++◌, Bool, List, []}
use gopoke.Base.Int.{ℤ, pos}
use gopoke.Text.{Text, codes}
use gopoke.Settings.{GlobalSettings, defaults}

pub record ProjectRecord : Type 0 where
  pub id : Text
  pub path : Text
  pub last_opened_at : ℕ
  pub default_pkg : Text
  pub working_dir : Text
  pub toolchain : Text

pub record SnippetRecord : Type 0 where
  pub id : Text
  pub project_id : Text
  pub name : Text
  pub content : Text
  pub created_at : ℕ
  pub updated_at : ℕ

pub record RunRecord : Type 0 where
  pub id : Text
  pub project_id : Text
  pub snippet_id : Text
  pub started_at : ℕ
  pub duration_ms : ℤ
  pub exit_code : ℤ
  pub status : Text

pub record EnvVarRecord : Type 0 where
  pub id : Text
  pub project_id : Text
  pub key : Text
  pub value : Text
  pub masked : Bool

pub record SnapshotMetadata : Type 0 where
  pub created_at : ℕ
  pub updated_at : ℕ

pub record Snapshot : Type 0 where
  pub schema_version : ℤ
  pub projects : List ProjectRecord
  pub snippets : List SnippetRecord
  pub runs : List RunRecord
  pub env_vars : List EnvVarRecord
  pub global_settings : GlobalSettings
  pub meta : SnapshotMetadata

-- SchemaVersionV1
abbrev pub schema_version_v1 : ℤ
schema_version_v1 = pos 1

-- generateID; `random` is the hexadecimal text of the random bytes.
unfoldable pub generate_id : Text → Text → Text
generate_id prefix random = prefix ++ codes "_" ++ random

-- newSnapshot
unfoldable pub new_snapshot : ℕ → Snapshot
new_snapshot now = record {
  schema_version = schema_version_v1;
  projects = [];
  snippets = [];
  runs = [];
  env_vars = [];
  global_settings = defaults;
  meta = record { created_at = now; updated_at = now };
}
