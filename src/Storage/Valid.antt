-- ===== src/Storage/Valid.antt =====
-- About the snapshots of internal/storage/schema.go: the invariant of the store.
pub mod Rules
pub mod Projects
pub mod EnvVars
pub mod Snippets
pub mod Runs
pub mod Access
pub mod Queries
pub mod Run
pub mod Step
use gopoke.Base.{
  ℕ, ◌≤◌, ◌≡◌, refl, Bool, true, false, ◌&&◌, Option, none, some, count, Result, ok, err, CtxError,
  List, inl, inr, Bool-cases,
}
use gopoke.Base.Int.{ℤ, pos}
use gopoke.Base.Distinct.{IsDistinct}
use gopoke.Text.{Text, text_eq}
use gopoke.Storage.Schema.{
  ProjectRecord, SnippetRecord, EnvVarRecord, RunRecord, Snapshot, schema_version_v1,
}
use gopoke.Storage.Monad.{
  WriteFault, no_fault, encode, create_temp, write_temp, sync_temp, close_temp, rename_temp, Error,
  StateFile, missing, unreadable, undecodable, document, Store, Call, Action, pure, raise, raise_if,
  check_context, continue, ◌>>=◌, ◌>>◌,
}
use gopoke.Storage.Io.{
  is_v1, load_locked, load_from, cache_read, read_file, write_locked, on_cached, stamp,
  assign_projects, assign_snippets, assign_env_vars,
}
use gopoke.Storage.Snippets.{normalized}
use gopoke.Storage.Prune.{of_project}
use gopoke.Storage.Runs.{max_runs_per_project}

abbrev pub same_path : ProjectRecord → ProjectRecord → Bool
same_path p q = text_eq p.path q.path

abbrev pub same_id : SnippetRecord → SnippetRecord → Bool
same_id x y = text_eq x.id y.id

abbrev pub same_key : EnvVarRecord → EnvVarRecord → Bool
same_key v w = text_eq v.project_id w.project_id && text_eq v.key w.key

module _ (lower : ℕ → ℕ) where
  -- Snippets of one project whose names differ at most in case and in space around them.
  abbrev pub same_name : SnippetRecord → SnippetRecord → Bool
  same_name x y =
      text_eq x.project_id y.project_id
      && text_eq (normalized lower x.name) (normalized lower y.name)

  -- What every state of the program satisfies.
  pub record IsValid (d : Snapshot) : Type 0 where
    pub version : is_v1 d.schema_version ≡ true
    pub paths : IsDistinct same_path d.projects
    pub ids : IsDistinct same_id d.snippets
    pub names : IsDistinct same_name d.snippets
    pub keys : IsDistinct same_key d.env_vars
    pub runs : (project_id : Text) → count (of_project project_id) d.runs ≤ max_runs_per_project

  abbrev pub CachedIsValid : Option Snapshot → Type 0
  CachedIsValid none = Unit
  CachedIsValid (some d) = IsValid d

  -- A file that loadLocked would accept holds a valid snapshot.
  abbrev pub FileIsValid : StateFile → Type 0
  FileIsValid (document d) = is_v1 d.schema_version ≡ true → IsValid d
  FileIsValid f = Unit

  abbrev pub StoreIsValid : Store → Type 0
  StoreIsValid s = CachedIsValid s.cached × FileIsValid s.file

  -- The method leaves a valid store valid, whether it returns or fails.
  pub record Keeps {A : Type 0} (m : Action A) : Type 0 where
    pub at : (s : Store) → StoreIsValid s → StoreIsValid (m s).1
