-- ===== src/Storage/Projects.antt =====
-- The project methods of store.go.
use gopoke.Base.{
  ℕ, Bool, true, false, ◌||◌, Option, none, some, List, [], ◌∷◌, ◌++◌, length, take, ltb, leb, ◌==◌,
  if◌then◌else◌,
}
use gopoke.Base.Int.{ℤ, pos, negsuc}
use gopoke.Base.Sort.{sort}
use gopoke.Base.Update.{find, update_first}
use gopoke.Text.{Text, codes, text_eq, text_lt, is_empty, trim_space}
use gopoke.Text.FilePath.{clean}
use gopoke.Storage.Schema.{ProjectRecord, Snapshot, generate_id}
use gopoke.Storage.Monad.{
  Error, project_path_required, default_package_required, working_directory_required,
  toolchain_required, project_not_found, negative_limit, Call, Action, pure, raise, ◌>>=◌, ◌>>◌,
  check_context, require, require_nonblank,
}
use gopoke.Storage.Io.{load_locked, write_locked, assign_projects, persist}

abbrev pub at_path : Text → ProjectRecord → Bool
at_path path p = text_eq p.path path

-- The body of the loop of RecordProjectOpen on the record that it finds.
abbrev pub reopen : ℕ → Text → ProjectRecord → ProjectRecord
reopen now default_package p = record p {
  last_opened_at = now;
  default_pkg = if is_empty (trim_space default_package) then p.default_pkg else default_package;
}

abbrev pub first_open : Call → Text → Text → ProjectRecord
first_open c path default_package = record {
  id = generate_id (codes "prj") c.random;
  path = path;
  last_opened_at = c.now;
  default_pkg = default_package;
  working_dir = [];
  toolchain = [];
}

abbrev pub open_found : Call → Text → Text → Snapshot → Option ProjectRecord → Action ProjectRecord
open_found c path default_package d (some p) = do
  let ps = update_first (at_path path) (reopen c.now default_package) d.projects
  assign_projects ps
  persist c (record d { projects = ps })
  pure (reopen c.now default_package p)
open_found c path default_package d none = do
  let p = first_open c path default_package
  persist c (record d { projects = d.projects ++ p ∷ [] })
  pure p

-- Store.RecordProjectOpen
unfoldable pub record_project_open : Call → Text → Text → Action ProjectRecord
unfolding load_locked write_locked find update_first assign_projects generate_id
record_project_open c path default_package = do
  check_context c.ctx
  require path project_path_required
  d ← load_locked
  let normalized = clean path
  open_found c normalized default_package d (find (at_path normalized) d.projects)

-- Store.ProjectByPath; Go's (record, found) is an option.
unfoldable pub project_by_path : Call → Text → Action (Option ProjectRecord)
unfolding load_locked find
project_by_path c path = do
  check_context c.ctx
  require path project_path_required
  d ← load_locked
  pure (find (at_path (clean path)) d.projects)

-- The loop of the three methods below, with its early return.
abbrev pub update_found :
    Call
    → Text
    → (ProjectRecord → ProjectRecord)
    → Snapshot
    → Option ProjectRecord
    → Action ProjectRecord
update_found c path f d none = raise project_not_found
update_found c path f d (some p) = do
  let ps = update_first (at_path path) f d.projects
  assign_projects ps
  persist c (record d { projects = ps })
  pure (f p)

abbrev pub update_project :
    Call → Text → Text → Error → (ProjectRecord → ProjectRecord) → Action ProjectRecord
update_project c path value missing f = do
  check_context c.ctx
  require path project_path_required
  require_nonblank value missing
  d ← load_locked
  let normalized = clean path
  update_found c normalized f d (find (at_path normalized) d.projects)

-- Store.UpdateProjectDefaultPackage
unfoldable pub update_project_default_package : Call → Text → Text → Action ProjectRecord
unfolding load_locked write_locked find update_first assign_projects
update_project_default_package c path default_package =
    update_project c path default_package default_package_required
      (λ p. record p { default_pkg = default_package })

-- Store.UpdateProjectWorkingDirectory
unfoldable pub update_project_working_directory : Call → Text → Text → Action ProjectRecord
unfolding load_locked write_locked find update_first assign_projects
update_project_working_directory c path working_directory =
    update_project c path working_directory working_directory_required
      (λ p. record p { working_dir = clean working_directory })

-- Store.UpdateProjectToolchain
unfoldable pub update_project_toolchain : Call → Text → Text → Action ProjectRecord
unfolding load_locked write_locked find update_first assign_projects
update_project_toolchain c path toolchain =
    update_project c path toolchain toolchain_required
      (λ p. record p { toolchain = trim_space toolchain })

-- The comparison of RecentProjects: the later first, then by path.
unfoldable pub opened_before : ProjectRecord → ProjectRecord → Bool
opened_before a b =
    if ltb b.last_opened_at a.last_opened_at
    then true
    else if ltb a.last_opened_at b.last_opened_at
    then false
    else text_lt a.path b.path

-- `if limit == 0 || limit >= len(xs) { return xs }; return xs[:limit]`
abbrev pub limited {ℓ} : {A : Type ℓ} → ℕ → List A → List A
limited limit xs = if limit == 0 || leb (length xs) limit then xs else take limit xs

abbrev pub limit_of : ℤ → Action ℕ
limit_of (pos n) = pure n
limit_of (negsuc n) = raise negative_limit

-- Store.RecentProjects
unfoldable pub recent_projects : Call → ℤ → Action (List ProjectRecord)
unfolding load_locked sort
recent_projects c limit = do
  check_context c.ctx
  n ← limit_of limit
  d ← load_locked
  pure (limited n (sort opened_before d.projects))
