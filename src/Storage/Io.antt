-- ===== src/Storage/Io.antt =====
-- loadLocked and writeLocked, and the writes of methods into slices that the cache shares.
use gopoke.Base.{
  ℕ, Bool, true, false, Option, none, some, List, [], ◌∷◌, Result, ok, err, if◌then◌else◌, ◌==◌,
}
use gopoke.Base.Int.{ℤ, pos, negsuc}
use gopoke.Text.{Text, codes}
use gopoke.Text.FilePath.{join}
use gopoke.Storage.Schema.{Snapshot, ProjectRecord, SnippetRecord, EnvVarRecord}
use gopoke.Storage.Monad.{
  WriteFault, no_fault, encode, create_temp, write_temp, sync_temp, close_temp, rename_temp, Error,
  read_failed, decode_failed, unsupported_schema, write_failed, StateFile, missing, unreadable,
  undecodable, document, Store, Call, Action,
}

abbrev pub is_v1 : ℤ → Bool
is_v1 (pos n) = n == 1
is_v1 (negsuc n) = false

-- The file read, decoded and checked, when nothing is cached.
unfoldable pub read_file : StateFile → Result Error Snapshot
read_file missing = err read_failed
read_file unreadable = err read_failed
read_file undecodable = err decode_failed
read_file (document d) =
    if is_v1 d.schema_version then ok d else err (unsupported_schema d.schema_version)

abbrev pub cache_read : Result Error Snapshot → Action Snapshot
cache_read (ok d) s = (ok d, record s { cached = some d })
cache_read (err e) s = (err e, s)

abbrev pub load_from : Option Snapshot → Action Snapshot
load_from (some c) s = (ok c, s)
load_from none s = cache_read (read_file s.file) s

-- Store.loadLocked
unfoldable pub load_locked : Action Snapshot
load_locked s = load_from s.cached s

abbrev pub step_no : WriteFault → ℕ
step_no no_fault = 0
step_no encode = 1
step_no create_temp = 2
step_no write_temp = 3
step_no sync_temp = 4
step_no close_temp = 5
step_no rename_temp = 6

-- Whether a step of the write is the one that fails.
abbrev pub fails_at : WriteFault → WriteFault → Bool
fails_at f g = step_no f == step_no g

-- os.CreateTemp: an empty file.
abbrev pub create_file : Store → Store
create_file s = record s { temps = undecodable ∷ s.temps }

abbrev pub fill : Snapshot → List StateFile → List StateFile
fill d [] = []
fill d (t ∷ ts) = document d ∷ ts

abbrev pub without_last : List StateFile → List StateFile
without_last [] = []
without_last (t ∷ ts) = ts

-- os.Rename: the temporary file takes the place of state.json, with its content.
abbrev pub rename_over : List StateFile → Store → Store
rename_over [] s = s
rename_over (t ∷ ts) s = record s { file = t; temps = ts }

abbrev pub remove_last : Bool → List StateFile → List StateFile
remove_last true ts = without_last ts
remove_last false ts = ts

-- After a failure past CreateTemp the temporary file is removed; an error of os.Remove is not looked at.
abbrev pub drop_temp : Bool → WriteFault → Action (Unit {0})
drop_temp remove_ok g s = (err (write_failed g), record s { temps = remove_last remove_ok s.temps })

-- A step past CreateTemp, and what follows it.
abbrev pub attempt :
    WriteFault → Bool → WriteFault → (Store → Store) → Action (Unit {0}) → Action (Unit {0})
attempt f remove_ok g act next s = if fails_at f g then drop_temp remove_ok g s else next (act s)

-- Store.writeLocked, where the step `f` fails.
unfoldable pub write_locked : WriteFault → Bool → Snapshot → Action (Unit {0})
write_locked f remove_ok snapshot s =
    let write = attempt f remove_ok write_temp (λ s. record s { temps = fill snapshot s.temps }) in
    let sync = attempt f remove_ok sync_temp (λ s. s) in
    let close = attempt f remove_ok close_temp (λ s. s) in
    let rename = attempt f remove_ok rename_temp (λ s. rename_over s.temps s) in
    let cache : Action (Unit {0}) = λ s. (ok tt, record s { cached = some snapshot }) in
    if fails_at f encode
    then (err (write_failed encode), s)
    else if fails_at f create_temp
    then (err (write_failed create_temp), s)
    else write (sync (close (rename cache))) (create_file s)

abbrev pub on_cached : (Snapshot → Snapshot) → Option Snapshot → Option Snapshot
on_cached f none = none
on_cached f (some c) = some (f c)

-- loadLocked returns a copy of *s.cached whose slices are the cache's own, so an assignment to
-- snapshot.Projects[i] is one to s.cached.Projects[i] too. These three are such assignments.
unfoldable pub assign_projects : List ProjectRecord → Action (Unit {0})
assign_projects ps s =
    (ok tt, record s { cached = on_cached (λ c. record c { projects = ps }) s.cached })

unfoldable pub assign_snippets : List SnippetRecord → Action (Unit {0})
assign_snippets xs s =
    (ok tt, record s { cached = on_cached (λ c. record c { snippets = xs }) s.cached })

unfoldable pub assign_env_vars : List EnvVarRecord → Action (Unit {0})
assign_env_vars vs s =
    (ok tt, record s { cached = on_cached (λ c. record c { env_vars = vs }) s.cached })

-- snapshot.Meta.UpdatedAt = now
abbrev pub stamp : ℕ → Snapshot → Snapshot
stamp now d = record d { meta = record d.meta { updated_at = now } }

-- `snapshot.Meta.UpdatedAt = now; if err := s.writeLocked(snapshot); ...`
abbrev pub persist : Call → Snapshot → Action (Unit {0})
persist c d = write_locked c.write c.remove_ok (stamp c.now d)

-- New
unfoldable pub new : Text → StateFile → Store
unfolding join
new root_dir file = record {
  root_dir = root_dir;
  path = join root_dir (codes "state.json");
  cached = none;
  file = file;
  temps = [];
}
