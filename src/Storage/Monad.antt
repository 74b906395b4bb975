-- ===== src/Storage/Monad.antt =====
-- The Store of internal/storage/store.go, what a call meets outside it, and the monad of its
-- methods: errors beside a state, which comes back after an error too.
use gopoke.Base.{List, ℕ, Bool, Option, none, some, Result, ok, err, CtxError, if◌then◌else◌}
use gopoke.Base.Int.{ℤ}
use gopoke.Text.{Text, is_empty, trim_space}
use gopoke.Storage.Schema.{Snapshot}

-- The step of writeLocked that fails in a call, if one does.
pub data WriteFault : Type 0 where
  no_fault encode create_temp write_temp sync_temp close_temp rename_temp : WriteFault

-- The errors, without the texts that wrap them.
pub data Error : Type 0 where
  context : CtxError → Error
  project_path_required default_package_required working_directory_required : Error
  toolchain_required project_id_required env_var_key_required : Error
  snippet_name_required snippet_content_required snippet_id_required : Error
  run_status_required negative_limit : Error
  project_not_found snippet_not_found snippet_project_mismatch : Error
  snippet_name_exists : Text → Error
  read_failed decode_failed mkdir_failed stat_failed : Error
  unsupported_schema : ℤ → Error
  write_failed : WriteFault → Error

-- state.json: `document` is a file that json.Unmarshal decodes to the snapshot.
pub data StateFile : Type 0 where
  missing unreadable undecodable : StateFile
  document : Snapshot → StateFile

-- `temps` are the files that os.CreateTemp made and that are still there, with their content, the latest
-- first.
pub record Store : Type 0 where
  pub root_dir : Text
  pub path : Text
  pub cached : Option Snapshot
  pub file : StateFile
  pub temps : List StateFile

-- What one call meets: ctx.Err(), time.Now(), the random bytes of generateID, which step of a write
-- fails, whether os.Remove then removes the temporary file, and what else fails.
pub record Call : Type 0 where
  pub ctx : Option CtxError
  pub now : ℕ
  pub random : Text
  pub write : WriteFault
  pub remove_ok : Bool
  pub mkdir_ok : Bool
  pub stat_ok : Bool

abbrev pub Action : Type 0 → Type 0
Action A = Store → Result Error A × Store

module _ {A : Type 0} where
  unfoldable pub pure : A → Action A
  pure a s = (ok a, s)

  unfoldable pub raise : Error → Action A
  raise e s = (err e, s)

-- `if cond { return ..., error }`
unfoldable pub raise_if : Bool → Error → Action (Unit {0})
raise_if b e s = (if b then err e else ok tt, s)

-- `if err := ctx.Err(); err != nil { return ... }`
unfoldable pub check_context : Option CtxError → Action (Unit {0})
check_context none s = (ok tt, s)
check_context (some e) s = (err (context e), s)

abbrev pub continue : {A B : Type 0} → Result Error A → (A → Action B) → Action B
continue (ok a) f s = f a s
continue (err e) f s = (err e, s)

-- Opening this opens the four actions above too.
infixl 5 ◌>>=◌ ◌>>◌
unfoldable pub ◌>>=◌ : {A B : Type 0} → Action A → (A → Action B) → Action B
unfolding pure raise raise_if check_context
◌>>=◌ m f s = let r = m s in continue r.0 f r.1

abbrev pub ◌>>◌ : {B : Type 0} → Action (Unit {0}) → Action B → Action B
m >> k = m >>= λ _. k

-- `if x == "" { return ... }`
abbrev pub require : Text → Error → Action (Unit {0})
require x e = raise_if (is_empty x) e

-- `if strings.TrimSpace(x) == "" { return ... }`
abbrev pub require_nonblank : Text → Error → Action (Unit {0})
require_nonblank x e = raise_if (is_empty (trim_space x)) e
