-- ===== src/Execution/Start.antt =====
-- RunGoSnippetWithOptions of internal/execution/snippet_runner.go up to the start of the command,
-- and the whole of it. What the operating system does is an argument.
use gopoke.Base.{
  ℕ, suc, ◌*◌, Bool, true, false, Option, none, some, List, [], ◌∷◌, Result, ok, err, CtxError,
  if◌then◌else◌,
}
use gopoke.Base.Int.{ℤ, pos}
use gopoke.Text.{Text, codes, is_empty, trim_space}
use gopoke.Text.FilePath.{is_abs, clean, join}
use gopoke.Runner.{FileSystem}
use gopoke.Execution.Capture.{CaptureWriter}
use gopoke.Execution.Environment.{Environment, merge_environment}
use gopoke.Execution.Lifecycle.{Exit}
use gopoke.Execution.Outcome
use gopoke.Execution.Outcome.{RunResult, captured, finish}
use gopoke.Execution.SnippetCache.{CacheEntry, snippet_file_name, clean_snippet_cache, write_file}

-- The errors, without the texts that wrap them.
pub data Error : Type 0 where
  context : CtxError → Error
  project_path_required snippet_required resolve_failed : Error
  inspect_failed not_a_directory : Error
  inspect_working_directory_failed working_directory_not_a_directory : Error
  cache_dir_failed write_failed start_failed command_failed : Error

-- RunOptions, without the handlers and the bounds of the output.
pub record RunOptions : Type 0 where
  pub working_directory : Text
  pub environment : Environment
  pub toolchain : Text
  pub timeout : ℤ

-- The command that is started.
pub record Command : Type 0 where
  pub toolchain : Text
  pub file_name : Text
  pub dir : Text
  pub environment : Environment
  pub timeout : ℤ

-- DefaultTimeout, in nanoseconds.
abbrev pub default_timeout : ℤ
default_timeout = pos (15 * 1000000000)

abbrev pub timeout_or_default : ℤ → ℤ
timeout_or_default (pos (suc n)) = pos (suc n)
timeout_or_default t = default_timeout

abbrev pub or_go : Text → Text
or_go [] = codes "go"
or_go (c ∷ s) = c ∷ s

abbrev pub checked_directory : Error → Error → Text → Option Bool → Result Error Text
checked_directory missing other path none = err missing
checked_directory missing other path (some false) = err other
checked_directory missing other path (some true) = ok path

abbrev pub checked_project : FileSystem → Option Text → Result Error Text
checked_project fs none = err resolve_failed
checked_project fs (some path) =
    checked_directory inspect_failed not_a_directory path (fs.is_dir path)

abbrev pub directory_for : Text → Text → Text
directory_for project given =
    if is_empty given then project else clean (if is_abs given then given else join project given)

abbrev pub checked_working_directory : FileSystem → Text → Result Error Text
checked_working_directory fs dir =
    checked_directory inspect_working_directory_failed working_directory_not_a_directory dir
      (fs.is_dir dir)

-- What the operating system does in a call: its answers about paths, which steps it lets
-- through (a file that it does not write is not made), its environment, and SHA-256.
pub record Host : Type 0 where
  pub files : FileSystem
  pub mkdir_ok : Bool
  pub write_ok : Bool
  pub start_ok : Bool
  pub removable : Text → Bool
  pub environ : List Text
  pub sha256 : Text → Text

abbrev pub cached : Host → Text → List CacheEntry → List CacheEntry
cached host name cache = clean_snippet_cache host.removable name cache

abbrev pub command_for : Host → Text → Text → Text → RunOptions → Command
command_for host project dir name options = record {
  toolchain = or_go (trim_space options.toolchain);
  file_name = join (join project (codes ".gopoke-run-cache")) name;
  dir = dir;
  environment = merge_environment host.environ options.environment;
  timeout = timeout_or_default options.timeout;
}

-- From the cache directory to the start of the command.
abbrev pub launch :
    Host
    → Text
    → Text
    → Text
    → RunOptions
    → List CacheEntry
    → Result Error Command × List CacheEntry
launch host project dir name options cache =
    let written = write_file name (cached host name cache) in
    if host.mkdir_ok
    then if host.write_ok
      then if host.start_ok
        then (ok (command_for host project dir name options), written)
        else (err start_failed, written)
      else (err write_failed, cached host name cache)
    else (err cache_dir_failed, cache)

abbrev pub launch_in :
    Host
    → Text
    → Result Error Text
    → Text
    → RunOptions
    → List CacheEntry
    → Result Error Command × List CacheEntry
launch_in host project (err e) name options cache = (err e, cache)
launch_in host project (ok dir) name options cache = launch host project dir name options cache

abbrev pub launch_for :
    Host
    → Result Error Text
    → Text
    → RunOptions
    → List CacheEntry
    → Result Error Command × List CacheEntry
launch_for host (err e) name options cache = (err e, cache)
launch_for host (ok project) name options cache =
    launch_in host project
      (checked_working_directory host.files
        (directory_for project (trim_space options.working_directory)))
      name options cache

-- RunGoSnippetWithOptions up to command.Start, with the entries of the cache directory.
unfoldable pub start_command :
    Host
    → Option CtxError
    → Text
    → Text
    → RunOptions
    → List CacheEntry
    → Result Error Command × List CacheEntry
unfolding trim_space is_abs clean join snippet_file_name clean_snippet_cache write_file
start_command host (some e) project snippet options cache = (err (context e), cache)
start_command host none project snippet options cache =
    if is_empty (trim_space project)
    then (err project_path_required, cache)
    else if is_empty (trim_space snippet)
    then (err snippet_required, cache)
    else launch_for host (checked_project host.files (host.files.abs project))
        (snippet_file_name host.sha256 snippet) options cache

-- How a started command ends: its exit, runCtx.Err() then, what was captured, and the time it took.
pub record Ended : Type 0 where
  pub exit : Exit
  pub ctx : Option CtxError
  pub out : CaptureWriter
  pub errors : CaptureWriter
  pub duration_ms : ℕ

abbrev pub finished : Result Outcome.RunError RunResult → Result Error RunResult
finished (ok r) = ok r
finished (err e) = err command_failed

abbrev pub outcome : Result Error Command → Ended → Result Error RunResult
outcome (err e) ended = err e
outcome (ok command) ended =
    finished (finish ended.exit ended.ctx (captured ended.out ended.errors ended.duration_ms))

-- RunGoSnippetWithOptions
unfoldable pub run_go_snippet_with_options :
    Host
    → Option CtxError
    → Text
    → Text
    → RunOptions
    → Ended
    → List CacheEntry
    → Result Error RunResult × List CacheEntry
unfolding start_command finish captured
run_go_snippet_with_options host ctx project snippet options ended cache =
    let (command, cache') = start_command host ctx project snippet options cache in
    (outcome command ended, cache')
