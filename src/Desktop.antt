-- ===== src/Desktop.antt =====
-- internal/desktop/wails_bridge.go, over any application: `S` is its state and `E` its errors, and a
-- method of ApplicationService is a function on the state. The runtime's dialogs are arguments, and the
-- events that are emitted and the calls of NativeToolbarUpdater are listed.
pub mod Api
pub mod Dialogs
pub mod Laws
mod Tests
use gopoke.Base.{
  ℕ, Bool, true, false, not, Option, none, some, List, [], ◌∷◌, ◌++◌, filter, map, Result, ok, err,
  if◌then◌else◌,
}
use gopoke.Text.{Text, codes, is_empty, trim_space}
use gopoke.Text.FilePath.{join}
use gopoke.Settings.{GlobalSettings}
use gopoke.Download.Progress.{Progress}

-- RunStdoutChunkEvent and RunStderrChunkEvent, the three events of a download, and a toolbar update.
pub data Event : Type 0 where
  stdout_chunk stderr_chunk : Text → Text → Event
  download_progress : Progress → Event
  download_failed : Text → Event
  download_complete : Text → Text → Event
  toolbar : Bool → Event

-- A chunk that a run hands to its callbacks.
pub data Chunk : Type 0 where
  stdout stderr : Text → Chunk

abbrev pub text_of : Chunk → Text
text_of (stdout s) = s
text_of (stderr s) = s

pub data Error (E : Type 0) : Type 0 where
  not_started : Error E
  startup_failed failed : E → Error E

abbrev pub error_of : {E A : Type 0} → Result E A → Option E
error_of (ok a) = none
error_of (err e) = some e

abbrev pub keep_error : {E : Type 0} → Option E → Option E → Option E
keep_error none old = old
keep_error (some e) old = some e

abbrev pub context_of : {E : Type 0} → Bool → Option E → Result (Error E) (Unit {0})
context_of false e = err not_started
context_of true none = ok tt
context_of true (some e) = err (startup_failed e)

abbrev pub wrap_failed : {E A : Type 0} → Result E A → Result (Error E) A
wrap_failed (ok a) = ok a
wrap_failed (err e) = err (failed e)

abbrev pub run_id_or : Text → Text → Text
run_id_or given generated = if is_empty given then generated else given

abbrev pub chunk_event : Text → Chunk → Event
chunk_event id (stdout s) = stdout_chunk id s
chunk_event id (stderr s) = stderr_chunk id s

-- The callbacks of RunSnippet over the chunks of a run.
unfoldable pub chunk_events : Text → List Chunk → List Event
chunk_events id chunks = map (chunk_event id) (filter (λ c. not (is_empty (text_of c))) chunks)

abbrev pub download_end : {E A : Type 0} → Text → Text → Result E A → Event
download_end tool installed (ok a) = download_complete tool installed
download_end tool installed (err e) = download_failed tool

abbrev pub go_path_of : {E : Type 0} → Result E GlobalSettings → Text
go_path_of (ok gs) = gs.go_path
go_path_of (err e) = []

abbrev pub trimmed : {E : Type 0} → Result E Text → Result E Text
trimmed (ok path) = ok (trim_space path)
trimmed (err e) = err e

module _ (S E : Type 0) where
  -- WailsBridge. `started` and `startup_err` are set by Startup; `emitted` are the events so far.
  pub record Bridge : Type 0 where
    pub app : S
    pub started : Bool
    pub startup_err : Option E
    pub shutdown_err : Option E
    pub emitted : List Event

module _ {S E : Type 0} where
  -- NewWailsBridge
  abbrev pub new_bridge : S → Bridge S E
  new_bridge app = record {
    app = app;
    started = false;
    startup_err = none;
    shutdown_err = none;
    emitted = [];
  }

  -- The scratch directory's LSP session, whose error is only printed.
  abbrev pub with_lsp : {A : Type 0} → (Text → S → Result E A × S) → Text → S → S
  with_lsp start_lsp dir app = if is_empty dir then app else (start_lsp dir app).1

  -- WailsBridge.Startup
  unfoldable pub startup :
      {A B : Type 0}
      → (S → Result E A × S)
      → (S → Text)
      → (Text → S → Result E B × S)
      → Bridge S E
      → Bridge S E
  startup start scratch_dir start_lsp b =
      let (r, app) = start b.app in
      record b {
        app = with_lsp start_lsp (scratch_dir app) app;
        started = true;
        startup_err = error_of r;
      }

  -- WailsBridge.Shutdown
  unfoldable pub shutdown :
      {A B : Type 0} → (S → Result E A × S) → (S → Result E B × S) → Bridge S E → Bridge S E
  shutdown stop_lsp stop b =
      let (r, app) = stop (stop_lsp b.app).1 in
      record b { app = app; shutdown_err = keep_error (error_of r) b.shutdown_err }

  -- requestContext
  unfoldable pub request_context : Bridge S E → Result (Error E) (Unit {0})
  request_context b = context_of b.started b.startup_err

  abbrev pub guarded :
      {A : Type 0}
      → Result (Error E) (Unit {0})
      → (Bridge S E → Result (Error E) A × Bridge S E)
      → Bridge S E
      → Result (Error E) A × Bridge S E
  guarded (err e) f b = (err e, b)
  guarded (ok u) f b = f b

  -- The methods that only call the application: Health, RecentProjects, DiscoverRunTargets, and so on.
  unfoldable pub forward :
      {A : Type 0} → (S → Result E A × S) → Bridge S E → Result (Error E) A × Bridge S E
  unfolding request_context
  forward method b =
      guarded (request_context b)
        (λ b. let (r, app) = method b.app in (wrap_failed r, record b { app = app })) b

  -- The session of a project that has been opened.
  abbrev pub after_open :
      {A B : Type 0} → (Text → S → Result E B × S) → (A → Text) → Result E A → S → S
  after_open start_lsp dir (err e) app = app
  after_open start_lsp dir (ok a) app = (start_lsp (dir a) app).1

  -- WailsBridge.OpenProject and OpenGoFile: the project's LSP session follows, in the directory that
  -- `dir` gives.
  unfoldable pub open_with_lsp :
      {A B : Type 0}
      → (S → Result E A × S)
      → (Text → S → Result E B × S)
      → (A → Text)
      → Bridge S E
      → Result (Error E) A × Bridge S E
  unfolding request_context
  open_with_lsp open_project start_lsp dir b =
      guarded (request_context b)
        (λ b.
          let (r, app) = open_project b.app in
          (wrap_failed r, record b { app = after_open start_lsp dir r app }))
        b

  -- WailsBridge.RunSnippet of a request with its run ID, with what generateBridgeRunID returns. The run
  -- of the application hands out chunks besides its result.
  unfoldable pub run_snippet :
      {A : Type 0}
      → (Text → S → (Result E A × List Chunk) × S)
      → Text
      → Text
      → Bridge S E
      → Result (Error E) A × Bridge S E
  unfolding request_context chunk_events trim_space
  run_snippet run given generated b =
      guarded (request_context b)
        (λ b.
          let id = run_id_or (trim_space given) generated in
          let ((r, chunks), app) = run id b.app in
          (
            wrap_failed r,
            record b {
              app = app;
              emitted = b.emitted ++ toolbar true ∷ chunk_events id chunks ++ toolbar false ∷ [];
            },
          ))
        b

  -- WailsBridge.DownloadGoSDK with its goroutine, with the events of the download and the path that is
  -- reported when it is complete.
  unfoldable pub download :
      {A : Type 0}
      → Text
      → Text
      → Result E A
      → List Progress
      → Bridge S E
      → Result (Error E) (Unit {0}) × Bridge S E
  unfolding request_context
  download tool installed r events b =
      guarded (request_context b)
        (λ b. (
          ok tt,
          record b {
            emitted =
                b.emitted ++ map download_progress events ++ download_end tool installed r ∷ [];
          },
        ))
        b

  -- WailsBridge.DownloadGopls and DownloadStaticcheck with their goroutines: `install` runs with the Go
  -- binary of the settings, or with none if they cannot be read.
  unfoldable pub download_tool :
      {A : Type 0}
      → Text
      → Text
      → (S → Result E GlobalSettings × S)
      → (Text → Result E A × List Progress)
      → Bridge S E
      → Result (Error E) (Unit {0}) × Bridge S E
  unfolding request_context
  download_tool tool installed get_settings install b =
      guarded (request_context b)
        (λ b.
          let (gs, app) = get_settings b.app in
          let (r, events) = install (go_path_of gs) in
          (
            ok tt,
            record b {
              app = app;
              emitted =
                  b.emitted ++ map download_progress events ++ download_end tool installed r ∷ [];
            },
          ))
        b

  -- LSPWebSocketPort, LSPWorkspaceInfo, LSPStatus and DetectToolVersions, which cannot fail.
  unfoldable pub read : {A : Type 0} → (S → A) → Bridge S E → Result (Error E) A × Bridge S E
  unfolding request_context
  read f b = guarded (request_context b) (λ b. (ok (f b.app), b)) b

  -- ChooseProjectDirectory and ChooseGoFile, with what the dialog returns.
  unfoldable pub choose : Result E Text → Bridge S E → Result (Error E) Text × Bridge S E
  unfolding request_context
  choose dialog b = guarded (request_context b) (λ b. (wrap_failed dialog, b)) b

  -- BrowseForBinary, with what the runtime's dialog returns.
  unfoldable pub browse_for_binary : Result E Text → Bridge S E → Result (Error E) Text × Bridge S E
  unfolding request_context trim_space
  browse_for_binary dialog b =
      guarded (request_context b) (λ b. (wrap_failed (trimmed dialog), b)) b
