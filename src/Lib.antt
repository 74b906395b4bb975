-- ===== src/Lib.antt =====
-- gopoke, a desktop application that runs Go snippets against local projects.
--
-- The application (internal/app/app.go) owns a store of projects, snippets, runs and variables
-- (internal/storage), the processes of one worker per project (internal/runner) and the registry of
-- the runs that can be canceled. A run executes a command with captured output
-- (internal/execution), takes the marker lines out of the output (internal/richoutput) and records
-- its status in the store, and reads diagnostics out of the errors (internal/diagnostics).
-- internal/project opens a project and finds its run targets, toolchains and .env files,
-- internal/download installs tools, internal/lsp forwards messages to the language server,
-- internal/playground shares snippets, internal/desktop takes the requests of the frontend,
-- internal/settings holds the limits of the global settings and internal/telemetry the startup and
-- first-output events.
--
-- Base           names of the library, results, lists, sorting, lists of distinct elements
-- Text           Go's strings as lists of runes: ==, <, TrimSpace, HasPrefix, Split, Atoi, the lines
--                of bufio.Scanner; filepath.Clean, Join, Rel
-- Settings       internal/settings/settings.go: Defaults, WithDefaults, Validate
-- Storage        internal/storage/schema.go and store.go. Schema has the records, Monad the store,
--                what a call meets and the actions, Io loadLocked, writeLocked and the writes into
--                slices that the cache shares; Access, Projects, EnvVars, Snippets and Runs have
--                the methods of Store, one function each (RecordProjectOpen is
--                record_project_open), and Prune has pruneRunRecords. Valid, Effects, Failures
--                and Queries are about them.
-- Execution      internal/execution/snippet_runner.go: Capture is limitedCaptureWriter, Lifecycle
--                waitForCommandExit, Start RunGoSnippetWithOptions up to the command and as a
--                whole, Outcome its end and runStatusFromResult of internal/app/app.go,
--                SnippetCache and Environment what the command is started with
-- App            internal/app/app.go: Registry has registerActiveRun, unregisterActiveRun and
--                CancelRun, Paths resolveInputPath and resolveProjectWorkingDirectory, Projects the
--                methods that work on one project (DeleteProjectSnippet is delete_project_snippet),
--                Run RunSnippet and Run.Resolve resolveRunRequest, made of the steps of Step,
--                Tools applyToolchainPaths, DetectToolVersions, GoSource and the playground's
--                methods, Files OpenProject, OpenGoFile and SaveGoFile, Lifecycle Start, Stop and
--                the methods of the workers and the language server. Reachable is about the
--                methods that change the store, the workers or the active runs, in any order.
-- Telemetry      internal/telemetry/recorder.go: Recorder
-- RichOutput     internal/richoutput/parser.go: Parse
-- Snippet        internal/snippet/service.go: the in-memory Service
-- Env            internal/env/service.go: the in-memory Service
-- Runner         internal/runner/manager.go: StartWorker, waitForWorkerExit, IsRunning; Stop has
--                StopWorker, waitForStop and StopAll, over the events that happen while they wait
-- Project        internal/project: Targets has DiscoverRunTargets over a directory tree, Toolchains
--                ResolveToolchainBinary and, in Discover, DiscoverToolchains, Module DetectModule,
--                Dotenv the parser of .env files, Service the methods of service.go, made of the
--                steps of Storage.Step
-- Diagnostics    internal/diagnostics/parser.go: ParseAll, with the regular expressions as matchers
-- Download       internal/download: Slots has startDownload, finishDownload and CancelDownload,
--                Extract extractTarGz, Progress calcPercent, Sdk ListGoVersions and DownloadGoSDK,
--                Install goInstallTool and the methods of the manager that use it
-- Lsp            internal/lsp: Framing has the messages and splitContentLength of proxy.go, Session
--                its handleWS and Stop its gracefulStopProcess, Workspace workspace.go, Manager the
--                state of manager.go
-- Playground     internal/playground/client.go: Share, Import and extractHash
-- Desktop        internal/desktop/wails_bridge.go: the bridge over any application; Api has the
--                interface ApplicationService and a function for each method that calls it, and
--                Dialogs has the dialogs of the platforms
--
-- A method of the store is a function of its call, which holds the state of the context, the
-- time, the random bytes and the step of the write that fails, and of the store; it returns a
-- result and the store, after an error too. A method holds the mutex of the store from its start
-- to its end, so calls of methods follow each other in a sequence. The exit of a command, the
-- end of a context and the end of a timer are events in the order in which they arrive, and so
-- are the workers that others start while one is stopped, and what the goroutines of handleWS
-- meet, and what others do to the map of active runs while RunSnippet goes on; otherwise a method of
-- the application is one step. All functions are structural recursions, but for two that take fuel: the scan loop of
-- Lsp.Framing, for which one round more than there are messages is enough, and the digits of a
-- number, whose fuel is the number itself.
--
-- Parameters are the case table of strings.ToLower, rune by rune, json.Valid, the text of a
-- number, SHA-256, strconv.Unquote, gofmt, what go/build and go/parser say of a file, and what
-- the operating system, the HTTP client and the dialogs answer. A context that is alive at the
-- start of a scan of directories stays alive. Times are nanoseconds since Go's zero time.
-- Integers have no bound, but for the counter of the in-memory snippets, the numbers that
-- strconv.Atoi reads, the length of a frame and the timeout of a run: the other lengths and
-- counters stay far below 2 ^ 63. Paths are those of Unix. Sorting is by insertion and stable,
-- where slices.SortFunc may order equal elements in another way.
--
-- Not modelled: the JSON text of the state file, which is taken to be read back as it was
-- written; the texts that wrap errors; that methods which hold the lock for reading fill the
-- cache, which is a race; signals and processes, network requests, the frontend, the HTTP server
-- around handleWS, the float64 division of calcPercent, the calls of the logger and of the
-- telemetry in Start, and the worker mode of the process, which waits for a signal.
pub mod Base
pub mod Text
pub mod Settings
pub mod Storage
pub mod Execution
pub mod App
pub mod Telemetry
pub mod RichOutput
pub mod Runner
pub mod Snippet
pub mod Env
pub mod Diagnostics
pub mod Project
pub mod Download
pub mod Lsp
pub mod Playground
pub mod Desktop
