-- ===== src/Desktop/Api.antt =====
-- The interface ApplicationService of internal/desktop/wails_bridge.go, and the methods of the bridge
-- that call it.
use gopoke.Base.{ℕ, Bool, Option, List, Result}
use gopoke.Base.Int.{ℤ}
use gopoke.Text.{Text, codes}
use gopoke.Text.FilePath.{join}
use gopoke.Settings.{GlobalSettings}
use gopoke.Storage.Schema.{ProjectRecord, SnippetRecord, EnvVarRecord}
use gopoke.Storage.Access.{HealthReport}
use gopoke.Execution.Outcome.{RunResult}
use gopoke.Runner.{Worker}
use gopoke.Lsp.Manager
use gopoke.Project.Targets.{RunTarget}
use gopoke.Project.Toolchains.Discover.{ToolchainInfo}
use gopoke.Project.Service.{OpenProjectResult}
use gopoke.Playground.{ShareResult}
use gopoke.App.Run.Resolve.{Request}
use gopoke.App.Files.{OpenGoFileResult}
use gopoke.Download.Progress.{Progress}
use gopoke.Download.Install.{go_bin_path, tool_bin_dir}
use gopoke.Desktop.{
  Bridge, Error, Chunk, startup, shutdown, forward, open_with_lsp, run_snippet, read, download,
  download_tool,
}

-- A method that can fail, on the state of the application.
abbrev pub Method : Type 0 → Type 0 → Type 0 → Type 0
Method S E A = S → Result E A × S

-- ApplicationService
pub record ApplicationService (S E : Type 0) : Type 0 where
  pub start : Method S E (Unit {0})
  pub stop : Method S E (Unit {0})
  pub open_project : Text → Method S E OpenProjectResult
  pub open_go_file : Text → Method S E OpenGoFileResult
  pub start_lsp : Text → Method S E (Unit {0})
  pub stop_lsp : Method S E (Unit {0})
  pub scratch_dir : S → Text
  pub run_snippet : Request → S → (Result E RunResult × List Chunk) × S
  pub health : Method S E HealthReport
  pub recent_projects : ℤ → Method S E (List ProjectRecord)
  pub discover_run_targets : Text → Method S E (List RunTarget)
  pub set_project_default_package : Text → Text → Method S E ProjectRecord
  pub project_env_vars : Text → Method S E (List EnvVarRecord)
  pub upsert_project_env_var : Text → Text → Text → Bool → Method S E EnvVarRecord
  pub delete_project_env_var : Text → Text → Method S E (Unit {0})
  pub set_project_working_directory : Text → Text → Method S E ProjectRecord
  pub available_toolchains : Method S E (List ToolchainInfo)
  pub set_project_toolchain : Text → Text → Method S E ProjectRecord
  pub project_snippets : Text → Method S E (List SnippetRecord)
  pub save_project_snippet : Text → Text → Text → Text → Method S E SnippetRecord
  pub delete_project_snippet : Text → Text → Method S E (Unit {0})
  pub format_snippet : Text → Method S E Text
  pub cancel_run : Text → Method S E (Unit {0})
  pub start_project_worker : Text → Method S E Worker
  pub stop_project_worker : Text → Method S E (Unit {0})
  pub save_go_file : Text → Text → Method S E (Unit {0})
  pub get_global_settings : Method S E GlobalSettings
  pub update_global_settings : GlobalSettings → Method S E GlobalSettings
  pub playground_share : Text → Method S E ShareResult
  pub playground_import : Text → Method S E (List ℕ)
  pub lsp_web_socket_port : S → ℕ
  pub lsp_workspace_info : S → Text × Text
  pub lsp_status : S → Option (Bool × Option Manager.Error)
  pub detect_tool_versions : S → (Text × Text) × (Text × Text) × (Text × Text)

module _ {S E : Type 0} (api : ApplicationService S E) where
  -- A request of the frontend, on the bridge.
  abbrev pub Handler : Type 0 → Type 0
  Handler A = Bridge S E → Result (Error E) A × Bridge S E

  -- WailsBridge.Startup
  unfoldable pub startup_with : Bridge S E → Bridge S E
  unfolding startup
  startup_with b = startup api.start api.scratch_dir api.start_lsp b

  -- WailsBridge.Shutdown
  unfoldable pub shutdown_with : Bridge S E → Bridge S E
  unfolding shutdown
  shutdown_with b = shutdown api.stop_lsp api.stop b

  -- WailsBridge.OpenProject
  unfoldable pub open_project_of : Text → Handler OpenProjectResult
  unfolding open_with_lsp
  open_project_of path = open_with_lsp (api.open_project path) api.start_lsp (λ r. path)

  -- WailsBridge.OpenGoFile
  unfoldable pub open_go_file_of : Text → Handler OpenGoFileResult
  unfolding open_with_lsp
  open_go_file_of path =
      open_with_lsp (api.open_go_file path) api.start_lsp (λ r. r.project_result.project.path)

  -- WailsBridge.RunSnippet, with what generateBridgeRunID returns.
  unfoldable pub run_snippet_of : Request → Text → Handler RunResult
  unfolding run_snippet
  run_snippet_of request generated =
      run_snippet (λ id. api.run_snippet (record request { run_id = id })) request.run_id generated

  -- WailsBridge.DownloadGoSDK, with the result and the events of the download in its goroutine.
  unfoldable pub download_go_sdk_of :
      {A : Type 0} → Text → Text → Result E A → List Progress → Handler (Unit {0})
  unfolding download go_bin_path
  download_go_sdk_of goos base r events = download (codes "go") (go_bin_path goos base) r events

  -- WailsBridge.DownloadGopls, with the result and the events of the installation for a Go binary.
  unfoldable pub download_gopls_of :
      {A : Type 0} → Text → (Text → Result E A × List Progress) → Handler (Unit {0})
  unfolding download_tool tool_bin_dir join
  download_gopls_of base install =
      download_tool (codes "gopls") (join (tool_bin_dir base) (codes "gopls"))
        api.get_global_settings install

  -- WailsBridge.DownloadStaticcheck
  unfoldable pub download_staticcheck_of :
      {A : Type 0} → Text → (Text → Result E A × List Progress) → Handler (Unit {0})
  unfolding download_tool tool_bin_dir join
  download_staticcheck_of base install =
      download_tool (codes "staticcheck") (join (tool_bin_dir base) (codes "staticcheck"))
        api.get_global_settings install

  -- WailsBridge.Health
  unfoldable pub health_of : Handler HealthReport
  unfolding forward
  health_of = forward api.health

  -- WailsBridge.RecentProjects
  unfoldable pub recent_projects_of : ℤ → Handler (List ProjectRecord)
  unfolding forward
  recent_projects_of a = forward (api.recent_projects a)

  -- WailsBridge.DiscoverRunTargets
  unfoldable pub discover_run_targets_of : Text → Handler (List RunTarget)
  unfolding forward
  discover_run_targets_of a = forward (api.discover_run_targets a)

  -- WailsBridge.SetProjectDefaultPackage
  unfoldable pub set_project_default_package_of : Text → Text → Handler ProjectRecord
  unfolding forward
  set_project_default_package_of a b = forward (api.set_project_default_package a b)

  -- WailsBridge.ProjectEnvVars
  unfoldable pub project_env_vars_of : Text → Handler (List EnvVarRecord)
  unfolding forward
  project_env_vars_of a = forward (api.project_env_vars a)

  -- WailsBridge.UpsertProjectEnvVar
  unfoldable pub upsert_project_env_var_of : Text → Text → Text → Bool → Handler EnvVarRecord
  unfolding forward
  upsert_project_env_var_of a b c d = forward (api.upsert_project_env_var a b c d)

  -- WailsBridge.DeleteProjectEnvVar
  unfoldable pub delete_project_env_var_of : Text → Text → Handler (Unit {0})
  unfolding forward
  delete_project_env_var_of a b = forward (api.delete_project_env_var a b)

  -- WailsBridge.SetProjectWorkingDirectory
  unfoldable pub set_project_working_directory_of : Text → Text → Handler ProjectRecord
  unfolding forward
  set_project_working_directory_of a b = forward (api.set_project_working_directory a b)

  -- WailsBridge.AvailableToolchains
  unfoldable pub available_toolchains_of : Handler (List ToolchainInfo)
  unfolding forward
  available_toolchains_of = forward api.available_toolchains

  -- WailsBridge.SetProjectToolchain
  unfoldable pub set_project_toolchain_of : Text → Text → Handler ProjectRecord
  unfolding forward
  set_project_toolchain_of a b = forward (api.set_project_toolchain a b)

  -- WailsBridge.ProjectSnippets
  unfoldable pub project_snippets_of : Text → Handler (List SnippetRecord)
  unfolding forward
  project_snippets_of a = forward (api.project_snippets a)

  -- WailsBridge.SaveProjectSnippet
  unfoldable pub save_project_snippet_of : Text → Text → Text → Text → Handler SnippetRecord
  unfolding forward
  save_project_snippet_of a b c d = forward (api.save_project_snippet a b c d)

  -- WailsBridge.DeleteProjectSnippet
  unfoldable pub delete_project_snippet_of : Text → Text → Handler (Unit {0})
  unfolding forward
  delete_project_snippet_of a b = forward (api.delete_project_snippet a b)

  -- WailsBridge.FormatSnippet
  unfoldable pub format_snippet_of : Text → Handler Text
  unfolding forward
  format_snippet_of a = forward (api.format_snippet a)

  -- WailsBridge.CancelRun
  unfoldable pub cancel_run_of : Text → Handler (Unit {0})
  unfolding forward
  cancel_run_of a = forward (api.cancel_run a)

  -- WailsBridge.StartProjectWorker
  unfoldable pub start_project_worker_of : Text → Handler Worker
  unfolding forward
  start_project_worker_of a = forward (api.start_project_worker a)

  -- WailsBridge.StopProjectWorker
  unfoldable pub stop_project_worker_of : Text → Handler (Unit {0})
  unfolding forward
  stop_project_worker_of a = forward (api.stop_project_worker a)

  -- WailsBridge.SaveGoFile
  unfoldable pub save_go_file_of : Text → Text → Handler (Unit {0})
  unfolding forward
  save_go_file_of a b = forward (api.save_go_file a b)

  -- WailsBridge.GetGlobalSettings
  unfoldable pub get_global_settings_of : Handler GlobalSettings
  unfolding forward
  get_global_settings_of = forward api.get_global_settings

  -- WailsBridge.UpdateGlobalSettings
  unfoldable pub update_global_settings_of : GlobalSettings → Handler GlobalSettings
  unfolding forward
  update_global_settings_of a = forward (api.update_global_settings a)

  -- WailsBridge.PlaygroundShare
  unfoldable pub playground_share_of : Text → Handler ShareResult
  unfolding forward
  playground_share_of a = forward (api.playground_share a)

  -- WailsBridge.PlaygroundImport
  unfoldable pub playground_import_of : Text → Handler (List ℕ)
  unfolding forward
  playground_import_of a = forward (api.playground_import a)

  -- WailsBridge.LSPWebSocketPort
  unfoldable pub lsp_web_socket_port_of : Handler ℕ
  unfolding read
  lsp_web_socket_port_of = read api.lsp_web_socket_port

  -- WailsBridge.LSPWorkspaceInfo
  unfoldable pub lsp_workspace_info_of : Handler (Text × Text)
  unfolding read
  lsp_workspace_info_of = read api.lsp_workspace_info

  -- WailsBridge.LSPStatus
  unfoldable pub lsp_status_of : Handler (Option (Bool × Option Manager.Error))
  unfolding read
  lsp_status_of = read api.lsp_status

  -- WailsBridge.DetectToolVersions
  unfoldable pub detect_tool_versions_of : Handler ((Text × Text) × (Text × Text) × (Text × Text))
  unfolding read
  detect_tool_versions_of = read api.detect_tool_versions
