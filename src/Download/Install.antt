-- ===== src/Download/Install.antt =====
-- internal/download/goinstall.go, and the methods of internal/download/manager.go that call it.
pub mod Env
use gopoke.Base.{
  ℕ, Bool, true, false, not, List, [], ◌∷◌, ◌++◌, filter, map, Option, none, some, Result, ok, err,
  if◌then◌else◌,
}
use gopoke.Text.{Text, codes, is_empty, text_eq, has_prefix}
use gopoke.Text.FilePath.{join, clean}
use gopoke.Text.Lines.{scan_lines}
use gopoke.Download.Progress.{Progress, Percent, nothing, full, stage_event}
use gopoke.Download.Slots
use gopoke.Download.Slots.{start_download, end_download}

pub data Error : Type 0 where
  mkdir_failed pipe_failed start_failed install_failed : Error
  busy : Slots.Error → Error

-- The command that is run: its program, its arguments, and its environment.
pub record Command : Type 0 where
  pub program : Text
  pub arguments : List Text
  pub environ : List Text

-- os.MkdirAll, StderrPipe, command.Start and command.Wait, what the command writes to stderr, and
-- os.Environ.
pub record Host : Type 0 where
  pub mkdir_ok : Bool
  pub pipe_ok : Bool
  pub start_ok : Bool
  pub wait_ok : Bool
  pub stderr : Text
  pub environ : List Text

-- What a call has done: its result, its events, and the command that it has started.
pub record Done : Type 0 where
  pub result : Result Error (Unit {0})
  pub events : List Progress
  pub started : Option Command

abbrev pub is_gobin : Text → Bool
is_gobin e = has_prefix e (codes "GOBIN=")

-- The environment with GOBIN set to the target directory.
unfoldable pub tool_environ : List Text → Text → List Text
unfolding has_prefix clean
tool_environ environ dir =
    filter (λ e. not (is_gobin e)) environ ++ (codes "GOBIN=" ++ clean dir) ∷ []

abbrev pub go_program : Text → Text
go_program go_path = if is_empty go_path then codes "go" else go_path

abbrev pub failing : Error → List Progress → Done
failing e events = record { result = err e; events = events; started = none }

abbrev pub line_event : Text → Text → Progress
line_event tool line = stage_event tool (codes "installing") nothing line

abbrev pub waited : Host → Text → List Progress → Command → Done
waited host tool events command =
    if host.wait_ok
    then record {
      result = ok tt;
      events =
          events
          ++ stage_event tool (codes "complete") full (tool ++ codes " installed successfully")
            ∷ [];
      started = some command;
    }
    else record { result = err install_failed; events = events; started = some command }

-- goInstallTool
unfoldable pub go_install_tool : Host → Text → Text → Text → Text → Done
unfolding tool_environ scan_lines
go_install_tool host go_path dir tool pkg =
    let begun = line_event tool (codes "Installing " ++ tool ++ codes "...") ∷ [] in
    let command : Command = record {
      program = go_program go_path;
      arguments = codes "install" ∷ pkg ∷ [];
      environ = tool_environ host.environ dir;
    } in
    if host.mkdir_ok
    then (if host.pipe_ok
        then (if host.start_ok
            then waited host tool (begun ++ map (line_event tool) (scan_lines host.stderr).0)
                command
            else failing start_failed begun)
        else failing pipe_failed begun)
    else failing mkdir_failed []

-- InstallGoplsBinary
unfoldable pub install_gopls_binary : Host → Text → Text → Done
unfolding go_install_tool
install_gopls_binary host go_path dir =
    go_install_tool host go_path dir (codes "gopls") (codes "golang.org/x/tools/gopls@latest")

-- InstallStaticcheckBinary
unfoldable pub install_staticcheck_binary : Host → Text → Text → Done
unfolding go_install_tool
install_staticcheck_binary host go_path dir =
    go_install_tool host go_path dir (codes "staticcheck")
      (codes "honnef.co/go/tools/cmd/staticcheck@latest")

-- Manager.GoSDKDir
unfoldable pub go_sdk_dir : Text → Text
unfolding join
go_sdk_dir base = join base (codes "go")

-- Manager.GoBinPath
unfoldable pub go_bin_path : Text → Text → Text
unfolding go_sdk_dir join text_eq
go_bin_path goos base =
    let bin = if text_eq goos (codes "windows") then codes "go.exe" else codes "go" in
    join (join (go_sdk_dir base) (codes "bin")) bin

-- Manager.ToolBinDir
unfoldable pub tool_bin_dir : Text → Text
unfolding join
tool_bin_dir base = join base (codes "bin")

-- DefaultBaseDir of what os.UserConfigDir answers.
unfoldable pub default_base_dir : Option Text → Text
unfolding join
default_base_dir none = join (codes ".") (codes "toolchain")
default_base_dir (some dir) = join (join dir (codes "gopoke")) (codes "toolchain")

-- The Go binary of InstallGopls and InstallStaticcheck, where `exists` is os.Stat.
unfoldable pub effective_go : (Text → Bool) → Text → Text → Text → Text
unfolding go_bin_path
effective_go exists goos base go_path =
    if is_empty go_path
    then (if exists (go_bin_path goos base) then go_bin_path goos base else [])
    else go_path

-- A call of the manager: the slot of its tool is taken, the work is done, and the deferred calls end it.
abbrev pub in_slot :
    Text → ℕ → Done → Result Slots.Error (Unit {0}) × Slots.Manager → Done × Slots.Manager
in_slot tool cancel d (err e, m) = (failing (busy e) [], m)
in_slot tool cancel d (ok u, m) = (d, end_download tool cancel m)

-- Manager.InstallGopls
unfoldable pub install_gopls :
    Host → (Text → Bool) → Text → Text → Text → ℕ → Slots.Manager → Done × Slots.Manager
unfolding effective_go tool_bin_dir install_gopls_binary start_download end_download
install_gopls host exists goos base go_path cancel m =
    in_slot (codes "gopls") cancel
      (install_gopls_binary host (effective_go exists goos base go_path) (tool_bin_dir base))
      (start_download (codes "gopls") cancel m)

-- Manager.InstallStaticcheck
unfoldable pub install_staticcheck :
    Host → (Text → Bool) → Text → Text → Text → ℕ → Slots.Manager → Done × Slots.Manager
unfolding effective_go tool_bin_dir install_staticcheck_binary start_download end_download
install_staticcheck host exists goos base go_path cancel m =
    in_slot (codes "staticcheck") cancel
      (install_staticcheck_binary host (effective_go exists goos base go_path) (tool_bin_dir base))
      (start_download (codes "staticcheck") cancel m)
