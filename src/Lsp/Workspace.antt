-- ===== src/Lsp/Workspace.antt =====
-- internal/lsp/workspace.go: the directory in which gopls works.
use gopoke.Base.{Option, none, some, List, [], ◌∷◌, ◌++◌, if◌then◌else◌}
use gopoke.Text.{Text, codes, is_empty, has_prefix, trim_space}
use gopoke.Text.FilePath.{join}
use gopoke.Text.Lines.{newline, scan_lines}
use gopoke.Base.{drop}

-- workspace
pub record Workspace : Type 0 where
  pub dir : Text
  pub project_path : Text

-- The loop of readGoVersionFromProject over the lines.
unfoldable pub go_version : List Text → Text
unfolding trim_space has_prefix
go_version [] = []
go_version (l ∷ ls) =
    let line = trim_space l in
    let rest = go_version ls in
    if has_prefix line (codes "go ") then trim_space (drop 2 line) else rest

-- readGoVersionFromProject of the content of the project's go.mod, or none if it cannot be opened.
unfoldable pub read_go_version : Option Text → Text
unfolding go_version scan_lines
read_go_version none = []
read_go_version (some content) = go_version (scan_lines content).0

-- The go.mod that createWorkspace writes.
unfoldable pub go_mod_content : Option Text → Text
unfolding read_go_version
go_mod_content project_go_mod =
    let found = read_go_version project_go_mod in
    let version = if is_empty found then codes "1.22" else found in
    codes "module gopoke-snippet" ++ newline ∷ newline ∷ codes "go " ++ version ++ newline ∷ []

-- The directory of the workspace of a project.
unfoldable pub workspace_dir : Text → Text
unfolding join
workspace_dir project_path = join project_path (codes ".gopoke-lsp-workspace")

-- workspace.snippetFilePath
unfoldable pub snippet_file_path : Workspace → Text
unfolding join
snippet_file_path w = join w.dir (codes "main.go")

-- workspace.snippetURI
unfoldable pub snippet_uri : Workspace → Text
unfolding snippet_file_path
snippet_uri w = codes "file://" ++ snippet_file_path w
