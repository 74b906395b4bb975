-- ===== src/Project/Tests.antt =====
-- Runs of the .env parser and of the target discovery.
use gopoke.Base.{
  ◌≡◌, refl, true, false, Option, none, some, List, [], ◌∷◌, ◌++◌, map, All, if◌then◌else◌,
}
use gopoke.Base.Distinct.{IsDistinct}
use gopoke.Text.{Text, codes, text_eq}
use gopoke.Text.Lines.{newline, join_lines}
use gopoke.Project.Targets.{SourceFile, Dir, dir, nil, cons, RunTarget, has_run_target}
use gopoke.Storage.Schema.{EnvVarRecord, new_snapshot}
use gopoke.Storage.Monad
use gopoke.Storage.Monad.{Call, Store, no_fault, missing}
use gopoke.Project.Module.{present}
use gopoke.Project.Toolchains.{Binaries}
use gopoke.Project.Toolchains.Discover.{ToolchainInfo, DirEntry, discover_toolchains}
use gopoke.Project.Toolchains.Discover.Paths.{same_path, IsResolved, discover_toolchains-distinct}
use gopoke.Project.Service
use gopoke.Project.Service.{Calls, OpenProjectResult, open_project}
use gopoke.Project.Service.Default.{open_project-has_run_target}
use gopoke.Project.Dotenv.{
  content, expected_assignment, Entry, invalid_key, invalid_quoted_value, is_env_key, parse_dot_env,
}
use gopoke.Project.Dotenv.RoundTrip.{line_of, puts, parse_dot_env-quoted}

abbrev entry : Entry
entry = record { key = codes "K_1"; value = codes " a # 'b' " }

abbrev entries : List Entry
entries = entry ∷ record { key = codes "X"; value = [] } ∷ []

parse_dot_env-quoted_example :
    parse_dot_env (λ s. some s) (join_lines (map line_of entries)) ≡ (puts entries [], [])
unfolding is_env_key
parse_dot_env-quoted_example =
    parse_dot_env-quoted (λ s. some s) entry (record { key = codes "X"; value = [] } ∷ [])
      (
        record { key = refl; value = refl; fits = refl },
        (record { key = refl; value = refl; fits = refl }, tt),
      )

mixed :
    parse_dot_env
      (λ s. none)
      (codes "# c"
        ++ newline ∷ codes "export A = 1 # one"
        ++ newline ∷ codes "2B=x"
        ++ newline ∷ codes "C=\"")
    ≡ (
      record { key = codes "A"; value = codes "1" } ∷ [],
      invalid_key 3 (codes "2B") ∷ invalid_quoted_value 4 ∷ [],
    )
unfolding parse_dot_env
mixed = refl

abbrev main_file : SourceFile
main_file = record {
  name = codes "main.go";
  is_dir = false;
  matches = true;
  parsed = some (codes "main", true);
}

-- A root with two commands, and a directory that is skipped.
abbrev tree : Dir
tree = dir (codes "p") (some []) (
    cons (dir (codes "b") (some (main_file ∷ [])) nil) (
      cons (dir (codes "a") (some (main_file ∷ [])) nil)
        (cons (dir (codes "vendor") (some (main_file ∷ [])) nil) nil)))

abbrev targets : List RunTarget
targets =
    record { package_path = codes "./a"; command = codes "go run ./a"; path = codes "/p/a" }
    ∷ record { package_path = codes "./b"; command = codes "go run ./b"; path = codes "/p/b" }
    ∷ []

abbrev call : Call
call = record {
  ctx = none;
  now = 50;
  random = codes "77";
  write = no_fault;
  remove_ok = true;
  mkdir_ok = true;
  stat_ok = true;
}

abbrev calls : Calls
calls = record {
  start = none;
  module_ctx = none;
  targets_ctx = none;
  known = call;
  opened = call;
  current = call;
  set = λ key. call;
  list = call;
}

abbrev host : Service.Host
host = record {
  abs = λ path. some path;
  is_dir = λ path. some true;
  stat = λ path. present;
  tree = λ path. tree;
  dot_env = λ path. content (codes "B=2\nA=1\n?");
  unquote = λ s. none;
}

abbrev store : Store
store = record {
  root_dir = codes "/s";
  path = codes "/s/state.json";
  cached = some (new_snapshot 0);
  file = missing;
  temps = [];
}

abbrev var_a : EnvVarRecord
var_a = record {
  id = codes "env_77";
  project_id = codes "prj_77";
  key = codes "A";
  value = codes "1";
  masked = false;
}

abbrev opened : OpenProjectResult
opened = record {
  project = record {
    id = codes "prj_77";
    path = codes "/p";
    last_opened_at = 50;
    default_pkg = codes "./a";
    working_dir = [];
    toolchain = [];
  };
  module_info = record { path = codes "/p"; module_file = codes "/p/go.mod"; has_module = true };
  run_targets = targets;
  env_vars = var_a ∷ record var_a { key = codes "B"; value = codes "2" } ∷ [];
  env_load_warnings = expected_assignment 3 ∷ [];
}

open_project-has_run_target_example :
    has_run_target opened.run_targets opened.project.default_pkg ≡ true
unfolding open_project Monad.◌>>=◌ new_snapshot
open_project-has_run_target_example =
    open_project-has_run_target host calls (codes "/p") store opened refl refl

-- Two names of one binary, and one of another; `gofmt` is no toolchain.
abbrev binaries : Binaries
binaries = record {
  stat = λ path. none;
  look_path = λ name.
      if text_eq name (codes "go1.21.3") then some (codes "/c/go") else some (codes "/b/go");
}

abbrev toolchains : List ToolchainInfo
toolchains =
    record { name = codes "go"; path = codes "/b/go"; version = codes "v" }
    ∷ record { name = codes "go1.21.3"; path = codes "/c/go"; version = codes "v" }
    ∷ []

abbrev entries_of : Text → Option (List DirEntry)
entries_of d = some (
    record { name = codes "gofmt"; is_dir = false }
    ∷ record { name = codes "go1.21.3"; is_dir = false }
    ∷ record { name = codes "go1.20"; is_dir = false }
    ∷ [])

discover_toolchains-distinct_example :
    IsDistinct same_path toolchains × All (IsResolved binaries) toolchains
unfolding discover_toolchains text_eq
discover_toolchains-distinct_example =
    discover_toolchains-distinct binaries entries_of (λ path. some (codes " v\n"))
      (codes "/b" ∷ [] ∷ []) none toolchains refl
