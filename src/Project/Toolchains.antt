-- ===== src/Project/Toolchains.antt =====
-- internal/project/toolchains.go: ResolveToolchainBinary. What os.Stat and exec.LookPath answer are
-- arguments.
pub mod Discover
use gopoke.Base.{Bool, Option, none, some, Result, ok, err, if◌then◌else◌}
use gopoke.Text.{Text, is_empty, trim_space}
use gopoke.Text.FilePath.{is_abs}

-- os.Stat of a path that is there, as far as the test looks at it.
pub record Info : Type 0 where
  pub is_dir : Bool
  pub is_executable : Bool

pub record Binaries : Type 0 where
  pub stat : Text → Option Info
  pub look_path : Text → Option Text

pub data Error : Type 0 where
  toolchain_required inspect_failed not_a_file not_executable not_found : Error

abbrev pub checked : Text → Option Info → Result Error Text
checked path none = err inspect_failed
checked path (some i) =
    if i.is_dir then err not_a_file else if i.is_executable then ok path else err not_executable

abbrev pub found : Option Text → Result Error Text
found none = err not_found
found (some path) = ok path

-- ResolveToolchainBinary
unfoldable pub resolve_toolchain_binary : Binaries → Text → Result Error Text
unfolding trim_space is_abs
resolve_toolchain_binary b value =
    let candidate = trim_space value in
    if is_empty candidate
    then err toolchain_required
    else if is_abs candidate
    then checked candidate (b.stat candidate)
    else found (b.look_path candidate)
