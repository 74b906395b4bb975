-- ===== src/App/Paths.antt =====
-- The paths that callers of internal/app/app.go give: resolveInputPath and
-- resolveProjectWorkingDirectory. What the operating system says of them is an argument.
pub mod Inside
use gopoke.Base.{
  Bool, true, false, ◌&&◌, not, Option, none, some, List, [], ◌∷◌, ◌++◌, Result, ok, err, ◌≡◌,
  if◌then◌else◌,
}
use gopoke.Text.{Text, codes, text_eq, is_empty, has_prefix, trim_space}
use gopoke.Text.FilePath.{is_abs, clean, join, rel}
use gopoke.Text.FilePath.Laws.{goes_up}

-- os.UserHomeDir, os.Getwd, and the directory test of a path, or none if os.Stat fails.
pub record System : Type 0 where
  pub home : Option Text
  pub working_directory : Option Text
  pub is_dir : Text → Option Bool

pub data Error : Type 0 where
  project_path_required no_home unsupported_home no_working_directory : Error
  working_directory_required inspect_failed not_a_directory not_relative outside_project : Error

abbrev pub joined : Text → Option Text → Option Text
joined path none = none
joined path (some d) = some (join d path)

-- filepath.Abs
unfoldable pub abs : System → Text → Option Text
unfolding is_abs clean join
abs sys path = if is_abs path then some (clean path) else joined path sys.working_directory

abbrev pub resolved : Option Text → Result Error Text
resolved none = err no_working_directory
resolved (some path) = ok path

-- The `switch` of resolveInputPath on a path that starts with "~".
abbrev pub expand : Option Text → Text → Result Error Text
expand none path = err no_home
expand (some home) [] = err unsupported_home
expand (some home) (tilde ∷ []) = ok home
expand (some home) (tilde ∷ c ∷ rest) =
    if has_prefix (c ∷ rest) (codes "/") then ok (join home rest) else err unsupported_home

abbrev pub absolute : System → Result Error Text → Result Error Text
absolute sys (err e) = err e
absolute sys (ok path) = resolved (abs sys path)

abbrev pub expanded : System → Text → Result Error Text
expanded sys path = if has_prefix path (codes "~") then expand sys.home path else ok path

-- resolveInputPath
unfoldable pub resolve_input_path : System → Text → Result Error Text
unfolding abs trim_space join has_prefix
resolve_input_path sys path =
    let trimmed = trim_space path in
    if is_empty trimmed then err project_path_required else absolute sys (expanded sys trimmed)

-- filepath.Rel of a project path, which is absolute, and a target that may not be.
abbrev pub inside : Text → Text → Result Error Text
inside project path =
    if is_abs path
    then if goes_up (rel project path) then err outside_project else ok path
    else err not_relative

abbrev pub checked : Text → Text → Option Bool → Result Error Text
checked project path none = err inspect_failed
checked project path (some false) = err not_a_directory
checked project path (some true) = inside project path

abbrev pub below : Text → Text → Text
below project path = clean (if is_abs path then path else join project path)

-- resolveProjectWorkingDirectory for an absolute project path
unfoldable pub resolve_project_working_directory : System → Text → Text → Result Error Text
unfolding trim_space is_abs clean join rel text_eq has_prefix
resolve_project_working_directory sys project working_directory =
    let given = trim_space working_directory in
    if is_empty given
    then err working_directory_required
    else checked project (below project given) (sys.is_dir (below project given))
