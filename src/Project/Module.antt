-- ===== src/Project/Module.antt =====
-- internal/project/detector.go: DetectModule. What filepath.Abs and os.Stat answer are arguments.
use gopoke.Base.{Bool, true, false, Option, none, some, Result, ok, err, CtxError, if◌then◌else◌}
use gopoke.Text.{Text, codes, is_empty}
use gopoke.Text.FilePath.{join}

pub record ModuleInfo : Type 0 where
  pub path : Text
  pub module_file : Text
  pub has_module : Bool

-- os.Stat of the file: it is there, os.IsNotExist holds of the error, or another error.
pub data Stat : Type 0 where
  present not_exist stat_failed : Stat

pub data Error : Type 0 where
  context : CtxError → Error
  path_required resolve_failed inspect_failed : Error

abbrev pub inspected : Text → Text → Stat → Result Error ModuleInfo
inspected path file present = ok (record { path = path; module_file = file; has_module = true })
inspected path file not_exist = ok (record { path = path; module_file = file; has_module = false })
inspected path file stat_failed = err inspect_failed

abbrev pub detect_at : (Text → Stat) → Option Text → Result Error ModuleInfo
detect_at stat none = err resolve_failed
detect_at stat (some path) =
    let file = join path (codes "go.mod") in inspected path file (stat file)

-- DetectModule
unfoldable pub detect_module :
    (Text → Option Text) → (Text → Stat) → Option CtxError → Text → Result Error ModuleInfo
unfolding join
detect_module abs stat (some e) path = err (context e)
detect_module abs stat none path =
    if is_empty path then err path_required else detect_at stat (abs path)
