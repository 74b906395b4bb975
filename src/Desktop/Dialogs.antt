-- ===== src/Desktop/Dialogs.antt =====
-- The dialogs of internal/desktop/wails_bridge.go and of the files open_*.go beside it. What osascript
-- prints and what the runtime's dialogs return are arguments.
use gopoke.Base.{
  ℕ, ◌≡◌, refl, Option, none, some, [], ◌++◌, take, Result, ok, err, ltb, if◌then◌else◌,
}
use gopoke.Text.{Text, codes, is_empty, trim_space}
use gopoke.Execution.SnippetCache.{hex}

pub data Error : Type 0 where
  apple_script_failed dialog_failed : Error

-- openDirectoryViaAppleScript and openGoFileDialog of macOS, over the output of the command.
unfoldable pub via_apple_script : Option Text → Result Error Text
unfolding trim_space
via_apple_script none = err apple_script_failed
via_apple_script (some output) = ok (trim_space output)

-- A platform: preferredOpenDirectoryDialog and fallbackOpenDirectoryDialog, with none for a dialog that
-- is not handled. The fallback gets how long the first dialog took, in nanoseconds.
pub record Platform : Type 0 where
  pub preferred : Result Error (Option Text)
  pub fallback : ℕ → Result Error (Option Text)

abbrev pub handled : Result Error Text → Result Error (Option Text)
handled (err e) = err e
handled (ok path) = ok (some path)

abbrev pub unless_blank : Result Error Text → Result Error (Option Text)
unless_blank (err e) = err e
unless_blank (ok path) = if is_empty (trim_space path) then ok none else ok (some path)

-- fallbackDialogThreshold
abbrev pub fallback_dialog_threshold : ℕ
fallback_dialog_threshold = 250000000

-- open_directory_fallback_darwin.go, with the outputs of its two calls of osascript.
unfoldable pub darwin : Option Text → Option Text → Platform
unfolding via_apple_script trim_space
darwin first second = record {
  preferred = handled (via_apple_script first);
  fallback = λ elapsed.
      if ltb fallback_dialog_threshold elapsed
      then ok none
      else unless_blank (via_apple_script second);
}

-- open_directory_fallback_other.go
abbrev pub other : Platform
other = record { preferred = ok none; fallback = λ elapsed. ok none }

abbrev pub used_fallback : Result Error (Option Text) → Result Error Text
used_fallback (err e) = err e
used_fallback (ok none) = ok []
used_fallback (ok (some path)) = ok (trim_space path)

abbrev pub after_dialog : Platform → ℕ → Result Error Text → Result Error Text
after_dialog p elapsed (err e) = err e
after_dialog p elapsed (ok path) =
    if is_empty (trim_space path) then used_fallback (p.fallback elapsed) else ok (trim_space path)

abbrev pub unless_handled : Result Error (Option Text) → Result Error Text → Result Error Text
unless_handled (err e) rest = err e
unless_handled (ok (some path)) rest = ok (trim_space path)
unless_handled (ok none) rest = rest

-- defaultOpenDirectoryDialog, where the runtime's dialog takes some time and returns.
unfoldable pub default_open_directory_dialog : Platform → ℕ → Result Error Text → Result Error Text
unfolding trim_space
default_open_directory_dialog p elapsed dialog =
    unless_handled p.preferred (after_dialog p elapsed dialog)

-- defaultOpenFileDialog, over what openGoFileDialog returns.
unfoldable pub default_open_file_dialog : Result Error Text → Result Error Text
unfolding trim_space
default_open_file_dialog (err e) = err e
default_open_file_dialog (ok path) = ok (trim_space path)

-- generateBridgeRunID, over the bytes that rand.Read leaves in the buffer.
unfoldable pub generate_bridge_run_id : Text → Text
unfolding hex
generate_bridge_run_id bytes = codes "run_" ++ hex (take 8 bytes)

-- On macOS the runtime's dialog and the fallback are never asked for.
pub darwin-dialog :
    (first second : Option Text) (elapsed elapsed' : ℕ) (dialog dialog' : Result Error Text)
    → default_open_directory_dialog (darwin first second) elapsed dialog
      ≡ default_open_directory_dialog (darwin first second) elapsed' dialog'
unfolding default_open_directory_dialog darwin via_apple_script
darwin-dialog none second elapsed elapsed' dialog dialog' = refl
darwin-dialog (some output) second elapsed elapsed' dialog dialog' = refl
