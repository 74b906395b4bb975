-- ===== src/Download/Slots.antt =====
-- The slots of internal/download/manager.go: at most one installation of a tool at a time. A
-- context.CancelFunc is the number of the installation that it cancels.
pub mod Laws
use gopoke.Base.{
  ℕ, Bool, true, false, not, Option, none, some, List, [], ◌∷◌, ◌++◌, filter, any, Result, ok, err,
  if◌then◌else◌,
}
use gopoke.Base.Update.{find}
use gopoke.Text.{Text, text_eq}

pub record Slot : Type 0 where
  pub tool : Text
  pub cancel : ℕ

-- The map `downloading`, and the installations whose context has been canceled, the latest first.
pub record Manager : Type 0 where
  pub downloading : List Slot
  pub canceled : List ℕ

pub data Error : Type 0 where
  in_progress : Text → Error

-- NewManager
abbrev pub new_manager : Manager
new_manager = record { downloading = []; canceled = [] }

abbrev pub of_tool : Text → Slot → Bool
of_tool tool s = text_eq s.tool tool

-- startDownload
unfoldable pub start_download : Text → ℕ → Manager → Result Error (Unit {0}) × Manager
start_download tool cancel m =
    if any (of_tool tool) m.downloading then (err (in_progress tool), m) else (
      ok tt,
      record m { downloading = m.downloading ++ record { tool = tool; cancel = cancel } ∷ [] },
    )

-- finishDownload
unfoldable pub finish_download : Text → Manager → Manager
finish_download tool m = record m { downloading = filter (λ s. not (of_tool tool s)) m.downloading }

abbrev pub cancel_slot : Option Slot → Manager → Manager
cancel_slot none m = m
cancel_slot (some s) m = record m { canceled = s.cancel ∷ m.canceled }

-- CancelDownload; the slot stays until the installation ends.
unfoldable pub cancel_download : Text → Manager → Manager
unfolding find
cancel_download tool m = cancel_slot (find (of_tool tool) m.downloading) m

-- The deferred calls of DownloadGoSDK, InstallGopls and InstallStaticcheck: finishDownload, and
-- then the cancel function.
unfoldable pub end_download : Text → ℕ → Manager → Manager
unfolding finish_download
end_download tool cancel m =
    let m' = finish_download tool m in record m' { canceled = cancel ∷ m'.canceled }
