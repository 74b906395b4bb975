-- ===== src/Storage/Effects/Settings.antt =====
-- About UpdateSettings and GetSettings of internal/storage/store.go.
use gopoke.Base.{◌≡◌, refl, ap, ok}
use gopoke.Settings.{GlobalSettings, with_defaults, validate}
use gopoke.Settings.Bounds.{IsValid, validate-IsValid, with_defaults-validate}
use gopoke.Storage.Schema.{Snapshot}
use gopoke.Storage.Monad.{Store, Call, ◌>>=◌}
use gopoke.Storage.Io.{write_locked}
use gopoke.Storage.Access.{update_settings, get_settings}
use gopoke.Storage.Effects.{loaded, healthy}

-- After UpdateSettings on a loaded store, when nothing fails, GetSettings returns what
-- UpdateSettings returned, and these settings are within every limit.
pub update-get_settings :
    (c c' : Call) (s : Store) (d : Snapshot) (gs : GlobalSettings)
    → let (r, s') = update_settings (healthy c) gs (loaded s d) in
      (v : GlobalSettings) × (r ≡ ok v) × ((get_settings (healthy c') s').0 ≡ ok v) × IsValid v
unfolding update_settings get_settings ◌>>=◌ write_locked
update-get_settings c c' s d gs =
    (validate (with_defaults gs), refl, ap ok (with_defaults-validate gs), validate-IsValid gs)
