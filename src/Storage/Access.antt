-- ===== src/Storage/Access.antt =====
-- Bootstrap, Health, Load and the settings methods of store.go.
use gopoke.Base.{Bool, true, not, ok}
use gopoke.Base.Int.{ℤ}
use gopoke.Text.{Text}
use gopoke.Settings.{GlobalSettings, with_defaults, validate}
use gopoke.Storage.Schema.{Snapshot, new_snapshot}
use gopoke.Storage.Monad.{
  mkdir_failed, stat_failed, StateFile, missing, Call, Action, pure, ◌>>=◌, ◌>>◌, raise_if,
  check_context,
}
use gopoke.Storage.Io.{load_locked, write_locked, persist}

-- The `switch` of Bootstrap on os.Stat, which finds every file but a missing one.
abbrev pub bootstrap_file : Call → StateFile → Action (Unit {0})
bootstrap_file c missing = write_locked c.write c.remove_ok (new_snapshot c.now)
bootstrap_file c f = do d ← load_locked; pure tt

-- Store.Bootstrap
unfoldable pub bootstrap : Call → Action (Unit {0})
unfolding load_locked write_locked
bootstrap c = do
  check_context c.ctx
  raise_if (not c.mkdir_ok) mkdir_failed
  raise_if (not c.stat_ok) stat_failed
  λ s. bootstrap_file c s.file s

pub record HealthReport : Type 0 where
  pub ready : Bool
  pub path : Text
  pub schema_version : ℤ

-- Store.Health
unfoldable pub health : Call → Action HealthReport
unfolding load_locked
health c = do
  check_context c.ctx
  d ← load_locked
  λ s. (ok (record { ready = true; path = s.path; schema_version = d.schema_version }), s)

-- Store.Load
unfoldable pub load : Call → Action Snapshot
unfolding load_locked
load c = do check_context c.ctx; load_locked

-- Store.GetSettings
unfoldable pub get_settings : Call → Action GlobalSettings
unfolding load_locked
get_settings c = do check_context c.ctx; d ← load_locked; pure (with_defaults d.global_settings)

-- Store.UpdateSettings
unfoldable pub update_settings : Call → GlobalSettings → Action GlobalSettings
unfolding load_locked write_locked
update_settings c gs = do
  check_context c.ctx
  let validated = validate (with_defaults gs)
  d ← load_locked
  persist c (record d { global_settings = validated })
  pure validated
