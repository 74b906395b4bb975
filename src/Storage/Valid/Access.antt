-- ===== src/Storage/Valid/Access.antt =====
-- About the methods of internal/storage/store.go in Storage/Access.antt.
use gopoke.Base.{ℕ, refl, arith}
use gopoke.Settings.{GlobalSettings, validate, with_defaults}
use gopoke.Storage.Schema.{new_snapshot}
use gopoke.Storage.Monad.{StateFile, missing, Call}
use gopoke.Storage.Access.{bootstrap_file, bootstrap, update_settings}
use gopoke.Storage.Valid.{IsValid, Keeps}
use gopoke.Storage.Valid.Rules.{
  Keeps-pure, Keeps-check, Keeps-raise_if, Keeps-load, Keeps-write, Keeps-write_last, IsValid-stamp,
}

module _ (lower : ℕ → ℕ) where
  new_snapshot-IsValid : (now : ℕ) → IsValid lower (new_snapshot now)
  unfolding new_snapshot
  new_snapshot-IsValid now = record {
    version = refl;
    paths = tt;
    ids = tt;
    names = tt;
    keys = tt;
    runs = λ p. omega arith;
  }

  bootstrap_file-Keeps : (c : Call) (f : StateFile) → Keeps lower (bootstrap_file c f)
  bootstrap_file-Keeps c missing = Keeps-write_last lower _ _ _ (new_snapshot-IsValid c.now)
  bootstrap_file-Keeps c _ = Keeps-load lower _ (λ d v. Keeps-pure lower tt)

  pub bootstrap-Keeps : (c : Call) → Keeps lower (bootstrap c)
  unfolding bootstrap
  bootstrap-Keeps c = Keeps-check lower _ _ (
      Keeps-raise_if lower _ _ _ (λ _.
        Keeps-raise_if lower _ _ _
          (λ _. record { at = λ s h. (bootstrap_file-Keeps c s.file).at s h })))

  pub update_settings-Keeps : (c : Call) (gs : GlobalSettings) → Keeps lower (update_settings c gs)
  unfolding update_settings
  update_settings-Keeps c gs = Keeps-check lower _ _ (
      Keeps-load lower _ (λ d v.
        Keeps-write lower c.write c.remove_ok _ _
          (IsValid-stamp lower c.now (record d { global_settings = validate (with_defaults gs) })
            (record {
              version = v.version;
              paths = v.paths;
              ids = v.ids;
              names = v.names;
              keys = v.keys;
              runs = v.runs;
            }))
          (Keeps-pure lower _)))
