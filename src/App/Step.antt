-- ===== src/App/Step.antt =====
-- What the methods of internal/app/app.go that work on the store are made of.
use gopoke.Storage.Monad
use gopoke.Storage.Step.{Step as StoreStep}
use gopoke.Project.Targets
use gopoke.Project.Toolchains
use gopoke.App.Paths

-- The errors of a method, without the texts that wrap them.
pub data Error : Type 0 where
  snippet_required no_scratch inspect_failed not_a_directory not_a_target : Error
  project_not_found other_project : Error
  path : Paths.Error → Error
  toolchain : Toolchains.Error → Error
  storage : Monad.Error → Error
  targets : Targets.Error → Error

-- A part of a method.
abbrev pub Step : Type 0 → Type 0
Step A = StoreStep Error A
