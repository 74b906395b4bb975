-- ===== src/Storage/Valid/EnvVars.antt =====
-- About the methods of internal/storage/store.go in Storage/EnvVars.antt.
use gopoke.Base.{ℕ, ◌≡◌, refl, Bool, true, false, Option, none, some}
use gopoke.Base.Update.{find}
use gopoke.Base.Distinct.{
  IsDistinct-append, IsDistinct-filter, IsDistinct-update_first, any-of_find,
}
use gopoke.Text.{Text, trim_space}
use gopoke.Storage.Schema.{EnvVarRecord, Snapshot}
use gopoke.Storage.Monad.{Call}
use gopoke.Storage.EnvVars.{
  at_key, set_value, new_var, set_found, update_project_env_var, delete_if, delete_project_env_var,
}
use gopoke.Storage.Valid.{same_key, IsValid, Keeps}
use gopoke.Storage.Valid.Rules.{
  Keeps-pure, Keeps-check, Keeps-raise_if, Keeps-load, Keeps-write, Keeps-write_last,
  Keeps-assign_env_vars, IsValid-env_vars, IsValid-stamp,
}

module _ (lower : ℕ → ℕ) where
  set_found-Keeps :
      (c : Call) (project_id key value : Text) (masked : Bool) (d : Snapshot)
      (o : Option EnvVarRecord)
      → find (at_key project_id key) d.env_vars ≡ o
      → IsValid lower d
      → Keeps lower (set_found c project_id key value masked d o)
  set_found-Keeps c project_id key value masked d (some v) e valid =
      let h =
        IsDistinct-update_first same_key (at_key project_id key) (set_value value masked)
          (λ v w. refl) (λ v w. refl) d.env_vars valid.keys in
      Keeps-assign_env_vars lower _ _ h (
        Keeps-write lower _ _ _ _ (IsValid-stamp lower _ _ (IsValid-env_vars lower d _ h valid))
          (Keeps-pure lower _))
  set_found-Keeps c project_id key value masked d none e valid =
      let h =
        IsDistinct-append same_key d.env_vars (new_var c project_id key value masked) valid.keys
          (any-of_find (at_key project_id key) d.env_vars e) in
      Keeps-write lower _ _ _ _ (IsValid-stamp lower _ _ (IsValid-env_vars lower d _ h valid))
        (Keeps-pure lower _)

  pub update_project_env_var-Keeps :
      (c : Call) (project_id key value : Text) (masked : Bool)
      → Keeps lower (update_project_env_var c project_id key value masked)
  unfolding update_project_env_var
  update_project_env_var-Keeps c project_id key value masked = Keeps-check lower _ _ (
      Keeps-raise_if lower _ _ _ (λ _. Keeps-raise_if lower _ _ _ (λ _.
        Keeps-load lower _
          (λ d v. set_found-Keeps c project_id (trim_space key) value masked d _ refl v))))

  delete_if-Keeps :
      (b : Bool) (c : Call) (d : Snapshot) → IsValid lower d → Keeps lower (delete_if b c d)
  delete_if-Keeps true c d v = Keeps-write_last lower _ _ _ (IsValid-stamp lower _ _ v)
  delete_if-Keeps false c d v = Keeps-pure lower _

  pub delete_project_env_var-Keeps :
      (c : Call) (project_id key : Text) → Keeps lower (delete_project_env_var c project_id key)
  unfolding delete_project_env_var
  delete_project_env_var-Keeps c project_id key = Keeps-check lower _ _ (
      Keeps-raise_if lower _ _ _ (λ _. Keeps-raise_if lower _ _ _ (λ _. Keeps-load lower _ (λ d v.
        delete_if-Keeps _ c _
          (IsValid-env_vars lower d _ (IsDistinct-filter same_key _ d.env_vars v.keys) v)))))
