-- ===== src/Storage/Tests.antt =====
-- Runs of the store on a small snapshot.
use gopoke.Base.{
  is_ok, ◌⊎◌, false, ℕ, ◌≡◌, refl, true, none, some, List, [], ◌∷◌, count, min, ok, err,
  if◌then◌else◌,
}
use gopoke.Base.Int.{pos}
use gopoke.Base.Update.{find}
use gopoke.Text.{Text, codes, text_eq, trim_space}
use gopoke.Text.FilePath.{clean}
use gopoke.Settings.{GlobalSettings, defaults}
use gopoke.Settings.Bounds.{IsValid}
use gopoke.Storage.Schema.{
  ProjectRecord, SnippetRecord, RunRecord, Snapshot, new_snapshot, generate_id,
}
use gopoke.Storage.Monad.{no_fault, sync_temp, write_failed, missing, Store, Call}
use gopoke.Storage.Io.{new, fails_at, write_locked}
use gopoke.Storage.Access.{update_settings, get_settings}
use gopoke.Storage.Projects.{record_project_open, project_by_path, update_project_toolchain}
use gopoke.Storage.Snippets.{save_snippet, delete_snippet, project_exists, name_exists}
use gopoke.Storage.Prune.{of_project, prune_run_records}
use gopoke.Storage.Prune.Newest.{count-prune}
use gopoke.Storage.Valid.{StoreIsValid}
use gopoke.Storage.Valid.Run.{bootstrap, record_run, here, next, perform, Reach-IsValid}
use gopoke.Storage.Effects.{loaded, healthy}
use gopoke.Storage.Effects.Projects
use gopoke.Storage.Effects.Settings.{update-get_settings}
use gopoke.Storage.Effects.Snippets
use gopoke.Storage.Failures.{AllOrNothing, write-atomic, failing, failed_toolchain_shows}

abbrev call : Call
call = record {
  ctx = none;
  now = 50;
  random = codes "77";
  write = no_fault;
  remove_ok = true;
  mkdir_ok = true;
  stat_ok = true;
}

abbrev empty_store : Store
empty_store = new (codes "/d") missing

abbrev project_p : ProjectRecord
project_p = record {
  id = codes "pr_1";
  path = codes "/p";
  last_opened_at = 3;
  default_pkg = codes ".";
  working_dir = codes "/p";
  toolchain = codes "go";
}

abbrev snippet_a : SnippetRecord
snippet_a = record {
  id = codes "sn_1";
  project_id = codes "pr_1";
  name = codes "Hello";
  content = codes "x";
  created_at = 1;
  updated_at = 1;
}

abbrev run_at : Text → ℕ → RunRecord
run_at id t = record {
  id = id;
  project_id = codes "pr_1";
  snippet_id = codes "";
  started_at = t;
  duration_ms = pos 1;
  exit_code = pos 0;
  status = codes "success";
}

abbrev three_runs : List RunRecord
three_runs = run_at (codes "a") 5 ∷ run_at (codes "b") 9 ∷ run_at (codes "c") 7 ∷ []

abbrev data_p : Snapshot
data_p = record (new_snapshot 1) {
  projects = project_p ∷ [];
  snippets = snippet_a ∷ [];
  runs = three_runs;
}

-- The case table of ASCII.
abbrev lower : ℕ → ℕ
lower c = c

-- What SaveSnippet is given for a new snippet.
abbrev draft : SnippetRecord
draft = record snippet_a { id = codes ""; name = codes " Two " }

Reach-IsValid_example : StoreIsValid lower (
    perform lower call
      (record_run (run_at (codes "") 0))
      (perform lower call bootstrap empty_store))
unfolding new
Reach-IsValid_example =
    Reach-IsValid lower
      (next call (record_run (run_at (codes "") 0)) tt (next call bootstrap tt here)) (tt, tt)

write-atomic_example :
    let r = write_locked sync_temp true data_p empty_store in
    AllOrNothing data_p empty_store r
    × (is_ok r.0 ≡ fails_at sync_temp no_fault)
    × ((r.1.temps ≡ empty_store.temps) ⊎ (true ≡ false))
write-atomic_example = write-atomic sync_temp true data_p empty_store

count-prune_example :
    count (of_project (codes "pr_1")) (prune_run_records three_runs (codes "pr_1") 2)
    ≡ min 2 (count (of_project (codes "pr_1")) three_runs)
count-prune_example = count-prune three_runs (codes "pr_1") 2

open-lookup_example :
    let (r, s') =
      record_project_open
        (healthy call)
        (codes "/q/")
        (codes "./cmd")
        (loaded empty_store data_p) in
    (p : ProjectRecord) × (r ≡ ok p)
    × (Projects.lookup call (codes "/p") s' ≡ (
        if text_eq (clean (codes "/q/")) (clean (codes "/p"))
        then ok (some p)
        else Projects.lookup call (codes "/p") (loaded empty_store data_p)))
open-lookup_example =
    Projects.open-lookup call call empty_store data_p (codes "/q/") (codes "./cmd") (codes "/p")
      refl refl

save-lookup_example :
    let (result, s') = save_snippet lower (healthy call) draft (loaded empty_store data_p) in
    (x : SnippetRecord) × (result ≡ ok x)
    × (x.name ≡ trim_space (codes " Two "))
    × (x.content ≡ codes "x")
    × (Snippets.lookup call (codes "sn_1") s' ≡ (
        if text_eq x.id (codes "sn_1")
        then ok (some x)
        else Snippets.lookup call (codes "sn_1") (loaded empty_store data_p)))
unfolding trim_space project_exists name_exists text_eq generate_id
save-lookup_example =
    Snippets.save-lookup lower call call empty_store data_p draft (codes "sn_1")
      (record { owner = refl; named = refl; filled = refl; known = refl }) refl refl refl refl

delete-lookup_example :
    let (r, s') = delete_snippet (healthy call) (codes " sn_1 ") (loaded empty_store data_p) in
    (r ≡ ok tt)
    × (Snippets.lookup call (codes "sn_1") s' ≡ (
        if text_eq (trim_space (codes " sn_1 ")) (codes "sn_1")
        then ok none
        else Snippets.lookup call (codes "sn_1") (loaded empty_store data_p)))
unfolding trim_space
delete-lookup_example =
    Snippets.delete-lookup call call empty_store data_p (codes " sn_1 ") (codes "sn_1") refl refl

update-get_settings_example :
    let (r, s') = update_settings (healthy call) defaults (loaded empty_store data_p) in
    (v : GlobalSettings) × (r ≡ ok v) × ((get_settings (healthy call) s').0 ≡ ok v) × IsValid v
update-get_settings_example = update-get_settings call call empty_store data_p defaults

failed_toolchain_example :
    let (r, s') =
      update_project_toolchain
        (failing sync_temp call)
        (codes "/p")
        (codes "go1.22")
        (loaded empty_store data_p) in
    (r ≡ err (write_failed sync_temp))
    × (s'.file ≡ missing)
    × ((project_by_path (healthy call) (codes "/p") s').0
        ≡ ok (some (record project_p { toolchain = trim_space (codes "go1.22") })))
unfolding find trim_space clean text_eq new
failed_toolchain_example =
    failed_toolchain_shows sync_temp call call empty_store data_p (codes "/p") (codes "go1.22")
      project_p (λ e. cc) refl refl refl
