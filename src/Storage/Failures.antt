-- ===== src/Storage/Failures.antt =====
-- About writeLocked and UpdateProjectToolchain of internal/storage/store.go when a write fails.
use gopoke.Base.{
  ◌≡◌, ◌≢◌, refl, ap, Bool, true, false, is_ok, ◌⊎◌, inl, inr, none, some, Result, ok, err,
}
use gopoke.Base.Update.{find}
use gopoke.Base.Distinct.{find-update_first, find-matches}
use gopoke.Text.{Text, is_empty, trim_space}
use gopoke.Text.FilePath.{clean}
use gopoke.Storage.Schema.{ProjectRecord, Snapshot}
use gopoke.Storage.Monad.{
  WriteFault, no_fault, encode, create_temp, write_temp, sync_temp, close_temp, rename_temp, Error,
  write_failed, document, Store, Call, ◌>>=◌,
}
use gopoke.Storage.Io.{fails_at, write_locked, assign_projects}
use gopoke.Storage.Projects.{at_path, update_found, update_project_toolchain, project_by_path}
use gopoke.Storage.Effects.{loaded, healthy}

-- What a write of a snapshot may leave: all of it, or nothing.
abbrev pub AllOrNothing : Snapshot → Store → Result Error (Unit {0}) × Store → Type 0
AllOrNothing d s (ok u, s') = (s'.file ≡ document d) × (s'.cached ≡ some d)
AllOrNothing d s (err e, s') = (s'.file ≡ s.file) × (s'.cached ≡ s.cached)

-- writeLocked is atomic: if it succeeds, the file and the cache hold the snapshot, and if it fails,
-- both are as before; it succeeds exactly if no step fails; and no temporary file is left, if os.Remove
-- removes what it is given.
pub write-atomic :
    (f : WriteFault) (remove_ok : Bool) (d : Snapshot) (s : Store)
    → let r = write_locked f remove_ok d s in
      AllOrNothing d s r
      × (is_ok r.0 ≡ fails_at f no_fault)
      × ((r.1.temps ≡ s.temps) ⊎ (remove_ok ≡ false))
unfolding write_locked
write-atomic no_fault b d s = ((refl, refl), refl, inl refl)
write-atomic encode b d s = ((refl, refl), refl, inl refl)
write-atomic create_temp b d s = ((refl, refl), refl, inl refl)
write-atomic write_temp true d s = ((refl, refl), refl, inl refl)
write-atomic write_temp false d s = ((refl, refl), refl, inr refl)
write-atomic sync_temp true d s = ((refl, refl), refl, inl refl)
write-atomic sync_temp false d s = ((refl, refl), refl, inr refl)
write-atomic close_temp true d s = ((refl, refl), refl, inl refl)
write-atomic close_temp false d s = ((refl, refl), refl, inr refl)
write-atomic rename_temp true d s = ((refl, refl), refl, inl refl)
write-atomic rename_temp false d s = ((refl, refl), refl, inr refl)

-- A call whose context is alive and whose write fails at a step.
abbrev pub failing : WriteFault → Call → Call
failing f c = record c { ctx = none; write = f }

failed_update :
    (f : WriteFault) (c c' : Call) (s : Store) (d : Snapshot) (path : Text)
    (g : ProjectRecord → ProjectRecord) (p : ProjectRecord)
    → f ≢ no_fault
    → ((q : ProjectRecord) → (g q).path ≡ q.path)
    → is_empty path ≡ false
    → find (at_path (clean path)) d.projects ≡ some p
    → let (r, s') = update_found (failing f c) (clean path) g d (some p) (loaded s d) in
      (r ≡ err (write_failed f))
      × (s'.file ≡ s.file)
      × ((project_by_path (healthy c') path s').0 ≡ ok (some (g p)))
unfolding write_locked assign_projects project_by_path ◌>>=◌
failed_update no_fault c c' s d path g p real keeps named e = absurd (real refl)
failed_update _ c c' s d path g p real keeps named e = (
  refl,
  refl,
  rw named (
      ap ok (
        find-update_first (at_path (clean path)) g d.projects e
          (rw (keeps p) (find-matches (at_path (clean path)) d.projects e)))),
)

-- Whatever step of the write fails, an UpdateProjectToolchain of a known project reports the error
-- and leaves the file alone, but ProjectByPath answers with the new toolchain from then on: the
-- method has assigned to a slice that the cache shares.
pub failed_toolchain_shows :
    (f : WriteFault) (c c' : Call) (s : Store) (d : Snapshot) (path toolchain : Text)
    (p : ProjectRecord)
    → f ≢ no_fault
    → is_empty path ≡ false
    → is_empty (trim_space toolchain) ≡ false
    → find (at_path (clean path)) d.projects ≡ some p
    → let (r, s') = update_project_toolchain (failing f c) path toolchain (loaded s d) in
      (r ≡ err (write_failed f))
      × (s'.file ≡ s.file)
      × ((project_by_path (healthy c') path s').0
          ≡ ok (some (record p { toolchain = trim_space toolchain })))
unfolding update_project_toolchain ◌>>=◌
failed_toolchain_shows f c c' s d path toolchain p real named chosen e =
    rw (named, chosen, e)
      (failed_update f c c' s d path (λ q. record q { toolchain = trim_space toolchain }) p real
        (λ q. refl) named e)
