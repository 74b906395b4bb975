-- ===== src/App/Lifecycle/Clean.antt =====
-- About what Stop of internal/app/app.go leaves on the disk.
use gopoke.Base.{
  ℕ, ◌≡◌, refl, ap, ◌∙◌, subst, true, Option, none, some, List, [], ◌∷◌, Bool-cases, inl, inr,
  Result, ok, err, CtxError,
}
use gopoke.Text.{Text, text_eq_refl}
use gopoke.Storage.Monad
use gopoke.Storage.Monad.{Store}
use gopoke.Storage.Access.{bootstrap}
use gopoke.Runner.{FileSystem}
use gopoke.Runner.Stop.{Outside}
use gopoke.Lsp.Manager
use gopoke.Lsp.Manager.Reachable.{IsConsistent}
use gopoke.Lsp.Manager.Reachable
use gopoke.App.Paths
use gopoke.App.Paths.{System, resolve_input_path}
use gopoke.App.Tools.{Environ}
use gopoke.App.Lifecycle.{
  Application, Boot, Removals, with_scratch, booted, start, without_scratch, stop_lsp_of, stop,
  lsp_at, start_lsp, stop_lsp, lsp_served,
}

-- An application that has not been started.
abbrev pub unstarted : Store → Environ → Application
unstarted s env = record {
  store = s;
  environ = env;
  scratch = none;
  scratch_dirs = [];
  workers = none;
  lsp = none;
}

-- The applications that Start and sessions of the LSP manager lead to, when a Start that sets the
-- application up is the last one, a go.mod can be written wherever its directory can be made, and
-- os.RemoveAll removes the workspaces of the sessions.
pub data Reach : Application → Type 0 where
  fresh : (s : Store) (env : Environ) → Reach (unstarted s env)
  started :
      {a : Application} (b : Boot)
      → a.scratch ≡ none
      → b.go_mod_ok ≡ true
      → Reach a
      → Reach (start b a).1
  lsp_started :
      {a : Application} (sys : System) (host : Manager.Host) (project : Text)
      → host.go_mod_ok ≡ true
      → host.cleanup_ok ≡ true
      → Reach a
      → Reach (start_lsp sys host project a).1
  lsp_stopped : {a : Application} → Reach a → Reach (stop_lsp true a)
  served : {a : Application} (h : ℕ) → Reach a → Reach (record a { lsp = lsp_served h a.lsp })

abbrev IsSession : Option Manager.Manager → Type 0
IsSession none = Unit
IsSession (some m) = Reachable.Reach m

abbrev dir_list : Option Text → List Text
dir_list none = []
dir_list (some d) = d ∷ []

-- The scratch directory is the only one that has been made, and the LSP manager is in a session.
record IsTidy (a : Application) : Type 0 where
  scratch : a.scratch_dirs ≡ dir_list a.scratch
  session : IsSession a.lsp

with_scratch-IsTidy :
    (b : Boot) (a : Application)
    → a.scratch ≡ none
    → b.go_mod_ok ≡ true
    → IsTidy a
    → IsTidy (with_scratch b a).1
with_scratch-IsTidy b a e g t = elim (Bool-cases b.mkdir_ok) [
  | inl h ↦
      rw (h, g)
        (record {
          scratch = ap (λ ds. b.scratch ∷ ds) (t.scratch ∙ ap dir_list e);
          session = Reachable.fresh;
        })
  | inr h ↦ rw h t
]

booted-IsTidy :
    (b : Boot) (r : Result Monad.Error (Unit {0}) × Store) (a : Application)
    → a.scratch ≡ none
    → b.go_mod_ok ≡ true
    → IsTidy a
    → IsTidy (booted b r a).1
booted-IsTidy b (err x, s) a e g t = record { scratch = t.scratch; session = t.session }
booted-IsTidy b (ok u, s) a e g t =
    with_scratch-IsTidy b _ e g record { scratch = t.scratch; session = t.session }

lsp_at-IsTidy :
    (host : Manager.Host) (o : Option Manager.Manager) (r : Result Paths.Error Text)
    (a : Application)
    → a.lsp ≡ o
    → host.go_mod_ok ≡ true
    → host.cleanup_ok ≡ true
    → IsTidy a
    → IsTidy (lsp_at host o r a).1
lsp_at-IsTidy host none r a e g k t = t
lsp_at-IsTidy host (some m) (err x) a e g k t = t
lsp_at-IsTidy host (some m) (ok full) a e g k t = record {
  scratch = t.scratch;
  session = Reachable.started host full g k (subst IsSession e t.session);
}

stop_lsp-session : (o : Option Manager.Manager) → IsSession o → IsSession (stop_lsp_of true o)
stop_lsp-session none s = tt
stop_lsp-session (some m) s = Reachable.stopped s

served-session : (h : ℕ) (o : Option Manager.Manager) → IsSession o → IsSession (lsp_served h o)
served-session h none s = tt
served-session h (some m) s = Reachable.served h s

Reach-IsTidy : {a : Application} → Reach a → IsTidy a
unfolding start start_lsp stop_lsp
Reach-IsTidy (fresh s env) = record { scratch = refl; session = tt }
Reach-IsTidy (started {a} b e g r) =
    booted-IsTidy b (bootstrap b.boot a.store) a e g (Reach-IsTidy r)
Reach-IsTidy (lsp_started {a} sys host project g k r) =
    lsp_at-IsTidy host a.lsp (resolve_input_path sys project) a refl g k (Reach-IsTidy r)
Reach-IsTidy (lsp_stopped {a} r) =
    let t = Reach-IsTidy r in
    record { scratch = t.scratch; session = stop_lsp-session a.lsp t.session }
Reach-IsTidy (served {a} h r) =
    let t = Reach-IsTidy r in
    record { scratch = t.scratch; session = served-session h a.lsp t.session }

without_own : (o : Option Text) → without_scratch true o (dir_list o) ≡ []
without_own none = refl
without_own (some d) = rw (text_eq_refl d) refl

-- The workspace directories of the LSP manager.
abbrev pub lsp_dirs : Option Manager.Manager → List Text
lsp_dirs none = []
lsp_dirs (some m) = m.dirs

stopped_dirs : (o : Option Manager.Manager) → IsSession o → lsp_dirs (stop_lsp_of true o) ≡ []
unfolding Manager.stop Manager.stop_locked
stopped_dirs none s = refl
stopped_dirs (some m) s = (Reachable.Reach-IsConsistent (Reachable.stopped s)).disk

-- Stop leaves neither the scratch directory nor a workspace of the LSP manager on the disk, whichever
-- sessions the application has had and whatever StopAll comes to: if it was set up by one Start, a go.mod
-- could be written wherever its directory could be made, and os.RemoveAll removes what it is given.
pub stop-clean :
    (fs : FileSystem) (ctx : Option CtxError) (outside : Text → Outside) (rm : Removals)
    {a : Application}
    → rm.scratch_ok ≡ true
    → rm.workspace_ok ≡ true
    → Reach a
    → let a' = (stop fs ctx outside rm a).1 in (a'.scratch_dirs ≡ []) × (lsp_dirs a'.lsp ≡ [])
unfolding stop
stop-clean fs ctx outside rm {a} k l r =
    let t = Reach-IsTidy r in
    rw (k, l)
      (
        ap (without_scratch true a.scratch) t.scratch ∙ without_own a.scratch,
        stopped_dirs a.lsp t.session,
      )
