-- ===== src/Lsp/Manager/Reachable.antt =====
-- About the sessions of internal/lsp/manager.go, in any order of its calls.
use gopoke.Base.{
  ℕ, ◌<◌, ◌≡◌, refl, sym, ap, ◌∙◌, subst, Bool, true, false, false≢true, not, Option, none, some,
  List, [], ◌∷◌, filter, any, Bool-cases, inl, inr, ◌==◌, if◌then◌else◌, arith,
}
use gopoke.Text.{Text, text_eq_refl}
use gopoke.Lsp.Workspace.{Workspace, workspace_dir}
use gopoke.Lsp.Manager.{
  Proxy, Manager, Host, new_manager, remove, make, cleaned, stop_locked, stop_running,
  with_workspace, in_project, start_stopped, start_for_project, stop, is_current, serve_end,
}

-- The managers that the calls lead to, when the go.mod of a workspace can always be written, and
-- os.RemoveAll always removes one.
pub data Reach : Manager → Type 0 where
  fresh : Reach new_manager
  started :
      {m : Manager} (host : Host) (project : Text)
      → host.go_mod_ok ≡ true
      → host.cleanup_ok ≡ true
      → Reach m
      → Reach (start_for_project host project m).1
  stopped : {m : Manager} → Reach m → Reach (stop true m)
  served : {m : Manager} (h : ℕ) → Reach m → Reach (serve_end h m)

abbrev serves : Option Proxy → List ℕ → Bool
serves none hs = false
serves (some p) hs = any (λ h. h == p.handle) hs

abbrev IsBelow : ℕ → Option Proxy → Type 0
IsBelow n none = Unit
IsBelow n (some p) = p.handle < n

abbrev dirs_of : Option Workspace → List Text
dirs_of none = []
dirs_of (some w) = w.dir ∷ []

abbrev has_proxy : Option Proxy → Bool
has_proxy none = false
has_proxy (some p) = true

abbrev has_workspace : Option Workspace → Bool
has_workspace none = false
has_workspace (some w) = true

-- The manager is ready exactly if it has a proxy that is being served; it has a workspace exactly if
-- it has a proxy; and the directory of that workspace is the only one on the disk.
pub record IsConsistent (m : Manager) : Type 0 where
  pub ready : m.ready ≡ serves m.proxy m.serving
  pub both : has_workspace m.workspace ≡ has_proxy m.proxy
  pub disk : m.dirs ≡ dirs_of m.workspace
  pub below : IsBelow m.next m.proxy

remove_own : (o : Option Workspace) → cleaned true o (dirs_of o) ≡ []
remove_own none = refl
remove_own (some w) = rw (text_eq_refl w.dir) refl

stop_locked-IsConsistent : (m : Manager) → IsConsistent m → IsConsistent (stop_locked true m)
unfolding stop_locked
stop_locked-IsConsistent m c = record {
  ready = refl;
  both = refl;
  disk = ap (cleaned true m.workspace) c.disk ∙ remove_own m.workspace;
  below = tt;
}

-- A manager without a session.
record IsIdle (m : Manager) : Type 0 where
  proxy : m.proxy ≡ none
  workspace : m.workspace ≡ none
  disk : m.dirs ≡ []
  ready : m.ready ≡ false

IsIdle-IsConsistent : (m : Manager) → IsIdle m → IsConsistent m
IsIdle-IsConsistent m i = record {
  ready = i.ready ∙ sym (ap (λ p. serves p m.serving) i.proxy);
  both = ap has_workspace i.workspace ∙ sym (ap has_proxy i.proxy);
  disk = i.disk ∙ sym (ap dirs_of i.workspace);
  below = subst (IsBelow m.next) (sym i.proxy) tt;
}

no_workspace : (o : Option Workspace) → has_workspace o ≡ false → o ≡ none
no_workspace none h = refl
no_workspace (some w) h = absurd (false≢true (sym h))

stop_running-IsIdle :
    (o : Option Proxy) (m : Manager) → m.proxy ≡ o → IsConsistent m → IsIdle (stop_running true o m)
unfolding stop_locked
stop_running-IsIdle none m e c =
    let bare : m.workspace ≡ none = no_workspace m.workspace (c.both ∙ ap has_proxy e) in
    record {
      proxy = e;
      workspace = bare;
      disk = c.disk ∙ ap dirs_of bare;
      ready = c.ready ∙ ap (λ p. serves p m.serving) e;
    }
stop_running-IsIdle (some p) m e c = record {
  proxy = refl;
  workspace = refl;
  disk = ap (cleaned true m.workspace) c.disk ∙ remove_own m.workspace;
  ready = refl;
}

make_first : (dir : Text) (dirs : List Text) → dirs ≡ [] → make dir dirs ≡ dir ∷ []
make_first dir dirs e = ap (make dir) e

with_workspace-IsConsistent :
    (o : Option ℕ) (project dir : Text) (m : Manager)
    → m.proxy ≡ none
    → m.workspace ≡ none
    → m.ready ≡ false
    → m.dirs ≡ dir ∷ []
    → IsConsistent (with_workspace true o project dir m).1
with_workspace-IsConsistent none project dir m p w r d = IsIdle-IsConsistent _ record {
  proxy = p;
  workspace = w;
  disk = ap (remove dir) d ∙ rw (text_eq_refl dir) refl;
  ready = r;
}
with_workspace-IsConsistent (some port) project dir m p w r d = record {
  ready = let own : (m.next == m.next) ≡ true = ground arith in rw own refl;
  both = refl;
  disk = d;
  below = omega arith;
}

in_project-IsConsistent :
    (host : Host) (project dir : Text) (m : Manager)
    → host.go_mod_ok ≡ true
    → host.cleanup_ok ≡ true
    → IsIdle m
    → IsConsistent (in_project host project dir m).1
in_project-IsConsistent host project dir m g k i = elim (Bool-cases host.mkdir_ok) [
  | inl e ↦
      rw (e, g, k)
        (with_workspace-IsConsistent host.listen project dir (record m { dirs = make dir m.dirs })
          i.proxy i.workspace i.ready (make_first dir m.dirs i.disk))
  | inr e ↦ rw e (
      IsIdle-IsConsistent _
        record { proxy = i.proxy; workspace = i.workspace; disk = i.disk; ready = i.ready })
]

start_stopped-IsConsistent :
    (host : Host) (project : Text) (m : Manager)
    → host.go_mod_ok ≡ true
    → host.cleanup_ok ≡ true
    → IsIdle m
    → IsConsistent (start_stopped host project m).1
start_stopped-IsConsistent host project m g k i = elim (Bool-cases host.gopls) [
  | inl e ↦ rw e (in_project-IsConsistent host project (workspace_dir project) m g k i)
  | inr e ↦ rw e (
      IsIdle-IsConsistent _
        record { proxy = i.proxy; workspace = i.workspace; disk = i.disk; ready = i.ready })
]

any-removed :
    (h k : ℕ) (hs : List ℕ)
    → any (λ x. x == k) (filter (λ x. not (x == h)) hs)
      ≡ (if k == h then false else any (λ x. x == k) hs)
any-removed h k [] = ground arith
any-removed h k (x ∷ hs) = ground (arith, any-removed h k hs)

serve_end-ready :
    (o : Option Proxy) (h : ℕ) (hs : List ℕ) (ready : Bool)
    → ready ≡ serves o hs
    → (if is_current h o then false else ready) ≡ serves o (filter (λ k. not (k == h)) hs)
serve_end-ready none h hs ready e = e
serve_end-ready (some p) h hs ready e =
    ap (λ b. if p.handle == h then false else b) e ∙ sym (any-removed h p.handle hs)

-- Whatever sessions are started and stopped, with any failures but those of writing a go.mod and of
-- removing a workspace, and whenever the proxies' goroutines end: the manager is ready exactly while the proxy that it has is
-- being served, and the only workspace directory on the disk is the one of that session.
pub Reach-IsConsistent : {m : Manager} → Reach m → IsConsistent m
unfolding start_for_project stop serve_end
Reach-IsConsistent fresh = record { ready = refl; both = refl; disk = refl; below = tt }
Reach-IsConsistent (started {m} host project g k r) =
    start_stopped-IsConsistent host project (stop_running host.cleanup_ok m.proxy m) g k (
      subst (λ b. IsIdle (stop_running b m.proxy m)) (sym k)
        (stop_running-IsIdle m.proxy m refl (Reach-IsConsistent r)))
Reach-IsConsistent (stopped {m} r) = stop_locked-IsConsistent m (Reach-IsConsistent r)
Reach-IsConsistent (served {m} h r) =
    let c = Reach-IsConsistent r in
    record {
      ready = serve_end-ready m.proxy h m.serving m.ready c.ready;
      both = c.both;
      disk = c.disk;
      below = c.below;
    }
