-- ===== src/Runner/Reachable.antt =====
-- About the starts and exits of workers of internal/runner/manager.go, in any order.
use gopoke.Base.{
  ◌≡◌, refl, sym, ap, ◌∙◌, Bool, true, false, not, Option, some, List, [], ◌∷◌, filter, any,
  All-filter, Bool-cases, inl, inr, CtxError, arith,
}
use gopoke.Base.Update.{find}
use gopoke.Base.Distinct.{IsDistinct, IsDistinct-filter, filter-eq_of_any, find-matches, any_mono}
use gopoke.Text.{Text, text_eq_sym, eq_of_text_eq}
use gopoke.Runner.{
  ManagedWorker, Manager, FileSystem, Launch, at_path, has_handle, start_worker,
  wait_for_worker_exit, new_manager,
}
use gopoke.Runner.Exclusive.{same_path, same_handle, IsExclusive, start_worker-IsExclusive}

-- The managers that calls of StartWorker and the exits of live workers lead to.
pub data Reach : Manager → Type 0 where
  fresh : Reach new_manager
  started :
      {m : Manager} (fs : FileSystem) (ctx : Option CtxError) (path : Text) (l : Launch)
      → Reach m
      → Reach (start_worker fs ctx path l m).1
  exited :
      {m : Manager} (path : Text) (w : ManagedWorker)
      → find (at_path path) m.live ≡ some w
      → Reach m
      → Reach (wait_for_worker_exit w m)

pub found_fails :
    (p q : ManagedWorker → Bool) (ws : List ManagedWorker) (w : ManagedWorker)
    → find p ws ≡ some w
    → any q ws ≡ false
    → q w ≡ false
unfolding find
found_fails p q [] w e h = cc
found_fails p q (v ∷ ws) w e h = ground (arith, found_fails p q ws w, ap q)

-- To take a live worker out by its path is to take it out by its number.
filter-handle :
    (path : Text) (ws : List ManagedWorker) (w : ManagedWorker)
    → IsDistinct same_path ws
    → IsDistinct same_handle ws
    → find (at_path path) ws ≡ some w
    → filter (λ v. not (at_path path v)) ws ≡ filter (λ v. not (has_handle w.handle v)) ws
unfolding find
filter-handle path [] w ps hs e = cc
filter-handle path (v ∷ ws) w ps hs e = elim (Bool-cases (at_path path v)) [
  | inl t ↦
      let same : v ≡ w = ground (arith, t, e) in
      let alone : any (at_path path) ws ≡ false =
        any_mono (at_path path) (same_path v)
          (λ y h. rw text_eq_sym (rw (← eq_of_text_eq v.info.project_path path t) h)) ws ps.0 in
      let unused : any (has_handle w.handle) ws ≡ false =
        rw (← same)
          (any_mono (has_handle v.handle) (same_handle v) (λ y h. ground arith) ws hs.0) in
      let own : has_handle w.handle v ≡ true = rw (← same) (ground arith) in
      rw (t, own)
        (filter-eq_of_any (at_path path) ws alone
          ∙ sym (filter-eq_of_any (has_handle w.handle) ws unused))
  | inr f ↦
      let later : find (at_path path) ws ≡ some w = ground (arith, f, e) in
      let other : has_handle w.handle v ≡ false =
        found_fails (at_path path) (same_handle v) ws w later hs.0 in
      rw (f, other) (ap (λ r. v ∷ r) (filter-handle path ws w ps.1 hs.1 later))
]

pub exit-IsExclusive :
    (path : Text) (w : ManagedWorker) (m : Manager)
    → find (at_path path) m.live ≡ some w
    → IsExclusive m
    → IsExclusive (wait_for_worker_exit w m)
unfolding wait_for_worker_exit
exit-IsExclusive path w m e x =
    let here : w.info.project_path ≡ path =
      eq_of_text_eq w.info.project_path path (find-matches (at_path path) m.live e) in
    let current : find (at_path path) m.workers ≡ some w = ap (find (at_path path)) x.mapped ∙ e in
    let own : has_handle w.handle w ≡ true = ground arith in
    record {
      mapped =
          rw (here, current)
            (rw own (
              ap (filter (λ v. not (at_path path v))) x.mapped
              ∙ filter-handle path m.live w x.paths x.handles e));
      paths = IsDistinct-filter same_path _ m.live x.paths;
      handles = IsDistinct-filter same_handle _ m.live x.handles;
      numbered = All-filter _ _ m.live x.numbered;
      running = All-filter _ _ m.live x.running;
    }

-- However workers are started and exit, with any failures on the way: the map holds exactly the
-- worker processes that are alive, each marked as running, and no project has two of them.
pub Reach-IsExclusive : {m : Manager} → Reach m → IsExclusive m
Reach-IsExclusive fresh = record {
  mapped = refl;
  paths = tt;
  handles = tt;
  numbered = tt;
  running = tt;
}
Reach-IsExclusive (started {m} fs ctx path l r) =
    start_worker-IsExclusive fs ctx path l m (Reach-IsExclusive r)
Reach-IsExclusive (exited {m} path w e r) = exit-IsExclusive path w m e (Reach-IsExclusive r)
