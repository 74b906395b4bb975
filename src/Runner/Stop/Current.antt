-- ===== src/Runner/Stop/Current.antt =====
-- About the worker that StopWorker of internal/runner/manager.go waits for, while others start and exit.
use gopoke.Base.{
  ◌≡◌, ◌≢◌, refl, sym, ap, ◌∙◌, Bool, true, false, not, Option, none, some, List, [], ◌∷◌, ◌++◌,
  filter, Bool-cases, inl, inr, Result, ok, err, CtxError, ◌==◌, arith,
}
use gopoke.Base.Update.{find}
use gopoke.Base.Distinct.{find-matches}
use gopoke.Text.{Text, eq_of_text_eq}
use gopoke.Runner.{
  ManagedWorker, Manager, FileSystem, Error, Launch, factory_failed, command_failed, launched,
  at_path, launch, reuse_or_launch, start_at, start_worker, forget, wait_for_worker_exit,
}
use gopoke.Runner.Exclusive.{IsExclusive, start_worker-IsExclusive, find-running}
use gopoke.Runner.Reachable.{exit-IsExclusive}
use gopoke.Runner.Stop.{
  Event, exited, started, context_done, timer, closed, exit_of, happen, is_worker,
}

exit_of-IsExclusive :
    (path : Text) (o : Option ManagedWorker) (m : Manager)
    → find (at_path path) m.live ≡ o
    → IsExclusive m
    → IsExclusive (exit_of o m)
exit_of-IsExclusive path none m e x = x
exit_of-IsExclusive path (some w) m e x = exit-IsExclusive path w m e x

pub happen-IsExclusive :
    (event : Event) (m : Manager) → IsExclusive m → IsExclusive (happen event m)
unfolding happen
happen-IsExclusive (exited path) m x = exit_of-IsExclusive path _ m refl x
happen-IsExclusive (started fs ctx path l) m x = start_worker-IsExclusive fs ctx path l m x
happen-IsExclusive (context_done e) m x = x
happen-IsExclusive (timer b) m x = x
happen-IsExclusive closed m x = x

-- To take out others leaves what is found.
find-filter :
    {A : Type 0} (p q : A → Bool) (xs : List A) (x : A)
    → find p xs ≡ some x
    → q x ≡ true
    → find p (filter q xs) ≡ some x
unfolding find
find-filter p q [] x e h = cc
find-filter p q (y ∷ ys) x e h = elim (Bool-cases (p y)) [
  | inl t ↦
      let same : y ≡ x = ground (arith, t, e) in
      let kept : q y ≡ true = rw same h in rw kept (rw t (ap some same))
  | inr f ↦
      let later : find p ys ≡ some x = ground (arith, f, e) in
      elim (Bool-cases (q y)) [
        | inl k ↦ rw k (rw f (find-filter p q ys x later h))
        | inr k ↦ rw k (find-filter p q ys x later h)
      ]
]

find-append_some :
    {A : Type 0} (p : A → Bool) (xs ys : List A) (x : A)
    → find p xs ≡ some x
    → find p (xs ++ ys) ≡ some x
unfolding find
find-append_some p [] ys x e = cc
find-append_some p (y ∷ xs) ys x e = ground (arith, find-append_some p xs ys x)

-- The worker `w` is the one of the project at the path.
pub record IsCurrent (path : Text) (w : ManagedWorker) (m : Manager) : Type 0 where
  pub exclusive : IsExclusive m
  pub current : find (at_path path) m.workers ≡ some w

-- Whether an event is the exit of the process of `w`.
abbrev pub is_exit : ManagedWorker → Event → Manager → Bool
is_exit w (exited path) m = is_worker w (find (at_path path) m.live)
is_exit w (started fs ctx path l) m = false
is_exit w (context_done e) m = false
is_exit w (timer b) m = false
is_exit w closed m = false

pub path_of :
    (path : Text) (w : ManagedWorker) (ws : List ManagedWorker)
    → find (at_path path) ws ≡ some w
    → w.info.project_path ≡ path
path_of path w ws e = eq_of_text_eq w.info.project_path path (find-matches (at_path path) ws e)

-- A worker that is not found at a path is not at that path.
elsewhere :
    (path q : Text) (w : ManagedWorker) (ws : List ManagedWorker)
    → find (at_path path) ws ≡ some w
    → find (at_path q) ws ≢ some w
    → at_path q w ≡ false
elsewhere path q w ws e n = elim (Bool-cases (at_path q w)) [
  | inl t ↦
      let same : path ≡ q = sym (path_of path w ws e) ∙ eq_of_text_eq w.info.project_path q t in
      absurd (n (rw (← same) e))
  | inr f ↦ f
]

forget-other :
    (path : Text) (w v : ManagedWorker) (o : Option ManagedWorker) (ws : List ManagedWorker)
    → find (at_path path) ws ≡ some w
    → at_path v.info.project_path w ≡ false
    → find (at_path path) (forget o v.info.project_path v.handle ws) ≡ some w
forget-other path w v none ws e n = e
forget-other path w v (some u) ws e n = elim (Bool-cases (u.handle == v.handle)) [
  | inl t ↦ rw t (find-filter (at_path path) _ ws w e (ap not n))
  | inr f ↦ rw f e
]

exit-current :
    (path q : Text) (w : ManagedWorker) (o : Option ManagedWorker) (m : Manager)
    → find (at_path q) m.live ≡ o
    → is_worker w o ≡ false
    → IsCurrent path w m
    → find (at_path path) (exit_of o m).workers ≡ some w
unfolding wait_for_worker_exit
exit-current path q w none m e n c = c.current
exit-current path q w (some v) m e n c = forget-other path w v _ m.workers c.current (
    elsewhere path v.info.project_path w m.workers c.current (λ h.
      let there : find (at_path v.info.project_path) m.workers ≡ some v =
        ap (λ path. find (at_path path) m.workers) (path_of q v m.live e)
        ∙ ap (find (at_path q)) c.exclusive.mapped
        ∙ e in
      let same : some v ≡ some w = sym there ∙ h in ground (arith, n, same)))

launch-current :
    (path q : Text) (w : ManagedWorker) (l : Launch) (m : Manager)
    → find (at_path q) m.workers ≡ none
    → find (at_path path) m.workers ≡ some w
    → find (at_path path) (launch l q m).1.workers ≡ some w
launch-current path q w factory_failed m n e = e
launch-current path q w command_failed m n e = e
launch-current path q w (launched pid now) m n e = find-append_some (at_path path) _ _ w (
    find-filter (at_path path) _ m.workers w e
      (ap not (elsewhere path q w m.workers e (λ h. let same : none ≡ some w = sym n ∙ h in cc))))

reuse-current :
    (path q : Text) (w : ManagedWorker) (o : Option ManagedWorker) (l : Launch) (m : Manager)
    → find (at_path q) m.workers ≡ o
    → IsCurrent path w m
    → find (at_path path) (reuse_or_launch o l q m).1.workers ≡ some w
reuse-current path q w none l m e c = launch-current path q w l m e c.current
reuse-current path q w (some v) l m e c =
    let up : v.info.running ≡ true =
      find-running q m.live v c.exclusive.running
        (ap (find (at_path q)) (sym c.exclusive.mapped) ∙ e) in
    rw up c.current

start_at-current :
    (path : Text) (w : ManagedWorker) (r : Result Error Text) (l : Launch) (m : Manager)
    → IsCurrent path w m
    → find (at_path path) (start_at r l m).1.workers ≡ some w
start_at-current path w (err e) l m c = c.current
start_at-current path w (ok q) l m c = reuse-current path q w _ l m refl c

start-current :
    (path : Text) (w : ManagedWorker) (fs : FileSystem) (ctx : Option CtxError) (q : Text)
    (l : Launch) (m : Manager)
    → IsCurrent path w m
    → find (at_path path) (start_worker fs ctx q l m).1.workers ≡ some w
unfolding start_worker
start-current path w fs (some e) q l m c = c.current
start-current path w fs none q l m c = start_at-current path w _ l m c

-- What is not the exit of the worker leaves it where it is.
pub happen-IsCurrent :
    (path : Text) (w : ManagedWorker) (event : Event) (m : Manager)
    → is_exit w event m ≡ false
    → IsCurrent path w m
    → IsCurrent path w (happen event m)
unfolding happen
happen-IsCurrent path w (exited q) m n c = record {
  exclusive = happen-IsExclusive (exited q) m c.exclusive;
  current = exit-current path q w _ m refl n c;
}
happen-IsCurrent path w (started fs ctx q l) m n c = record {
  exclusive = happen-IsExclusive (started fs ctx q l) m c.exclusive;
  current = start-current path w fs ctx q l m c;
}
happen-IsCurrent path w (context_done e) m n c = c
happen-IsCurrent path w (timer b) m n c = c
happen-IsCurrent path w closed m n c = c
