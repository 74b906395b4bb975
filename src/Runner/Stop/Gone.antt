-- ===== src/Runner/Stop/Gone.antt =====
-- About what StopWorker of internal/runner/manager.go leaves when it returns nil.
use gopoke.Base.{
  ◌<◌, ◌≡◌, refl, sym, ap, ◌∙◌, subst, Bool, true, false, false≢true, Option, none, some, List, [],
  ◌∷◌, ◌++◌, any, All, filter, not, Bool-cases, inl, inr, Result, ok, err, CtxError, ◌==◌,
  if◌then◌else◌, arith,
}
use gopoke.Base.Update.{find}
use gopoke.Base.Distinct.{any-filter, any-filter-not}
use gopoke.Text.{Text}
use gopoke.Runner.{
  ManagedWorker, Manager, FileSystem, Error, Launch, factory_failed, command_failed, launched,
  has_handle, at_path, launch, reuse_or_launch, start_at, start_worker, wait_for_worker_exit,
  normalize_project_path,
}
use gopoke.Runner.Exclusive.{IsExclusive, find-running}
use gopoke.Runner.Stop.{
  Event, exited, started, context_done, timer, closed, Phase, waiting, killed, returned, Outside,
  exit_of, happen, is_worker, react, wait_for_stop, stop_found, stop_alive, stop_worker,
}
use gopoke.Runner.Stop.Current.{IsCurrent, is_exit, happen-IsCurrent, happen-IsExclusive}

-- The worker is neither alive nor in the map, and no later one gets its number.
pub record Absent (w : ManagedWorker) (m : Manager) : Type 0 where
  pub exclusive : IsExclusive m
  pub dead : any (has_handle w.handle) m.live ≡ false
  pub below : w.handle < m.next

-- The same for the state past a start, in parts.
abbrev Missing : ManagedWorker → Manager → Type 0
Missing w m = (any (has_handle w.handle) m.live ≡ false) × (w.handle < m.next)

any-snoc :
    {A : Type 0} (p : A → Bool) (xs : List A) (x : A)
    → any p xs ≡ false
    → p x ≡ false
    → any p (xs ++ x ∷ []) ≡ false
any-snoc p [] x h k = ground (arith, k)
any-snoc p (y ∷ xs) x h k = ground (arith, any-snoc p xs x)

launch-Missing :
    (w : ManagedWorker) (l : Launch) (path : Text) (m : Manager)
    → Missing w m
    → Missing w (launch l path m).1
launch-Missing w factory_failed path m a = a
launch-Missing w command_failed path m a = a
launch-Missing w (launched pid now) path m a =
    let fresh : (m.next == w.handle) ≡ false = ground (arith, a.1) in
    (any-snoc (has_handle w.handle) m.live _ a.0 fresh, omega (arith, a.1))

reuse-Missing :
    (w : ManagedWorker) (o : Option ManagedWorker) (l : Launch) (path : Text) (m : Manager)
    → Missing w m
    → Missing w (reuse_or_launch o l path m).1
reuse-Missing w none l path m a = launch-Missing w l path m a
reuse-Missing w (some v) l path m a = elim (Bool-cases v.info.running) [
  | inl t ↦ rw t a
  | inr f ↦ rw f (launch-Missing w l path m a)
]

start_at-Missing :
    (w : ManagedWorker) (r : Result Error Text) (l : Launch) (m : Manager)
    → Missing w m
    → Missing w (start_at r l m).1
start_at-Missing w (err e) l m a = a
start_at-Missing w (ok path) l m a = reuse-Missing w _ l path m a

start-Missing :
    (w : ManagedWorker) (fs : FileSystem) (ctx : Option CtxError) (path : Text) (l : Launch)
    (m : Manager)
    → Missing w m
    → Missing w (start_worker fs ctx path l m).1
unfolding start_worker
start-Missing w fs (some e) path l m a = a
start-Missing w fs none path l m a = start_at-Missing w _ l m a

exit-Missing :
    (w : ManagedWorker) (o : Option ManagedWorker) (m : Manager)
    → Missing w m
    → Missing w (exit_of o m)
unfolding wait_for_worker_exit
exit-Missing w none m a = a
exit-Missing w (some v) m a = (any-filter (has_handle w.handle) _ m.live a.0, a.1)

happen-Missing :
    (w : ManagedWorker) (event : Event) (m : Manager) → Missing w m → Missing w (happen event m)
unfolding happen
happen-Missing w (exited q) m a = exit-Missing w _ m a
happen-Missing w (started fs ctx q l) m a = start-Missing w fs ctx q l m a
happen-Missing w (context_done e) m a = a
happen-Missing w (timer b) m a = a
happen-Missing w closed m a = a

-- Who has been taken out stays out, whatever happens.
happen-Absent :
    (w : ManagedWorker) (event : Event) (m : Manager) → Absent w m → Absent w (happen event m)
happen-Absent w event m a =
    let n = happen-Missing w event m (a.dead, a.below) in
    record { exclusive = happen-IsExclusive event m a.exclusive; dead = n.0; below = n.1 }

All-find :
    {A : Type 0} (P : A → Type 0) (p : A → Bool) (xs : List A) (x : A)
    → All P xs
    → find p xs ≡ some x
    → P x
unfolding find
All-find P p [] x a e = cc
All-find P p (y ∷ xs) x a e = elim (Bool-cases (p y)) [
  | inl t ↦ let same : y ≡ x = ground (arith, t, e) in subst P same a.0
  | inr f ↦ All-find P p xs x a.1 (ground (arith, f, e))
]

exit_of-Missing :
    (w : ManagedWorker) (o : Option ManagedWorker) (m : Manager)
    → is_worker w o ≡ true
    → w.handle < m.next
    → Missing w (exit_of o m)
unfolding wait_for_worker_exit
exit_of-Missing w none m h b = absurd (false≢true h)
exit_of-Missing w (some v) m h b =
    let same : v.handle ≡ w.handle = ground (arith, h) in
    (
      subst (λ n. any (has_handle w.handle) (filter (λ u. not (has_handle n u)) m.live) ≡ false)
          (sym same) (any-filter-not (has_handle w.handle) m.live),
      b,
    )

-- Where the worker stands: in its place, or gone.
abbrev Stands : Text → ManagedWorker → Bool → Manager → Type 0
Stands path w false m = IsCurrent path w m
Stands path w true m = Absent w m

exited-Stands :
    (path q : Text) (w : ManagedWorker) (m : Manager) (b : Bool)
    → is_exit w (exited q) m ≡ b
    → IsCurrent path w m
    → Stands path w b (happen (exited q) m)
exited-Stands path q w m false e c = happen-IsCurrent path w (exited q) m e c
exited-Stands path q w m true e c =
    let live : find (at_path path) m.live ≡ some w =
      ap (find (at_path path)) (sym c.exclusive.mapped) ∙ c.current in
    let below =
      All-find (λ v. v.handle < m.next) (at_path path) m.live w c.exclusive.numbered live in
    let n : Missing w (happen (exited q) m) = unfold happen in exit_of-Missing w _ m e below in
    record { exclusive = happen-IsExclusive (exited q) m c.exclusive; dead = n.0; below = n.1 }

abbrev Good : Text → ManagedWorker → Phase → Manager → Type 0
Good path w (returned none) m = Absent w m
Good path w (returned (some e)) m = Unit
Good path w (waiting gone) m = Stands path w gone m
Good path w (killed gone) m = Stands path w gone m

waiting-Good :
    (path : Text) (w : ManagedWorker) (gone : Bool) (event : Event) (m : Manager)
    → Stands path w gone m
    → Good path w (react w (waiting gone) event m) (happen event m)
unfolding react
waiting-Good path w false (exited q) m s = exited-Stands path q w m _ refl s
waiting-Good path w false (started fs ctx q l) m s =
    happen-IsCurrent path w (started fs ctx q l) m refl s
waiting-Good path w false (context_done e) m s = tt
waiting-Good path w false (timer true) m s = unfold happen in s
waiting-Good path w false (timer false) m s = tt
waiting-Good path w false closed m s = unfold happen in s
waiting-Good path w true (exited q) m s = happen-Absent w (exited q) m s
waiting-Good path w true (started fs ctx q l) m s = happen-Absent w (started fs ctx q l) m s
waiting-Good path w true (context_done e) m s = tt
waiting-Good path w true (timer true) m s = unfold happen in s
waiting-Good path w true (timer false) m s = unfold happen in s
waiting-Good path w true closed m s = unfold happen in s

killed-Good :
    (path : Text) (w : ManagedWorker) (gone : Bool) (event : Event) (m : Manager)
    → Stands path w gone m
    → Good path w (react w (killed gone) event m) (happen event m)
unfolding react
killed-Good path w false (exited q) m s = exited-Stands path q w m _ refl s
killed-Good path w false (started fs ctx q l) m s =
    happen-IsCurrent path w (started fs ctx q l) m refl s
killed-Good path w false (context_done e) m s = tt
killed-Good path w false (timer b) m s = unfold happen in s
killed-Good path w false closed m s = unfold happen in s
killed-Good path w true (exited q) m s = happen-Absent w (exited q) m s
killed-Good path w true (started fs ctx q l) m s = happen-Absent w (started fs ctx q l) m s
killed-Good path w true (context_done e) m s = tt
killed-Good path w true (timer b) m s = unfold happen in s
killed-Good path w true closed m s = unfold happen in s

wait-Good :
    (path : Text) (w : ManagedWorker) (events : List Event) (p : Phase) (m : Manager)
    → Good path w p m
    → Good path w (wait_for_stop w p events m).0 (wait_for_stop w p events m).1
unfolding wait_for_stop
wait-Good path w events (returned none) m s = s
wait-Good path w events (returned (some e)) m s = tt
wait-Good path w [] (waiting gone) m s = s
wait-Good path w [] (killed gone) m s = s
wait-Good path w (event ∷ events) (waiting gone) m s =
    wait-Good path w events _ _ (waiting-Good path w gone event m s)
wait-Good path w (event ∷ events) (killed gone) m s =
    wait-Good path w events _ _ (killed-Good path w gone event m s)

-- At the return with nil the worker is gone.
abbrev Leaves : ManagedWorker → Phase × Manager → Type 0
Leaves w r = r.0 ≡ returned none → Absent w r.1

Good-Leaves :
    (path : Text) (w : ManagedWorker) (p : Phase) (m : Manager) → Good path w p m → Leaves w (p, m)
Good-Leaves path w (returned none) m g h = g
Good-Leaves path w (returned (some e)) m g h = cc
Good-Leaves path w (waiting gone) m g h = cc
Good-Leaves path w (killed gone) m g h = cc

Leaves-signalled :
    (path : Text) (w : ManagedWorker) (o : Outside) (b : Bool) (m : Manager)
    → IsCurrent path w m
    → Leaves w (
        if b
        then wait_for_stop w (waiting false) o.events m
        else (returned (some Error.signal_failed), m))
Leaves-signalled path w o true m c =
    Good-Leaves path w _ _ (wait-Good path w o.events (waiting false) m c)
Leaves-signalled path w o false m c = λ h. cc

Leaves-running :
    (w : ManagedWorker) (b : Bool) (r s : Phase × Manager)
    → b ≡ true
    → Leaves w r
    → Leaves w (if b then r else s)
Leaves-running w true r s e k = k
Leaves-running w false r s e k = absurd (false≢true e)

Leaves-stop_found :
    (path : Text) (o : Outside) (w : ManagedWorker) (f : Option ManagedWorker) (m : Manager)
    → f ≡ some w
    → IsCurrent path w m
    → Leaves w (stop_found o f m)
Leaves-stop_found path o w f m e c =
    let live : find (at_path path) m.live ≡ some w =
      ap (find (at_path path)) (sym c.exclusive.mapped) ∙ c.current in
    let up : w.info.running ≡ true = find-running path m.live w c.exclusive.running live in
    subst (λ g. Leaves w (stop_found o g m)) (sym e)
      (Leaves-running w w.info.running _ _ up (Leaves-signalled path w o o.signal_ok m c))

Leaves-stop_alive :
    (path : Text) (ctx : Option CtxError) (o : Outside) (w : ManagedWorker) (r : Result Error Text)
    (m : Manager)
    → r ≡ ok path
    → IsCurrent path w m
    → Leaves w (stop_alive ctx o r m)
Leaves-stop_alive path (some e) o w r m k c = λ h. cc
Leaves-stop_alive path none o w r m k c =
    subst (λ q. Leaves w (stop_alive none o q m)) (sym k)
      (Leaves-stop_found path o w (find (at_path path) m.workers) m c.current c)

-- When StopWorker returns nil, the worker that the project had at the call is gone: its process has
-- exited, and it is not in the map, whichever workers start and exit while StopWorker waits, if the
-- workers were exclusive before. A worker that was started meanwhile may be there.
pub stop_worker-Absent :
    (fs : FileSystem) (o : Outside) (given path : Text) (w : ManagedWorker) (m : Manager)
    → IsExclusive m
    → normalize_project_path fs given ≡ ok path
    → find (at_path path) m.workers ≡ some w
    → (stop_worker fs o given m).0 ≡ returned none
    → let m' = (stop_worker fs o given m).1 in
      (any (has_handle w.handle) m'.live ≡ false) × (any (has_handle w.handle) m'.workers ≡ false)
unfolding stop_worker
stop_worker-Absent fs o given path w m x named found h =
    let a =
      Leaves-stop_alive path o.ctx o w (normalize_project_path fs given) m named
        (record { exclusive = x; current = found }) h in
    (a.dead, ap (any (has_handle w.handle)) a.exclusive.mapped ∙ a.dead)
