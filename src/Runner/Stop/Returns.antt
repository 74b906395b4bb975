-- ===== src/Runner/Stop/Returns.antt =====
-- About the return of StopWorker and StopAll of internal/runner/manager.go.
use gopoke.Base.{
  ◌≡◌, refl, sym, ap, ◌∙◌, Bool, true, false, false≢true, Option, none, some, List, [], ◌∷◌, any,
  Bool-cases, inl, inr, Result, ok, err, CtxError, ◌==◌, if◌then◌else◌, arith,
}
use gopoke.Base.Update.{find}
use gopoke.Text.{Text, text_eq, eq_of_text_eq}
use gopoke.Runner.{ManagedWorker, Manager, FileSystem, Error, at_path, normalize_project_path}
use gopoke.Runner.Exclusive.{IsExclusive}
use gopoke.Runner.Stop.{
  Event, exited, started, context_done, timer, closed, Phase, waiting, killed, returned, Outside,
  happen, is_worker, react, wait_for_stop, stop_found, stop_alive, stop_worker, stop_each,
  then_next, stop_all,
}
use gopoke.Runner.Stop.Current.{IsCurrent, happen-IsCurrent, happen-IsExclusive}

abbrev pub has_returned : Phase → Bool
has_returned (waiting gone) = false
has_returned (killed gone) = false
has_returned (returned e) = true

-- An event that ends the wait once the worker has been taken out.
abbrev pub closes : Event → Bool
closes (exited q) = false
closes (started fs ctx q l) = false
closes (context_done e) = true
closes (timer kill_ok) = false
closes closed = true

-- The context ends, or the process of the path exits and `done` is then closed.
abbrev pub ends_in : Text → List Event → Bool
ends_in path [] = false
ends_in path (exited q ∷ es) = if text_eq q path then any closes es else ends_in path es
ends_in path (started fs ctx q l ∷ es) = ends_in path es
ends_in path (context_done e ∷ es) = true
ends_in path (timer kill_ok ∷ es) = ends_in path es
ends_in path (closed ∷ es) = ends_in path es

ends_in-closes : (path : Text) (es : List Event) → ends_in path es ≡ true → any closes es ≡ true
ends_in-closes path [] h = h
ends_in-closes path (exited q ∷ es) h = elim (Bool-cases (text_eq q path)) [
  | inl t ↦ ground (arith, t, h)
  | inr f ↦ ends_in-closes path es (ground (arith, f, h))
]
ends_in-closes path (started fs ctx q l ∷ es) h = ends_in-closes path es h
ends_in-closes path (context_done e ∷ es) h = refl
ends_in-closes path (timer b ∷ es) h = ends_in-closes path es h
ends_in-closes path (closed ∷ es) h = refl

-- A wait whose worker has been taken out.
wait-closes :
    (w : ManagedWorker) (events : List Event) (m : Manager)
    → any closes events ≡ true
    → (has_returned (wait_for_stop w (waiting true) events m).0 ≡ true)
      × (has_returned (wait_for_stop w (killed true) events m).0 ≡ true)
unfolding wait_for_stop react
wait-closes w [] m h = absurd (false≢true h)
wait-closes w (exited q ∷ es) m h = wait-closes w es _ h
wait-closes w (started fs ctx q l ∷ es) m h = wait-closes w es _ h
wait-closes w (context_done e ∷ es) m h = (refl, refl)
wait-closes w (timer true ∷ es) m h = ((wait-closes w es _ h).1, (wait-closes w es _ h).1)
wait-closes w (timer false ∷ es) m h = ((wait-closes w es _ h).1, (wait-closes w es _ h).1)
wait-closes w (closed ∷ es) m h = (refl, refl)

exits-here :
    (path q : Text) (w : ManagedWorker) (m : Manager)
    → text_eq q path ≡ true
    → IsCurrent path w m
    → is_worker w (find (at_path q) m.live) ≡ true
exits-here path q w m h c =
    let own : (w.handle == w.handle) ≡ true = ground arith in
    let live : find (at_path q) m.live ≡ some w =
      ap (λ p. find (at_path p) m.live) (eq_of_text_eq q path h)
      ∙ ap (find (at_path path)) (sym c.exclusive.mapped)
      ∙ c.current in
    rw live own

-- What is left past the exit of a process.
past_exit :
    (path q : Text) (w : ManagedWorker) (es : List Event) (m : Manager)
    → ends_in path (exited q ∷ es) ≡ true
    → is_worker w (find (at_path q) m.live) ≡ false
    → IsCurrent path w m
    → ends_in path es ≡ true
past_exit path q w es m h n c = elim (Bool-cases (text_eq q path)) [
  | inl t ↦ absurd (false≢true (sym n ∙ exits-here path q w m t c))
  | inr f ↦ ground (arith, f, h)
]

-- The wait of a phase in which the worker has not been taken out.
abbrev BothReturn : ManagedWorker → List Event → Manager → Type 0
BothReturn w events m =
    (has_returned (wait_for_stop w (waiting false) events m).0 ≡ true)
    × (has_returned (wait_for_stop w (killed false) events m).0 ≡ true)

wait-returns :
    (path : Text) (w : ManagedWorker) (events : List Event) (m : Manager)
    → ends_in path events ≡ true
    → IsCurrent path w m
    → BothReturn w events m
unfolding wait_for_stop react
wait-returns path w [] m h c = absurd (false≢true h)
wait-returns path w (exited q ∷ es) m h c =
    elim (Bool-cases (is_worker w (find (at_path q) m.live))) [
      | inl t ↦
          rw t (wait-closes w es (happen (exited q) m) (ends_in-closes path (exited q ∷ es) h))
      | inr f ↦ rw f (
          wait-returns path w es (happen (exited q) m) (past_exit path q w es m h f c)
            (happen-IsCurrent path w (exited q) m f c))
    ]
wait-returns path w (started fs ctx q l ∷ es) m h c =
    wait-returns path w es _ h (happen-IsCurrent path w (started fs ctx q l) m refl c)
wait-returns path w (context_done e ∷ es) m h c = (refl, refl)
wait-returns path w (timer true ∷ es) m h c =
    let r = wait-returns path w es _ h (happen-IsCurrent path w (timer true) m refl c) in (r.1, r.1)
wait-returns path w (timer false ∷ es) m h c =
    let r = wait-returns path w es _ h (happen-IsCurrent path w (timer false) m refl c) in
    (refl, r.1)
wait-returns path w (closed ∷ es) m h c =
    wait-returns path w es _ h (happen-IsCurrent path w closed m refl c)

-- Every result of a call satisfies what all its parts do.
abbrev Done : Phase × Manager → Type 0
Done r = (has_returned r.0 ≡ true) × IsExclusive r.1

wait-IsExclusive :
    (w : ManagedWorker) (events : List Event) (p : Phase) (m : Manager)
    → IsExclusive m
    → IsExclusive (wait_for_stop w p events m).1
unfolding wait_for_stop
wait-IsExclusive w events (returned e) m x = x
wait-IsExclusive w [] (waiting gone) m x = x
wait-IsExclusive w [] (killed gone) m x = x
wait-IsExclusive w (event ∷ events) (waiting gone) m x =
    wait-IsExclusive w events _ _ (happen-IsExclusive event m x)
wait-IsExclusive w (event ∷ events) (killed gone) m x =
    wait-IsExclusive w events _ _ (happen-IsExclusive event m x)

IsExclusive-if :
    (b : Bool) (r s : Phase × Manager)
    → IsExclusive r.1
    → IsExclusive s.1
    → IsExclusive (if b then r else s).1
IsExclusive-if true r s x y = x
IsExclusive-if false r s x y = y

stop_found-IsExclusive :
    (o : Outside) (f : Option ManagedWorker) (m : Manager)
    → IsExclusive m
    → IsExclusive (stop_found o f m).1
stop_found-IsExclusive o none m x = x
stop_found-IsExclusive o (some w) m x =
    IsExclusive-if w.info.running _ _
      (IsExclusive-if o.signal_ok _ _ (wait-IsExclusive w o.events (waiting false) m x) x) x

stop_alive-IsExclusive :
    (ctx : Option CtxError) (o : Outside) (r : Result Error Text) (m : Manager)
    → IsExclusive m
    → IsExclusive (stop_alive ctx o r m).1
stop_alive-IsExclusive (some e) o r m x = x
stop_alive-IsExclusive none o (err e) m x = x
stop_alive-IsExclusive none o (ok path) m x = stop_found-IsExclusive o _ m x

-- While StopWorker goes on, and where it returns, the workers are those that are alive.
pub stop_worker-IsExclusive :
    (fs : FileSystem) (o : Outside) (path : Text) (m : Manager)
    → IsExclusive m
    → IsExclusive (stop_worker fs o path m).1
unfolding stop_worker
stop_worker-IsExclusive fs o path m x = stop_alive-IsExclusive o.ctx o _ m x

Done-if : (b : Bool) (r s : Phase × Manager) → Done r → Done s → Done (if b then r else s)
Done-if true r s d e = d
Done-if false r s d e = e

Done-stop_found :
    (path : Text) (o : Outside) (f : Option ManagedWorker) (m : Manager)
    → find (at_path path) m.workers ≡ f
    → ends_in path o.events ≡ true
    → IsExclusive m
    → Done (stop_found o f m)
Done-stop_found path o none m e h x = (refl, x)
Done-stop_found path o (some w) m e h x =
    Done-if w.info.running _ _
      (Done-if o.signal_ok _ _
        (
          (wait-returns path w o.events m h (record { exclusive = x; current = e })).0,
          wait-IsExclusive w o.events (waiting false) m x,
        )
        (refl, x))
      (refl, x)

Done-stop_alive :
    (ctx : Option CtxError) (o : Outside) (r : Result Error Text) (m : Manager)
    → ((path : Text) → r ≡ ok path → ends_in path o.events ≡ true)
    → IsExclusive m
    → Done (stop_alive ctx o r m)
Done-stop_alive (some e) o r m h x = (refl, x)
Done-stop_alive none o (err e) m h x = (refl, x)
Done-stop_alive none o (ok path) m h x = Done-stop_found path o _ m refl (h path refl) x

-- During each call of StopWorker the context ends, or the process exits and `done` is then closed.
abbrev pub EachEnds : FileSystem → (Text → Outside) → Type 0
EachEnds fs outside =
    (path p : Text) → normalize_project_path fs path ≡ ok p → ends_in p (outside path).events ≡ true

Done-then_next :
    (p : Phase) (next : Manager → Phase × Manager) (m : Manager)
    → Done (p, m)
    → ((n : Manager) → IsExclusive n → Done (next n))
    → Done (then_next p next m)
Done-then_next (returned none) next m d f = f m d.1
Done-then_next (returned (some e)) next m d f = d
Done-then_next (waiting gone) next m d f = d
Done-then_next (killed gone) next m d f = d

Done-stop_each :
    (fs : FileSystem) (outside : Text → Outside) (paths : List Text)
    → EachEnds fs outside
    → (m : Manager) → IsExclusive m
    → Done (stop_each fs outside paths m)
unfolding stop_each stop_worker
Done-stop_each fs outside [] h m x = (refl, x)
Done-stop_each fs outside (path ∷ paths) h m x =
    Done-then_next _ _ _ (Done-stop_alive (outside path).ctx (outside path) _ m (h path) x)
      (Done-stop_each fs outside paths h)

-- StopAll returns, if during each of its calls of StopWorker the context ends, or the process that it
-- waits for exits and waitForWorkerExit then closes its channel, whatever else starts and exits
-- meanwhile.
pub stop_all-returns :
    (fs : FileSystem) (ctx : Option CtxError) (outside : Text → Outside) (m : Manager)
    → IsExclusive m
    → EachEnds fs outside
    → has_returned (stop_all fs ctx outside m).0 ≡ true
unfolding stop_all
stop_all-returns fs (some e) outside m x h = refl
stop_all-returns fs none outside m x h = (Done-stop_each fs outside _ h m x).0
