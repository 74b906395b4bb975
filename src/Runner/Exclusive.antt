-- ===== src/Runner/Exclusive.antt =====
-- About StartWorker of internal/runner/manager.go.
use gopoke.Base.{
  ℕ, suc, ◌<◌, ◌≡◌, refl, sym, ap, ◌∙◌, Bool, true, false, not, Option, none, some, List, [], ◌∷◌,
  ◌++◌, All, filter, any, Result, ok, err, CtxError, ◌==◌, arith,
}
use gopoke.Base.Update.{find}
use gopoke.Base.Distinct.{IsDistinct, IsDistinct-append, any-of_find, filter-eq_of_any}
use gopoke.Text.{Text, text_eq}
use gopoke.Runner.{
  ManagedWorker, Manager, FileSystem, Error, Launch, factory_failed, command_failed, launched,
  at_path, new_worker, launch, reuse_or_launch, start_at, start_worker,
}

abbrev pub same_path : ManagedWorker → ManagedWorker → Bool
same_path v w = text_eq v.info.project_path w.info.project_path

abbrev pub same_handle : ManagedWorker → ManagedWorker → Bool
same_handle v w = v.handle == w.handle

-- The map holds the live workers, each running and alone in its project.
pub record IsExclusive (m : Manager) : Type 0 where
  pub mapped : m.workers ≡ m.live
  pub paths : IsDistinct same_path m.live
  pub handles : IsDistinct same_handle m.live
  pub numbered : All (λ w. w.handle < m.next) m.live
  pub running : All (λ w. w.info.running ≡ true) m.live

All-append :
    {A : Type 0} (P : A → Type 0) (xs : List A) (x : A) → All P xs → P x → All P (xs ++ x ∷ [])
All-append P [] x a p = (p, tt)
All-append P (y ∷ ys) x a p = (a.0, All-append P ys x a.1 p)

All-weaken :
    {A : Type 0} (P Q : A → Type 0) → ((x : A) → P x → Q x) → (xs : List A) → All P xs → All Q xs
All-weaken P Q f [] a = tt
All-weaken P Q f (x ∷ xs) a = (f x a.0, All-weaken P Q f xs a.1)

-- A number that is not given out yet is no worker's.
fresh_handle :
    (n : ℕ) (v : ManagedWorker) (ws : List ManagedWorker)
    → v.handle ≡ n
    → All (λ w. w.handle < n) ws
    → any (λ w. same_handle w v) ws ≡ false
fresh_handle n v [] e a = refl
fresh_handle n v (w ∷ ws) e a = ground (arith, fresh_handle n v ws e a.1)

pub find-running :
    (path : Text) (ws : List ManagedWorker) (w : ManagedWorker)
    → All (λ v. v.info.running ≡ true) ws
    → find (at_path path) ws ≡ some w
    → w.info.running ≡ true
unfolding find
find-running path [] w a e = cc
find-running path (v ∷ ws) w a e = ground (arith, find-running path ws w a.1)

launch-IsExclusive :
    (l : Launch) (path : Text) (m : Manager)
    → find (at_path path) m.workers ≡ none
    → IsExclusive m
    → IsExclusive (launch l path m).1
launch-IsExclusive factory_failed path m e x = x
launch-IsExclusive command_failed path m e x = x
launch-IsExclusive (launched pid now) path m e x =
    let w = new_worker m.next path pid now in
    let free : any (at_path path) m.live ≡ false =
      ap (any (at_path path)) (sym x.mapped) ∙ any-of_find (at_path path) m.workers e in
    record {
      mapped =
          ap (λ ws. ws ++ w ∷ [])
            (ap (filter (λ v. not (at_path path v))) x.mapped
              ∙ filter-eq_of_any (at_path path) m.live free);
      paths = IsDistinct-append same_path m.live w x.paths free;
      handles =
          IsDistinct-append same_handle m.live w x.handles
            (fresh_handle m.next w m.live refl x.numbered);
      numbered =
          All-append (λ v. v.handle < suc m.next) m.live w
            (All-weaken (λ v. v.handle < m.next) (λ v. v.handle < suc m.next) (λ v h. omega arith)
              m.live x.numbered)
            (omega arith);
      running = All-append (λ v. v.info.running ≡ true) m.live w x.running refl;
    }

reuse-IsExclusive :
    (o : Option ManagedWorker) (l : Launch) (path : Text) (m : Manager)
    → find (at_path path) m.workers ≡ o
    → IsExclusive m
    → IsExclusive (reuse_or_launch o l path m).1
reuse-IsExclusive none l path m e x = launch-IsExclusive l path m e x
reuse-IsExclusive (some w) l path m e x =
    let up : w.info.running ≡ true =
      find-running path m.live w x.running (ap (find (at_path path)) (sym x.mapped) ∙ e) in
    rw up x

start_at-IsExclusive :
    (r : Result Error Text) (l : Launch) (m : Manager)
    → IsExclusive m
    → IsExclusive (start_at r l m).1
start_at-IsExclusive (err e) l m x = x
start_at-IsExclusive (ok path) l m x = reuse-IsExclusive _ l path m refl x

-- StartWorker keeps the workers exclusive, whatever the file system, the context and the launch come
-- to: it launches a process only for a project that has none.
pub start_worker-IsExclusive :
    (fs : FileSystem) (ctx : Option CtxError) (path : Text) (l : Launch) (m : Manager)
    → IsExclusive m
    → IsExclusive (start_worker fs ctx path l m).1
unfolding start_worker
start_worker-IsExclusive fs (some e) path l m x = x
start_worker-IsExclusive fs none path l m x = start_at-IsExclusive _ l m x
