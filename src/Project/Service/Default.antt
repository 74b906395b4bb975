-- ===== src/Project/Service/Default.antt =====
-- About the default package that Open of internal/project/service.go records.
use gopoke.Base.{
  ℕ, ◌≡◌, refl, sym, ap, ◌∙◌, subst, Bool, true, false, false≢true, Option, none, some, List, [],
  ◌∷◌, ◌++◌, reverse, All, Bool-cases, inl, inr, Result, ok, err, ◌==◌, CtxError, if◌then◌else◌,
  arith,
}
use mathlib.Core.List.{reverse-append}
use gopoke.Base.Sort.{All-sort}
use gopoke.Text.{
  Text, text_eq, text_eq_refl, eq_of_text_eq, is_empty, is_space, drop_while, trim_space,
}
use gopoke.Storage.Schema.{ProjectRecord, Snapshot}
use gopoke.Storage.Monad.{Store, Call, pure}
use gopoke.Storage.Projects.{open_found, record_project_open}
use gopoke.Storage.Step.{wrap, lift, stored}
use gopoke.Storage.Step.Returns.{
  Returns, Returns-any, Returns-lift, Returns-stored, Returns-bind, Returns-then,
}
use gopoke.Storage.Projects.{project_by_path}
use gopoke.Storage.EnvVars.{project_env_vars}
use gopoke.Project.Module.{ModuleInfo}
use gopoke.Project.Dotenv.{load_dot_env_file}
use gopoke.Project.Targets
use gopoke.Project.Targets.{
  RunTarget, Dir, Found, target_at, add_target, runnable, is_runnable_main_package, package_before,
  sorted, discover_run_targets, has_run_target, walk,
}
use gopoke.Project.Service.{
  targets, storage, detect, path_required, alive, named, absolute, directory, loaded, Host, Calls,
  OpenProjectResult, discovered, default_package, set_from_file, result_of, with_env,
  open_directory, open_project,
}

-- Package paths start with a dot.
abbrev is_dotted : Text → Bool
is_dotted [] = false
is_dotted (c ∷ s) = c == b'.'

abbrev Dotted : RunTarget → Type 0
Dotted t = is_dotted t.package_path ≡ true

abbrev AllDotted : Result Targets.Error (List RunTarget) → Type 0
AllDotted (err e) = Unit
AllDotted (ok ts) = All Dotted ts

target_at-Dotted : (root relative : Text) → Dotted (target_at root relative)
target_at-Dotted root [] = refl
target_at-Dotted root (c ∷ s) = refl

add_target-AllDotted :
    (b : Result Targets.Error Bool) (t : RunTarget) (r : Result Targets.Error (List RunTarget))
    → Dotted t
    → AllDotted r
    → AllDotted (add_target b t r)
add_target-AllDotted (err e) t r d a = tt
add_target-AllDotted (ok false) t r d a = a
add_target-AllDotted (ok true) t (err e) d a = tt
add_target-AllDotted (ok true) t (ok ts) d a = (d, a)

runnable-AllDotted : (root : Text) (fs : List Found) → AllDotted (runnable root fs)
unfolding runnable
runnable-AllDotted root [] = tt
runnable-AllDotted root (f ∷ fs) =
    add_target-AllDotted (is_runnable_main_package f.entries) _ _ (target_at-Dotted root f.relative)
      (runnable-AllDotted root fs)

sorted-AllDotted : (r : Result Targets.Error (List RunTarget)) → AllDotted r → AllDotted (sorted r)
sorted-AllDotted (err e) a = tt
sorted-AllDotted (ok ts) a = All-sort package_before Dotted ts a

discover-AllDotted : (root : Text) (tree : Dir) → AllDotted (discover_run_targets root tree)
unfolding discover_run_targets
discover-AllDotted root tree = sorted-AllDotted _ (runnable-AllDotted root (walk tree))

drop_while-keeps :
    (s : Text) (c : ℕ) → is_space c ≡ false → is_empty (drop_while is_space (s ++ c ∷ [])) ≡ false
unfolding drop_while
drop_while-keeps [] c h = rw h refl
drop_while-keeps (d ∷ s) c h = ground (arith, drop_while-keeps s c h)

is_empty-append : (s : Text) (c : ℕ) → is_empty (s ++ c ∷ []) ≡ false
is_empty-append [] c = refl
is_empty-append (d ∷ s) c = refl

is_empty-reverse : (s : Text) → is_empty s ≡ false → is_empty (reverse s) ≡ false
is_empty-reverse [] h = cc
is_empty-reverse (c ∷ s) h = rw (reverse-append (c ∷ []) s) (is_empty-append (reverse s) c)

-- A dotted text is not blank.
dotted_nonblank : (s : Text) → is_dotted s ≡ true → is_empty (trim_space s) ≡ false
unfolding trim_space drop_while
dotted_nonblank [] h = absurd (false≢true h)
dotted_nonblank (c ∷ s) h =
    let solid : is_space c ≡ false = ground (arith, h) in
    let kept : is_empty (drop_while is_space (reverse (c ∷ s))) ≡ false =
      rw (reverse-append (c ∷ []) s) (drop_while-keeps (reverse s) c solid) in
    rw solid (is_empty-reverse (drop_while is_space (reverse (c ∷ s))) kept)

-- What a method that ends in the update of the default package returns.
pure-default :
    (p : ProjectRecord) (package_path : Text)
    → p.default_pkg ≡ package_path
    → Returns (λ q. q.default_pkg ≡ package_path) (pure p)
unfolding pure
pure-default p package_path h = record {
  at = λ s a e. let same : p ≡ a = cc e in ap (λ q. q.default_pkg) (sym same) ∙ h;
}

open_found-default :
    (c : Call) (path package_path : Text) (d : Snapshot) (o : Option ProjectRecord)
    → is_empty (trim_space package_path) ≡ false
    → Returns (λ p. p.default_pkg ≡ package_path) (open_found c path package_path d o)
open_found-default c path package_path d (some p) h =
    Returns-then _ _ _ (λ _. Returns-then _ _ _ (λ _. pure-default _ package_path (rw h)))
open_found-default c path package_path d none h =
    Returns-then _ _ _ (λ _. pure-default _ package_path refl)

record_project_open-default :
    (c : Call) (path package_path : Text)
    → is_empty (trim_space package_path) ≡ false
    → Returns (λ p. p.default_pkg ≡ package_path) (record_project_open c path package_path)
unfolding record_project_open
record_project_open-default c path package_path h = Returns-then _ _ _ (λ _.
    Returns-then _ _ _ (λ _. Returns-then _ _ _ (λ d. open_found-default c _ package_path d _ h)))

first-target : (t : RunTarget) (ts : List RunTarget) → has_run_target (t ∷ ts) t.package_path ≡ true
unfolding has_run_target
first-target t ts = rw (text_eq_refl t.package_path) refl

-- What Open chooses is one of the targets, when there are any.
chosen-target :
    (o : Option ProjectRecord) (ts : List RunTarget)
    → is_empty ts ≡ false
    → has_run_target ts (default_package o ts) ≡ true
unfolding default_package
chosen-target o [] n = absurd (false≢true (sym n))
chosen-target none (t ∷ ts) n = first-target t ts
chosen-target (some p) (t ∷ ts) n = elim (Bool-cases (has_run_target (t ∷ ts) p.default_pkg)) [
  | inl e ↦ ap (λ b. has_run_target (t ∷ ts) (if b then p.default_pkg else t.package_path)) e ∙ e
  | inr e ↦
      ap (λ b. has_run_target (t ∷ ts) (if b then p.default_pkg else t.package_path)) e
      ∙ first-target t ts
]

target-Dotted :
    (package_path : Text) (ts : List RunTarget)
    → All Dotted ts
    → has_run_target ts package_path ≡ true
    → is_dotted package_path ≡ true
unfolding has_run_target
target-Dotted package_path [] a h = absurd (false≢true h)
target-Dotted package_path (t ∷ ts) a h = elim (Bool-cases (text_eq t.package_path package_path)) [
  | inl e ↦ rw (← eq_of_text_eq t.package_path package_path e) a.0
  | inr e ↦ target-Dotted package_path ts a.1 (ground (arith, h, e))
]

wrapped-AllDotted :
    (r : Result Targets.Error (List RunTarget)) (ts : List RunTarget)
    → AllDotted r
    → wrap targets r ≡ ok ts
    → All Dotted ts
wrapped-AllDotted (err e) ts a h = cc
wrapped-AllDotted (ok us) ts a h = let same : us ≡ ts = cc h in subst (All Dotted) same a

discovered-AllDotted :
    (host : Host) (ctx : Option CtxError) (full : Text) (ts : List RunTarget)
    → discovered host ctx full ≡ ok ts
    → All Dotted ts
discovered-AllDotted host (some e) full ts h = cc
discovered-AllDotted host none full ts h =
    wrapped-AllDotted (discover_run_targets full (host.tree full)) ts
      (discover-AllDotted full (host.tree full)) h

-- The project of a result has a target as its default, if there are targets.
abbrev HasDefault : List RunTarget → ProjectRecord → Type 0
HasDefault ts p = is_empty ts ≡ false → has_run_target ts p.default_pkg ≡ true

abbrev Defaulted : OpenProjectResult → Type 0
Defaulted r = HasDefault r.run_targets r.project

ok-injective : {E A : Type 0} (a b : A) (r : Result E A) → r ≡ ok a → r ≡ ok b → a ≡ b
ok-injective a b r d e = cc

with_env-Defaulted :
    (host : Host) (calls : Calls) (full : Text) (info : ModuleInfo) (ts : List RunTarget)
    (p : ProjectRecord)
    → HasDefault ts p
    → Returns Defaulted (with_env host calls full info ts p)
unfolding with_env
with_env-Defaulted host calls full info ts p h =
    Returns-bind (λ _. Unit {0}) Defaulted
      (lift (loaded (load_dot_env_file host.unquote (host.dot_env full)))) _ (Returns-any _)
      (λ file _.
        Returns-bind (λ _. Unit {0}) Defaulted (set_from_file calls p.id file.0) _ (Returns-any _)
          (λ _ _.
            Returns-bind (λ _. Unit {0}) Defaulted
              (stored storage (project_env_vars calls.list p.id)) _ (Returns-any _)
              (λ vars _. Returns-lift Defaulted (ok (result_of p info ts vars file.1)) (λ r e.
                subst Defaulted (ok-injective (result_of p info ts vars file.1) r _ refl e) h))))

-- The record that the store returns for what Open chooses.
chosen-HasDefault :
    (o : Option ProjectRecord) (ts : List RunTarget) (p : ProjectRecord)
    → All Dotted ts
    → (is_empty (trim_space (default_package o ts)) ≡ false → p.default_pkg ≡ default_package o ts)
    → HasDefault ts p
chosen-HasDefault o ts p a h n =
    let target = chosen-target o ts n in
    let solid =
      dotted_nonblank (default_package o ts) (target-Dotted (default_package o ts) ts a target) in
    ap (has_run_target ts) (h solid) ∙ target

record_project_open-keeps :
    (c : Call) (path package_path : Text)
    → Returns
        (λ p. is_empty (trim_space package_path) ≡ false → p.default_pkg ≡ package_path)
        (record_project_open c path package_path)
record_project_open-keeps c path package_path = record {
  at = λ s p e h. (record_project_open-default c path package_path h).at s p e;
}

open_directory-Defaulted :
    (host : Host) (calls : Calls) (full : Text) → Returns Defaulted (open_directory host calls full)
unfolding open_directory
open_directory-Defaulted host calls full =
    Returns-bind (λ _. Unit {0}) Defaulted (lift (wrap detect _)) _ (Returns-any _)
      (λ info _.
        Returns-bind (All Dotted) Defaulted (lift (discovered host calls.targets_ctx full)) _
          (Returns-lift (All Dotted) _ (discovered-AllDotted host calls.targets_ctx full))
          (λ ts dotted.
            Returns-bind (λ _. Unit {0}) Defaulted
              (stored storage (project_by_path calls.known full)) _ (Returns-any _)
              (λ existing _.
                Returns-bind _ Defaulted
                  (stored storage
                    (record_project_open calls.opened full (default_package existing ts)))
                  _
                  (Returns-stored _ storage _
                    (record_project_open-keeps calls.opened full (default_package existing ts)))
                  (λ p kept.
                    with_env-Defaulted host calls full info ts p
                      (chosen-HasDefault existing ts p dotted kept)))))

open_project-Defaulted :
    (host : Host) (calls : Calls) (path : Text) → Returns Defaulted (open_project host calls path)
unfolding open_project
open_project-Defaulted host calls path =
    Returns-bind (λ _. Unit {0}) Defaulted (lift (alive calls.start)) _ (Returns-any _)
      (λ _ _.
        Returns-bind (λ _. Unit {0}) Defaulted (lift (named path path_required)) _ (Returns-any _)
          (λ _ _.
            Returns-bind (λ _. Unit {0}) Defaulted (lift (absolute (host.abs path))) _
              (Returns-any _)
              (λ full _.
                Returns-bind (λ _. Unit {0}) Defaulted (lift (directory (host.is_dir full))) _
                  (Returns-any _) (λ _ _. open_directory-Defaulted host calls full))))

-- When Open returns a project that has run targets, the default package that it has recorded is the
-- package path of one of them, whatever was recorded before.
pub open_project-has_run_target :
    (host : Host) (calls : Calls) (path : Text) (s : Store) (r : OpenProjectResult)
    → (open_project host calls path s).0 ≡ ok r
    → is_empty r.run_targets ≡ false
    → has_run_target r.run_targets r.project.default_pkg ≡ true
open_project-has_run_target host calls path s r h n =
    (open_project-Defaulted host calls path).at s r h n
