-- ===== src/App/Registry/Laws.antt =====
-- About registerActiveRun, unregisterActiveRun and CancelRun of internal/app/app.go.
use gopoke.Base.{
  ℕ, ◌≡◌, refl, ap, ◌∙◌, true, false, Option, none, some, ◌∷◌, any, ok, err, if◌then◌else◌,
  Bool-cases, inl, inr,
}
use gopoke.Base.Update.{find}
use gopoke.Base.Distinct.{any-of_find, find-of_any}
use gopoke.Text.{Text, text_eq, is_empty, trim_space, text_eq_refl}
use gopoke.Text.Keyed.{find-add, find-remove}
use gopoke.App.Registry.{
  ActiveRun, Runs, already_active, named, register_active_run, cancel_run, end_run,
}

abbrev id_of : ActiveRun → Text
id_of r = r.run_id

-- The active run under an identifier.
abbrev pub lookup : Text → Runs → Option ActiveRun
lookup run_id s = find (named run_id) s.active

-- An identifier that is not active can be registered: it then has the given cancel function, the
-- other identifiers have theirs, and nothing is canceled.
pub register-lookup :
    (run_id q : Text) (cancel : ℕ) (s : Runs)
    → lookup run_id s ≡ none
    → let (r, s') = register_active_run run_id cancel s in
      (r ≡ ok tt)
      × (lookup q s' ≡ (
          if text_eq run_id q
          then some (record { run_id = run_id; cancel = cancel })
          else lookup q s))
      × (s'.canceled ≡ s.canceled)
unfolding register_active_run
register-lookup run_id q cancel s free = rw (any-of_find (named run_id) s.active free) (
  refl,
  find-add id_of run_id q s.active (record { run_id = run_id; cancel = cancel }) refl free,
  refl,
)

-- An identifier that is active is refused, and nothing changes.
pub register_taken :
    (run_id : Text) (cancel : ℕ) (s : Runs) (r : ActiveRun)
    → lookup run_id s ≡ some r
    → register_active_run run_id cancel s ≡ (err (already_active run_id), s)
unfolding register_active_run
register_taken run_id cancel s r taken = elim (Bool-cases (any (named run_id) s.active)) [
  | inl e ↦ rw e
  | inr e ↦ cc (taken, find-of_any (named run_id) s.active e)
]

-- CancelRun of an active run calls its cancel function once and takes it out of the map, and the
-- other runs stay.
pub cancel-lookup :
    (given q : Text) (s : Runs) (r : ActiveRun)
    → is_empty (trim_space given) ≡ false
    → lookup (trim_space given) s ≡ some r
    → let (result, s') = cancel_run none given s in
      (result ≡ ok tt)
      × (s'.canceled ≡ r.cancel ∷ s.canceled)
      × (lookup q s' ≡ (if text_eq (trim_space given) q then none else lookup q s))
unfolding cancel_run
cancel-lookup given q s r meant found =
    rw (meant, found) (refl, refl, find-remove id_of (trim_space given) q s.active)

-- CancelRun of a run that is not active, or of a blank identifier, does nothing.
pub cancel_idle :
    (given : Text) (s : Runs)
    → (is_empty (trim_space given) ≡ false → lookup (trim_space given) s ≡ none)
    → cancel_run none given s ≡ (ok tt, s)
unfolding cancel_run
cancel_idle given s idle = elim (Bool-cases (is_empty (trim_space given))) [
  | inl e ↦ rw e
  | inr e ↦ rw (e, idle e)
]

-- The end of a run calls its cancel function and frees its identifier.
pub end-lookup :
    (run_id q : Text) (cancel : ℕ) (s : Runs)
    → (lookup q (end_run run_id cancel s) ≡ (if text_eq run_id q then none else lookup q s))
      × ((end_run run_id cancel s).canceled ≡ cancel ∷ s.canceled)
unfolding end_run
end-lookup run_id q cancel s = (find-remove id_of run_id q s.active, refl)

-- A run that is canceled and started again under its identifier, before the first has ended.
abbrev pub restarted : Text → ℕ → ℕ → Runs → Runs
restarted run_id first second s =
    let s₁ = (register_active_run run_id first s).1 in
    let s₂ = (cancel_run none run_id s₁).1 in
    let s₃ = (register_active_run run_id second s₂).1 in end_run run_id first s₃

-- When the first run of a restarted identifier ends, the second is no longer in the map: CancelRun
-- of it does nothing from then on, though its cancel function has not been called.
pub restart_uncancelable :
    (run_id : Text) (first second : ℕ) (s : Runs)
    → trim_space run_id ≡ run_id
    → is_empty run_id ≡ false
    → lookup run_id s ≡ none
    → let s' = restarted run_id first second s in
      (cancel_run none run_id s' ≡ (ok tt, s')) × (s'.canceled ≡ first ∷ first ∷ s.canceled)
restart_uncancelable run_id first second s plain meant free =
    let run : ActiveRun = record { run_id = run_id; cancel = first } in
    let s₁ = (register_active_run run_id first s).1 in
    let s₂ = (cancel_run none run_id s₁).1 in
    let s₃ = (register_active_run run_id second s₂).1 in
    let registered = register-lookup run_id run_id first s free in
    let active : lookup run_id s₁ ≡ some run = registered.1 ∙ rw (text_eq_refl run_id) in
    let nonblank : is_empty (trim_space run_id) ≡ false = rw plain meant in
    let found : lookup (trim_space run_id) s₁ ≡ some run = rw plain active in
    let stopped = cancel-lookup run_id run_id s₁ run nonblank found in
    let same : text_eq (trim_space run_id) run_id ≡ true = rw plain (text_eq_refl run_id) in
    let gone : lookup run_id s₂ ≡ none = stopped.2 ∙ rw same in
    let again = register-lookup run_id run_id second s₂ gone in
    let ended = end-lookup run_id run_id first s₃ in
    let unknown : lookup run_id (end_run run_id first s₃) ≡ none =
      ended.0 ∙ rw (text_eq_refl run_id) in
    (
      cancel_idle run_id (end_run run_id first s₃) (λ _. rw plain unknown),
      ended.1 ∙ ap (λ l. first ∷ l) (again.2 ∙ stopped.1 ∙ ap (λ l. first ∷ l) registered.2),
    )
