-- ===== src/App/Registry/Others.antt =====
-- About the map of active runs of internal/app/app.go, while a run and others use it.
use gopoke.Base.{
  ℕ, ◌≡◌, refl, sym, ap, ◌∙◌, true, false, false≢true, Option, none, some, List, [], ◌∷◌, All,
  if◌then◌else◌, Bool-cases, inl, inr,
}
use gopoke.Text.{Text, text_eq, is_empty, trim_space}
use gopoke.App.Registry.{
  ActiveRun, Runs, register_active_run, cancel_run, Meanwhile, registering, canceling, ending,
  refused, happen, happen_all,
}
use gopoke.App.Registry.Laws.{
  lookup, register-lookup, register_taken, cancel-lookup, cancel_idle, end-lookup,
}

-- An event under an identifier other than the given one.
abbrev pub IsOther : Text → Meanwhile → Type 0
IsOther id (registering k cancel) = text_eq id k ≡ false
IsOther id (canceling ctx given) = text_eq id (trim_space given) ≡ false
IsOther id (ending k cancel) = text_eq id k ≡ false

-- Two maps that differ under one identifier only.
pub record Alike (id : Text) (s s' : Runs) : Type 0 where
  pub others : (q : Text) → text_eq id q ≡ false → lookup q s' ≡ lookup q s
  pub canceled : s'.canceled ≡ s.canceled

registering-free :
    (k : Text) (cancel : ℕ) (s : Runs)
    → lookup k s ≡ none
    → happen (registering k cancel) s ≡ (register_active_run k cancel s).1
unfolding happen
registering-free k cancel s free =
    ap (λ r. refused cancel r (register_active_run k cancel s).1)
      (register-lookup k k cancel s free).0

registering-taken :
    (k : Text) (cancel : ℕ) (s : Runs) (r : ActiveRun)
    → lookup k s ≡ some r
    → happen (registering k cancel) s ≡ record s { canceled = cancel ∷ s.canceled }
unfolding happen
registering-taken k cancel s r taken =
    ap (λ p. refused cancel p.0 p.1) (register_taken k cancel s r taken)

registering-Alike :
    (id k : Text) (cancel : ℕ) (s s' : Runs) (o : Option ActiveRun)
    → text_eq id k ≡ false
    → lookup k s ≡ o
    → Alike id s s'
    → Alike id (happen (registering k cancel) s) (happen (registering k cancel) s')
registering-Alike id k cancel s s' none other e a =
    let free : lookup k s' ≡ none = a.others k other ∙ e in
    let was = λ (q : Text). register-lookup k q cancel s e in
    let is = λ (q : Text). register-lookup k q cancel s' free in
    rw (registering-free k cancel s e, registering-free k cancel s' free)
      (record {
        others = λ q h.
            (is q).1
            ∙ ap (λ x. if text_eq k q then some (record { run_id = k; cancel = cancel }) else x)
                (a.others q h)
            ∙ sym (was q).1;
        canceled = (is k).2 ∙ a.canceled ∙ sym (was k).2;
      })
registering-Alike id k cancel s s' (some r) other e a =
    rw (registering-taken k cancel s r e, registering-taken k cancel s' r (a.others k other ∙ e))
      (record { others = a.others; canceled = ap (λ l. cancel ∷ l) a.canceled })

canceling-idle :
    (id given : Text) (s s' : Runs)
    → is_empty (trim_space given) ≡ true
    → Alike id s s'
    → Alike id (cancel_run none given s).1 (cancel_run none given s').1
canceling-idle id given s s' blank a =
    rw
      (
        cancel_idle given s (λ h. absurd (false≢true (sym h ∙ blank))),
        cancel_idle given s' (λ h. absurd (false≢true (sym h ∙ blank))),
      )
      a

canceling-Alike :
    (id given : Text) (s s' : Runs) (o : Option ActiveRun)
    → text_eq id (trim_space given) ≡ false
    → is_empty (trim_space given) ≡ false
    → lookup (trim_space given) s ≡ o
    → Alike id s s'
    → Alike id (cancel_run none given s).1 (cancel_run none given s').1
canceling-Alike id given s s' none other meant e a =
    rw
      (
        cancel_idle given s (λ h. e),
        cancel_idle given s' (λ h. a.others (trim_space given) other ∙ e),
      )
      a
canceling-Alike id given s s' (some r) other meant e a =
    let was = λ (q : Text). cancel-lookup given q s r meant e in
    let is =
      λ (q : Text). cancel-lookup given q s' r meant (a.others (trim_space given) other ∙ e) in
    record {
      others = λ q h.
          (is q).2
          ∙ ap (λ x. if text_eq (trim_space given) q then none else x) (a.others q h)
          ∙ sym (was q).2;
      canceled = (is id).1 ∙ ap (λ l. r.cancel ∷ l) a.canceled ∙ sym (was id).1;
    }

happen-Alike :
    (id : Text) (e : Meanwhile) (s s' : Runs)
    → IsOther id e
    → Alike id s s'
    → Alike id (happen e s) (happen e s')
happen-Alike id (registering k cancel) s s' other a =
    registering-Alike id k cancel s s' (lookup k s) other refl a
happen-Alike id (canceling (some c) given) s s' other a = unfold happen cancel_run in a
happen-Alike id (canceling none given) s s' other a =
    elim (Bool-cases (is_empty (trim_space given))) [
      | inl h ↦ unfold happen in canceling-idle id given s s' h a
      | inr h ↦
          unfold happen in
          canceling-Alike id given s s' (lookup (trim_space given) s) other h refl a
    ]
happen-Alike id (ending k cancel) s s' other a =
    unfold happen in
    record {
      others = λ q h.
          (end-lookup k q cancel s').0
          ∙ ap (λ x. if text_eq k q then none else x) (a.others q h)
          ∙ sym (end-lookup k q cancel s).0;
      canceled =
          (end-lookup k k cancel s').1
          ∙ ap (λ l. cancel ∷ l) a.canceled
          ∙ sym (end-lookup k k cancel s).1;
    }

-- What others do under other identifiers comes to the same, whatever is under this one.
pub happen_all-Alike :
    (id : Text) (es : List Meanwhile) (s s' : Runs)
    → All (IsOther id) es
    → Alike id s s'
    → Alike id (happen_all es s) (happen_all es s')
unfolding happen_all
happen_all-Alike id [] s s' o a = a
happen_all-Alike id (e ∷ es) s s' o a =
    happen_all-Alike id es (happen e s) (happen e s') o.1 (happen-Alike id e s s' o.0 a)
