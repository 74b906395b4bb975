-- ===== src/App/Run/Ends.antt =====
-- About RunSnippet of internal/app/app.go, on all its paths.
use gopoke.Base.{
  ℕ, ◌≡◌, refl, ap, ◌∙◌, All, Bool-cases, inl, inr, Option, none, some, ◌∷◌, Result, ok, err,
  CtxError, if◌then◌else◌,
}
use gopoke.Text.{Text, text_eq}
use gopoke.Execution.Outcome.{RunResult}
use gopoke.Execution.Start
use gopoke.App.Registry
use gopoke.App.Registry.{ActiveRun, Runs, register_active_run, end_run, happen_all}
use gopoke.App.Registry.Laws.{lookup, register-lookup, register_taken, end-lookup}
use gopoke.App.Registry.Others.{IsOther, Alike, happen_all-Alike}
use gopoke.App.Run.Resolve
use gopoke.App.Run.Resolve.{Request}
use gopoke.App.Run.{
  State, Course, Error, register, run_body, registered, named_or, run_under, run_snippet,
}
use gopoke.App.Run.Safe.{NoContext, IsSafe, run_body-Fine}

module _ (host : Resolve.Host) (machine : Start.Host) (scratch : Text) (o : Course)
    (request : Request) where
  -- The identifier of the run.
  abbrev pub id_of_run : Text
  id_of_run = named_or o.id request.run_id

  abbrev registration : State → Result Registry.RunError (Unit {0}) × Runs
  registration st = register_active_run id_of_run o.cancel st.runs

  abbrev in_map : State → State
  in_map st = record st { runs = (registration st).1 }

  abbrev body : State → Result Error RunResult × State
  body st = run_body host machine scratch o id_of_run request (in_map st)

  abbrev ended : State → Result Error RunResult × State
  ended st = (
    (body st).0,
    record (body st).1 {
      runs = end_run id_of_run o.cancel (happen_all o.meanwhile (body st).1.runs);
    },
  )

  -- A run whose identifier is free.
  pub run_free :
      (st : State)
      → o.ctx ≡ none
      → lookup id_of_run st.runs ≡ none
      → run_snippet host machine scratch o request st ≡ ended st
  unfolding run_snippet
  run_free st alive free = rw alive (
      ap (λ r. registered host machine scratch o id_of_run request st r (registration st).1)
        (register-lookup id_of_run id_of_run o.cancel st.runs free).0)

  -- A run is refused if its identifier is active; only its own cancel function is called.
  pub run_snippet_taken :
      (st : State) (r : ActiveRun)
      → o.ctx ≡ none
      → lookup id_of_run st.runs ≡ some r
      → run_snippet host machine scratch o request st ≡ (
        err (register (Registry.already_active id_of_run)),
        record st { runs = record st.runs { canceled = o.cancel ∷ st.runs.canceled } },
      )
  unfolding run_snippet
  run_snippet_taken st r alive taken = rw alive (
      ap (λ p. registered host machine scratch o id_of_run request st p.0 p.1)
        (register_taken id_of_run o.cancel st.runs r taken))

  same_elsewhere :
      (q : Text) (s s' : Runs)
      → Alike id_of_run s s'
      → (if text_eq id_of_run q then none else lookup q s')
        ≡ (if text_eq id_of_run q then none else lookup q s)
  same_elsewhere q s s' a = elim (Bool-cases (text_eq id_of_run q)) [
    | inl t ↦ rw t refl
    | inr f ↦ rw f (a.others q f)
  ]

  -- The map after what the others do, with and without the run.
  meanwhile-Alike :
      (st : State)
      → lookup id_of_run st.runs ≡ none
      → All (IsOther id_of_run) o.meanwhile
      → Alike id_of_run
          (happen_all o.meanwhile st.runs)
          (happen_all o.meanwhile (registration st).1)
  meanwhile-Alike st free others =
      let added = λ (q : Text). register-lookup id_of_run q o.cancel st.runs free in
      happen_all-Alike id_of_run o.meanwhile st.runs (registration st).1 others
        record { others = λ q h. (added q).1 ∙ rw h refl; canceled = (added id_of_run).2 }

  -- At the end of a run its identifier is free, its cancel function has been called, once more than
  -- without the run, and the other runs are as they would be without it, whatever happens on the way and
  -- whatever others do meanwhile under other identifiers: if its context was alive at the start and its
  -- identifier was not active.
  pub run_snippet-lookup :
      (st : State) (q : Text)
      → o.ctx ≡ none
      → lookup id_of_run st.runs ≡ none
      → All (IsOther id_of_run) o.meanwhile
      → let runs = (run_snippet host machine scratch o request st).1.runs in
        let without = happen_all o.meanwhile st.runs in
        (lookup q runs ≡ (if text_eq id_of_run q then none else lookup q without))
        × (runs.canceled ≡ o.cancel ∷ without.canceled)
  run_snippet-lookup st q alive free others =
      let a = meanwhile-Alike st free others in
      let kept =
        (run_body-Fine (λ c. c) host machine scratch o id_of_run request (in_map st)).runs in
      let ended_runs =
        end-lookup id_of_run q o.cancel (happen_all o.meanwhile (registration st).1) in
      rw (run_free st alive free) (
        rw kept
          (ended_runs.0 ∙ same_elsewhere q _ _ a, ended_runs.1 ∙ ap (λ l. o.cancel ∷ l) a.canceled))

  ending-IsSafe :
      (lower : ℕ → ℕ) (st : State) (r : Result Registry.RunError (Unit {0})) (runs : Runs)
      → IsSafe lower st
      → IsSafe lower (registered host machine scratch o id_of_run request st r runs).1
  ending-IsSafe lower st (err e) runs h = record { store = h.store; workers = h.workers }
  ending-IsSafe lower st (ok tt) runs h =
      let st' = record st { runs = runs } in
      let after =
        (run_body-Fine lower host machine scratch o id_of_run request st').safe
          (record { store = h.store; workers = h.workers }) in
      record { store = after.store; workers = after.workers }

  under-IsSafe :
      (lower : ℕ → ℕ) (st : State) (c : Option CtxError)
      → IsSafe lower st
      → IsSafe lower (run_under host machine scratch o c request st).1
  under-IsSafe lower st (some e) h = h
  under-IsSafe lower st none h = ending-IsSafe lower st (registration st).0 (registration st).1 h

  -- However a run goes, and whatever fails in it, the store stays valid, and the workers stay those
  -- that are alive, at most one for a project.
  pub run_snippet-IsSafe :
      (lower : ℕ → ℕ) (st : State)
      → IsSafe lower st
      → IsSafe lower (run_snippet host machine scratch o request st).1
  unfolding run_snippet
  run_snippet-IsSafe lower st h = under-IsSafe lower st o.ctx h

  -- A run that starts under a live context with a free identifier never ends in the error that its
  -- context has been canceled or is out of time.
  pub run_snippet-NoContext :
      (st : State)
      → o.ctx ≡ none
      → lookup id_of_run st.runs ≡ none
      → NoContext (run_snippet host machine scratch o request st).0
  run_snippet-NoContext st alive free =
      rw (run_free st alive free)
        ((run_body-Fine (λ c. c) host machine scratch o id_of_run request (in_map st)).plain)
