-- ===== src/Desktop/Tests.antt =====
-- A bridge over an application that counts the calls it gets.
use gopoke.Base.{ℕ, ◌+◌, ◌≡◌, refl, true, false, List, none, [], ◌∷◌, Result, ok, err}
use gopoke.Text.{Text, codes}
use gopoke.Settings.{GlobalSettings, defaults}
use gopoke.Desktop.{
  Chunk, stdout, stderr, stdout_chunk, stderr_chunk, toolbar, new_bridge, startup, run_snippet,
}
use gopoke.Desktop.Laws.{Request, calling, running, installing, reading, choosing}

abbrev failing : ℕ → Result ℕ (Unit {0}) × ℕ
failing n = (err 7, n)

abbrev starting : ℕ → Result ℕ (Unit {0}) × ℕ
starting n = (ok tt, n)

abbrev method : ℕ → Result ℕ ℕ × ℕ
method n = (ok n, n + 1)

abbrev session : Text → ℕ → Result ℕ (Unit {0}) × ℕ
session dir n = (ok tt, n + 10)

abbrev run : Text → ℕ → (Result ℕ ℕ × List Chunk) × ℕ
run id n = ((ok n, stdout (codes "a") ∷ stdout [] ∷ stderr (codes "b") ∷ []), n + 1)

abbrev settings : ℕ → Result ℕ GlobalSettings × ℕ
settings n = (ok defaults, n + 1)

abbrev requests : List (Request ℕ ℕ)
requests =
    calling method
    ∷ running run (codes "r") (codes "g")
    ∷ installing (codes "gopls") (codes "/b/gopls") settings (λ go. (ok go, []))
    ∷ reading (λ n. n + 1)
    ∷ choosing (ok (codes "/p"))
    ∷ []

streamed :
    (run_snippet run
      (codes " r ")
      (codes "g")
      (startup starting (λ n. codes "/s") session (new_bridge 0))).1
    ≡ record {
      app = 11;
      started = true;
      startup_err = none;
      shutdown_err = none;
      emitted =
          toolbar true
          ∷ stdout_chunk (codes "r") (codes "a")
          ∷ stderr_chunk (codes "r") (codes "b")
          ∷ toolbar false
          ∷ [];
    }
unfolding run_snippet startup
streamed = refl
