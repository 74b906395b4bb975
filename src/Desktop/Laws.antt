-- ===== src/Desktop/Laws.antt =====
-- About the requests that internal/desktop/wails_bridge.go lets through, and the events of a run.
use gopoke.Base.{◌≡◌, refl, ap, Bool, false, List, [], ◌∷◌, ◌++◌, map, All, Result, is_ok}
use gopoke.Text.{Text, is_empty}
use gopoke.Settings.{GlobalSettings}
use gopoke.Download.Progress.{Progress}
use gopoke.Desktop.{
  Event, stdout_chunk, stderr_chunk, Chunk, stdout, stderr, text_of, Bridge, request_context,
  forward, open_with_lsp, chunk_events, run_snippet, download, download_tool, read, choose,
  browse_for_binary,
}

-- A request of the frontend.
pub data Request (S E : Type 0) : Type 1 where
  calling : {A : Type 0} → (S → Result E A × S) → Request S E
  opening :
      {A B : Type 0} → (S → Result E A × S) → (Text → S → Result E B × S) → (A → Text) → Request S E
  running : {A : Type 0} → (Text → S → (Result E A × List Chunk) × S) → Text → Text → Request S E
  downloading : {A : Type 0} → Text → Text → Result E A → List Progress → Request S E
  installing :
      {A : Type 0}
      → Text
      → Text
      → (S → Result E GlobalSettings × S)
      → (Text → Result E A × List Progress)
      → Request S E
  reading : {A : Type 0} → (S → A) → Request S E
  choosing browsing : Result E Text → Request S E

module _ {S E : Type 0} where
  -- Whether a request succeeds, and the bridge after it.
  unfoldable pub handle : Request S E → Bridge S E → Bool × Bridge S E
  unfolding forward open_with_lsp run_snippet download download_tool read choose browse_for_binary
  handle (calling method) b = let (r, b') = forward method b in (is_ok r, b')
  handle (opening f l d) b = let (r, b') = open_with_lsp f l d b in (is_ok r, b')
  handle (running f given generated) b =
      let (r, b') = run_snippet f given generated b in (is_ok r, b')
  handle (downloading tool at r events) b =
      let (x, b') = download tool at r events b in (is_ok x, b')
  handle (installing tool at settings install) b =
      let (x, b') = download_tool tool at settings install b in (is_ok x, b')
  handle (reading f) b = let (r, b') = read f b in (is_ok r, b')
  handle (browsing dialog) b = let (r, b') = browse_for_binary dialog b in (is_ok r, b')
  handle (choosing dialog) b = let (r, b') = choose dialog b in (is_ok r, b')

  -- The requests that come one after the other.
  unfoldable pub handle_all : List (Request S E) → Bridge S E → Bridge S E
  unfolding handle
  handle_all [] b = b
  handle_all (r ∷ rs) b = handle_all rs (handle r b).1

  -- A bridge that lets no request through.
  abbrev pub IsClosed : Bridge S E → Type 0
  IsClosed b = is_ok (request_context b) ≡ false

-- The text of a run's chunks that an event carries on, and its run.
abbrev pub carried : Event → Text
carried (stdout_chunk id s) = s
carried (stderr_chunk id s) = s
carried e = []

abbrev pub concat : List Text → Text
concat [] = []
concat (s ∷ ss) = s ++ concat ss

-- The events of a run carry its whole output, in its order, and no event is empty.
pub chunk_events-carried :
    (id : Text) (chunks : List Chunk)
    → (concat (map carried (chunk_events id chunks)) ≡ concat (map text_of chunks))
      × All (λ e. is_empty (carried e) ≡ false) (chunk_events id chunks)
unfolding chunk_events
chunk_events-carried id [] = (refl, tt)
chunk_events-carried id (stdout [] ∷ chunks) = chunk_events-carried id chunks
chunk_events-carried id (stderr [] ∷ chunks) = chunk_events-carried id chunks
chunk_events-carried id (stdout (c ∷ s) ∷ chunks) =
    let rest = chunk_events-carried id chunks in (ap (λ t. (c ∷ s) ++ t) rest.0, (refl, rest.1))
chunk_events-carried id (stderr (c ∷ s) ∷ chunks) =
    let rest = chunk_events-carried id chunks in (ap (λ t. (c ∷ s) ++ t) rest.0, (refl, rest.1))
