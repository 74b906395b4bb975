-- ===== src/Lsp/Session/Stream.antt =====
-- About what the two goroutines of handleWS carry, and about when they end.
use gopoke.Base.{
  suc, ◌≡◌, refl, sym, ap, ◌∙◌, Bool, true, false, false≢true, Bool-cases, List, [], ◌∷◌, ◌++◌, All,
  length, ok, arith, inl, inr,
}
use mathlib.Core.List.{append_assoc, append-nil}
use gopoke.Text.{Text}
use gopoke.Text.Search.{blank_line}
use gopoke.Lsp.Framing.{more, header_of, frame, scan_all}
use gopoke.Lsp.Framing.Stream.{stream, IsMessage, scan_all-stream}
use gopoke.Lsp.Session.{
  Host, Write, complete, Event, received, socket_closed, scanned, output_ended, Session, opened,
  step, run, handle_ws, is_over,
}

-- The messages that come before the WebSocket is closed.
abbrev pub requests : List Event → List Text
requests [] = []
requests (received msg header body ∷ es) = msg ∷ requests es
requests (socket_closed ∷ es) = []
requests (scanned token write_ok ∷ es) = requests es
requests (output_ended ∷ es) = requests es

-- A message that can be framed, and is written as a whole.
abbrev pub IsWhole : Event → Type 0
IsWhole (received msg header body) = (header ≡ complete) × (body ≡ complete) × IsMessage msg
IsWhole socket_closed = Unit
IsWhole (scanned token write_ok) = Unit
IsWhole output_ended = Unit

requests-IsMessage : (es : List Event) → All IsWhole es → All IsMessage (requests es)
requests-IsMessage [] a = tt
requests-IsMessage (received msg header body ∷ es) a = (a.0.2, requests-IsMessage es a.1)
requests-IsMessage (socket_closed ∷ es) a = tt
requests-IsMessage (scanned token write_ok ∷ es) a = requests-IsMessage es a.1
requests-IsMessage (output_ended ∷ es) a = requests-IsMessage es a.1

abbrev IsClosed : Session → Session → Type 0
IsClosed s s' = (s'.stdin ≡ s.stdin) × (s'.reading ≡ false)

step-IsClosed : (e : Event) (s : Session) → s.reading ≡ false → IsClosed s (step e s)
unfolding step
step-IsClosed (received msg header body) s h = rw h (refl, refl)
step-IsClosed socket_closed s h = (refl, refl)
step-IsClosed (scanned token true) s h = elim (Bool-cases s.writing) [
  | inl w ↦ rw w (refl, h)
  | inr w ↦ rw w (refl, h)
]
step-IsClosed (scanned token false) s h = elim (Bool-cases s.writing) [
  | inl w ↦ rw w (refl, h)
  | inr w ↦ rw w (refl, h)
]
step-IsClosed output_ended s h = (refl, h)

-- Once the first goroutine has ended, gopls is given nothing more.
run-closed : (es : List Event) (s : Session) → s.reading ≡ false → (run es s).stdin ≡ s.stdin
unfolding run
run-closed [] s h = refl
run-closed (e ∷ es) s h = let c = step-IsClosed e s h in run-closed es (step e s) c.1 ∙ c.0

-- An event of the gopls side leaves the first goroutine as it is.
abbrev of_socket : Event → Bool
of_socket (received msg header body) = true
of_socket socket_closed = true
of_socket (scanned token write_ok) = false
of_socket output_ended = false

abbrev Kept : Session → Session → Type 0
Kept s s' = (s'.stdin ≡ s.stdin) × (s'.reading ≡ s.reading)

step-Kept : (e : Event) (s : Session) → of_socket e ≡ false → Kept s (step e s)
unfolding step
step-Kept (received msg header body) s h = absurd (false≢true (sym h))
step-Kept socket_closed s h = absurd (false≢true (sym h))
step-Kept (scanned token true) s h = elim (Bool-cases s.writing) [
  | inl w ↦ rw w (refl, refl)
  | inr w ↦ rw w (refl, refl)
]
step-Kept (scanned token false) s h = elim (Bool-cases s.writing) [
  | inl w ↦ rw w (refl, refl)
  | inr w ↦ rw w (refl, refl)
]
step-Kept output_ended s h = (refl, refl)

-- While the WebSocket is silent, handleWS does not get past its wait, whatever gopls does: its end
-- included.
pub run-waits :
    (es : List Event) (s : Session)
    → s.reading ≡ true
    → All (λ e. of_socket e ≡ false) es
    → is_over (run es s) ≡ false
unfolding run
run-waits [] s h a = rw h refl
run-waits (e ∷ es) s h a = run-waits es (step e s) ((step-Kept e s a.0).1 ∙ h) a.1

framed_append :
    (before header blank msg rest : Text)
    → (before ++ header ++ blank ++ msg) ++ rest ≡ before ++ ((header ++ blank ++ msg) ++ rest)
framed_append before header blank msg rest =
    ap (λ x. x ++ rest)
      (ap (λ x. x ++ msg) (append_assoc before header blank)
        ∙ append_assoc before (header ++ blank) msg)
    ∙ append_assoc before (header ++ blank ++ msg) rest

-- A message that is written as a whole.
step-received :
    (msg : Text) (header body : Write) (s : Session)
    → s.reading ≡ true
    → header ≡ complete
    → body ≡ complete
    → ((step (received msg header body) s).stdin ≡ s.stdin ++ header_of msg ++ blank_line ++ msg)
      × ((step (received msg header body) s).reading ≡ true)
unfolding step
step-received msg header body s h c c' = rw (h, c, c') (refl, refl)

run-stream :
    (es : List Event) (s : Session)
    → s.reading ≡ true
    → All IsWhole es
    → (run es s).stdin ≡ s.stdin ++ stream (requests es)
unfolding run step
run-stream [] s h a = sym (append-nil s.stdin)
run-stream (received msg header body ∷ es) s h a =
    let w = step-received msg header body s h a.0.0 a.0.1 in
    run-stream es (step (received msg header body) s) w.1 a.1
    ∙ ap (λ p. p ++ stream (requests es)) w.0
    ∙ (unfold frame in framed_append s.stdin (header_of msg) blank_line msg (stream (requests es)))
run-stream (socket_closed ∷ es) s h a =
    run-closed es (step socket_closed s) refl ∙ sym (append-nil s.stdin)
run-stream (scanned token write_ok ∷ es) s h a =
    let k = step-Kept (scanned token write_ok) s refl in
    run-stream es (step (scanned token write_ok) s) (k.1 ∙ h) a.1
    ∙ ap (λ p. p ++ stream (requests es)) k.0
run-stream (output_ended ∷ es) s h a = run-stream es _ h a.1

-- The session that a call of handleWS has come to.
handle_ws-run :
    (h : Host) (es : List Event) (s : Session) → handle_ws h es ≡ ok s → run es opened ≡ s
unfolding handle_ws
handle_ws-run h es s e = ground arith

-- What handleWS has written to gopls is taken apart, by the code's own scanner, into exactly the
-- messages that came before the WebSocket was closed, in their order, however the events of the two
-- goroutines interleave; if each message can be framed and is written as a whole.
pub handle_ws-stream :
    (h : Host) (es : List Event) (s : Session)
    → handle_ws h es ≡ ok s
    → All IsWhole es
    → scan_all (suc (length (requests es))) s.stdin ≡ (requests es, more)
handle_ws-stream h es s e a =
    let written : s.stdin ≡ stream (requests es) =
      ap (λ x. x.stdin) (sym (handle_ws-run h es s e)) ∙ run-stream es opened refl a in
    rw written (
      scan_all-stream (requests es) (suc (length (requests es))) (requests-IsMessage es a)
        (omega arith))
