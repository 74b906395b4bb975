-- ===== src/Lsp/Tests.antt =====
-- Runs of the framing.
use gopoke.Base.{◌≡◌, refl, true, false, some, List, [], ◌∷◌, ◌++◌, arith}
use gopoke.Text.{Text, codes, trim_space}
use gopoke.Text.Decimal.{max_int, format, atoi}
use gopoke.Text.Search.{blank_line}
use gopoke.Lsp.Workspace.{go_mod_content}
use gopoke.Lsp.Manager
use gopoke.Lsp.Manager.Reachable.{IsConsistent, fresh, started, served, Reach-IsConsistent}
use gopoke.Lsp.Framing.{more, panicked, token, header_for, frame, split_content_length, scan_all}
use gopoke.Lsp.Framing.RoundTrip.{split_panics}
use gopoke.Lsp.Framing.Stream.{stream, scan_all-stream}
use gopoke.Lsp.Session
use gopoke.Lsp.Session.{
  complete, received, socket_closed, scanned, output_ended, opened, handle_ws, is_over,
}
use gopoke.Lsp.Session.Stream.{handle_ws-stream, run-waits}

abbrev hello : Text
hello = codes "{}"

framed : frame hello ≡ codes "Content-Length: 2" ++ blank_line ++ codes "{}"
unfolding frame format
framed = refl

-- Other headers may stand before the length, and names have any case.
two_headers :
    split_content_length
      (codes "X: 1" ++ 13 ∷ 10 ∷ codes "CONTENT-length:2" ++ blank_line ++ codes "{}x")
      false
    ≡ token 28 hello
unfolding split_content_length atoi trim_space
two_headers = refl

scan_all-stream_example :
    scan_all 3 (stream (hello ∷ codes "[1]" ∷ [])) ≡ (hello ∷ codes "[1]" ∷ [], more)
unfolding frame format
scan_all-stream_example =
    scan_all-stream (hello ∷ codes "[1]" ∷ []) 3
      ((refl, omega arith, refl), ((refl, omega arith, refl), tt)) (omega arith)

split_panics_example :
    split_content_length (header_for max_int ++ blank_line ++ []) false ≡ panicked
unfolding format
split_panics_example = split_panics max_int [] false (omega arith) (omega arith) (omega arith)

abbrev lsp_host : Manager.Host
lsp_host = record {
  cleanup_ok = true;
  gopls = true;
  mkdir_ok = true;
  go_mod_ok = true;
  listen = some 4000;
}

-- The goroutine of the first session's proxy ends while the second session runs.
Reach-IsConsistent_example : IsConsistent (
    Manager.serve_end 0
      (Manager.start_for_project lsp_host
        (codes "/q")
        (Manager.start_for_project lsp_host (codes "/p") Manager.new_manager).1).1)
Reach-IsConsistent_example = Reach-IsConsistent (
    served 0
      (started lsp_host (codes "/q") refl refl (started lsp_host (codes "/p") refl refl fresh)))

workspace :
    go_mod_content (some (codes "module m\n go 1.21 \n"))
    ≡ codes "module gopoke-snippet\n\ngo 1.21\n"
unfolding go_mod_content
workspace = refl

abbrev session_host : Session.Host
session_host = record { upgrade_ok = true; stdin_ok = true; stdout_ok = true; start_ok = true }

-- A message past the end of the WebSocket is not carried.
abbrev session_events : List Session.Event
session_events =
    received hello complete complete
    ∷ scanned (codes "{1}") true
    ∷ received (codes "[1]") complete complete
    ∷ output_ended
    ∷ socket_closed
    ∷ received hello complete complete
    ∷ []

handle_ws-stream_example :
    scan_all 3 (Session.run session_events opened).stdin ≡ (hello ∷ codes "[1]" ∷ [], more)
unfolding handle_ws frame format
handle_ws-stream_example =
    handle_ws-stream session_host session_events (Session.run session_events opened) refl (
      (refl, refl, (refl, omega arith, refl)),
      (
        tt,
        (
          (refl, refl, (refl, omega arith, refl)),
          (tt, (tt, ((refl, refl, (refl, omega arith, refl)), tt))),
        ),
      ),
    )

run-waits_example :
    is_over (Session.run (output_ended ∷ scanned (codes "x") true ∷ []) opened) ≡ false
run-waits_example =
    run-waits (output_ended ∷ scanned (codes "x") true ∷ []) opened refl (refl, (refl, tt))
