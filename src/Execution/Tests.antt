-- ===== src/Execution/Tests.antt =====
-- Runs of the capture, of the wait and of the result.
use gopoke.Base.{◌≡◌, refl, true, some, List, [], ◌∷◌, deadline_exceeded, if◌then◌else◌, take}
use gopoke.Base.Int.{pos}
use gopoke.Execution.Capture.{CaptureWriter, Bytes, new_writer, write_all}
use gopoke.Execution.Capture.Refinement.{Holds, output, capture-Holds}
use gopoke.Execution.Lifecycle.{
  code, Event, exited, context_done, timer, start, wait_from, expected, nothing, at, wait-expected,
}
use gopoke.Execution.Outcome.{captured, finish, status_of, status_in, status-finish}

-- Three writes, the second of which passes the limit of 4 bytes.
abbrev pieces : List Bytes
pieces = (1 ∷ 2 ∷ 3 ∷ []) ∷ (4 ∷ 5 ∷ []) ∷ (6 ∷ []) ∷ []

pieces_chunks : (write_all (new_writer 4 true) pieces).chunks ≡ (1 ∷ 2 ∷ 3 ∷ []) ∷ (4 ∷ []) ∷ []
unfolding write_all new_writer
pieces_chunks = refl

capture-Holds_example :
    let w = write_all (new_writer 4 true) pieces in
    Holds 4 (output pieces) w × (output w.chunks ≡ (if true then take 4 (output pieces) else []))
capture-Holds_example = capture-Holds 4 true pieces

-- A command that ignores the interrupt, and is killed.
abbrev stubborn : List Event
stubborn = context_done ∷ timer ∷ exited (code (pos 9)) ∷ []

wait-expected_example :
    wait_from start stubborn ≡ at (expected nothing stubborn).0 (expected nothing stubborn).1
wait-expected_example = wait-expected stubborn

abbrev full : CaptureWriter
full = write_all (new_writer 4 true) pieces

status-finish_example :
    status_in (finish (code (pos 9)) (some deadline_exceeded) (captured full full 30))
    ≡ status_of (code (pos 9)) (some deadline_exceeded)
status-finish_example = status-finish (code (pos 9)) (some deadline_exceeded) full full 30
