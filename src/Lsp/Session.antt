-- ===== src/Lsp/Session.antt =====
-- handleWS of internal/lsp/proxy.go: one goroutine carries messages from the WebSocket to gopls, the
-- other carries them back. What each of them meets is an event, in the order in which they arrive. The
-- context that both cancel is used by nobody, so that a goroutine that ends leaves the other as it is.
pub mod Stream
use gopoke.Base.{
  Bool, true, false, not, ◌&&◌, List, [], ◌∷◌, ◌++◌, Option, none, some, take, ℕ, Result, ok, err,
  if◌then◌else◌,
}
use gopoke.Text.{Text}
use gopoke.Text.Search.{blank_line}
use gopoke.Lsp.Framing.{header_of}

-- The errors after which handleWS returns at once.
pub data Error : Type 0 where
  upgrade_failed stdin_failed stdout_failed start_failed : Error

-- What the start of a session meets.
pub record Host : Type 0 where
  pub upgrade_ok : Bool
  pub stdin_ok : Bool
  pub stdout_ok : Bool
  pub start_ok : Bool

-- A write to gopls is complete, or fails behind some bytes.
pub data Write : Type 0 where
  complete : Write
  partial : ℕ → Write

-- ReadMessage gives a message, whose header and body are then written as told, or fails; the scanner
-- gives a token, with whether WriteMessage succeeds, or ends.
pub data Event : Type 0 where
  received : Text → Write → Write → Event
  socket_closed : Event
  scanned : Text → Bool → Event
  output_ended : Event

-- The bytes that gopls has been given, the messages that the WebSocket has been given, and which of the
-- two goroutines run. The standard input of gopls is open while the first one runs.
pub record Session : Type 0 where
  pub stdin : Text
  pub sent : List Text
  pub reading : Bool
  pub writing : Bool

abbrev pub opened : Session
opened = record { stdin = []; sent = []; reading = true; writing = true }

abbrev pub write_body : Write → Text → Session → Session
write_body complete msg s = record s { stdin = s.stdin ++ msg }
write_body (partial n) msg s = record s { stdin = s.stdin ++ take n msg; reading = false }

-- The header and the blank line are one string.
abbrev pub write_message : Write → Write → Text → Session → Session
write_message complete body msg s =
    write_body body msg (record s { stdin = s.stdin ++ header_of msg ++ blank_line })
write_message (partial n) body msg s = record s {
  stdin = s.stdin ++ take n (header_of msg ++ blank_line);
  reading = false;
}

abbrev pub send : Text → Bool → Session → Session
send token true s = record s { sent = s.sent ++ token ∷ [] }
send token false s = record s { writing = false }

-- One round of the loop that the event is about, if it still runs.
unfoldable pub step : Event → Session → Session
step (received msg header body) s = if s.reading then write_message header body msg s else s
step socket_closed s = record s { reading = false }
step (scanned token write_ok) s = if s.writing then send token write_ok s else s
step output_ended s = record s { writing = false }

unfoldable pub run : List Event → Session → Session
unfolding step
run [] s = s
run (e ∷ es) s = run es (step e s)

-- wg.Wait() returns.
abbrev pub is_over : Session → Bool
is_over s = not s.reading && not s.writing

-- handleWS, with the events so far.
unfoldable pub handle_ws : Host → List Event → Result Error Session
unfolding run
handle_ws h events =
    if h.upgrade_ok
    then (if h.stdin_ok
        then (if h.stdout_ok
            then (if h.start_ok then ok (run events opened) else err start_failed)
            else err stdout_failed)
        else err stdin_failed)
    else err upgrade_failed
