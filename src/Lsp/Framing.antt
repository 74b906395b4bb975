-- ===== src/Lsp/Framing.antt =====
-- The framing of internal/lsp/proxy.go: the header that handleWS writes before a message, and
-- splitContentLength, which takes the messages apart again. Bytes are numbers, and the bytes of a
-- header are ASCII, as the protocol has it. The code adds up the length of a frame as an int, which
-- wraps around past `max_int`: slicing by the negative sum then panics.
pub mod RoundTrip
pub mod Stream
use gopoke.Base.{
  ℕ, zero, suc, ◌+◌, ◌-◌, Bool, true, false, ◌&&◌, not, Option, none, some, List, [], ◌∷◌, ◌++◌,
  map, take, drop, length, Result, ok, err, leb, ltb, ◌==◌, if◌then◌else◌,
}
use gopoke.Base.Int.{ℤ, pos, negsuc}
use gopoke.Text.{Text, codes, is_empty, has_prefix, trim_space}
use gopoke.Text.Decimal.{max_int, format, atoi}
use gopoke.Text.Search.{blank_line, cut, split_crlf}

-- The errors of splitContentLength, and bufio.ErrTooLong of the scanner.
pub data FrameError : Type 0 where
  incomplete_header incomplete_body invalid_length missing_length too_long : FrameError

-- What splitContentLength returns: no token yet, a token with the bytes to move on by, an error, or
-- the panic of a slice whose end has wrapped around.
pub data Split : Type 0 where
  more panicked : Split
  token : ℕ → Text → Split
  failed : FrameError → Split

-- strings.ToLower on ASCII.
abbrev pub lower : ℕ → ℕ
lower c = if leb b'A' c && leb c b'Z' then c + 32 else c

abbrev pub length_prefix : Text
length_prefix = codes "content-length:"

abbrev pub set_length : Option ℤ → (ℤ → Result FrameError ℤ) → Result FrameError ℤ
set_length none next = err invalid_length
set_length (some n) next = next n

-- The loop over the lines of the header.
unfoldable pub content_length : List Text → ℤ → Result FrameError ℤ
unfolding has_prefix
content_length [] n = ok n
content_length (l ∷ ls) n =
    let named =
      set_length (atoi (trim_space (drop (length length_prefix) l))) (content_length ls) in
    let other = content_length ls n in
    if has_prefix (map lower l) length_prefix then named else other

-- The part past the header: `start` bytes stand before the body.
abbrev pub take_body : Bool → ℕ → Text → ℕ → Split
take_body at_eof start rest n =
    if ltb max_int (start + n)
    then panicked
    else if ltb (length rest) n
    then (if at_eof then failed incomplete_body else more)
    else token (start + n) (take n rest)

abbrev pub with_length : Bool → ℕ → Text → Result FrameError ℤ → Split
with_length at_eof start rest (err e) = failed e
with_length at_eof start rest (ok (pos zero)) = failed missing_length
with_length at_eof start rest (ok (pos (suc n))) = take_body at_eof start rest (suc n)
with_length at_eof start rest (ok (negsuc n)) = failed missing_length

abbrev pub split_at : Bool → Option (Text × Text) → Split
split_at at_eof none = if at_eof then failed incomplete_header else more
split_at at_eof (some (header, rest)) =
    with_length at_eof (length header + 4) rest (content_length (split_crlf header) (pos 0))

-- splitContentLength
unfoldable pub split_content_length : Text → Bool → Split
unfolding cut content_length split_crlf
split_content_length data_ at_eof =
    if at_eof && is_empty data_ then more else split_at at_eof (cut blank_line data_)

-- The header for a body of `n` bytes.
abbrev pub header_for : ℕ → Text
header_for n = codes "Content-Length: " ++ format n

abbrev pub header_of : Text → Text
header_of msg = header_for (length msg)

-- What handleWS writes to gopls for one message.
unfoldable pub frame : Text → Text
frame msg = header_of msg ++ blank_line ++ msg

-- The size of the scanner's buffer, which a frame has to fit.
abbrev pub max_frame_size : ℕ
max_frame_size = 1048576

-- One round of the scan loop, by what the split function returns.
abbrev pub round : (Text → List Text × Split) → Text → Split → List Text × Split
round next data_ more = ([], more)
round next data_ panicked = ([], panicked)
round next data_ (failed e) = ([], failed e)
round next data_ (token n t) =
    let (ts, end) = next (drop n data_) in
    if leb n max_frame_size then (t ∷ ts, end) else ([], failed too_long)

-- The scan loop over an input that has come to its end, with fuel: the tokens, and what ended it.
unfoldable pub scan_all : ℕ → Text → List Text × Split
scan_all zero data_ = ([], more)
scan_all (suc fuel) data_ = round (scan_all fuel) data_ (split_content_length data_ true)
