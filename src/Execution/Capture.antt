-- ===== src/Execution/Capture.antt =====
-- limitedCaptureWriter of internal/execution/snippet_runner.go: the output of a run, capped. Bytes
-- are numbers, and `chunks` are the calls of onChunk, oldest first.
pub mod Refinement
use gopoke.Base.{
  ℕ, ◌+◌, ◌-◌, Bool, true, false, Option, none, some, List, [], ◌∷◌, ◌++◌, length, take, ltb,
  ==_iff, ◌==◌, if◌then◌else◌,
}
use gopoke.Base.Int.{ℤ, pos, negsuc, ltb_ℤ}
use gopoke.Text.{is_empty}

abbrev pub Bytes : Type 0
Bytes = List ℕ

-- limitedCaptureWriter; `max_bytes` is what resolveMaxBytes gives, so it is not negative.
pub record CaptureWriter : Type 0 where
  pub buffer : Bytes
  pub max_bytes : ℕ
  pub size : ℕ
  pub truncated : Bool
  pub on_chunk : Bool
  pub chunks : List Bytes

-- DefaultMaxOutputBytes
abbrev pub default_max_output_bytes : ℕ
default_max_output_bytes = 131072

-- resolveMaxBytes
unfoldable pub resolve_max_bytes : ℤ → ℕ
resolve_max_bytes (pos n) = if ltb 0 n then n else default_max_output_bytes
resolve_max_bytes (negsuc n) = default_max_output_bytes

-- newLimitedCaptureWriter; `on_chunk` tells whether there is a handler.
unfoldable pub new_writer : ℕ → Bool → CaptureWriter
new_writer max_bytes on_chunk = record {
  buffer = [];
  max_bytes = max_bytes;
  size = 0;
  truncated = false;
  on_chunk = on_chunk;
  chunks = [];
}

-- The part of Write after `accepted` is cut: bytes.Buffer.Write does not fail.
abbrev pub accept : CaptureWriter → Bytes → Bool → CaptureWriter
accept w [] cut = record w { truncated = cut }
accept w (b ∷ bs) cut = record w {
  buffer = w.buffer ++ b ∷ bs;
  size = w.size + length (b ∷ bs);
  truncated = cut;
  chunks = if w.on_chunk then w.chunks ++ (b ∷ bs) ∷ [] else w.chunks;
}

-- The state after limitedCaptureWriter.Write.
unfoldable pub take_in : CaptureWriter → Bytes → CaptureWriter
take_in w [] = w
take_in w (b ∷ bs) =
    let p = b ∷ bs in
    let remaining = w.max_bytes - w.size in
    if remaining == 0
    then record w { truncated = true }
    else if ltb remaining (length p)
    then accept w (take remaining p) true
    else accept w p w.truncated

-- limitedCaptureWriter.Write: on every path it reports all bytes as written.
unfoldable pub write : CaptureWriter → Bytes → CaptureWriter × ℕ
unfolding take_in
write w p = (take_in w p, length p)

-- The writes of a process, one after the other.
unfoldable pub write_all : CaptureWriter → List Bytes → CaptureWriter
unfolding write
write_all w [] = w
write_all w (p ∷ ps) = write_all (write w p).0 ps
