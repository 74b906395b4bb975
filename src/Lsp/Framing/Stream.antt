-- ===== src/Lsp/Framing/Stream.antt =====
-- About a run of frames that the scanner of internal/lsp/proxy.go reads to the end.
use gopoke.Base.{
  ℕ, zero, suc, ◌<◌, ◌≡◌, refl, true, false, List, [], ◌∷◌, ◌++◌, All, length, arith, leb,
  drop-append_length,
}
use gopoke.Text.{Text, is_empty}
use gopoke.Lsp.Framing.{more, frame, max_frame_size, split_content_length, scan_all}
use gopoke.Lsp.Framing.RoundTrip.{Fits, split-frame}

-- The frames of some messages, one after the other.
abbrev pub stream : List Text → Text
stream [] = []
stream (m ∷ ms) = frame m ++ stream ms

-- A message that the proxy can frame, and whose frame fits the scanner's buffer.
abbrev pub IsMessage : Text → Type 0
IsMessage m = (is_empty m ≡ false) × Fits m × (leb (length (frame m)) max_frame_size ≡ true)

-- The scanner takes a run of frames apart into exactly the messages that were sent, in their order,
-- and ends with nothing left; if none is empty and each frame fits the scanner's buffer.
pub scan_all-stream :
    (ms : List Text) (fuel : ℕ)
    → All IsMessage ms
    → length ms < fuel
    → scan_all fuel (stream ms) ≡ (ms, more)
unfolding scan_all
scan_all-stream ms zero a h = absurd (omega arith)
scan_all-stream [] (suc fuel) a h = unfold split_content_length in refl
scan_all-stream (m ∷ ms) (suc fuel) a h = rw (split-frame m (stream ms) true a.0.0 a.0.1) (
    rw a.0.2 (
      rw (drop-append_length (frame m) (stream ms))
        (rw (scan_all-stream ms fuel a.1 (omega arith)))))
