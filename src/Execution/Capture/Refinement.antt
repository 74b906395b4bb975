-- ===== src/Execution/Capture/Refinement.antt =====
-- About limitedCaptureWriter of internal/execution/snippet_runner.go, against the output as a whole.
use gopoke.Base.{
  ℕ, zero, suc, ◌+◌, ◌-◌, ◌≤◌, ◌<◌, ◌≡◌, refl, sym, ap, ◌∙◌, Bool, true, false, List, [], ◌∷◌, ◌++◌,
  length, take, min, ltb, arith, Bool-cases, inl, inr, length-append, take-append, take-all,
  length-take, ◌==◌, if◌then◌else◌,
}
use mathlib.Core.List.{append_assoc, append-nil}
use gopoke.Execution.Capture.{CaptureWriter, Bytes, new_writer, accept, take_in, write, write_all}

-- The whole output of some writes.
abbrev pub output : List Bytes → Bytes
output [] = []
output (p ∷ ps) = p ++ output ps

-- What a writer holds after the output `all`.
pub record Holds (max_bytes : ℕ) (all : Bytes) (w : CaptureWriter) : Type 0 where
  pub limit : w.max_bytes ≡ max_bytes
  pub kept : w.buffer ≡ take max_bytes all
  pub sized : w.size ≡ min max_bytes (length all)
  pub flagged : w.truncated ≡ ltb max_bytes (length all)
  pub streamed : output w.chunks ≡ (if w.on_chunk then w.buffer else [])

output-append : (ps qs : List Bytes) → output (ps ++ qs) ≡ output ps ++ output qs
output-append [] qs = refl
output-append (p ∷ ps) qs = rw (output-append ps qs) (sym (append_assoc p (output ps) (output qs)))

-- What `accept` does, whether it is given bytes or none.
accept-buffer :
    (w : CaptureWriter) (q : Bytes) (cut : Bool) → (accept w q cut).buffer ≡ w.buffer ++ q
accept-buffer w [] cut = sym (append-nil w.buffer)
accept-buffer w (b ∷ bs) cut = refl

accept-size :
    (w : CaptureWriter) (q : Bytes) (cut : Bool) → (accept w q cut).size ≡ w.size + length q
accept-size w [] cut = omega arith
accept-size w (b ∷ bs) cut = refl

accept-flag : (w : CaptureWriter) (q : Bytes) (cut : Bool) → (accept w q cut).truncated ≡ cut
accept-flag w [] cut = refl
accept-flag w (b ∷ bs) cut = refl

accept-limit :
    (w : CaptureWriter) (q : Bytes) (cut : Bool) → (accept w q cut).max_bytes ≡ w.max_bytes
accept-limit w [] cut = refl
accept-limit w (b ∷ bs) cut = refl

accept-stream :
    (w : CaptureWriter) (q : Bytes) (cut : Bool)
    → output w.chunks ≡ (if w.on_chunk then w.buffer else [])
    → output (accept w q cut).chunks
      ≡ (if (accept w q cut).on_chunk then (accept w q cut).buffer else [])
accept-stream w [] cut h = h
accept-stream w (b ∷ bs) cut h = elim (Bool-cases w.on_chunk) [
  | inl on ↦
      let held : output w.chunks ≡ w.buffer = h ∙ rw on in
      rw on (
        output-append w.chunks ((b ∷ bs) ∷ [])
        ∙ rw held (ap (λ r. w.buffer ++ b ∷ r) (append-nil bs)))
  | inr off ↦ rw off (h ∙ rw off)
]

-- A writer that has taken in part of an output, at the end of a larger part.
accept-Holds :
    (max_bytes : ℕ) (all p q : Bytes) (cut : Bool) (w : CaptureWriter)
    → Holds max_bytes all w
    → take (max_bytes - length all) p ≡ q
    → cut ≡ ltb max_bytes (length (all ++ p))
    → Holds max_bytes (all ++ p) (accept w q cut)
accept-Holds max_bytes all p q cut w h part flag = record {
  limit = accept-limit w q cut ∙ h.limit;
  kept = accept-buffer w q cut ∙ rw (h.kept, ← part) (sym (take-append max_bytes all p));
  sized =
      accept-size w q cut
      ∙ rw (h.sized, ← part)
          (omega (arith, length-take (max_bytes - length all) p, length-append all p));
  flagged = accept-flag w q cut ∙ flag;
  streamed = accept-stream w q cut h.streamed;
}

module _ (max_bytes : ℕ) (all : Bytes) (w : CaptureWriter) (h : Holds max_bytes all w) where
  -- The part of Write past the first test, for a writer with room left.
  write-room :
      (p : Bytes)
      → length all < max_bytes
      → Holds max_bytes (all ++ p) (
          if ltb (max_bytes - length all) (length p)
          then accept w (take (max_bytes - length all) p) true
          else accept w p w.truncated)
  write-room p room = elim (Bool-cases (ltb (max_bytes - length all) (length p))) [
    | inl e ↦
        rw e (accept-Holds max_bytes all p _ true w h refl (ground (arith, length-append all p)))
    | inr e ↦ rw e (
        accept-Holds max_bytes all p p w.truncated w h
          (take-all (max_bytes - length all) p (ground arith))
          (ground (arith, h.flagged, length-append all p)))
  ]

  -- A writer that is full keeps what it has, and is flagged.
  write-full :
      (b : ℕ) (bs : Bytes)
      → max_bytes ≤ length all
      → Holds max_bytes (all ++ b ∷ bs) (record w { truncated = true })
  write-full b bs full = record {
    limit = h.limit;
    kept =
        let nothing : max_bytes - length all ≡ 0 = omega arith in
        h.kept ∙ sym (take-append max_bytes all (b ∷ bs) ∙ rw nothing (append-nil _));
    sized = omega (arith, h.sized, length-append all (b ∷ bs));
    flagged = ground (arith, length-append all (b ∷ bs));
    streamed = h.streamed;
  }

  write-Holds : (p : Bytes) → Holds max_bytes (all ++ p) (write w p).0
  unfolding write
  write-Holds [] = rw append-nil h
  write-Holds (b ∷ bs) = elim (Bool-cases (ltb (length all) max_bytes)) [
    | inl e ↦
        let room : w.max_bytes - w.size ≡ max_bytes - length all =
          ground (arith, h.limit, h.sized) in
        let open_ : ((max_bytes - length all) == 0) ≡ false = ground arith in
        rw (room, open_) (write-room (b ∷ bs) (ground arith))
    | inr e ↦
        let none_left : w.max_bytes - w.size ≡ 0 = ground (arith, h.limit, h.sized) in
        rw none_left (write-full b bs (ground arith))
  ]

new_writer-Holds :
    (max_bytes : ℕ) (on_chunk : Bool) → Holds max_bytes [] (new_writer max_bytes on_chunk)
unfolding new_writer
new_writer-Holds max_bytes on_chunk = record {
  limit = refl;
  kept = none_kept max_bytes;
  sized = omega arith;
  flagged = ground arith;
  streamed = ground arith;
}
  where
    none_kept : (n : ℕ) → [] ≡ take {A = ℕ} n []
    none_kept zero = refl
    none_kept (suc n) = refl

write_all-Holds :
    (max_bytes : ℕ) (all : Bytes) (w : CaptureWriter) (ps : List Bytes)
    → Holds max_bytes all w
    → Holds max_bytes (all ++ output ps) (write_all w ps)
unfolding write_all
write_all-Holds max_bytes all w [] h = rw append-nil h
write_all-Holds max_bytes all w (p ∷ ps) h =
    rw (← append_assoc all p (output ps))
      (write_all-Holds max_bytes (all ++ p) (write w p).0 ps (write-Holds max_bytes all w h p))

accept-on_chunk :
    (w : CaptureWriter) (q : Bytes) (cut : Bool) → (accept w q cut).on_chunk ≡ w.on_chunk
accept-on_chunk w [] cut = refl
accept-on_chunk w (b ∷ bs) cut = refl

take_in-on_chunk : (w : CaptureWriter) (p : Bytes) → (take_in w p).on_chunk ≡ w.on_chunk
unfolding take_in
take_in-on_chunk w [] = refl
take_in-on_chunk w (b ∷ bs) = elim (Bool-cases ((w.max_bytes - w.size) == 0)) [
  | inl t ↦ rw t refl
  | inr f ↦ elim (Bool-cases (ltb (w.max_bytes - w.size) (length (b ∷ bs)))) [
    | inl u ↦ rw (f, u) (accept-on_chunk w (take (w.max_bytes - w.size) (b ∷ bs)) true)
    | inr v ↦ rw (f, v) (accept-on_chunk w (b ∷ bs) w.truncated)
  ]
]

write_all-on_chunk : (w : CaptureWriter) (ps : List Bytes) → (write_all w ps).on_chunk ≡ w.on_chunk
unfolding write_all write
write_all-on_chunk w [] = refl
write_all-on_chunk w (p ∷ ps) = write_all-on_chunk (take_in w p) ps ∙ take_in-on_chunk w p

-- However the output comes, the writer keeps its first bytes up to the limit, counts them, and sets the
-- flag exactly if the output is longer than the limit; a handler that was given gets exactly the bytes
-- that are kept, and without one nothing is streamed.
pub capture-Holds :
    (max_bytes : ℕ) (on_chunk : Bool) (ps : List Bytes)
    → let w = write_all (new_writer max_bytes on_chunk) ps in
      Holds max_bytes (output ps) w
      × (output w.chunks ≡ (if on_chunk then take max_bytes (output ps) else []))
capture-Holds max_bytes on_chunk ps =
    let w = write_all (new_writer max_bytes on_chunk) ps in
    let h : Holds max_bytes (output ps) w =
      write_all-Holds max_bytes [] (new_writer max_bytes on_chunk) ps
        (new_writer-Holds max_bytes on_chunk) in
    let given : w.on_chunk ≡ on_chunk =
      write_all-on_chunk (new_writer max_bytes on_chunk) ps ∙ (unfold new_writer in refl) in
    (
      h,
      h.streamed
          ∙ ap (λ b. if b then w.buffer else []) given
          ∙ ap (λ q. if on_chunk then q else []) h.kept,
    )
