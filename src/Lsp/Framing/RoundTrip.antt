-- ===== src/Lsp/Framing/RoundTrip.antt =====
-- About a frame that splitContentLength of internal/lsp/proxy.go meets, whole or in part.
use gopoke.Base.{
  ℕ, zero, suc, ◌+◌, ◌-◌, ◌≤◌, ◌<◌, ◌≡◌, refl, ap, ◌∙◌, Bool, true, false, ◌&&◌, not, [], ◌∷◌, ◌++◌,
  take, length, any, ok, ltb, ◌==◌, arith, if◌then◌else◌, length-append, length-take, take-append,
  take-all, take-append_length, Bool-cases, inl, inr,
}
use gopoke.Base.Int.{pos}
use gopoke.Text.{Text, is_empty, trim_space, is_space}
use gopoke.Text.Trim.{trim-none}
use gopoke.Text.Decimal.{max_int, is_digit, format, format-IsDigit, atoi-format}
use gopoke.Text.Search.{blank_line, IsLine, cut-line, cut-take, split_crlf-line}
use gopoke.Lsp.Framing.{
  more, panicked, token, failed, incomplete_body, content_length, take_body, split_content_length,
  header_for, header_of, frame,
}
use mathlib.Core.List.{append_assoc}

any_none :
    (p q : ℕ → Bool)
    → ((c : ℕ) → p c ≡ false → q c ≡ false)
    → (s : Text) → any p s ≡ false
    → any q s ≡ false
any_none p q m [] h = refl
any_none p q m (c ∷ s) h = ground (arith, m c, any_none p q m s)

header-IsLine : (n : ℕ) → IsLine (header_for n)
header-IsLine n =
    any_none (λ c. not (is_digit c)) (λ c. c == b'\r') (λ c h. ground arith) (format n)
      (format-IsDigit n)

content_length-header :
    (n : ℕ) → n ≤ max_int → content_length (header_for n ∷ []) (pos 0) ≡ ok (pos n)
unfolding content_length
content_length-header n h =
    let digits : trim_space (b' ' ∷ format n) ≡ format n = trim-none (format n) (
      any_none (λ c. not (is_digit c)) is_space (λ c d. unfold is_space in ground arith) (format n)
        (format-IsDigit n)) in
    rw (digits, atoi-format n h)

and_false : (b : Bool) → (b && false) ≡ false
and_false true = refl
and_false false = refl

-- A header that is complete is read, whatever of the body is there.
split-header :
    (n : ℕ) (rest : Text) (at_eof : Bool)
    → 0 < n
    → n ≤ max_int
    → split_content_length (header_for n ++ blank_line ++ rest) at_eof
      ≡ take_body at_eof (length (header_for n) + 4) rest n
unfolding split_content_length
split-header zero rest at_eof e m = absurd (omega arith)
split-header (suc k) rest at_eof e m =
    let n = suc k in
    rw
      (
        cut-line (header_for n) rest (header-IsLine n),
        split_crlf-line (header_for n) (header-IsLine n),
        content_length-header n m,
      )
      (rw (and_false at_eof))

-- A header that announces an int too large to be added to its own length makes the proxy panic.
pub split_panics :
    (n : ℕ) (rest : Text) (at_eof : Bool)
    → 0 < n
    → n ≤ max_int
    → max_int < length (header_for n) + 4 + n
    → split_content_length (header_for n ++ blank_line ++ rest) at_eof ≡ panicked
split_panics n rest at_eof e m over =
    let wraps : ltb max_int (length (header_for n) + 4 + n) ≡ true = ground arith in
    split-header n rest at_eof e m ∙ rw wraps

nonempty : (msg : Text) → is_empty msg ≡ false → 0 < length msg
nonempty [] e = cc
nonempty (b ∷ bs) e = omega arith

-- The length of a frame is an int.
abbrev pub Fits : Text → Type 0
Fits msg = length (frame msg) ≤ max_int

length-header : (msg : Text) → length (header_of msg ++ blank_line) ≡ length (header_of msg) + 4
length-header msg = length-append (header_of msg) blank_line

length-frame : (msg : Text) → length (frame msg) ≡ length (header_of msg) + 4 + length msg
unfolding frame
length-frame msg =
    length-append (header_of msg ++ blank_line) msg ∙ ap (λ n. n + length msg) (length-header msg)

split_body :
    (msg rest : Text) (at_eof : Bool)
    → is_empty msg ≡ false
    → Fits msg
    → split_content_length (header_of msg ++ blank_line ++ rest) at_eof ≡ (
        if ltb (length rest) (length msg)
        then (if at_eof then failed incomplete_body else more)
        else token (length (frame msg)) (take (length msg) rest))
split_body msg rest at_eof e fits =
    let start = length (header_of msg) + 4 in
    let total : length (frame msg) ≡ start + length msg = length-frame msg in
    let in_range : ltb max_int (start + length msg) ≡ false = ground (arith, total) in
    split-header (length msg) rest at_eof (nonempty msg e) (omega (arith, total))
    ∙ rw (in_range, total)

-- A whole frame is taken off the front of the input: its message comes back as it was sent, and the
-- scanner moves on by exactly the frame. The message is not empty, and the frame's length is an int.
pub split-frame :
    (msg rest : Text) (at_eof : Bool)
    → is_empty msg ≡ false
    → Fits msg
    → split_content_length (frame msg ++ rest) at_eof ≡ token (length (frame msg)) msg
split-frame msg rest at_eof e fits =
    let whole : ltb (length (msg ++ rest)) (length msg) ≡ false =
      ground (arith, length-append msg rest) in
    let same : frame msg ++ rest ≡ header_of msg ++ blank_line ++ (msg ++ rest) =
      unfold frame in append_assoc (header_of msg ++ blank_line) msg rest in
    rw same (split_body msg (msg ++ rest) at_eof e fits ∙ rw (whole, take-append_length msg rest))

-- A part of a frame, cut off anywhere, makes the scanner wait for more while the input goes on.
pub split-take :
    (msg : Text) (n : ℕ)
    → is_empty msg ≡ false
    → Fits msg
    → n < length (frame msg)
    → split_content_length (take n (frame msg)) false ≡ more
split-take msg n e fits h = elim (Bool-cases (ltb n (length (header_of msg) + 4))) [
  | inl early ↦
      unfold split_content_length frame in
      rw (cut-take (header_of msg) msg n (header-IsLine (length msg)) (ground arith))
  | inr late ↦
      let k = length (header_of msg ++ blank_line) in
      let head : take n (header_of msg ++ blank_line) ≡ header_of msg ++ blank_line =
        take-all n (header_of msg ++ blank_line) (ground (arith, length-header msg)) in
      let cut_ : take n (frame msg) ≡ header_of msg ++ blank_line ++ take (n - k) msg =
        unfold frame in
        take-append n (header_of msg ++ blank_line) msg ∙ ap (λ t. t ++ take (n - k) msg) head in
      let short : ltb (length (take (n - k) msg)) (length msg) ≡ true =
        ground (arith, length-take (n - k) msg, length-frame msg, length-header msg) in
      rw cut_ (split_body msg (take (n - k) msg) false e fits ∙ rw short)
]
