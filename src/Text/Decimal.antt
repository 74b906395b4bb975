-- ===== src/Text/Decimal.antt =====
-- strconv.Atoi, and the decimal print of a number that is not negative.
use gopoke.Base.{
  ℕ, zero, suc, ◌+◌, ◌-◌, ◌*◌, ◌/◌, ◌%◌, ◌≤◌, ◌≡◌, refl, Bool, true, false, ◌&&◌, not, Option, none,
  some, [], ◌∷◌, any, leb, ◌==◌, arith, if◌then◌else◌,
}
use gopoke.Base.Int.{ℤ, pos, negsuc}
use gopoke.Text.Defs.{Text, is_empty}

-- The largest int.
abbrev pub max_int : ℕ
max_int = 9223372036854775807

abbrev pub is_digit : ℕ → Bool
is_digit c = leb b'0' c && leb c b'9'

-- The digits of a number before `out`, with fuel.
unfoldable pub digits : ℕ → ℕ → Text → Text
digits zero n out = out
digits (suc fuel) n out =
    let more = digits fuel (n / 10) ((b'0' + n % 10) ∷ out) in if n == 0 then out else more

-- The %d of package fmt.
unfoldable pub format : ℕ → Text
unfolding digits
format n = if n == 0 then b'0' ∷ [] else digits n n []

unfoldable pub scan : ℕ → Text → Option ℕ
scan n [] = some n
scan n (c ∷ s) = let more = scan (n * 10 + (c - b'0')) s in if is_digit c then more else none

-- The digits past a sign.
abbrev pub unsigned : Text → Option ℕ
unsigned [] = none
unsigned (c ∷ s) = scan 0 (c ∷ s)

abbrev pub positive : Option ℕ → Option ℤ
positive none = none
positive (some n) = if leb n max_int then some (pos n) else none

abbrev pub negative : Option ℕ → Option ℤ
negative none = none
negative (some zero) = some (pos 0)
negative (some (suc n)) = if leb n max_int then some (negsuc n) else none

-- strconv.Atoi; none is its error.
unfoldable pub atoi : Text → Option ℤ
unfolding scan
atoi [] = none
atoi (c ∷ s) =
    if c == b'-'
    then negative (unsigned s)
    else if c == b'+'
    then positive (unsigned s)
    else positive (unsigned (c ∷ s))

scan_last : (n : ℕ) (out : Text) → scan (n / 10) ((b'0' + n % 10) ∷ out) ≡ scan n out
unfolding scan
scan_last n out =
    let whole : n / 10 * 10 + (b'0' + n % 10 - b'0') ≡ n = omega arith in
    let digit : is_digit (b'0' + n % 10) ≡ true = ground arith in rw (digit, whole)

-- Enough fuel prints a number that is read back, before any digits that follow.
scan-digits : (fuel n : ℕ) (out : Text) → n ≤ fuel → scan 0 (digits fuel n out) ≡ scan n out
unfolding digits scan
scan-digits zero n out h = let none_left : n ≡ 0 = omega arith in rw none_left
scan-digits (suc fuel) n out h =
    ground (arith, scan-digits fuel (n / 10) ((b'0' + n % 10) ∷ out), scan_last n out)

pub digits-IsDigit :
    (fuel n : ℕ) (out : Text)
    → any (λ c. not (is_digit c)) out ≡ false
    → any (λ c. not (is_digit c)) (digits fuel n out) ≡ false
unfolding digits
digits-IsDigit zero n out h = h
digits-IsDigit (suc fuel) n out h =
    ground (arith, digits-IsDigit fuel (n / 10) ((b'0' + n % 10) ∷ out))

pub format-IsDigit : (n : ℕ) → any (λ c. not (is_digit c)) (format n) ≡ false
unfolding format
format-IsDigit n = ground (arith, digits-IsDigit n n [])

digits-ne_nil :
    (fuel n : ℕ) (out : Text) → is_empty out ≡ false → is_empty (digits fuel n out) ≡ false
unfolding digits
digits-ne_nil zero n out h = h
digits-ne_nil (suc fuel) n out h =
    ground (arith, digits-ne_nil fuel (n / 10) ((b'0' + n % 10) ∷ out))

pub format-ne_nil : (n : ℕ) → is_empty (format n) ≡ false
unfolding format
format-ne_nil zero = refl
format-ne_nil (suc n) = ground (arith, digits-ne_nil n (suc n / 10) ((b'0' + suc n % 10) ∷ []))

scan-format : (n : ℕ) → scan 0 (format n) ≡ some n
unfolding format scan
scan-format n = ground (arith, scan-digits n n [])

atoi-of_scan :
    (s : Text) (n : ℕ)
    → any (λ c. not (is_digit c)) s ≡ false
    → is_empty s ≡ false
    → scan 0 s ≡ some n
    → n ≤ max_int
    → atoi s ≡ some (pos n)
unfolding atoi
atoi-of_scan [] n d e h m = cc
atoi-of_scan (c ∷ s) n d e h m =
    let minus : (c == b'-') ≡ false = ground arith in
    let plus : (c == b'+') ≡ false = ground arith in rw (minus, plus, h) (ground arith)

-- A number is read back from its print.
pub atoi-format : (n : ℕ) → n ≤ max_int → atoi (format n) ≡ some (pos n)
atoi-format n m = atoi-of_scan (format n) n (format-IsDigit n) (format-ne_nil n) (scan-format n) m
