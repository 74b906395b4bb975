-- ===== src/Base/Outcome.antt =====
-- A value or an error, as Go returns the pair (value, error), and what ctx.Err() can be.
use mathlib.Core.Bool.{Bool, true, false}

pub data Result {ℓ} (E A : Type ℓ) : Type ℓ where
  ok : A → Result E A
  err : E → Result E A

-- context.Canceled and context.DeadlineExceeded.
pub data CtxError : Type 0 where
  canceled deadline_exceeded : CtxError

abbrev pub is_ok {ℓ} : {E A : Type ℓ} → Result E A → Bool
is_ok (ok a) = true
is_ok (err e) = false
