-- ===== src/Download/Progress.antt =====
-- internal/download/progress.go.
use gopoke.Base.{ℕ, zero, suc, ltb, if◌then◌else◌}
use gopoke.Base.Int.{ℤ, pos, negsuc}
use gopoke.Text.{Text}

-- The percentage as calcPercent's division stands: the division of float64 is not modelled.
pub data Percent : Type 0 where
  nothing full : Percent
  ratio : ℕ → ℕ → Percent

-- Progress
pub record Progress : Type 0 where
  pub tool : Text
  pub stage : Text
  pub bytes_received : ℕ
  pub bytes_total : ℤ
  pub percent : Percent
  pub message : Text

-- calcPercent past its first test, with what is capped at 100.
abbrev pub ratio_of : ℕ → ℕ → Percent
ratio_of received zero = nothing
ratio_of received (suc n) = if ltb (suc n) received then full else ratio received (suc n)

-- calcPercent
unfoldable pub calc_percent : ℕ → ℤ → Percent
calc_percent received (pos total) = ratio_of received total
calc_percent received (negsuc n) = nothing

-- An event of a stage that counts no bytes.
abbrev pub stage_event : Text → Text → Percent → Text → Progress
stage_event tool stage percent message = record {
  tool = tool;
  stage = stage;
  bytes_received = 0;
  bytes_total = pos 0;
  percent = percent;
  message = message;
}
