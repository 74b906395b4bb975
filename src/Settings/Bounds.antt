-- ===== src/Settings/Bounds.antt =====
-- About Validate and WithDefaults of internal/settings/settings.go.
use gopoke.Base.{◌≡◌, false, arith}
use gopoke.Base.Int.{pos, ◌≤ℤ◌}
use gopoke.Text.{is_empty}
use gopoke.Settings.{GlobalSettings, defaults, with_defaults, validate}

-- The limits on the settings, and that the texts with a default are filled in.
pub record IsValid (s : GlobalSettings) : Type 0 where
  pub timeout_min : pos 1000 ≤ℤ s.default_timeout_ms
  pub timeout_max : s.default_timeout_ms ≤ℤ pos 300000
  pub output_min : pos 1024 ≤ℤ s.max_output_bytes
  pub output_max : s.max_output_bytes ≤ℤ pos 10485760
  pub font_min : pos 10 ≤ℤ s.editor_font_size
  pub font_max : s.editor_font_size ≤ℤ pos 24
  pub theme : is_empty s.editor_theme ≡ false
  pub font : is_empty s.editor_font_family ≡ false

-- Any settings, filled in and validated as UpdateSettings does, are within every limit.
pub validate-IsValid : (s : GlobalSettings) → IsValid (validate (with_defaults s))
unfolding validate with_defaults
validate-IsValid s = ground arith

-- Settings within the limits are left as they are.
pub validate-eq_of_IsValid : (s : GlobalSettings) → IsValid s → validate (with_defaults s) ≡ s
unfolding validate with_defaults
validate-eq_of_IsValid s v = ground arith

pub defaults-IsValid : IsValid defaults
unfolding defaults
defaults-IsValid = ground arith

with_defaults-eq_of_IsValid : (s : GlobalSettings) → IsValid s → with_defaults s ≡ s
unfolding with_defaults
with_defaults-eq_of_IsValid s v = ground arith

-- Filling in the defaults changes nothing in validated settings.
pub with_defaults-validate :
    (s : GlobalSettings) → with_defaults (validate (with_defaults s)) ≡ validate (with_defaults s)
with_defaults-validate s = with_defaults-eq_of_IsValid _ (validate-IsValid s)
