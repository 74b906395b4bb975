-- ===== src/Settings.antt =====
-- internal/settings/settings.go: the global settings, their defaults and their limits.
pub mod Bounds
mod Tests
use gopoke.Base.{Bool, true, if◌then◌else◌}
use gopoke.Base.Int.{ℤ, pos, ltb_ℤ, leb_ℤ}
use gopoke.Text.{Text, codes, is_empty}

pub record GlobalSettings : Type 0 where
  pub go_path : Text
  pub gopls_path : Text
  pub staticcheck_path : Text
  pub default_timeout_ms : ℤ
  pub max_output_bytes : ℤ
  pub go_path_override : Text
  pub go_mod_cache_override : Text
  pub editor_theme : Text
  pub editor_font_family : Text
  pub editor_font_size : ℤ
  pub editor_line_numbers : Bool

-- Defaults
unfoldable pub defaults : GlobalSettings
defaults = record {
  go_path = codes "";
  gopls_path = codes "";
  staticcheck_path = codes "";
  default_timeout_ms = pos 30000;
  max_output_bytes = pos 1048576;
  go_path_override = codes "";
  go_mod_cache_override = codes "";
  editor_theme = codes "Default Dark Modern";
  editor_font_family = codes "JetBrains Mono";
  editor_font_size = pos 14;
  editor_line_numbers = true;
}

-- `if x <= 0 { x = d }`
abbrev pub or_default : ℤ → ℤ → ℤ
or_default x d = if leb_ℤ x (pos 0) then d else x

-- `if x == "" { x = d }`
abbrev pub or_default_text : Text → Text → Text
or_default_text x d = if is_empty x then d else x

-- WithDefaults
unfoldable pub with_defaults : GlobalSettings → GlobalSettings
unfolding defaults
with_defaults s = record s {
  default_timeout_ms = or_default s.default_timeout_ms defaults.default_timeout_ms;
  max_output_bytes = or_default s.max_output_bytes defaults.max_output_bytes;
  editor_theme = or_default_text s.editor_theme defaults.editor_theme;
  editor_font_family = or_default_text s.editor_font_family defaults.editor_font_family;
  editor_font_size = or_default s.editor_font_size defaults.editor_font_size;
}

-- `if x < lo { x = lo }; if x > hi { x = hi }`
abbrev pub clamp : ℤ → ℤ → ℤ → ℤ
clamp lo hi x = let y = (if ltb_ℤ x lo then lo else x) in if ltb_ℤ hi y then hi else y

-- Validate
unfoldable pub validate : GlobalSettings → GlobalSettings
validate s = record s {
  default_timeout_ms = clamp (pos 1000) (pos 300000) s.default_timeout_ms;
  max_output_bytes = clamp (pos 1024) (pos 10485760) s.max_output_bytes;
  editor_font_size = clamp (pos 10) (pos 24) s.editor_font_size;
}
