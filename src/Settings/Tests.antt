-- ===== src/Settings/Tests.antt =====
-- Runs of the validation of settings.
use gopoke.Base.{◌≡◌, refl, true}
use gopoke.Base.Int.{pos, negsuc}
use gopoke.Text.{codes}
use gopoke.Settings.{GlobalSettings, with_defaults, validate}
use gopoke.Settings.Bounds.{IsValid, validate-IsValid}

-- A negative timeout, a huge output, a small font and no theme.
abbrev odd : GlobalSettings
odd = record {
  go_path = codes "/go";
  gopls_path = codes "";
  staticcheck_path = codes "";
  default_timeout_ms = negsuc 4;
  max_output_bytes = pos 99999999;
  go_path_override = codes "";
  go_mod_cache_override = codes "";
  editor_theme = codes "";
  editor_font_family = codes "Mono";
  editor_font_size = pos 2;
  editor_line_numbers = true;
}

odd_font : (validate (with_defaults odd)).editor_font_size ≡ pos 10
unfolding validate with_defaults
odd_font = refl

validate-IsValid_example : IsValid (validate (with_defaults odd))
validate-IsValid_example = validate-IsValid odd
