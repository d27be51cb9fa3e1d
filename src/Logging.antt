-- ===== src/Logging.antt =====
-- internal/logging/logging.go: the logger's settings. zerolog's ParseLevel is a parameter.
use pullpilot.Prelude.{Bool, Option, none, some, if◌then◌else◌}
use pullpilot.Std.Str.{Str, is_empty}

pub data Level : Type 0 where
  trace debug info warn error fatal panic no_level disabled : Level

pub data Output : Type 0 where
  json : Output
  -- whether it is coloured
  console : Bool → Output

pub record Logger : Type 0 where
  pub level : Level
  pub output : Output

unfoldable pub usable_level : Option Level → Level
usable_level none = info
usable_level (some no_level) = info
usable_level (some l) = l

-- New. `no_color` is the value of NO_COLOR, or "" where it is not set.
unfoldable pub new_logger : (Str → Option Level) → Str → Str → Bool → Logger
unfolding usable_level
new_logger parse_level no_color level json_out = record {
  level = usable_level (parse_level level);
  output = if json_out then json else console (is_empty no_color);
}
