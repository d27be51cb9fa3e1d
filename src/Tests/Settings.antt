-- ===== src/Tests/Settings.antt =====
-- The settings and the credentials at concrete data.
use pullpilot.Prelude.{◌≡◌, refl, true, false, some, [], ◌∷◌, ◌++◌, ◌*◌}
use pullpilot.Prelude.Int.{pos}
use pullpilot.Std.Str.{
  Str, bytes, str_eq, cut, cut_prefix, trim_space, has_prefix, one_of, to_lower,
}
use pullpilot.Std.Dict.{Dict, lookup}
use pullpilot.Std.Num.{exact, minute, hour, parse_duration, atoi}
use pullpilot.Config.{
  Config, project, unknown_var, bad_duration, bad_boolean, unknown_vars, load, parse_scope, env,
  read_config, dur_of, bool_of, config_duration, parse_bool,
}
use pullpilot.Config.Warnings.{complaints, load-warnings}
use pullpilot.Registry.Creds.{basic}
use pullpilot.Registry.Creds.Stored.{Held, KeyOf, basic-Held}

-- A misspelt name, a bad duration and a bad boolean.
abbrev careless : Dict Str
careless =
    (bytes "PP_SOKE", bytes "2h")
    ∷ (bytes "PP_SOAK", bytes "two days")
    ∷ (bytes "PP_DRY_RUN", bytes "maybe")
    ∷ []

abbrev store : Dict Str
store = (bytes "https://ghcr.io", bytes "me:secret:word") ∷ []

basic-Held_example :
    Held (λ s. some s) store (KeyOf (bytes "ghcr.io")) (bytes "me") (bytes "secret:word")
unfolding basic lookup str_eq cut
basic-Held_example =
    basic-Held (λ s. some s) store (bytes "ghcr.io") (bytes "me") (bytes "secret:word") refl

abbrev defaults : Config
defaults = record {
  schedule = bytes "0 3 * * *";
  timezone = bytes "UTC";
  jitter = pos (30 * minute);
  scope = record { mode = project; project = [] };
  soak = pos (24 * hour);
  self_update = false;
  cleanup = false;
  webhook = false;
  webhook_url = bytes "https://relay";
  data_dir = bytes "/data";
  notify_url = [];
  dry_run = false;
  log_level = bytes "info";
  log_json = false;
  compat_watchtower = false;
  warnings =
      unknown_var (bytes "PP_SOKE")
      ∷ bad_duration (bytes "PP_SOAK") (bytes "two days") (pos (24 * hour))
      ∷ bad_boolean (bytes "PP_DRY_RUN") (bytes "maybe") false
      ∷ [];
}

load-warnings_example : defaults.warnings ≡ unknown_vars careless ++ complaints exact careless
unfolding load parse_scope env lookup str_eq cut_prefix read_config dur_of bool_of config_duration
    parse_duration trim_space unknown_vars has_prefix one_of parse_bool to_lower atoi
load-warnings_example =
    load-warnings exact careless (λ z. true) (bytes "https://relay") defaults refl
