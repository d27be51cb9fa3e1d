-- ===== src/Config.antt =====
-- internal/config/config.go: the daemon's configuration, read from the environment.
-- `environ` is the environment as pairs of a name and a value. The time zone database is the
-- parameter `valid_zone`.
pub mod Redact
pub mod Mount
pub mod Summary
pub mod Warnings
use pullpilot.Prelude.{
  ◌*◌, ℕ, Bool, true, false, not, ◌&&◌, Option, none, some, List, [], ◌∷◌, ◌++◌, if◌then◌else◌,
}
use pullpilot.Prelude.Int.{ℤ, pos}
use pullpilot.Prelude.Exec.{Result, ok, err}
use pullpilot.Std.Str.{
  Str, bytes, str_eq, is_empty, has_prefix, cut_prefix, trim_space, to_lower, one_of,
}
use pullpilot.Std.Dict.{Dict, lookup}
use pullpilot.Std.Num.{atoi, parse_duration, wrap64, scale_ℤ, second, minute, hour}

pub data Mode : Type 0 where
  project all : Mode

pub record Scope : Type 0 where
  pub mode : Mode
  pub project : Str

-- What a text of the slice Warnings says.
pub data Warning : Type 0 where
  bad_duration : Str → Str → ℤ → Warning
  bad_boolean : Str → Str → Bool → Warning
  unknown_var : Str → Warning

pub record Config : Type 0 where
  pub schedule : Str
  pub timezone : Str
  pub jitter : ℤ
  pub scope : Scope
  pub soak : ℤ
  pub self_update : Bool
  pub cleanup : Bool
  pub webhook : Bool
  pub webhook_url : Str
  pub data_dir : Str
  pub notify_url : Str
  pub dry_run : Bool
  pub log_level : Str
  pub log_json : Bool
  pub compat_watchtower : Bool
  pub warnings : List Warning

pub data ConfigError : Type 0 where
  invalid_scope : Str → ConfigError
  invalid_timezone : Str → ConfigError

unfoldable pub parse_bool : Str → Option Bool
parse_bool v =
    let t = to_lower (trim_space v) in
    if one_of t (bytes "1" ∷ bytes "true" ∷ bytes "yes" ∷ bytes "on" ∷ bytes "y" ∷ [])
    then some true
    else if one_of t (bytes "0" ∷ bytes "false" ∷ bytes "no" ∷ bytes "off" ∷ bytes "n" ∷ [])
    then some false
    else none

unfoldable pub parse_scope : Str → Option Scope
parse_scope scope =
    if str_eq scope (bytes "project")
    then some (record { mode = project; project = [] })
    else if is_empty scope
    then some (record { mode = project; project = [] })
    else if str_eq scope (bytes "all")
    then some (record { mode = all; project = [] })
    else elim (cut_prefix scope (bytes "project:")) [
      | some name ↦ some (record { mode = project; project = name })
      | none ↦ none
    ]

abbrev pub known_vars : List Str
known_vars =
    bytes "PP_SCHEDULE"
    ∷ bytes "PP_TIMEZONE"
    ∷ bytes "PP_JITTER"
    ∷ bytes "PP_SCOPE"
    ∷ bytes "PP_SOAK"
    ∷ bytes "PP_SELF_UPDATE"
    ∷ bytes "PP_CLEANUP"
    ∷ bytes "PP_WEBHOOK"
    ∷ bytes "PP_WEBHOOK_URL"
    ∷ bytes "PP_DATA_DIR"
    ∷ bytes "PP_NOTIFY_URL"
    ∷ bytes "PP_DRY_RUN"
    ∷ bytes "PP_LOG_LEVEL"
    ∷ bytes "PP_LOG_JSON"
    ∷ bytes "PP_COMPAT_WATCHTOWER"
    ∷ []

-- The loop over os.Environ.
unfoldable pub unknown_vars : Dict Str → List Warning
unknown_vars [] = []
unknown_vars ((k, v) ∷ kvs) =
    let rest = unknown_vars kvs in
    if has_prefix k (bytes "PP_") && not (one_of k known_vars) then unknown_var k ∷ rest else rest

module _ (fraction : ℕ → ℕ → ℕ → ℕ) (environ : Dict Str) where
  unfoldable pub env : Str → Str → Str
  env key def = elim (lookup key environ) [ none ↦ def | some v ↦ if is_empty v then def else v ]

  unfoldable pub config_duration : Str → Option ℤ
  config_duration v = elim (parse_duration fraction (trim_space v)) [
    | some d ↦ some d
    | none ↦ elim (atoi (trim_space v)) [ some n ↦ some (wrap64 (scale_ℤ n second)) | none ↦ none ]
  ]

  -- The closures durOf and boolOf: the value, and the warnings so far.
  unfoldable pub dur_of : Str → ℤ → List Warning → ℤ × List Warning
  dur_of key def warnings = elim (lookup key environ) [
    | none ↦ (def, warnings)
    | some v ↦ if is_empty v then (def, warnings) else elim (config_duration v) [
      | some d ↦ (d, warnings)
      | none ↦ (def, warnings ++ bad_duration key v def ∷ [])
    ]
  ]

  unfoldable pub bool_of : Str → Bool → List Warning → Bool × List Warning
  bool_of key def warnings = elim (lookup key environ) [
    | none ↦ (def, warnings)
    | some v ↦ if is_empty v then (def, warnings) else elim (parse_bool v) [
      | some b ↦ (b, warnings)
      | none ↦ (def, warnings ++ bad_boolean key v def ∷ [])
    ]
  ]

  -- The struct literal of Load, its calls in order.
  unfoldable pub read_config : Str → Scope → Config
  read_config default_url scope =
      let (jitter, w₁) = dur_of (bytes "PP_JITTER") (pos (30 * minute)) (unknown_vars environ) in
      let (soak, w₂) = dur_of (bytes "PP_SOAK") (pos (24 * hour)) w₁ in
      let (self_update, w₃) = bool_of (bytes "PP_SELF_UPDATE") false w₂ in
      let (cleanup, w₄) = bool_of (bytes "PP_CLEANUP") false w₃ in
      let (webhook, w₅) = bool_of (bytes "PP_WEBHOOK") false w₄ in
      let (dry_run, w₆) = bool_of (bytes "PP_DRY_RUN") false w₅ in
      let (log_json, w₇) = bool_of (bytes "PP_LOG_JSON") false w₆ in
      let (compat, w₈) = bool_of (bytes "PP_COMPAT_WATCHTOWER") false w₇ in
      record {
        schedule = env (bytes "PP_SCHEDULE") (bytes "0 3 * * *");
        timezone = env (bytes "PP_TIMEZONE") (env (bytes "TZ") (bytes "UTC"));
        jitter = jitter;
        scope = scope;
        soak = soak;
        self_update = self_update;
        cleanup = cleanup;
        webhook = webhook;
        webhook_url = env (bytes "PP_WEBHOOK_URL") default_url;
        data_dir = env (bytes "PP_DATA_DIR") (bytes "/data");
        notify_url = env (bytes "PP_NOTIFY_URL") [];
        dry_run = dry_run;
        log_level = env (bytes "PP_LOG_LEVEL") (bytes "info");
        log_json = log_json;
        compat_watchtower = compat;
        warnings = w₈;
      }

  unfoldable pub load : (Str → Bool) → Str → Result ConfigError Config
  load valid_zone default_url =
      let scope = env (bytes "PP_SCOPE") (bytes "project") in
      elim (parse_scope scope) [
        | none ↦ err (invalid_scope scope)
        | some s ↦
            let c = read_config default_url s in
            if valid_zone c.timezone then ok c else err (invalid_timezone c.timezone)
      ]
