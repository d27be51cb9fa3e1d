-- ===== src/Config/Summary.antt =====
-- Location and LogSummary of internal/config/config.go.
use pullpilot.Prelude.{
  ◌≡◌, subst, Bool, not, List, ◌++◌, if◌then◌else◌, Bool-cases, inl, inr, ℕ, Option-cases,
}
use pullpilot.Prelude.Int.{ℤ}
use pullpilot.Prelude.Exec.{ok}
use pullpilot.Std.Str.{Str, bytes, is_empty}
use pullpilot.Std.Dict.{Dict}
use pullpilot.Config.{project, all, Scope, Warning, Config, env, parse_scope, read_config, load}
use pullpilot.Config.Redact.{redact_url}

-- Location: the name of the time zone. `valid_zone` is time.LoadLocation's success.
unfoldable pub location : (Str → Bool) → Config → Str
location valid_zone c = if valid_zone c.timezone then c.timezone else bytes "UTC"

-- The fields of the boot event that come from the configuration.
pub record Summary : Type 0 where
  pub schedule : Str
  pub timezone : Str
  pub jitter : ℤ
  pub scope : Str
  pub soak : ℤ
  pub self_update : Bool
  pub cleanup : Bool
  pub webhook : Bool
  pub webhook_url : Str
  pub data_dir : Str
  pub notify : Bool
  pub dry_run : Bool

unfoldable pub scope_text : Scope → Str
scope_text s =
    if is_empty s.project
    then elim s.mode [ project ↦ bytes "project" | all ↦ bytes "all" ]
    else bytes "project:" ++ s.project

-- The event, and the warnings that follow it.
unfoldable pub log_summary : Config → Summary × List Warning
unfolding scope_text redact_url
log_summary c = (
  record {
    schedule = c.schedule;
    timezone = c.timezone;
    jitter = c.jitter;
    scope = scope_text c.scope;
    soak = c.soak;
    self_update = c.self_update;
    cleanup = c.cleanup;
    webhook = c.webhook;
    webhook_url = redact_url c.webhook_url c.webhook;
    data_dir = c.data_dir;
    notify = not (is_empty c.notify_url);
    dry_run = c.dry_run;
  },
  c.warnings,
)

-- The zone of a configuration that Load accepted is the configured one: the way out to UTC is not
-- taken.
pub location-load :
    (fraction : ℕ → ℕ → ℕ → ℕ) (environ : Dict Str) (valid_zone : Str → Bool) (default_url : Str)
    (c : Config)
    → load fraction environ valid_zone default_url ≡ ok c
    → location valid_zone c ≡ c.timezone
unfolding load location
location-load fraction environ valid_zone default_url c h =
    elim (Option-cases (parse_scope (env fraction environ (bytes "PP_SCOPE") (bytes "project")))) [
      | inl bad ↦ cc (rw (bad, load) at h)
      | inr (s, good) ↦
          let d = read_config fraction environ default_url s in
          elim (Bool-cases (valid_zone d.timezone)) [
            | inl valid ↦
                let same : d ≡ c = cc (rw (good, valid, load) at h) in
                subst (λ x. location valid_zone x ≡ x.timezone) same (rw (valid, location))
            | inr invalid ↦ cc (rw (good, invalid, load) at h)
          ]
    ]
