-- ===== src/Labels.antt =====
-- internal/labels/labels.go: the settings that a container's labels give.
pub mod Seconds
use pullpilot.Prelude.{Bool, true, Option, none, some, [], ◌∷◌, ℕ, if◌then◌else◌}
use pullpilot.Prelude.Int.{ℤ, pos}
use pullpilot.Std.Str.{Str, bytes, trim_space, to_lower, one_of, is_empty}
use pullpilot.Std.Dict.{Dict, lookup, get_or}
use pullpilot.Std.Num.{atoi, parse_duration, wrap64, scale_ℤ, second}

abbrev pub enable_label : Str
enable_label = bytes "io.pullpilot.enable"

abbrev pub exclude_label : Str
exclude_label = bytes "io.pullpilot.exclude"

abbrev pub monitor_only_label : Str
monitor_only_label = bytes "io.pullpilot.monitor-only"

abbrev pub soak_label : Str
soak_label = bytes "io.pullpilot.soak"

abbrev pub self_label : Str
self_label = bytes "io.pullpilot.self"

abbrev pub health_timeout_label : Str
health_timeout_label = bytes "io.pullpilot.health-timeout"

abbrev pub stop_timeout_label : Str
stop_timeout_label = bytes "io.pullpilot.stop-timeout"

abbrev pub remove_anon_vols_label : Str
remove_anon_vols_label = bytes "io.pullpilot.remove-anonymous-volumes"

abbrev pub order_label : Str
order_label = bytes "io.pullpilot.order"

abbrev pub compose_project : Str
compose_project = bytes "com.docker.compose.project"

abbrev pub compose_service : Str
compose_service = bytes "com.docker.compose.service"

abbrev pub compose_oneoff : Str
compose_oneoff = bytes "com.docker.compose.oneoff"

abbrev pub wt_enable : Str
wt_enable = bytes "com.centurylinklabs.watchtower.enable"

abbrev pub wt_monitor : Str
wt_monitor = bytes "com.centurylinklabs.watchtower.monitor-only"

-- A pointer field is an `Option`: nil is `none`.
pub record Settings : Type 0 where
  pub enable : Option Bool
  pub exclude : Bool
  pub monitor_only : Bool
  pub soak : Option ℤ
  pub is_self : Bool
  pub health_timeout : Option ℤ
  pub stop_timeout : Option ℤ
  pub remove_anon_vols : Bool
  pub order : ℤ
  pub project : Str
  pub service : Str
  pub oneoff : Bool

unfoldable pub truthy : Str → Bool
truthy v =
    one_of (to_lower (trim_space v))
      (bytes "1" ∷ bytes "true" ∷ bytes "yes" ∷ bytes "on" ∷ bytes "y" ∷ [])

module _ (fraction : ℕ → ℕ → ℕ → ℕ) where
  -- A Go duration, or a bare integer number of seconds.
  duration_of : Str → Option ℤ
  duration_of t = elim (parse_duration fraction t) [
    | some d ↦ some d
    | none ↦ elim (atoi t) [ some n ↦ some (wrap64 (scale_ℤ n second)) | none ↦ none ]
  ]

  unfoldable pub duration : Str → Option ℤ
  unfolding duration_of
  duration v = let t = trim_space v in if is_empty t then none else duration_of t

abbrev pub text : Str → Dict Str → Str
text k m = get_or k [] m

abbrev pub enable_of : Str → Dict Str → Option Bool
enable_of k m = elim (lookup k m) [ none ↦ none | some v ↦ some (truthy v) ]

order_of : Str → ℤ
order_of v = elim (atoi (trim_space v)) [ none ↦ pos 0 | some n ↦ n ]

-- The last part of Parse: Watchtower's `enable` where PullPilot's is not there, and Watchtower's
-- monitor-only where PullPilot's is not there or not true.
with_compat : Dict Str → Settings → Settings
with_compat m s = record s {
  enable = elim s.enable [ none ↦ enable_of wt_enable m | some b ↦ some b ];
  monitor_only = if s.monitor_only then true else truthy (text wt_monitor m);
}

unfoldable pub parse : (ℕ → ℕ → ℕ → ℕ) → Dict Str → Bool → Settings
unfolding order_of with_compat
parse fraction m compat =
    let s : Settings = record {
      enable = enable_of enable_label m;
      exclude = truthy (text exclude_label m);
      monitor_only = truthy (text monitor_only_label m);
      soak = duration fraction (text soak_label m);
      is_self = truthy (text self_label m);
      health_timeout = duration fraction (text health_timeout_label m);
      stop_timeout = duration fraction (text stop_timeout_label m);
      remove_anon_vols = truthy (text remove_anon_vols_label m);
      order = order_of (text order_label m);
      project = text compose_project m;
      service = text compose_service m;
      oneoff = truthy (text compose_oneoff m);
    } in
    if compat then with_compat m s else s
