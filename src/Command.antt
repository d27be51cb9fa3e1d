-- ===== src/Command.antt =====
-- cmd/pullpilot/main.go: the commands, on what build makes.
pub mod Readonly
pub mod Flight
pub mod Start
use pullpilot.Prelude.{
  ℕ, ◌*◌, Bool, true, false, not, ◌&&◌, Option, none, some, List, [], ◌∷◌, ◌++◌, if◌then◌else◌,
}
use pullpilot.Prelude.Int.{ℤ, pos}
use pullpilot.Prelude.Exec.{Result, ok, err, Exec}
use pullpilot.Std.Str.{Str, bytes, str_eq, one_of}
use pullpilot.Std.Dict.{Dict}
use pullpilot.Std.Num.{second}
use pullpilot.State
use pullpilot.State.{State, LoadError}
use pullpilot.Config
use pullpilot.Config.{Config, ConfigError}
use pullpilot.Config.Mount.{data_dir_persistent}
use pullpilot.Logging.{Level, Logger, new_logger}
use pullpilot.Notify.{Notifier, new_notifier}
use pullpilot.Engine.Host.{CallError, Context, Host, Engine, Run}
use pullpilot.Engine.Start.{new_engine}
use pullpilot.Engine.Cycle
use pullpilot.Engine.Cycle.{run}
use pullpilot.Webhook.Identity.{Machine, Client, SetupError, new_client}
use pullpilot.Boot.{
  System, Failure, ping_failure, plan_failed, bad_schedule, Built, ping_context, build,
}

-- The switch of main.
pub data Command : Type 0 where
  version serve once show usage : Command
  unknown : Str → Command

unfoldable pub command_of : List Str → Command
unfolding one_of
command_of [] = serve
command_of (cmd ∷ args) =
    if one_of cmd (bytes "version" ∷ bytes "-v" ∷ bytes "--version" ∷ [])
    then version
    else if str_eq cmd (bytes "serve")
    then serve
    else if str_eq cmd (bytes "run")
    then once
    else if str_eq cmd (bytes "status")
    then show
    else if one_of cmd (bytes "help" ∷ bytes "-h" ∷ bytes "--help" ∷ [])
    then usage
    else unknown cmd

module _ {W : Type 0} (sys : System W) where
  open sys use {
    host, machine, environ, hostname, make_client, ping, mountinfo, valid_zone, default_url,
    create_sender, parse_level, valid_schedule, show_minutes,
  }

  -- A run of the engine on the loaded bookkeeping.
  abbrev pub fresh_run : State → W → Run W
  fresh_run st w = record { st = st; world = w; notes = [] }

  -- showStatus: the error of Status, or its rows.
  unfoldable pub status_pinged :
      Built W → Result CallError (Unit {0}) → Exec W (Result Failure (List (List Str)))
  status_pinged b (err x) w = (err (ping_failure sys x), w)
  status_pinged b (ok u) w =
      let (r, s) = Cycle.status host b.engine show_minutes (fresh_run b.st w) in
      (elim r [ err x ↦ err (plan_failed x) | ok rows ↦ ok rows ], s.world)

  unfoldable pub status_built : Result Failure (Built W) → Exec W (Result Failure (List (List Str)))
  unfolding status_pinged
  status_built (err x) w = (err x, w)
  status_built (ok b) w = let (r, w₁) = ping ping_context w in status_pinged b r w₁

  unfoldable pub show_status : Exec W (Result Failure (List (List Str)))
  unfolding status_built
  show_status w = let (b, w₁) = build sys false w in status_built b w₁

  -- runOnce: the run state that the cycle ends in.
  unfoldable pub once_pinged :
      Built W → Result CallError (Unit {0}) → W → Result Failure (Run W) × W
  once_pinged b (err x) w = (err (ping_failure sys x), w)
  once_pinged b (ok u) w = let (n, r) = run host b.engine (fresh_run b.st w) in (ok r, r.world)

  unfoldable pub once_built : Result Failure (Built W) → W → Result Failure (Run W) × W
  unfolding once_pinged
  once_built (err x) w = (err x, w)
  once_built (ok b) w = let (r, w₁) = ping ping_context w in once_pinged b r w₁

  unfoldable pub run_once : W → Result Failure (Run W) × W
  unfolding once_built
  run_once w = let (b, w₁) = build sys true w in once_built b w₁

  -- serve, up to where it waits: whether Docker answered, and the webhook client if it was made.
  pub record Serving : Type 0 where
    pub built : Built W
    pub docker_up : Bool
    pub webhook : Option Client

  -- A failure disables the webhook.
  kept_client : Result SetupError Client → Option Client
  kept_client (err x) = none
  kept_client (ok c) = some c

  unfoldable pub start_webhook : Config → Exec W (Option Client)
  unfolding kept_client
  start_webhook cfg w = elim cfg.webhook [
    | false ↦ (none, w)
    | true ↦ let (r, w₁) = new_client machine cfg.webhook_url cfg.data_dir w in (kept_client r, w₁)
  ]

  is_ok : Result CallError (Unit {0}) → Bool
  is_ok (ok u) = true
  is_ok (err x) = false

  unfoldable pub serve_built : Result Failure (Built W) → Exec W (Result Failure Serving)
  unfolding start_webhook is_ok
  serve_built (err x) w = (err x, w)
  serve_built (ok b) w =
      let (up, w₁) = ping ping_context w in
      let (client, w₂) = start_webhook b.cfg w₁ in
      if valid_schedule b.cfg.schedule
      then (ok (record { built = b; docker_up = is_ok up; webhook = client }), w₂)
      else (err (bad_schedule b.cfg.schedule), w₂)

  unfoldable pub set_up : Exec W (Result Failure Serving)
  unfolding serve_built
  set_up w = let (b, w₁) = build sys true w in serve_built b w₁

  -- What the process does: it prints, it fails, or it did its work.
  pub data Deed : Type 0 where
    version_line : Str → Deed
    usage_text : Deed
    unknown_command : Str → Deed
    table : List (List Str) → Deed
    cycle : Run W → Deed
    serving : Serving → Deed
    failed : Failure → Deed

  done : {A : Type 0} → (A → Deed) → Result Failure A → Deed
  done f (ok a) = f a
  done f (err x) = failed x

  -- main, for the arguments after the program's name. `build_info` is version.String.
  unfoldable pub perform : Str → Command → Exec W Deed
  unfolding show_status run_once set_up done
  perform build_info version w = (version_line build_info, w)
  perform build_info serve w = let (r, w₁) = set_up w in (done serving r, w₁)
  perform build_info once w = let (r, w₁) = run_once w in (done cycle r, w₁)
  perform build_info show w = let (r, w₁) = show_status w in (done table r, w₁)
  perform build_info usage w = (usage_text, w)
  perform build_info (unknown cmd) w = (unknown_command cmd, w)

  unfoldable pub main : Str → List Str → Exec W Deed
  unfolding perform command_of
  main build_info args = perform build_info (command_of args)

  unfoldable pub exit_code : Deed → ℕ
  exit_code (failed x) = 1
  exit_code (unknown_command cmd) = 2
  exit_code _ = 0

-- version.String
unfoldable pub version_string : Str → Str → Str → Str
version_string number commit date =
    number ++ bytes " (" ++ commit ++ bytes ", " ++ date ++ bytes ")"
