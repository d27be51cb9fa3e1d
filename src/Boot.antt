-- ===== src/Boot.antt =====
-- build of cmd/pullpilot/main.go: from the environment to the logger, the bookkeeping and the engine.
-- What the process has of the world is the record `System W` over the states `W` of the world.
use pullpilot.Prelude.{◌*◌, Bool, false, not, ◌&&◌, Option, none, some, [], if◌then◌else◌}
use pullpilot.Prelude.Int.{ℤ, pos}
use pullpilot.Prelude.Exec.{Result, ok, err, Exec}
use pullpilot.Std.Str.{Str, bytes}
use pullpilot.Std.Dict.{Dict, get_or}
use pullpilot.Std.Num.{second}
use pullpilot.State
use pullpilot.State.{State, LoadError}
use pullpilot.Config
use pullpilot.Config.{Config, ConfigError}
use pullpilot.Config.Mount.{data_dir_persistent}
use pullpilot.Logging.{Level, Logger, new_logger}
use pullpilot.Notify.{Notifier, new_notifier}
use pullpilot.Engine.Host.{CallError, Context, Host, Engine}
use pullpilot.Engine.Start.{docker_address, new_engine}
use pullpilot.Webhook.Identity.{Machine}

pub record System (W : Type 0) : Type 1 where
  pub host : Host W
  pub machine : Machine W
  pub environ : Dict Str
  pub hostname : Str
  -- client.NewClientWithOpts's success, and the daemon's answer to a ping
  pub make_client : Exec W Bool
  pub ping : Context → Exec W (Result CallError (Unit {0}))
  -- /proc/self/mountinfo; `none` where it cannot be opened
  pub mountinfo : W → Option Str
  pub valid_zone : Str → Bool
  pub default_url : Str
  pub create_sender : Str → Bool
  pub parse_level : Str → Option Level
  -- cron's AddFunc takes the schedule
  pub valid_schedule : Str → Bool
  pub show_minutes : ℤ → Str

pub data Failure : Type 0 where
  bad_config : ConfigError → Failure
  bad_state : LoadError → Failure
  no_client : Failure
  -- the daemon's address
  unreachable : Str → CallError → Failure
  plan_failed : CallError → Failure
  bad_schedule : Str → Failure

-- What build returns: the logger, the boot warning about the data directory, and the engine.
pub record Built (W : Type 0) : Type 0 where
  pub cfg : Config
  pub logger : Logger
  pub warned : Bool
  pub notifier : Notifier
  pub engine : Engine
  pub st : State

-- 10 seconds
abbrev pub ping_context : Context
ping_context = record { detached = false; timeout = some (pos (10 * second)) }

module _ {W : Type 0} (sys : System W) where
  open sys use {
    host, machine, environ, hostname, make_client, ping, mountinfo, valid_zone, default_url,
    create_sender, parse_level, valid_schedule, show_minutes,
  }

  -- Ping's error.
  unfoldable pub ping_failure : CallError → Failure
  ping_failure x = unreachable (docker_address (get_or (bytes "DOCKER_HOST") [] environ)) x

  unfoldable pub load_config : Result ConfigError Config
  load_config = Config.load host.fraction environ valid_zone default_url

  unfoldable pub boot_logger : Bool → Config → Logger
  boot_logger boot cfg =
      new_logger parse_level (Config.env host.fraction environ (bytes "NO_COLOR") [])
        (if boot then cfg.log_level else bytes "warn") cfg.log_json

  -- The mount is known and is none; only a boot looks.
  unfoldable pub mount_warning : Bool → Config → W → Bool
  mount_warning boot cfg w =
      let (persistent, known) = data_dir_persistent (mountinfo w) cfg.data_dir in
      boot && (known && not persistent)

  unfoldable pub after_engine :
      Bool → Config → Bool → State → Option Engine → Exec W (Result Failure (Built W))
  after_engine boot cfg warned st none w = (err no_client, w)
  after_engine boot cfg warned st (some e) w = (
    ok (record {
      cfg = cfg;
      logger = boot_logger boot cfg;
      warned = warned;
      notifier = (new_notifier create_sender cfg.notify_url).0;
      engine = e;
      st = st;
    }),
    w,
  )

  unfoldable pub after_state :
      Bool → Config → Bool → Result LoadError State → Exec W (Result Failure (Built W))
  unfolding after_engine
  after_state boot cfg warned (err x) w = (err (bad_state x), w)
  after_state boot cfg warned (ok st) w =
      let (e, w₁) = new_engine host hostname make_client cfg w in
      after_engine boot cfg warned st e w₁

  unfoldable pub after_config : Bool → Result ConfigError Config → Exec W (Result Failure (Built W))
  unfolding after_state
  after_config boot (err x) w = (err (bad_config x), w)
  after_config boot (ok cfg) w =
      let (st, w₁) = State.load host.disk cfg.data_dir w in
      after_state boot cfg (mount_warning boot cfg w) st w₁

  unfoldable pub build : Bool → Exec W (Result Failure (Built W))
  unfolding after_config
  build boot = after_config boot load_config
