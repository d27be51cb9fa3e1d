-- ===== src/Tests/Commands.antt =====
-- The commands in a world with one container: runs, and the theorems at concrete data.
use pullpilot.Prelude.{◌≡◌, refl, true, false, none, some, [], ◌∷◌, ◌*◌}
use pullpilot.Prelude.Int.{pos}
use pullpilot.Prelude.Exec.{ok, err}
use pullpilot.Std.Str.{Str, bytes, str_eq, cut_prefix, trim_space, has_prefix, one_of, to_lower}
use pullpilot.Std.Dict.{Dict, lookup, get_or}
use pullpilot.Std.Num.{minute, hour, exact, parse_duration}
use pullpilot.Config.{
  Config, load, parse_scope, env, project, read_config, dur_of, bool_of, config_duration,
  unknown_vars, parse_bool,
}
use pullpilot.Config.Summary.{location, location-load}
use pullpilot.Logging.{info, console, new_logger}
use pullpilot.State
use pullpilot.State.{empty_data}
use pullpilot.Notify.{new_notifier}
use pullpilot.Engine.Start.{docker_address, new_engine}
use pullpilot.Config.Mount.{data_dir_persistent}
use pullpilot.Webhook.Identity.{Machine}
use pullpilot.Engine.Cycle.Effects.{LooksKeep}
use pullpilot.Engine.Daemon.Toy.{ToyWorld, toy_host}
use pullpilot.Engine.Daemon.Toy.Laws.{toy_host-LooksKeep}
use pullpilot.Engine.Host.{failed as no_answer}
use pullpilot.Boot.{
  unreachable, ping_failure, System, load_config, Built, build, boot_logger, mount_warning,
}
use pullpilot.Command.{run_once, serve, once, show, version, unknown, command_of, perform, set_up}
use pullpilot.Command.Readonly.{show-P}
use pullpilot.Command.Start.{has_started, set_up-starts}
use pullpilot.Tests.Data.{host, inspected, summary, new_digest, world}

-- Without a webhook.
abbrev nothing : Machine ToyWorld
nothing = record {
  join = λ dir name. dir;
  make_dir = λ dir w. (false, w);
  chmod = λ dir w. (tt, w);
  read = λ p w. none;
  write = λ p c w. (false, w);
  random = λ w. (none, w);
  post = λ url key label w. (none, w);
  encode = λ r. [];
  decode = λ s. none;
  public = λ s. s;
  encode64 = λ s. s;
}

abbrev system : Dict Str → System ToyWorld
system environ = record {
  host = host (bytes "healthy");
  machine = nothing;
  environ = environ;
  hostname = bytes "abc";
  make_client = λ w. (true, w);
  ping = λ ctx w. (ok tt, w);
  mountinfo = λ w. none;
  valid_zone = λ z. true;
  default_url = bytes "https://relay";
  create_sender = λ u. true;
  parse_level = λ s. some info;
  valid_schedule = λ s. true;
  show_minutes = λ d. [];
}

command_runs :
    (command_of [] ≡ serve)
    × (command_of (bytes "run" ∷ []) ≡ once)
    × (command_of (bytes "-v" ∷ []) ≡ version)
    × (command_of (bytes "stats" ∷ []) ≡ unknown (bytes "stats"))
unfolding command_of str_eq
command_runs = (refl, refl, refl, refl)

looks : LooksKeep (host (bytes "healthy")) (λ w. w.clock ≡ 100 * hour)
looks =
    toy_host-LooksKeep (summary ∷ []) (inspected (bytes "healthy")) (bytes "web@sha256:0ld" ∷ [])
      new_digest (λ w. w.clock ≡ 100 * hour)

show-P_example : (perform (system []) (bytes "dev") show world).1.clock ≡ 100 * hour
unfolding toy_host
show-P_example =
    show-P (system []) (λ w. w.clock ≡ 100 * hour) looks (λ p q w h. h) (λ w h. h) (λ w h. h)
      (bytes "dev") world refl

abbrev zoned : Dict Str
zoned = (bytes "PP_TIMEZONE", bytes "Europe/Paris") ∷ (bytes "PP_SOAK", bytes "2h") ∷ []

abbrev zoned_config : Config
zoned_config = record {
  schedule = bytes "0 3 * * *";
  timezone = bytes "Europe/Paris";
  jitter = pos (30 * minute);
  scope = record { mode = project; project = [] };
  soak = pos (2 * hour);
  self_update = false;
  cleanup = false;
  webhook = false;
  webhook_url = bytes "https://relay";
  data_dir = bytes "/data";
  notify_url = [];
  dry_run = false;
  log_level = bytes "info";
  log_json = false;
  compat_watchtower = false;
  warnings = [];
}

location-load_example : location (λ z. true) zoned_config ≡ bytes "Europe/Paris"
unfolding load parse_scope env lookup str_eq cut_prefix read_config dur_of bool_of config_duration
    parse_duration trim_space unknown_vars has_prefix one_of
location-load_example =
    location-load exact zoned (λ z. true) (bytes "https://relay") zoned_config refl

-- Docker does not answer, and the webhook cannot be set up.
abbrev forlorn : System ToyWorld
forlorn = record (system ((bytes "PP_WEBHOOK", bytes "on") ∷ [])) {
  ping = λ ctx w. (err (no_answer (bytes "no socket")), w);
}

abbrev plain_config : Config
plain_config = record zoned_config {
  timezone = bytes "UTC";
  soak = pos (24 * hour);
  webhook = true;
}

abbrev forlorn_built : Built ToyWorld
forlorn_built = record {
  cfg = plain_config;
  logger = record { level = info; output = console true };
  warned = false;
  notifier = record { sender = none };
  engine = record {
    cfg = plain_config;
    self_id = bytes "abc123";
    project = [];
    self_identified = true;
  };
  st = record { path = bytes "/data/state.json"; content = empty_data };
}

set_up-starts_example : has_started forlorn (set_up forlorn world).0 ≡ true
unfolding build load_config load parse_scope str_eq env lookup State.load toy_host new_engine
    read_config boot_logger mount_warning new_notifier has_prefix dur_of bool_of new_logger
    data_dir_persistent get_or parse_bool one_of to_lower trim_space unknown_vars
set_up-starts_example = set_up-starts forlorn world forlorn_built refl

-- Where Docker does not answer, run fails with the address that was tried.
run_fails :
    (run_once forlorn world).0
    ≡ err (unreachable (bytes "unix:///var/run/docker.sock") (no_answer (bytes "no socket")))
unfolding run_once ping_failure docker_address build load_config load parse_scope str_eq env lookup
    State.load toy_host new_engine has_prefix dur_of bool_of get_or parse_bool one_of to_lower
    trim_space unknown_vars
run_fails = refl
