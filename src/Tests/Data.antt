-- ===== src/Tests/Data.antt =====
-- A stack with one container `web`, for the runs.
use pullpilot.Prelude.{ℕ, true, false, none, some, [], ◌∷◌, ◌*◌}
use pullpilot.Prelude.Int.{pos}
use pullpilot.Std.Str.{Str, bytes}
use pullpilot.Std.Num.{second, hour}
use pullpilot.Labels.{Settings}
use pullpilot.State.{empty_data}
use pullpilot.Config.{Config, all}
use pullpilot.Engine.Host.{Networks, Inspect, Summary, Host, Engine, Run}
use pullpilot.Engine.View.{update}
use pullpilot.Engine.Scope.{Target}
use pullpilot.Engine.Plan.{Plan}
use pullpilot.Engine.Daemon.Toy.{ToyWorld, toy_host}

abbrev pub settings : Settings
settings = record {
  enable = none;
  exclude = false;
  monitor_only = false;
  soak = some (pos (1 * hour));
  is_self = false;
  health_timeout = some (pos (10 * second));
  stop_timeout = none;
  remove_anon_vols = false;
  order = pos 0;
  project = bytes "media";
  service = bytes "web";
  oneoff = false;
}

abbrev pub config : Config
config = record {
  schedule = bytes "0 3 * * *";
  timezone = bytes "UTC";
  jitter = pos 0;
  scope = record { mode = all; project = [] };
  soak = pos (24 * hour);
  self_update = false;
  cleanup = true;
  webhook = false;
  webhook_url = [];
  data_dir = bytes "/data";
  notify_url = [];
  dry_run = true;
  log_level = bytes "info";
  log_json = false;
  compat_watchtower = false;
  warnings = [];
}

abbrev pub engine : Engine
engine = record {
  cfg = config;
  self_id = bytes "5e1f";
  project = bytes "media";
  self_identified = true;
}

abbrev pub old_digest : Str
old_digest = bytes "sha256:0ld"

abbrev pub new_digest : Str
new_digest = bytes "sha256:new"

abbrev pub networks : Networks
networks = (bytes "front", none) ∷ (bytes "back", none) ∷ []

-- What an inspection shows of a running container with the given health.
abbrev pub inspected : Str → Inspect
inspected health = record {
  name = bytes "/web";
  image_id = bytes "sha256:1";
  config = record { image = bytes "web"; hostname = bytes "abc"; rest = [] };
  host_config = [];
  run_state = some (record { running = true; health = some health; exit_code = pos 0 });
  restart_count = 0;
  networks = some networks;
}

abbrev pub summary : Summary
summary = record { id = bytes "abc123"; names = bytes "/web" ∷ []; labels = [] }

abbrev pub host : Str → Host ToyWorld
host health = toy_host (summary ∷ []) (inspected health) ((bytes "web@sha256:0ld") ∷ []) new_digest

abbrev pub world : ToyWorld
world = record { table = (bytes "abc123", bytes "web") ∷ []; clock = 100 * hour }

-- The new digest was first seen at the given hour.
abbrev pub seen_since : ℕ → Run ToyWorld
seen_since h = record {
  st = record {
    path = bytes "/data/state.json";
    content = record empty_data { first_seen = (bytes "web/sha256:new", h * hour) ∷ [] };
  };
  world = world;
  notes = [];
}

abbrev pub target : Target
target = record {
  id = bytes "abc123";
  name = bytes "web";
  image = bytes "web";
  inspect = inspected (bytes "healthy");
  set = settings;
  running = true;
}

abbrev pub plan : Plan
plan = record {
  id = bytes "abc123";
  name = bytes "web";
  image = bytes "web";
  current = old_digest;
  available = new_digest;
  action = update;
  reason = [];
  soak_left = pos 0;
  inspect = inspected (bytes "healthy");
  settings = settings;
  running = true;
}
