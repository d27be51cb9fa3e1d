-- ===== src/Command/Readonly.antt =====
-- The world under the command `status` of cmd/pullpilot/main.go.
use pullpilot.Prelude.{Bool, true, false, Option, none, some}
use pullpilot.Prelude.Exec.{Result, ok, err, Keeps}
use pullpilot.Std.Str.{Str}
use pullpilot.State
use pullpilot.State.{State, LoadError}
use pullpilot.State.Looks.{load-P}
use pullpilot.Config.{Config, ConfigError}
use pullpilot.Engine.Host.{CallError, Engine}
use pullpilot.Engine.Start.{after_client, new_engine}
use pullpilot.Engine.Cycle.Effects.{LooksKeep, status-Untouched}
use pullpilot.Boot.{
  System, Failure, Built, load_config, mount_warning, after_engine, after_state, after_config,
  build, ping_context,
}
use pullpilot.Command.{show, fresh_run, status_pinged, status_built, show_status, perform}

module _ {W : Type 0} (sys : System W) (P : W → Type 0) (looks : LooksKeep sys.host P)
    (move-P : (p q : Str) → Keeps P (sys.host.disk.move p q))
    (make_client-P : Keeps P sys.make_client) (ping-P : Keeps P (sys.ping ping_context)) where
  after_client-P :
      (cfg : Config) (made : Bool) → Keeps P (after_client sys.host sys.hostname cfg made)
  unfolding after_client
  after_client-P cfg false w h = h
  after_client-P cfg true w h = looks.list-P none w h

  after_engine-P :
      (boot : Bool) (cfg : Config) (warned : Bool) (st : State) (e : Option Engine)
      → Keeps P (after_engine sys boot cfg warned st e)
  unfolding after_engine
  after_engine-P boot cfg warned st none w h = h
  after_engine-P boot cfg warned st (some e) w h = h

  after_state-P :
      (boot : Bool) (cfg : Config) (warned : Bool) (st : Result LoadError State)
      → Keeps P (after_state sys boot cfg warned st)
  unfolding after_state new_engine
  after_state-P boot cfg warned (err x) w h = h
  after_state-P boot cfg warned (ok st) w h =
      let c = sys.make_client w in
      let e = after_client sys.host sys.hostname cfg c.0 c.1 in
      after_engine-P boot cfg warned st e.0 e.1 (after_client-P cfg c.0 c.1 (make_client-P w h))

  after_config-P : (boot : Bool) (x : Result ConfigError Config) → Keeps P (after_config sys boot x)
  unfolding after_config
  after_config-P boot (err x) w h = h
  after_config-P boot (ok cfg) w h =
      let l = State.load sys.host.disk cfg.data_dir w in
      after_state-P boot cfg (mount_warning sys boot cfg w) l.0 l.1
        (load-P sys.host.disk P move-P cfg.data_dir w h)

  status_pinged-P :
      (b : Built W) (x : Result CallError (Unit {0})) → Keeps P (status_pinged sys b x)
  unfolding status_pinged
  status_pinged-P b (err x) w h = h
  status_pinged-P b (ok u) w h =
      (status-Untouched looks b.engine sys.show_minutes (fresh_run sys b.st w)).kept h

  status_built-P : (x : Result Failure (Built W)) → Keeps P (status_built sys x)
  unfolding status_built
  status_built-P (err x) w h = h
  status_built-P (ok b) w h =
      let r = sys.ping ping_context w in status_pinged-P b r.0 r.1 (ping-P w h)

  -- The command `status` keeps every property of the world that looking, pinging and making a client
  -- keep, and that a rename of a file keeps: Load moves a corrupt state file aside.
  pub show-P : (build_info : Str) (w : W) → P w → P (perform sys build_info show w).1
  unfolding perform show_status build
  show-P build_info w h =
      let b = build sys false w in
      status_built-P b.0 b.1 (after_config-P false (load_config sys) w h)
