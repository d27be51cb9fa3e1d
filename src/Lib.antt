-- ===== src/Lib.antt =====
-- PullPilot watches the Docker containers of a host, asks their registries for newer images of the
-- tags they run, and replaces each container whose image changed, after a soak time and behind a
-- health gate, with the old container kept aside to go back to.
--
-- The parts, and how they work together. The engine (internal/engine/engine.go) runs a cycle: it
-- finds its own container to learn its Compose project, lists the containers in scope, heals updates
-- that were interrupted, decides for each container by its labels (internal/labels/labels.go), its
-- registry (internal/registry/registry.go) and the bookkeeping on disk (internal/state/state.go)
-- what to do, and applies the updates. The settings are those of internal/config/config.go. What
-- ends in success, rollback or worse is a notice, which internal/notify/notify.go delivers. The
-- command (cmd/pullpilot/main.go) starts a cycle by hand, on a timer or on a push that the webhook
-- client (internal/webhook/webhook.go) hears of from the relay (worker/).
--
-- The files. A Go function has its name in snake_case, cut where a branch is long: the part after a
-- call is a function `after_<call>` by clauses on the call's result.
--   Prelude        shared names; Prelude.Int has int64 and its wrap-around, Prelude.Exec the
--                  functions from a state to a result and a state
--   Std            what is used of Go's strings, maps, strconv and time, on byte strings:
--                  Std.Str, Std.Utf8 (ranging over runes), Std.Dict, Std.Num (Atoi, ParseBool,
--                  ParseDuration)
--   Labels         internal/labels/labels.go: Settings, Parse, truthy, duration
--   State          internal/state/state.go: Load, save, FirstSeen, PeekSeen, MarkBad, MarkApplied
--   Registry       internal/registry/registry.go: ParseRef, RemoteDigest, head, token;
--                  Registry.Header the parser of the challenge, Registry.Creds the credentials
--                  State.Book is an abstract book of what they promise
--   Config         internal/config/config.go: Load; Config.Redact has redactURL, Config.Mount
--                  DataDirPersistent, Config.Summary Location and LogSummary
--   Notify         internal/notify/notify.go: New and Notify
--   Logging        internal/logging/logging.go: New
--   Engine.Host    the calls to Docker, network, disk and clock, and the state of a run
--   Engine.Start   internal/engine/engine.go: New, and the address in Ping's error
--   Engine.View    internal/engine/engine.go: Action, short, dash, trimName, stateText
--   Engine.Scope   the same file: identifySelf, cycleContext, projectFilter, discover, eligible
--   Engine.Plan    the same file: evaluate, matchRepoDigest, buildPlan
--   Engine.Network the same file: buildNetworking, endpointFrom
--   Engine.Gate    the same file: healthGate
--   Engine.Apply   the same file: apply, pull, rollback
--   Engine.Cycle   the same file: reconcileOrphans, Run, Status
--   Webhook        internal/webhook/webhook.go: Webhook.Identity has New, loadOrCreateKey,
--                  loadOrProvision and provision; Webhook.Session connectAndListen, read and
--                  heartbeat; Webhook.Debounce schedule and stopPending, as a step relation;
--                  Webhook.Retry the loop of Run
--   Boot           cmd/pullpilot/main.go: build, from the environment to the engine
--   Command        the same file: the commands, and serve up to where it waits;
--                  Command.Flight the goroutines of serve and their mutex, as a step relation; and
--                  internal/version/version.go: String
--   Engine.Daemon  what Docker's documentation promises of names, and in Engine.Daemon.Toy a
--                  daemon that keeps the promise
--   Tests          runs of the model, and the theorems at concrete data
-- The modules beneath these hold the proofs and are named for what they prove.
--
-- The world outside is a type `W` with functions `W → result × W`, the fields of `Host W`. A run
-- carries the world, the bookkeeping and the notices sent so far, newest last.
--
-- Fuel. The health gate's loop has `gate_fuel`, a round for every tick of two seconds until the
-- deadline and some to spare; on a clock that does not go back and with ticks two seconds apart it
-- does not run out. ParseDuration's loop has the text's length, and each round reads a byte. All
-- other loops are structural.
--
-- Bounds. A duration or a time is an integer; where Go's int64 wraps around, the wrap-around is
-- written out. Lists, strings and counters have no bound.
--
-- Taken as parameters: the Docker client, the registry's HTTP client, the reference parser, base64
-- and JSON, ed25519 and the random source, the time zone database, the file system, the clock and
-- the ticker, the rounding of fractions of a duration, the printing of minutes in a reason, cron's
-- parser of schedules, shoutrrr's parser of URLs and zerolog's parser of levels, filepath.Join, and
-- int(d.Seconds()) of a stop timeout. Names, digests and URLs are valid UTF-8, which encoding/json
-- keeps; MarshalIndent of the bookkeeping may fail.
--
-- Engine.Daemon takes of Docker only what holds also of containers made with AutoRemove and of calls
-- whose answer got lost; where a theorem needs more, it is a hypothesis on the container.
--
-- A session with the relay is a function of the messages that arrive before reading fails, and the
-- heartbeat one of its ticks. The goroutines of serve take any order of steps, also a new trigger
-- after the shutdown began.
--
-- Not modelled: the log lines and the usage text, the mutex of the bookkeeping (each operation is
-- one step), the table that Status prints (its rows are a value here), Close of the engine, which only
-- calls the Docker client, the set-up of the Docker and the HTTP client, the delivery of notices in
-- the background, cron's timer with its jitter, signals, the order of the webhook's
-- goroutine and the commands, and the relay. TrimSpace, ToLower and Fields act on ASCII only. Where
-- Go ranges over a map, the order is that of the association list.
pub mod Prelude
pub mod Std
pub mod Labels
pub mod State
pub mod Registry
pub mod Config
pub mod Engine
pub mod Webhook
pub mod Notify
pub mod Logging
pub mod Boot
pub mod Command
pub mod Tests
