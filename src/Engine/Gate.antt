-- ===== src/Engine/Gate.antt =====
-- healthGate of internal/engine/engine.go: its loop, a round for each tick of the ticker.
pub mod Fuel
pub mod Pass
pub mod Laws
use pullpilot.Prelude.{
  ℕ, zero, suc, ◌+◌, ◌*◌, ◌/◌, Bool, true, false, not, Option, none, some, ltb, if◌then◌else◌,
}
use pullpilot.Prelude.Int.{ℤ, pos, ltb_ℤ, ◌+ℤ◌}
use pullpilot.Prelude.Exec.{Result, ok, err, Exec, pure, ◌>>=◌}
use pullpilot.Std.Str.{Str, bytes, str_eq}
use pullpilot.Std.Num.{second}
use pullpilot.State.{Time}
use pullpilot.Labels.{Settings}
use pullpilot.Engine.Host.{
  CallError, canceled, deadline_exceeded, failed, Context, RunState, Inspect, Host, GateError,
  call_failed, no_state, unhealthy, exited, restart_looping, not_healthy_in_time, still_waiting,
}

abbrev pub default_health_timeout : ℤ
default_health_timeout = pos (90 * second)

unfoldable pub health_timeout : Settings → ℤ
health_timeout set = elim set.health_timeout [ none ↦ default_health_timeout | some d ↦ d ]

-- What one look at the container decides: healthy, a verdict against it, or to wait (with or
-- without a health check).
pub data Poll : Type 0 where
  healthy : Poll
  verdict : GateError → Poll
  undecided : Bool → Poll

-- The container's health status; the look without a health check.
unfoldable pub poll_health : Str → Poll
poll_health status =
    if str_eq status (bytes "healthy")
    then healthy
    else if str_eq status (bytes "unhealthy")
    then verdict unhealthy
    else undecided true

unfoldable pub poll_running : ℕ → ℕ → RunState → Poll
poll_running start_restarts restarts s =
    if not s.running
    then verdict exited
    else if ltb start_restarts restarts
    then verdict restart_looping
    else undecided false

unfoldable pub poll_state : ℕ → ℕ → Option RunState → Poll
unfolding poll_health poll_running
poll_state start_restarts restarts none = verdict no_state
poll_state start_restarts restarts (some s) = elim s.health [
  | some status ↦ poll_health status
  | none ↦ poll_running start_restarts restarts s
]

-- startRestarts: what the first look found.
unfoldable pub base_restarts : Option ℕ → Inspect → ℕ
base_restarts none insp = insp.restart_count
base_restarts (some n) insp = n

unfoldable pub poll : Option ℕ → Inspect → Poll
unfolding poll_state base_restarts
poll start insp = poll_state (base_restarts start insp) insp.restart_count insp.run_state

-- Past the deadline: an error if the container has a health check.
unfoldable pub at_deadline : Bool → Option GateError
at_deadline true = some not_healthy_in_time
at_deadline false = none

module _ {W : Type 0} (host : Host W) (ctx : Context) (id : Str) (begun : Time) (deadline : ℤ) where
  -- `next` is the rest of the loop, from the restart count of the first look.
  unfoldable pub after_wait :
      Exec W (Option GateError) → Result CallError (Unit {0}) → Exec W (Option GateError)
  after_wait next (err x) w = (some (call_failed x), w)
  after_wait next (ok _) w = next w

  unfoldable pub after_poll : ℕ → Exec W (Option GateError) → Poll → Exec W (Option GateError)
  unfolding after_wait at_deadline
  after_poll k next healthy w = (none, w)
  after_poll k next (verdict x) w = (some x, w)
  after_poll k next (undecided has_check) w =
      let (now, w₁) = host.now w in
      elim (ltb_ℤ deadline (pos now)) [
        | true ↦ (at_deadline has_check, w₁)
        | false ↦ let (r, w₂) = host.wait_tick ctx begun k w₁ in after_wait next r w₂
      ]

  unfoldable pub after_inspect :
      ℕ
      → Option ℕ
      → (ℕ → Exec W (Option GateError))
      → Result CallError Inspect
      → Exec W (Option GateError)
  unfolding after_poll poll
  after_inspect k start next (err x) w = (some (call_failed x), w)
  after_inspect k start next (ok insp) w =
      after_poll k (next (base_restarts start insp)) (poll start insp) w

  -- The loop before its k-th tick. `none` is nil; `start` is the restart count once it is known.
  unfoldable pub gate_loop : ℕ → ℕ → Option ℕ → Exec W (Option GateError)
  unfolding after_inspect
  gate_loop zero k start w = (some still_waiting, w)
  gate_loop (suc fuel) k start w =
      let (r, w') = host.docker.inspect ctx id w in
      after_inspect k start (λ n. gate_loop fuel (suc k) (some n)) r w'

-- A round takes a tick of two seconds; the rounds that a timeout can hold, and two more.
unfoldable pub gate_fuel : ℤ → ℕ
gate_fuel (pos n) = n / (2 * second) + 3
gate_fuel _ = 3

unfoldable pub health_gate :
    {W : Type 0} → Host W → Context → Str → Settings → Exec W (Option GateError)
unfolding gate_loop gate_fuel health_timeout ◌+ℤ◌
health_gate host ctx id set w =
    let timeout = health_timeout set in
    let (now, w') = host.now w in
    gate_loop host ctx id now (pos now +ℤ timeout) (gate_fuel timeout) 1 none w'

-- errors.Is with one of the two errors of a context.
unfoldable pub interrupted : GateError → Bool
interrupted (call_failed canceled) = true
interrupted (call_failed deadline_exceeded) = true
interrupted still_waiting = true
interrupted _ = false
