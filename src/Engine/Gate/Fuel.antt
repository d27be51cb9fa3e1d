-- ===== src/Engine/Gate/Fuel.antt =====
-- The fuel of the health gate's loop (healthGate of internal/engine/engine.go).
use pullpilot.Prelude.{
  ℕ, zero, suc, ◌+◌, ◌*◌, ◌/◌, ◌≤◌, ◌<◌, ◌≡◌, refl, ◌≢◌, Bool, true, false, Option, none, some,
  arith, Bool-cases, inl, inr,
}
use pullpilot.Prelude.Int.{ℤ, pos, negsuc, ltb_ℤ, ◌+ℤ◌, ◌≤ℤ◌, +ℤ_parts}
use pullpilot.Prelude.Exec.{Result, ok, err, Exec}
use pullpilot.Std.Str.{Str}
use pullpilot.Std.Num.{second}
use pullpilot.State.{Time}
use pullpilot.Labels.{Settings}
use pullpilot.Engine.Host.{CallError, Context, Inspect, RunState, Host, GateError, still_waiting}
use pullpilot.Engine.Gate.{
  Poll, healthy, verdict, undecided, poll_health, poll_running, poll, poll_state, base_restarts,
  at_deadline, after_wait, after_poll, after_inspect, gate_loop, gate_fuel, health_timeout,
  health_gate,
}

-- What is assumed of the clock and of the ticker: time does not go back, time.Now lies between the
-- world's time before and after, and the k-th tick comes k periods after the ticker's start.
pub record IsClock {W : Type 0} (host : Host W) (time : W → Time) : Type 0 where
  pub inspect-le : (c : Context) (id : Str) (w : W) → time w ≤ time (host.docker.inspect c id w).1
  pub now-le : (w : W) → (time w ≤ (host.now w).0) × ((host.now w).0 ≤ time (host.now w).1)
  pub tick-le :
      (c : Context) (t : Time) (k : ℕ) (w : W)
      → (host.wait_tick c t k w).0 ≡ ok tt
      → t + k * (2 * second) ≤ time (host.wait_tick c t k w).1

abbrev Ends : Option GateError → Type 0
Ends x = x ≢ some still_waiting

poll_health-Ends : (s : Str) → poll_health s ≢ verdict still_waiting
unfolding poll_health
poll_health-Ends s h = ground arith

poll_running-Ends : (n m : ℕ) (s : RunState) → poll_running n m s ≢ verdict still_waiting
unfolding poll_running
poll_running-Ends n m s h = ground arith

poll_state-Ends : (n m : ℕ) (s : Option RunState) → poll_state n m s ≢ verdict still_waiting
unfolding poll_state
poll_state-Ends n m none h = cc
poll_state-Ends n m (some s) h =
    ground (arith, poll_running-Ends n m s, λ (x : Str). poll_health-Ends x)

module _ {W : Type 0} {host : Host W} {time : W → Time} (clock : IsClock host time) (ctx : Context)
    (id : Str) (begun : Time) (deadline : ℤ) (span : ℕ)
    (near : deadline ≤ℤ pos (begun + span)) where
  -- The rounds that the span can hold.
  abbrev rounds : ℕ
  rounds = span / (2 * second)

  -- Before the tick after `k` others, so many periods have passed.
  abbrev Reached : ℕ → W → Type 0
  Reached k w = begun + k * (2 * second) ≤ time w

  after_wait-Ends :
      (k : ℕ) (next : Exec W (Option GateError)) (x : Result CallError (Unit {0})) (w : W)
      → (x ≡ ok tt → Ends (next w).0)
      → Ends (after_wait host ctx id begun deadline next x w).0
  unfolding after_wait
  after_wait-Ends k next (err y) w h = λ q. cc
  after_wait-Ends k next (ok u) w h = h refl

  at_deadline-Ends : (b : Bool) → Ends (at_deadline b)
  unfolding at_deadline
  at_deadline-Ends true q = cc
  at_deadline-Ends false q = cc

  after_poll-Ends :
      (k : ℕ) (next : Exec W (Option GateError)) (x : Poll) (w : W)
      → x ≢ verdict still_waiting
      → Reached k w
      → ((v : W) → k ≤ rounds → Reached (suc k) v → Ends (next v).0)
      → Ends (after_poll host ctx id begun deadline (suc k) next x w).0
  unfolding after_poll
  after_poll-Ends k next healthy w n reach h = λ q. cc
  after_poll-Ends k next (verdict y) w n reach h = λ q. n (cc)
  after_poll-Ends k next (undecided b) w n reach h =
      let t = host.now w in
      let u = host.wait_tick ctx begun (suc k) t.1 in
      elim (Bool-cases (ltb_ℤ deadline (pos t.0))) [
        | inl late ↦ rw (late, after_poll) (at_deadline-Ends b)
        | inr soon ↦
            let past : begun + k * (2 * second) ≤ t.0 = omega (arith, clock.now-le w) in
            let before : t.0 ≤ begun + span = ground arith in
            rw (soon, after_poll)
              (after_wait-Ends k next u.0 u.1
                (λ e. h u.1 (omega arith) (clock.tick-le ctx begun (suc k) t.1 e)))
      ]

  after_inspect-Ends :
      (k : ℕ) (start : Option ℕ) (next : ℕ → Exec W (Option GateError))
      (x : Result CallError Inspect) (w : W)
      → Reached k w
      → ((n : ℕ) (v : W) → k ≤ rounds → Reached (suc k) v → Ends (next n v).0)
      → Ends (after_inspect host ctx id begun deadline (suc k) start next x w).0
  unfolding after_inspect poll
  after_inspect-Ends k start next (err y) w reach h = λ q. cc
  after_inspect-Ends k start next (ok insp) w reach h =
      let n = base_restarts start insp in
      after_poll-Ends k (next n) (poll_state n insp.restart_count insp.run_state) w
        (poll_state-Ends n insp.restart_count insp.run_state) reach (h n)

  -- With a round of fuel for each period that is left, and two more, the loop ends by itself.
  gate_loop-Ends :
      (fuel k : ℕ) (start : Option ℕ) (w : W)
      → Reached k w
      → k ≤ rounds + 1
      → rounds + 1 < fuel + k
      → Ends (gate_loop host ctx id begun deadline fuel (suc k) start w).0
  unfolding gate_loop
  gate_loop-Ends zero k start w reach few enough = absurd (omega arith)
  gate_loop-Ends (suc fuel) k start w reach few enough =
      let x = host.docker.inspect ctx id w in
      after_inspect-Ends k start
        (λ n. gate_loop host ctx id begun deadline fuel (suc (suc k)) (some n)) x.0 x.1
        (omega (arith, clock.inspect-le ctx id w))
        (λ n v more reach'.
          gate_loop-Ends fuel (suc k) (some n) v reach' (omega arith) (omega arith))

module _ {W : Type 0} {host : Host W} {time : W → Time} (clock : IsClock host time) where
  gate_at :
      (timeout : ℤ) (ctx : Context) (id : Str) (w : W)
      → let t = host.now w in
        Ends (gate_loop host ctx id t.0 (pos t.0 +ℤ timeout) (gate_fuel timeout) 1 none t.1).0
  unfolding gate_fuel
  gate_at (pos n) ctx id w =
      let t = host.now w in
      gate_loop-Ends clock ctx id t.0 (pos t.0 +ℤ pos n) n
        (omega (arith, +ℤ_parts (pos t.0) (pos n))) (n / (2 * second) + 3) 0 none t.1
        (omega (arith, clock.now-le w)) (omega arith) (omega arith)
  gate_at (negsuc n) ctx id w =
      let t = host.now w in
      gate_loop-Ends clock ctx id t.0 (pos t.0 +ℤ negsuc n) 0
        (omega (arith, +ℤ_parts (pos t.0) (negsuc n))) 3 0 none t.1 (omega (arith, clock.now-le w))
        (omega arith) (omega arith)

  -- The health gate ends with a verdict for every timeout, also a negative one: on a clock that does
  -- not go back, with a tick every two seconds, the fuel does not run out.
  pub health_gate_ends :
      (ctx : Context) (id : Str) (set : Settings) (w : W)
      → (health_gate host ctx id set w).0 ≢ some still_waiting
  unfolding health_gate
  health_gate_ends ctx id set w = gate_at (health_timeout set) ctx id w
