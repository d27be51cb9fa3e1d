-- ===== src/Engine/Gate/Pass.antt =====
-- What it takes to pass the health gate.
use pullpilot.Prelude.{
  ℕ, zero, suc, ◌≡◌, refl, ◌⊎◌, inl, inr, Bool, true, false, Option, none, some, Bool-cases,
  Option-cases, not, arith,
}
use pullpilot.Prelude.Int.{ℤ, pos, ltb_ℤ, ◌+ℤ◌}
use pullpilot.Prelude.Exec.{Result, ok, err, Exec}
use pullpilot.Std.Str.{Str, bytes, str_eq}
use pullpilot.State.{Time}
use pullpilot.Labels.{Settings}
use pullpilot.Engine.Host.{CallError, Context, RunState, Inspect, Host, GateError}
use pullpilot.Engine.Gate.{
  Poll, healthy, verdict, undecided, poll_health, poll_running, poll_state, poll, base_restarts,
  at_deadline, after_wait, after_poll, after_inspect, gate_loop, gate_fuel, health_timeout,
  health_gate,
}

-- A container with a health check reports that it is healthy; one without is running.
abbrev pub fits : Option RunState → Bool
fits none = false
fits (some s) = elim s.health [ some status ↦ str_eq status (bytes "healthy") | none ↦ s.running ]

-- The looks with which the gate may be passed, at once or at the deadline.
abbrev passes : Poll → Bool
passes healthy = true
passes (verdict x) = false
passes (undecided has_check) = not has_check

poll_health-fits :
    (status : Str) → passes (poll_health status) ≡ true → str_eq status (bytes "healthy") ≡ true
unfolding poll_health
poll_health-fits status h = ground arith

poll_running-fits :
    (start restarts : ℕ) (s : RunState)
    → passes (poll_running start restarts s) ≡ true
    → s.running ≡ true
unfolding poll_running
poll_running-fits start restarts s h = ground arith

poll_state-fits :
    (start restarts : ℕ) (s : Option RunState)
    → passes (poll_state start restarts s) ≡ true
    → fits s ≡ true
unfolding poll_state
poll_state-fits start restarts none h = h
poll_state-fits start restarts (some s) h = elim (Option-cases s.health) [
  | inl no_check ↦ rw no_check (poll_running-fits start restarts s (rw (no_check, poll_state) at h))
  | inr (status, check) ↦ rw check (poll_health-fits status (rw (check, poll_state) at h))
]

at_deadline-passes : (b : Bool) → at_deadline b ≡ none → passes (undecided b) ≡ true
unfolding at_deadline
at_deadline-passes true q = cc q
at_deadline-passes false q = refl

module _ {W : Type 0} (host : Host W) (ctx : Context) (id : Str) where
  -- The last look at the container, in the world `before`, found it fit; after it the gate at most
  -- read the clock.
  pub record Passed (after : W) : Type 0 where
    pub before : W
    pub insp : Inspect
    pub seen : (host.docker.inspect ctx id before).0 ≡ ok insp
    pub fit : fits insp.run_state ≡ true
    pub last :
        (after ≡ (host.docker.inspect ctx id before).1)
        ⊎ (after ≡ (host.now (host.docker.inspect ctx id before).1).1)

  module _ (begun : Time) (deadline : ℤ) where
    after_wait-Passed :
        (next : Exec W (Option GateError)) (x : Result CallError (Unit {0})) (w : W)
        → ((v : W) → (next v).0 ≡ none → Passed (next v).1)
        → (after_wait host ctx id begun deadline next x w).0 ≡ none
        → Passed (after_wait host ctx id begun deadline next x w).1
    unfolding after_wait
    after_wait-Passed next (err y) w h q = cc q
    after_wait-Passed next (ok u) w h q = h w q

    after_poll-Passed :
        (k : ℕ) (next : Exec W (Option GateError)) (x : Poll) (before : W) (insp : Inspect)
        → (host.docker.inspect ctx id before).0 ≡ ok insp
        → (passes x ≡ true → fits insp.run_state ≡ true)
        → ((v : W) → (next v).0 ≡ none → Passed (next v).1)
        → (after_poll host ctx id begun deadline k next x (host.docker.inspect ctx id before).1).0
          ≡ none
        → Passed
            (after_poll host ctx id begun deadline k next x (host.docker.inspect ctx id before).1).1
    unfolding after_poll at_deadline
    after_poll-Passed k next healthy before insp seen f h q = record {
      before = before;
      insp = insp;
      seen = seen;
      fit = f refl;
      last = inl refl;
    }
    after_poll-Passed k next (verdict y) before insp seen f h q = cc q
    after_poll-Passed k next (undecided b) before insp seen f h q =
        let t = host.now (host.docker.inspect ctx id before).1 in
        let u = host.wait_tick ctx begun k t.1 in
        elim (Bool-cases (ltb_ℤ deadline (pos t.0))) [
          | inl late ↦
              rw (late, after_poll)
                (record {
                  before = before;
                  insp = insp;
                  seen = seen;
                  fit = f (at_deadline-passes b (rw (late, after_poll) at q));
                  last = inr refl;
                })
          | inr soon ↦
              rw (soon, after_poll) (after_wait-Passed next u.0 u.1 h (rw (soon, after_poll) at q))
        ]

    look-Passed :
        (k : ℕ) (start : Option ℕ) (next : ℕ → Exec W (Option GateError)) (before : W)
        (x : Result CallError Inspect)
        → (host.docker.inspect ctx id before).0 ≡ x
        → ((n : ℕ) (v : W) → (next n v).0 ≡ none → Passed (next n v).1)
        → (after_inspect host ctx id begun deadline k start next x
            (host.docker.inspect ctx id before).1).0
          ≡ none
        → Passed
            (after_inspect host ctx id begun deadline k start next x
              (host.docker.inspect ctx id before).1).1
    unfolding after_inspect poll
    look-Passed k start next before (err y) e h q = cc q
    look-Passed k start next before (ok insp) e h q =
        let n = base_restarts start insp in
        after_poll-Passed k (next n) (poll_state n insp.restart_count insp.run_state) before insp e
          (poll_state-fits n insp.restart_count insp.run_state) (h n) q

    gate_loop-Passed :
        (fuel k : ℕ) (start : Option ℕ) (w : W)
        → (gate_loop host ctx id begun deadline fuel k start w).0 ≡ none
        → Passed (gate_loop host ctx id begun deadline fuel k start w).1
    unfolding gate_loop
    gate_loop-Passed zero k start w q = cc q
    gate_loop-Passed (suc fuel) k start w q =
        look-Passed k start (λ n. gate_loop host ctx id begun deadline fuel (suc k) (some n)) w
          (host.docker.inspect ctx id w).0 refl (λ n v. gate_loop-Passed fuel (suc k) (some n) v) q

  -- A container that passes the gate was found fit at the gate's last look: it reported that it is
  -- healthy, or it has no health check and was running.
  pub health_gate-Passed :
      (set : Settings) (w : W)
      → (health_gate host ctx id set w).0 ≡ none
      → Passed (health_gate host ctx id set w).1
  unfolding health_gate
  health_gate-Passed set w q =
      let t = host.now w in
      gate_loop-Passed t.0 (pos t.0 +ℤ health_timeout set) (gate_fuel (health_timeout set)) 1 none
        t.1 q
