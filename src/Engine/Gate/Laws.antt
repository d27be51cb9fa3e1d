-- ===== src/Engine/Gate/Laws.antt =====
-- The health gate and what its calls keep of the world.
use pullpilot.Prelude.{ℕ, zero, suc, Option, none, some, Bool-cases, inl, inr}
use pullpilot.Prelude.Int.{ℤ, pos, ltb_ℤ, ◌+ℤ◌}
use pullpilot.Prelude.Exec.{Result, ok, err, Exec, Keeps}
use pullpilot.Std.Str.{Str}
use pullpilot.State.{Time}
use pullpilot.Labels.{Settings}
use pullpilot.Engine.Host.{CallError, Context, Inspect, Host, GateError}
use pullpilot.Engine.Gate.{
  Poll, healthy, verdict, undecided, poll, base_restarts, after_wait, after_poll, after_inspect,
  gate_loop, gate_fuel, health_timeout, health_gate,
}

module _ {W : Type 0} (host : Host W) (P : W → Type 0)
    (inspect-P : (c : Context) (id : Str) → Keeps P (host.docker.inspect c id))
    (now-P : Keeps P host.now)
    (wait_tick-P : (c : Context) (t : Time) (k : ℕ) → Keeps P (host.wait_tick c t k))
    (ctx : Context) (id : Str) (begun : Time) (deadline : ℤ) where
  after_wait-P :
      (next : Exec W (Option GateError)) (r : Result CallError (Unit {0}))
      → Keeps P next
      → Keeps P (after_wait host ctx id begun deadline next r)
  unfolding after_wait
  after_wait-P next (err x) kn w h = h
  after_wait-P next (ok _) kn w h = kn w h

  after_poll-P :
      (k : ℕ) (next : Exec W (Option GateError)) (x : Poll)
      → Keeps P next
      → Keeps P (after_poll host ctx id begun deadline k next x)
  unfolding after_poll
  after_poll-P k next healthy kn w h = h
  after_poll-P k next (verdict x) kn w h = h
  after_poll-P k next (undecided b) kn w h =
      elim (Bool-cases (ltb_ℤ deadline (pos (host.now w).0))) [
        | inl late ↦ rw (late, after_poll) (now-P w h)
        | inr soon ↦
            let w₁ = (host.now w).1 in
            let t = host.wait_tick ctx begun k w₁ in
            rw (soon, after_poll)
              (after_wait-P next t.0 kn t.1 (wait_tick-P ctx begun k w₁ (now-P w h)))
      ]

  after_inspect-P :
      (k : ℕ) (start : Option ℕ) (next : ℕ → Exec W (Option GateError))
      (r : Result CallError Inspect)
      → ((n : ℕ) → Keeps P (next n))
      → Keeps P (after_inspect host ctx id begun deadline k start next r)
  unfolding after_inspect
  after_inspect-P k start next (err x) kn w h = h
  after_inspect-P k start next (ok insp) kn w h =
      after_poll-P k (next (base_restarts start insp)) (poll start insp)
        (kn (base_restarts start insp)) w h

  pub gate_loop-P :
      (fuel k : ℕ) (start : Option ℕ) → Keeps P (gate_loop host ctx id begun deadline fuel k start)
  unfolding gate_loop
  gate_loop-P zero k start w h = h
  gate_loop-P (suc fuel) k start w h =
      let r = host.docker.inspect ctx id w in
      after_inspect-P k start (λ n. gate_loop host ctx id begun deadline fuel (suc k) (some n)) r.0
        (λ n. gate_loop-P fuel (suc k) (some n)) r.1 (inspect-P ctx id w h)

module _ {W : Type 0} (host : Host W) (P : W → Type 0)
    (inspect-P : (c : Context) (id : Str) → Keeps P (host.docker.inspect c id))
    (now-P : Keeps P host.now)
    (wait_tick-P : (c : Context) (t : Time) (k : ℕ) → Keeps P (host.wait_tick c t k)) where
  pub health_gate-P :
      (ctx : Context) (id : Str) (set : Settings) → Keeps P (health_gate host ctx id set)
  unfolding health_gate
  health_gate-P ctx id set w h =
      gate_loop-P host P inspect-P now-P wait_tick-P ctx id (host.now w).0
        (pos (host.now w).0 +ℤ health_timeout set) (gate_fuel (health_timeout set)) 1 none
        (host.now w).1 (now-P w h)
