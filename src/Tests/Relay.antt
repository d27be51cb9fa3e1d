-- ===== src/Tests/Relay.antt =====
-- The client of the relay: runs, and the theorems at concrete data.
use pullpilot.Prelude.{ℕ, ◌*◌, ◌-◌, ◌≡◌, refl, Option, none, [], ◌∷◌, arith}
use pullpilot.Prelude.Exec.{Exec}
use pullpilot.Std.Str.{Str, bytes}
use pullpilot.Std.Num.{second, minute}
use pullpilot.State.{Time}
use pullpilot.Webhook.Debounce.{
  Debouncer, schedule, Reach, begin, wait, poke, fire, IsSpaced, Reach-IsSpaced,
}
use pullpilot.Webhook.Retry.{rounds, IsPatient, rounds-IsPatient, backoff}

abbrev quiet : Time → Debouncer
quiet t = record { now = t; pending = none }

-- Two pokes, the second after four seconds; the trigger; a third poke; the second trigger.
abbrev first_trigger : Time × Str
first_trigger = (14 * second, bytes "push")

abbrev second_trigger : Time × Str
second_trigger = (26 * second, bytes "webhook")

burst : Reach (quiet (26 * second)) (second_trigger ∷ first_trigger ∷ [])
unfolding schedule
burst =
    fire (26 * second) (bytes "webhook")
      (wait (26 * second)
        (poke [] (
          wait (16 * second)
            (fire (14 * second) (bytes "push")
              (wait (14 * second)
                (poke (bytes "push")
                  (wait (4 * second) (poke (bytes "early") (begin 0)) (omega arith)))
                (omega arith))
              refl (omega arith))
            (omega arith)))
        (omega arith))
      refl (omega arith)

Reach-IsSpaced_example : IsSpaced (second_trigger ∷ first_trigger ∷ [])
Reach-IsSpaced_example = Reach-IsSpaced burst

-- Sessions that never authenticate, a clock that stands still, and the longest sleep each time.
abbrev dead : Exec ℕ (Option Time)
dead w = (none, w)

abbrev longest : ℕ → Exec ℕ ℕ
longest n w = (n - 1, w)

-- The factor is doubled up to the sixth attempt, and the cap cuts that one.
backoff_run : (backoff 0 ≡ second) × (backoff 5 ≡ 32 * second) × (backoff 6 ≡ minute)
unfolding backoff
backoff_run = (refl, refl, refl)

rounds-IsPatient_example : IsPatient 0 (rounds dead (λ w. (w, w)) longest 8 0 0).0
rounds-IsPatient_example =
    rounds-IsPatient dead (λ w. (w, w)) longest (λ n w h. omega (arith, h)) 8 0 0
