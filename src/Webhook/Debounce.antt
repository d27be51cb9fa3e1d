-- ===== src/Webhook/Debounce.antt =====
-- schedule and stopPending of internal/webhook/webhook.go: the debouncer of pokes.
use pullpilot.Prelude.{
  ℕ, ◌+◌, ◌*◌, ◌≤◌, ◌≡◌, Option, none, some, List, [], ◌∷◌, arith, if◌then◌else◌,
}
use pullpilot.Std.Str.{Str, bytes, is_empty}
use pullpilot.Std.Num.{second}
use pullpilot.State.{Time}

abbrev pub debounce : ℕ
debounce = 10 * second

-- `pending` is a timer that was neither stopped nor fired: when it is due, and the reason that its
-- function passes on.
pub record Debouncer : Type 0 where
  pub now : Time
  pub pending : Option (Time × Str)

-- A new timer takes the place of the pending one.
unfoldable pub schedule : Str → Debouncer → Debouncer
schedule reason d = record d {
  pending = some (d.now + debounce, if is_empty reason then bytes "webhook" else reason);
}

unfoldable pub stop_pending : Debouncer → Debouncer
stop_pending d = record d { pending = none }

-- What time.AfterFunc does: the function runs once the timer is due, at the current time or later.
abbrev pub fired : Debouncer → Debouncer
fired d = record d { pending = none }

-- The states that a sequence of pokes, timers and waits leads to, with the triggers on the way:
-- when each was, and its reason, the latest first.
pub data Reach : Debouncer → List (Time × Str) → Type 0 where
  begin : (t : Time) → Reach (record { now = t; pending = none }) []
  wait :
      {d : Debouncer} {ts : List (Time × Str)} (t : Time)
      → Reach d ts
      → d.now ≤ t
      → Reach (record d { now = t }) ts
  poke :
      {d : Debouncer} {ts : List (Time × Str)} (reason : Str)
      → Reach d ts
      → Reach (schedule reason d) ts
  fire :
      {d : Debouncer} {ts : List (Time × Str)} (due : Time) (reason : Str)
      → Reach d ts
      → d.pending ≡ some (due, reason)
      → due ≤ d.now
      → Reach (fired d) ((d.now, reason) ∷ ts)
  stop : {d : Debouncer} {ts : List (Time × Str)} → Reach d ts → Reach (stop_pending d) ts

-- Two triggers are at least the debounce time apart.
abbrev pub IsSpaced : List (Time × Str) → Type 0
IsSpaced [] = Unit
IsSpaced (t ∷ []) = Unit
IsSpaced (t ∷ u ∷ ts) = (u.0 + debounce ≤ t.0) × IsSpaced (u ∷ ts)

-- The latest trigger is past, and the pending timer is due the debounce time after it.
abbrev IsAfter : Debouncer → List (Time × Str) → Type 0
IsAfter d [] = Unit
IsAfter d (u ∷ ts) =
    (u.0 ≤ d.now) × ((due : Time) (r : Str) → d.pending ≡ some (due, r) → u.0 + debounce ≤ due)

wait-IsAfter :
    (d : Debouncer) (ts : List (Time × Str)) (t : Time)
    → IsAfter d ts
    → d.now ≤ t
    → IsAfter (record d { now = t }) ts
wait-IsAfter d [] t a h = tt
wait-IsAfter d (u ∷ ts) t a h = (omega (arith, a.0, h), a.1)

poke-IsAfter :
    (d : Debouncer) (ts : List (Time × Str)) (reason : Str)
    → IsAfter d ts
    → IsAfter (schedule reason d) ts
unfolding schedule
poke-IsAfter d [] reason a = tt
poke-IsAfter d (u ∷ ts) reason a = (a.0, λ due r h. grind arith)

stop-IsAfter : (d : Debouncer) (ts : List (Time × Str)) → IsAfter d ts → IsAfter (stop_pending d) ts
unfolding stop_pending
stop-IsAfter d [] a = tt
stop-IsAfter d (u ∷ ts) a = (a.0, λ due r h. cc h)

fire-IsSpaced :
    (d : Debouncer) (ts : List (Time × Str)) (due : Time) (reason : Str)
    → IsAfter d ts
    → IsSpaced ts
    → d.pending ≡ some (due, reason)
    → due ≤ d.now
    → IsSpaced ((d.now, reason) ∷ ts)
fire-IsSpaced d [] due reason a s h k = tt
fire-IsSpaced d (u ∷ ts) due reason a s h k = (omega (arith, a.1 due reason h, k), s)

Reach-IsAfter : {d : Debouncer} {ts : List (Time × Str)} → Reach d ts → IsAfter d ts
unfolding stop_pending
Reach-IsAfter (begin t) = tt
Reach-IsAfter (wait {d} {ts} t r h) = wait-IsAfter d ts t (Reach-IsAfter r) h
Reach-IsAfter (poke {d} {ts} reason r) = poke-IsAfter d ts reason (Reach-IsAfter r)
Reach-IsAfter (fire {d} {ts} due reason r h k) = (omega arith, λ x y q. cc q)
Reach-IsAfter (stop {d} {ts} r) = stop-IsAfter d ts (Reach-IsAfter r)

-- Whatever the pokes, timers and waits, two triggers are at least ten seconds apart.
pub Reach-IsSpaced : {d : Debouncer} {ts : List (Time × Str)} → Reach d ts → IsSpaced ts
Reach-IsSpaced (begin t) = tt
Reach-IsSpaced (wait t r h) = Reach-IsSpaced r
Reach-IsSpaced (poke reason r) = Reach-IsSpaced r
Reach-IsSpaced (fire {d} {ts} due reason r h k) =
    fire-IsSpaced d ts due reason (Reach-IsAfter r) (Reach-IsSpaced r) h k
Reach-IsSpaced (stop r) = Reach-IsSpaced r
