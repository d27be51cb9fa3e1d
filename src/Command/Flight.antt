-- ===== src/Command/Flight.antt =====
-- serve of cmd/pullpilot/main.go while it waits: the goroutines that share its mutex, as a step
-- relation. A goroutine is a cycle that a trigger started, or the one that the shutdown makes.
pub mod Single
use pullpilot.Prelude.{
  ℕ, ◌+◌, ◌*◌, ◌≤◌, ◌≡◌, Bool, true, false, Option, none, some, List, [], ◌∷◌, ◌++◌,
}
use pullpilot.Std.Num.{second}
use pullpilot.State.{Time}

pub data Trigger : Type 0 where
  startup schedule webhook : Trigger

pub data Work : Type 0 where
  cycle : Trigger → Work
  -- go func() { mu.Lock(); close(done) }()
  closer : Work

-- Before mu.Lock returned, while the mutex is held, and after mu.Unlock.
pub data Place : Type 0 where
  waiting inside gone : Place

pub record Goroutine : Type 0 where
  pub work : Work
  pub place : Place

abbrev pub shutdown_time : ℕ
shutdown_time = 30 * second

pub record Daemon : Type 0 where
  pub goroutines : List Goroutine
  pub locked : Bool
  -- ctx.Done is closed
  pub stopping : Bool
  -- the time of the shutdown's time.After, once it was made
  pub due : Option Time
  pub now : Time

abbrev pub at_start : Time → Daemon
at_start t = record { goroutines = []; locked = false; stopping = false; due = none; now = t }

abbrev pub at : Work → Place → Goroutine
at w p = record { work = w; place = p }

pub data Step (d : Daemon) : Daemon → Type 0 where
  -- The start, the schedule or the webhook calls runCycle.
  spawn : (t : Trigger) → Step d (record d { goroutines = at (cycle t) waiting ∷ d.goroutines })
  -- mu.Lock returns; the mutex lets one goroutine in at a time.
  lock :
      (l r : List Goroutine) (w : Work)
      → d.goroutines ≡ l ++ at w waiting ∷ r
      → d.locked ≡ false
      → Step d (record d { goroutines = l ++ at w inside ∷ r; locked = true })
  -- A cycle ends, and its deferred Unlock runs. The closer does not unlock.
  unlock :
      (l r : List Goroutine) (t : Trigger)
      → d.goroutines ≡ l ++ at (cycle t) inside ∷ r
      → Step d (record d { goroutines = l ++ at (cycle t) gone ∷ r; locked = false })
  signal : Step d (record d { stopping = true })
  -- `<-ctx.Done()` returns, and the closer is started.
  drain :
      d.stopping ≡ true
      → d.due ≡ none
      → Step d (record d {
        goroutines = at closer waiting ∷ d.goroutines;
        due = some (d.now + shutdown_time);
      })
  pass : (t : Time) → d.now ≤ t → Step d (record d { now = t })

pub data Reach : Daemon → Type 0 where
  start : (t : Time) → Reach (at_start t)
  later : {d d' : Daemon} → Reach d → Step d d' → Reach d'

-- serve returns: the closer has the mutex, or the time is up.
pub data Exit (d : Daemon) : Bool → Type 0 where
  clean : (l r : List Goroutine) → d.goroutines ≡ l ++ at closer inside ∷ r → Exit d true
  late : (t : Time) → d.due ≡ some t → t ≤ d.now → Exit d false
