-- ===== src/Tests/Flight.antt =====
-- The single-flight guard: runs, and the theorems at concrete data.
use pullpilot.Prelude.{◌≤◌, ◌≡◌, refl, true, false, none, some, [], ◌∷◌}
use pullpilot.Command.Flight.{
  startup, webhook, cycle, closer, waiting, inside, gone, Daemon, at, shutdown_time, spawn, lock,
  unlock, signal, drain, Reach, start, later, clean,
}
use pullpilot.Command.Flight.Single.{running, single_flight, quiet_shutdown, WayOn, no_deadlock}

-- The first cycle runs and a poke waits for it.
abbrev busy : Daemon
busy = record {
  goroutines = at (cycle webhook) waiting ∷ at (cycle startup) inside ∷ [];
  locked = true;
  stopping = false;
  due = none;
  now = 0;
}

busy-Reach : Reach busy
busy-Reach =
    later (later (later (start 0) (spawn startup)) (lock [] [] (cycle startup) refl refl))
      (spawn webhook)

single_flight_example : running busy.goroutines ≤ 1
single_flight_example = single_flight busy-Reach

no_deadlock_example : WayOn busy [] (at (cycle startup) inside ∷ []) (cycle webhook)
no_deadlock_example =
    no_deadlock [] (at (cycle startup) inside ∷ []) (cycle webhook) busy-Reach refl

-- The first cycle has ended, and the shutdown got the mutex.
abbrev stopped : Daemon
stopped = record {
  goroutines = at closer inside ∷ at (cycle startup) gone ∷ [];
  locked = true;
  stopping = true;
  due = some shutdown_time;
  now = 0;
}

stopped-Reach : Reach stopped
stopped-Reach =
    later
      (later
        (later
          (later (later (later (start 0) (spawn startup)) (lock [] [] (cycle startup) refl refl))
            (unlock [] [] startup refl))
          signal)
        (drain refl refl))
      (lock [] (at (cycle startup) gone ∷ []) closer refl refl)

quiet_shutdown_example : running stopped.goroutines ≡ 0
quiet_shutdown_example = quiet_shutdown stopped-Reach (clean [] (at (cycle startup) gone ∷ []) refl)
