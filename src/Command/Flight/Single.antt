-- ===== src/Command/Flight/Single.antt =====
-- The single-flight guard of serve in cmd/pullpilot/main.go: who holds the mutex, and who runs.
use pullpilot.Prelude.{
  ℕ, ◌+◌, ◌≤◌, ◌<◌, ◌≡◌, refl, ap, ◌⊎◌, inl, inr, Bool-cases, true, false, List, [], ◌∷◌, ◌++◌,
  arith, if◌then◌else◌,
}
use pullpilot.Command.Flight.{
  Trigger, Work, cycle, closer, Place, waiting, inside, gone, Goroutine, Daemon, at, Step, spawn,
  lock, unlock, signal, drain, pass, Reach, start, later, Exit, clean,
}

abbrev holds : Goroutine → ℕ
holds g = elim g.place [ waiting ↦ 0 | inside ↦ 1 | gone ↦ 0 ]

-- How many goroutines hold the mutex.
abbrev pub holders : List Goroutine → ℕ
holders [] = 0
holders (g ∷ gs) = holds g + holders gs

abbrev runs : Goroutine → ℕ
runs g = elim g.work [ cycle t ↦ holds g | closer ↦ 0 ]

-- How many cycles run.
abbrev pub running : List Goroutine → ℕ
running [] = 0
running (g ∷ gs) = runs g + running gs

holders-append : (l r : List Goroutine) → holders (l ++ r) ≡ holders l + holders r
holders-append [] r = omega arith
holders-append (g ∷ l) r = omega (arith, holders-append l r)

running-append : (l r : List Goroutine) → running (l ++ r) ≡ running l + running r
running-append [] r = omega arith
running-append (g ∷ l) r = omega (arith, running-append l r)

running-le-holders : (gs : List Goroutine) → running gs ≤ holders gs
running-le-holders [] = omega arith
running-le-holders (g ∷ gs) = ground (arith, running-le-holders gs)

-- The mutex is locked exactly if one goroutine holds it.
abbrev Held : Daemon → Type 0
Held d = holders d.goroutines ≡ (if d.locked then 1 else 0)

Step-Held : {d d' : Daemon} → Step d d' → Held d → Held d'
Step-Held (spawn t) h = ground (arith, h)
Step-Held {d} (lock l r w e free) h = ground (
  arith,
  h,
  ap holders e,
  holders-append l (at w waiting ∷ r),
  holders-append l (at w inside ∷ r),
)
Step-Held {d} (unlock l r t e) h = ground (
  arith,
  h,
  ap holders e,
  holders-append l (at (cycle t) inside ∷ r),
  holders-append l (at (cycle t) gone ∷ r),
)
Step-Held signal h = h
Step-Held (drain s n) h = ground (arith, h)
Step-Held (pass t le) h = h

Reach-Held : {d : Daemon} → Reach d → Held d
Reach-Held (start t) = refl
Reach-Held (later r s) = Step-Held s (Reach-Held r)

-- In every reachable state at most one cycle runs.
pub single_flight : {d : Daemon} → Reach d → running d.goroutines ≤ 1
single_flight {d} r = ground (arith, Reach-Held r, running-le-holders d.goroutines)

-- When serve returns because the closer got the mutex, no cycle runs.
pub quiet_shutdown : {d : Daemon} → Reach d → Exit d true → running d.goroutines ≡ 0
quiet_shutdown {d} r (clean l m e) = ground (
  arith,
  Reach-Held r,
  ap holders e,
  ap running e,
  holders-append l (at closer inside ∷ m),
  running-append l (at closer inside ∷ m),
  running-le-holders l,
  running-le-holders m,
)

-- A goroutine that holds the mutex, and where it stands.
record Holder (gs : List Goroutine) : Type 0 where
  before : List Goroutine
  work : Work
  after : List Goroutine
  place : gs ≡ before ++ at work inside ∷ after

found_at :
    (w : Work) (p : Place) (gs : List Goroutine)
    → (0 < holders gs → Holder gs)
    → 0 < holders (at w p ∷ gs)
    → Holder (at w p ∷ gs)
found_at w inside gs rest h = record { before = []; work = w; after = gs; place = refl }
found_at w waiting gs rest h =
    let x = rest (omega arith) in
    record {
      before = at w waiting ∷ x.before;
      work = x.work;
      after = x.after;
      place = ap (λ (l : List Goroutine). at w waiting ∷ l) x.place;
    }
found_at w gone gs rest h =
    let x = rest (omega arith) in
    record {
      before = at w gone ∷ x.before;
      work = x.work;
      after = x.after;
      place = ap (λ (l : List Goroutine). at w gone ∷ l) x.place;
    }

holder : (gs : List Goroutine) → 0 < holders gs → Holder gs
holder [] h = absurd (omega arith)
holder (g ∷ gs) h = found_at g.work g.place gs (holder gs) h

-- What the goroutine between `l` and `r` waits for: nothing, and it can take the mutex next; the end
-- of a cycle that is inside; or, as the closer is inside, that serve returns.
abbrev pub WayOn : Daemon → List Goroutine → List Goroutine → Work → Type 0
WayOn d l r w =
    (d.locked ≡ false × Step d (record d { goroutines = l ++ at w inside ∷ r; locked = true }))
    ⊎ ((before : List Goroutine) × (t : Trigger) × (after : List Goroutine) × (d.goroutines
          ≡ before ++ at (cycle t) inside ∷ after))
    ⊎ Exit d true

held_way :
    (d : Daemon) (l r : List Goroutine) (w v : Work) (before after : List Goroutine)
    → d.goroutines ≡ before ++ at v inside ∷ after
    → WayOn d l r w
held_way d l r w (cycle t) before after e = inr (inl (before, t, after, e))
held_way d l r w closer before after e = inr (inr (clean before after e))

-- Nobody waits for a mutex that nobody gives back: while a goroutine waits for the mutex, the mutex
-- is free and this goroutine can take it, or a cycle is inside, whose end unlocks it, or the closer is
-- inside and serve can return.
pub no_deadlock :
    {d : Daemon} (l r : List Goroutine) (w : Work)
    → Reach d
    → d.goroutines ≡ l ++ at w waiting ∷ r
    → WayOn d l r w
no_deadlock {d} l r w reach e = elim (Bool-cases d.locked) [
  | inl locked ↦
      let h = holder d.goroutines (ground (arith, Reach-Held reach)) in
      held_way d l r w h.work h.before h.after h.place
  | inr free ↦ inl (free, lock l r w e free)
]
