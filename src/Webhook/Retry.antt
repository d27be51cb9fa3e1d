-- ===== src/Webhook/Retry.antt =====
-- Run of internal/webhook/webhook.go: reconnecting with full-jitter backoff. A session, the clock and
-- the random source are parameters.
use Prim.Native.Nat.{min}
use native.Mathlib.Nat.{min-le_left, pow-le-pow_right}
use pullpilot.Prelude.{
  ℕ, zero, suc, ◌+◌, ◌*◌, ◌^◌, ◌≤◌, ◌<◌, Bool, true, false, Option, none, some, List, [], ◌∷◌,
  arith, if◌then◌else◌,
}
use pullpilot.Prelude.Int.{pos, ltb_ℤ}
use pullpilot.Prelude.Exec.{Exec}
use pullpilot.Std.Num.{second, minute}
use pullpilot.State.{Time}
use pullpilot.Engine.Plan.{since}

-- base * 2^min(attempt, 6), at most cap: the factor is exact in float64, and so is the product.
unfoldable pub backoff : ℕ → ℕ
backoff attempt = min (second * 2 ^ min attempt 6) minute

-- An authenticated session of more than a minute; `none` is the zero time.
unfoldable pub is_stable : Option Time → Time → Bool
is_stable none now = false
is_stable (some authed) now = ltb_ℤ (pos minute) (since now authed)

module _ {W : Type 0} (session : Exec W (Option Time)) (clock : Exec W Time)
    (draw : ℕ → Exec W ℕ) where
  -- After a session: whether it was stable, the sleep, the next attempt count.
  unfoldable pub resume : Bool → ℕ → Exec W (Bool × ℕ × ℕ)
  unfolding backoff
  resume stable attempt w =
      let from = if stable then 0 else attempt in
      let (sleep, w') = draw (backoff from + 1) w in ((stable, sleep, from + 1), w')

  unfoldable pub round : ℕ → Exec W (Bool × ℕ × ℕ)
  unfolding is_stable resume
  round attempt w =
      let (authed, w₁) = session w in
      let (now, w₂) = clock w₁ in resume (is_stable authed now) attempt w₂

  -- The first rounds of the loop, which goes on until the context ends.
  unfoldable pub rounds : ℕ → ℕ → Exec W (List (Bool × ℕ))
  unfolding round
  rounds zero attempt w = ([], w)
  rounds (suc n) attempt w =
      let ((stable, sleep, next), w') = round attempt w in
      let (rest, w'') = rounds n next w' in ((stable, sleep) ∷ rest, w'')

-- From a count of sessions since the last stable one: a stable session starts the count anew, each
-- sleep is at most a minute, and at most a second doubled for each session since.
abbrev pub IsPatient : ℕ → List (Bool × ℕ) → Type 0
IsPatient n [] = Unit
IsPatient n ((true, sleep) ∷ rows) = (sleep ≤ second) × IsPatient 1 rows
IsPatient n ((false, sleep) ∷ rows) =
    (sleep ≤ minute) × (sleep ≤ second * 2 ^ n) × IsPatient (n + 1) rows

pow_min : (n : ℕ) → second * 2 ^ min n 6 ≤ second * 2 ^ n
pow_min n = omega (arith, pow-le-pow_right {n = 2} (omega arith) (min-le_left n 6))

backoff_bounds : (n : ℕ) → (backoff n ≤ minute) × (backoff n ≤ second * 2 ^ n)
unfolding backoff
backoff_bounds n = (omega arith, omega (arith, pow_min n))

module _ {W : Type 0} (session : Exec W (Option Time)) (clock : Exec W Time) (draw : ℕ → Exec W ℕ)
    (draw-lt : (n : ℕ) (w : W) → 0 < n → (draw n w).0 < n) where
  sleep-le : (n : ℕ) (w : W) → (draw (backoff n + 1) w).0 ≤ backoff n
  sleep-le n w = omega (arith, draw-lt (backoff n + 1) w (omega arith))

  resume-IsPatient :
      (n : ℕ) (stable : Bool) (attempt : ℕ) (w : W)
      → ((a : ℕ) (w' : W) → IsPatient a (rounds session clock draw n a w').0)
      → let ((b, sleep, next), w') = resume session clock draw stable attempt w in
        IsPatient attempt ((b, sleep) ∷ (rounds session clock draw n next w').0)
  unfolding resume
  resume-IsPatient n true attempt w rest =
      (omega (arith, sleep-le 0 w, (backoff_bounds 0).1), rest 1 (draw (backoff 0 + 1) w).1)
  resume-IsPatient n false attempt w rest = (
    omega (arith, sleep-le attempt w, (backoff_bounds attempt).0),
    omega (arith, sleep-le attempt w, (backoff_bounds attempt).1),
    rest (attempt + 1) (draw (backoff attempt + 1) w).1,
  )

  -- Of the first rounds of the loop, for every number of them: each sleep is at most a minute, and at
  -- most a second doubled for each session since the last stable one.
  pub rounds-IsPatient :
      (n attempt : ℕ) (w : W) → IsPatient attempt (rounds session clock draw n attempt w).0
  unfolding rounds round
  rounds-IsPatient zero attempt w = tt
  rounds-IsPatient (suc n) attempt w =
      let x = session w in
      let y = clock x.1 in resume-IsPatient n (is_stable x.0 y.0) attempt y.1 (rounds-IsPatient n)
