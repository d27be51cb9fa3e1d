-- ===== src/Engine/Plan/Preview.antt =====
-- buildPlan of internal/engine/engine.go for a view and for a cycle, side by side.
use pullpilot.Prelude.{
  ◌≡◌, refl, sym, ap, subst, ◌∙◌, Bool, true, false, Option, List, [], ◌∷◌, Bool-cases,
  Option-cases, inl, inr,
}
use mathlib.Core.Path.{ap₂}
use pullpilot.Prelude.Exec.{Result, ok, err, Steady}
use pullpilot.Std.Str.{Str, str_eq, is_empty}
use pullpilot.Std.Dict.{get_or}
use pullpilot.State.{Time, State, peek_seen, is_bad}
use pullpilot.State.Alike.{time_or, Alike, seen_at-Alike}
use pullpilot.Registry.{RegistryError, parse_ref, pinned, remote_digest}
use pullpilot.Registry.Steady.{remote_digest-Steady}
use pullpilot.Engine.Host.{CallError, Host, Engine, Run}
use pullpilot.Engine.Scope.{Target, discover_in, discover}
use pullpilot.Engine.Plan.{
  soak_verdict, first_seen, soak_gate, newer_checked, newer, compare_remote, compare_local,
  evaluate, evaluate_all, match_repo_digest, sort_plans, plan_targets, build_plan,
}

-- The calls that look give the same answers in every state of the world, and the clock stands still.
pub record IsSteady {W : Type 0} (host : Host W) : Type 0 where
  pub repo_digests-Steady : (image : Str) → Steady (host.docker.repo_digests image)
  pub head-Steady : (url bearer : Str) → Steady (host.http.head url bearer)
  pub token-Steady :
      (realm service scope : Str) (basic : Option (Str × Str))
      → Steady (host.http.token realm service scope basic)
  pub now-Steady : Steady host.now

module _ {W : Type 0} {host : Host W} (st : IsSteady host) (e : Engine) (w₀ : W) where
  -- The time that the clock shows.
  abbrev now : Time
  now = (host.now w₀).0

  -- A view from `r` and a cycle from `r'` give the same, and leave books alike.
  abbrev Agree : {A : Type 0} → State → A × Run W → A × Run W → Type 0
  Agree s x y = (x.0 ≡ y.0) × (x.1.st ≡ s) × Alike now s y.1.st

  first_seen-view :
      (t : Target) (remote : Str) (r : Run W)
      → ((first_seen host e t remote false r).0 ≡ time_or now (peek_seen t.name remote r.st))
        × ((first_seen host e t remote false r).1.st ≡ r.st)
  unfolding first_seen time_or
  first_seen-view t remote r = elim (Option-cases (peek_seen t.name remote r.st)) [
    | inl new ↦ rw (new, first_seen) (st.now-Steady r.world w₀, refl)
    | inr (t₀, old) ↦ rw (old, first_seen) (refl, refl)
  ]

  first_seen-Agree :
      (t : Target) (remote : Str) (r r' : Run W)
      → Alike now r.st r'.st
      → Agree r.st (first_seen host e t remote false r) (first_seen host e t remote true r')
  unfolding first_seen
  first_seen-Agree t remote r r' a =
      let v = first_seen-view t remote r in
      let x = host.now r'.world in
      let same : x.0 ≡ now = st.now-Steady r'.world w₀ in
      let b = seen_at-Alike host.disk t.name remote now r.st r'.st x.1 a in
      rw same (v.0 ∙ b.0, v.1, b.1)

  soak_gate-Agree :
      (t : Target) (current remote : Str) (r r' : Run W)
      → Alike now r.st r'.st
      → Agree r.st
          (soak_gate host e t false current remote r)
          (soak_gate host e t true current remote r')
  unfolding soak_gate first_seen
  soak_gate-Agree t current remote r r' a =
      let f = first_seen-Agree t remote r r' a in
      let x = first_seen host e t remote false r in
      let y = first_seen host e t remote true r' in
      (
        ap₂ (soak_verdict e.cfg.soak t current remote) f.0 (st.now-Steady x.1.world y.1.world),
        f.1,
        f.2,
      )

  newer_checked-Agree :
      (own bad held : Bool) (t : Target) (current remote : Str) (r r' : Run W)
      → Alike now r.st r'.st
      → Agree r.st
          (newer_checked host e own bad held t false current remote r)
          (newer_checked host e own bad held t true current remote r')
  unfolding newer_checked
  newer_checked-Agree true bad held t current remote r r' a = (refl, refl, a)
  newer_checked-Agree false true held t current remote r r' a = (refl, refl, a)
  newer_checked-Agree false false true t current remote r r' a = (refl, refl, a)
  newer_checked-Agree false false false t current remote r r' a =
      soak_gate-Agree t current remote r r' a

  newer-Agree :
      (t : Target) (current remote : Str) (r r' : Run W)
      → Alike now r.st r'.st
      → Agree r.st (newer host e t false current remote r) (newer host e t true current remote r')
  unfolding newer is_bad
  newer-Agree t current remote r r' a =
      let own = str_eq t.id e.self_id in
      let bad = is_bad remote r.st in
      let same : bad ≡ is_bad remote r'.st = ap (get_or remote false) (sym a.bad) in
      subst
        (λ b.
          Agree r.st (newer_checked host e own bad t.set.monitor_only t false current remote r)
            (newer_checked host e own b t.set.monitor_only t true current remote r'))
        same (newer_checked-Agree own bad t.set.monitor_only t current remote r r' a)

  compare_remote-Agree :
      (t : Target) (current : Str) (x : Result RegistryError Str) (r r' : Run W)
      → Alike now r.st r'.st
      → Agree r.st
          (compare_remote host e t false current x r)
          (compare_remote host e t true current x r')
  unfolding compare_remote
  compare_remote-Agree t current (err x) r r' a = (refl, refl, a)
  compare_remote-Agree t current (ok remote) r r' a = elim (Bool-cases (str_eq remote current)) [
    | inl equal ↦ rw (equal, compare_remote) (refl, refl, a)
    | inr other ↦ rw (other, compare_remote) (newer-Agree t current remote r r' a)
  ]

  compare_local-Agree :
      (t : Target) (x : Result CallError (List Str)) (r r' : Run W)
      → Alike now r.st r'.st
      → Agree r.st (compare_local host e t false x r) (compare_local host e t true x r')
  unfolding compare_local
  compare_local-Agree t (err x) r r' a = (refl, refl, a)
  compare_local-Agree t (ok rds) r r' a =
      let current = match_repo_digest host.parse_named t.image rds in
      let x = remote_digest host.http host.parse_named host.basic t.image r.world in
      let x' = remote_digest host.http host.parse_named host.basic t.image r'.world in
      let same : x.0 ≡ x'.0 =
        remote_digest-Steady host.http st.head-Steady st.token-Steady host.parse_named host.basic
          t.image r.world r'.world in
      elim (Bool-cases (is_empty current)) [
        | inl nothing ↦ rw (nothing, compare_local) (refl, refl, a)
        | inr something ↦
            rw (something, compare_local)
              (subst
                (λ y.
                  Agree r.st (compare_remote host e t false current x.0 (record r { world = x.1 }))
                    (compare_remote host e t true current y (record r' { world = x'.1 })))
                same
                (compare_remote-Agree t current x.0 (record r { world = x.1 })
                  (record r' { world = x'.1 }) a))
      ]

  evaluate-Agree :
      (t : Target) (r r' : Run W)
      → Alike now r.st r'.st
      → Agree r.st (evaluate host e t false r) (evaluate host e t true r')
  unfolding evaluate
  evaluate-Agree t r r' a = elim (Option-cases (parse_ref host.parse_named t.image)) [
    | inl bad ↦ rw (bad, evaluate) (refl, refl, a)
    | inr (ref, good) ↦ elim (Bool-cases (pinned ref)) [
      | inl fixed ↦ rw (good, fixed, evaluate) (refl, refl, a)
      | inr tagged ↦
          let x = host.docker.repo_digests t.inspect.image_id r.world in
          let x' = host.docker.repo_digests t.inspect.image_id r'.world in
          rw (good, tagged, evaluate)
            (subst
              (λ y.
                Agree r.st (compare_local host e t false x.0 (record r { world = x.1 }))
                  (compare_local host e t true y (record r' { world = x'.1 })))
              (st.repo_digests-Steady t.inspect.image_id r.world r'.world)
              (compare_local-Agree t x.0 (record r { world = x.1 }) (record r' { world = x'.1 }) a))
    ]
  ]

  evaluate_all-Agree :
      (ts : List Target) (r r' : Run W)
      → Alike now r.st r'.st
      → (evaluate_all host e ts false r).0 ≡ (evaluate_all host e ts true r').0
  unfolding evaluate_all
  evaluate_all-Agree [] r r' a = refl
  evaluate_all-Agree (t ∷ ts) r r' a =
      let x = evaluate host e t false r in
      let y = evaluate host e t true r' in
      let g = evaluate-Agree t r r' a in
      ap₂ ◌∷◌ g.0 (evaluate_all-Agree ts x.1 y.1 (subst (λ s. Alike now s y.1.st) (sym g.1) g.2))

  plan_targets-Agree :
      (x : Result CallError (List Target)) (r : Run W)
      → (plan_targets host e false x r).0 ≡ (plan_targets host e true x r).0
  unfolding plan_targets
  plan_targets-Agree (err y) r = refl
  plan_targets-Agree (ok ts) r =
      ap (λ ps. ok (sort_plans ps))
        (evaluate_all-Agree ts r r (record { seen = λ k. refl; bad = refl }))

-- On a host whose answers do not change meanwhile and whose clock stands still, the plans that
-- `status` and a dry run show are those that a cycle makes, whatever is recorded on the way.
pub build_plan_preview :
    {W : Type 0} {host : Host W}
    → IsSteady host
    → (e : Engine) (r : Run W) → (build_plan host e false r).0 ≡ (build_plan host e true r).0
unfolding build_plan discover
build_plan_preview {host} st e r =
    let x = discover_in host e e.cfg.scope.mode r in plan_targets-Agree st e r.world x.0 x.1
