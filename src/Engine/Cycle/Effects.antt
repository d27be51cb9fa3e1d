-- ===== src/Engine/Cycle/Effects.antt =====
-- What `status` and a dry run of internal/engine/engine.go do to the bookkeeping, the notices and the
-- world.
use pullpilot.Prelude.{
  ◌≡◌, refl, sym, subst, ◌∙◌, Bool, true, false, Option, none, some, List, [], ◌∷◌, Bool-cases,
  Option-cases, inl, inr,
}
use pullpilot.Prelude.Int.{ℤ}
use pullpilot.Prelude.Exec.{Result, ok, err, Keeps}
use pullpilot.Std.Str.{Str, str_eq, is_empty}
use pullpilot.Labels.{parse}
use pullpilot.State.{peek_seen, is_bad}
use pullpilot.Registry.{RegistryError, parse_ref, pinned, remote_digest}
use pullpilot.Registry.Digest.{remote_digest-P}
use pullpilot.Config.{Mode, all, project}
use pullpilot.Engine.Host.{CallError, Context, Summary, Host, Engine, Run}
use pullpilot.Engine.Scope.{
  Target, eligible, collect, after_list, discover_in, discover, cycle_context, resolved_project,
  project_filter,
}
use pullpilot.Engine.Plan.{
  first_seen, soak_gate, newer_checked, newer, compare_remote, compare_local, evaluate,
  evaluate_all, match_repo_digest, plan_targets, build_plan,
}
use pullpilot.Engine.Cycle.{status, dry_run, run_if, run}

-- The calls that only look keep the property.
pub record LooksKeep {W : Type 0} (host : Host W) (P : W → Type 0) : Type 0 where
  pub list-P : (filter : Option Str) → Keeps P (host.docker.list filter)
  pub inspect-P : (c : Context) (id : Str) → Keeps P (host.docker.inspect c id)
  pub repo_digests-P : (image : Str) → Keeps P (host.docker.repo_digests image)
  pub head-P : (url bearer : Str) → Keeps P (host.http.head url bearer)
  pub token-P :
      (realm service scope : Str) (basic : Option (Str × Str))
      → Keeps P (host.http.token realm service scope basic)
  pub now-P : Keeps P host.now

-- The second run state is the first, but for a world that has the property if the first's has it.
pub record Untouched {W : Type 0} (P : W → Type 0) (r r' : Run W) : Type 0 where
  pub same_books : r'.st ≡ r.st
  pub same_notes : r'.notes ≡ r.notes
  pub kept : P r.world → P r'.world

module _ {W : Type 0} {host : Host W} {P : W → Type 0} (k : LooksKeep host P) (e : Engine) where
  open k use {list-P, inspect-P, repo_digests-P, head-P, token-P, now-P}

  stays : (r : Run W) → Untouched P r r
  stays r = record { same_books = refl; same_notes = refl; kept = λ h. h }

  looks : (r : Run W) (w : W) → (P r.world → P w) → Untouched P r (record r { world = w })
  looks r w h = record { same_books = refl; same_notes = refl; kept = h }

  later : {r s t : Run W} → Untouched P r s → Untouched P s t → Untouched P r t
  later a b = record {
    same_books = b.same_books ∙ a.same_books;
    same_notes = b.same_notes ∙ a.same_notes;
    kept = λ h. b.kept (a.kept h);
  }

  first_seen-Untouched :
      (t : Target) (remote : Str) (r : Run W) → Untouched P r (first_seen host e t remote false r).1
  unfolding first_seen
  first_seen-Untouched t remote r = elim (Option-cases (peek_seen t.name remote r.st)) [
    | inl new ↦ rw (new, first_seen) (looks r (host.now r.world).1 (now-P r.world))
    | inr (t₀, old) ↦ rw (old, first_seen) (stays r)
  ]

  soak_gate-Untouched :
      (t : Target) (current remote : Str) (r : Run W)
      → Untouched P r (soak_gate host e t false current remote r).1
  unfolding soak_gate
  soak_gate-Untouched t current remote r =
      let s = (first_seen host e t remote false r).1 in
      later (first_seen-Untouched t remote r) (looks s (host.now s.world).1 (now-P s.world))

  newer_checked-Untouched :
      (own bad held : Bool) (t : Target) (current remote : Str) (r : Run W)
      → Untouched P r (newer_checked host e own bad held t false current remote r).1
  unfolding newer_checked
  newer_checked-Untouched true bad held t current remote r = stays r
  newer_checked-Untouched false true held t current remote r = stays r
  newer_checked-Untouched false false true t current remote r = stays r
  newer_checked-Untouched false false false t current remote r =
      soak_gate-Untouched t current remote r

  compare_remote-Untouched :
      (t : Target) (current : Str) (x : Result RegistryError Str) (r : Run W)
      → Untouched P r (compare_remote host e t false current x r).1
  unfolding compare_remote newer
  compare_remote-Untouched t current (err x) r = stays r
  compare_remote-Untouched t current (ok remote) r = elim (Bool-cases (str_eq remote current)) [
    | inl same ↦ rw (same, compare_remote) (stays r)
    | inr other ↦
        rw (other, compare_remote)
          (newer_checked-Untouched (str_eq t.id e.self_id) (is_bad remote r.st) t.set.monitor_only t
            current remote r)
  ]

  compare_local-Untouched :
      (t : Target) (x : Result CallError (List Str)) (r : Run W)
      → Untouched P r (compare_local host e t false x r).1
  unfolding compare_local
  compare_local-Untouched t (err x) r = stays r
  compare_local-Untouched t (ok rds) r =
      let current = match_repo_digest host.parse_named t.image rds in
      let x = remote_digest host.http host.parse_named host.basic t.image r.world in
      elim (Bool-cases (is_empty current)) [
        | inl nothing ↦ rw (nothing, compare_local) (stays r)
        | inr something ↦
            rw (something, compare_local)
              (later
                (looks r x.1 (
                  remote_digest-P host.http P head-P token-P host.parse_named host.basic t.image
                    r.world))
                (compare_remote-Untouched t current x.0 (record r { world = x.1 })))
      ]

  evaluate-Untouched : (t : Target) (r : Run W) → Untouched P r (evaluate host e t false r).1
  unfolding evaluate
  evaluate-Untouched t r = elim (Option-cases (parse_ref host.parse_named t.image)) [
    | inl bad ↦ rw (bad, evaluate) (stays r)
    | inr (ref, good) ↦ elim (Bool-cases (pinned ref)) [
      | inl fixed ↦ rw (good, fixed, evaluate) (stays r)
      | inr tagged ↦
          let x = host.docker.repo_digests t.inspect.image_id r.world in
          rw (good, tagged, evaluate)
            (later (looks r x.1 (repo_digests-P t.inspect.image_id r.world))
              (compare_local-Untouched t x.0 (record r { world = x.1 })))
    ]
  ]

  evaluate_all-Untouched :
      (ts : List Target) (r : Run W) → Untouched P r (evaluate_all host e ts false r).1
  unfolding evaluate_all
  evaluate_all-Untouched [] r = stays r
  evaluate_all-Untouched (t ∷ ts) r =
      later (evaluate-Untouched t r) (evaluate_all-Untouched ts (evaluate host e t false r).1)

  collect-Untouched : (cs : List Summary) (r : Run W) → Untouched P r (collect host e cs r).1
  unfolding collect
  collect-Untouched [] r = stays r
  collect-Untouched (c ∷ cs) r =
      let set = parse host.fraction c.labels e.cfg.compat_watchtower in
      let x = host.docker.inspect cycle_context c.id r.world in
      elim (Bool-cases (eligible e c.id set)) [
        | inl take ↦
            rw (take, collect)
              (later (looks r x.1 (inspect-P cycle_context c.id r.world))
                (collect-Untouched cs (record r { world = x.1 })))
        | inr leave ↦ rw (leave, collect) (collect-Untouched cs r)
      ]

  after_list-Untouched :
      (x : Result CallError (List Summary)) (r : Run W) → Untouched P r (after_list host e x r).1
  unfolding after_list
  after_list-Untouched (err y) r = stays r
  after_list-Untouched (ok cs) r = collect-Untouched cs r

  listed-Untouched :
      (filter : Option Str) (r : Run W)
      → let x = host.docker.list filter r.world in
        Untouched P r (after_list host e x.0 (record r { world = x.1 })).1
  listed-Untouched filter r =
      let x = host.docker.list filter r.world in
      later (looks r x.1 (list-P filter r.world))
        (after_list-Untouched x.0 (record r { world = x.1 }))

  pub discover_in-Untouched :
      (mode : Mode) (r : Run W) → Untouched P r (discover_in host e mode r).1
  unfolding discover_in
  discover_in-Untouched all r = listed-Untouched none r
  discover_in-Untouched project r = elim (Bool-cases (is_empty (resolved_project e))) [
    | inl unknown ↦ rw (unknown, discover_in) (stays r)
    | inr known ↦
        rw (known, discover_in) (listed-Untouched (some (project_filter (resolved_project e))) r)
  ]

  plan_targets-Untouched :
      (x : Result CallError (List Target)) (r : Run W)
      → Untouched P r (plan_targets host e false x r).1
  unfolding plan_targets
  plan_targets-Untouched (err y) r = stays r
  plan_targets-Untouched (ok ts) r = evaluate_all-Untouched ts r

  pub build_plan-Untouched : (r : Run W) → Untouched P r (build_plan host e false r).1
  unfolding build_plan discover
  build_plan-Untouched r =
      let x = discover_in host e e.cfg.scope.mode r in
      later (discover_in-Untouched e.cfg.scope.mode r) (plan_targets-Untouched x.0 x.1)

  -- `status` leaves the bookkeeping and the notices as they are, and every property of the world that
  -- listing, inspecting, asking the registry and reading the clock keep.
  pub status-Untouched :
      (show_minutes : ℤ → Str) (r : Run W) → Untouched P r (status host e show_minutes r).1
  unfolding status
  status-Untouched show_minutes r = build_plan-Untouched r

  -- With `dry_run` set, a cycle leaves the bookkeeping and the notices as they are, and every property
  -- of the world that listing, inspecting, asking the registry and reading the clock keep.
  pub run_dry-Untouched : (r : Run W) → e.cfg.dry_run ≡ true → Untouched P r (run host e r).1
  unfolding run run_if dry_run
  run_dry-Untouched r dry =
      subst (λ b. Untouched P r (run_if host e b r).1) (sym dry) (build_plan-Untouched r)
