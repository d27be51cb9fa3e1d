-- ===== src/Engine/Cycle/Records.antt =====
-- What planning for a real cycle keeps of the world: it looks, and it saves the bookkeeping.
use pullpilot.Prelude.{Bool, true, false, List, [], ◌∷◌, Bool-cases, Option-cases, inl, inr}
use pullpilot.Prelude.Exec.{Result, ok, err, Keeps}
use pullpilot.Std.Str.{Str, str_eq, is_empty}
use pullpilot.Std.Dict.{lookup, insert}
use pullpilot.State.{Time, State, pair_key, save, seen_at, is_bad}
use pullpilot.Registry.{RegistryError, parse_ref, pinned, remote_digest}
use pullpilot.Registry.Digest.{remote_digest-P}
use pullpilot.Engine.Host.{CallError, Host, Engine, Run}
use pullpilot.Engine.Scope.{Target, discover_in, discover}
use pullpilot.Engine.Plan.{
  first_seen, soak_gate, newer_checked, newer, compare_remote, compare_local, evaluate,
  evaluate_all, match_repo_digest, plan_targets, build_plan,
}
use pullpilot.Engine.Cycle.Effects.{LooksKeep, discover_in-Untouched}

module _ {W : Type 0} {host : Host W} {P : W → Type 0} (k : LooksKeep host P)
    (save-P : (s : State) → Keeps P (save host.disk s)) (e : Engine) where
  open k use {repo_digests-P, head-P, token-P, now-P}

  seen_at-P :
      (key digest : Str) (now : Time) (s : State) (w : W)
      → P w
      → P (seen_at host.disk key digest now s w).2
  unfolding seen_at
  seen_at-P key digest now s w h =
      elim (Option-cases (lookup (pair_key key digest) s.content.first_seen)) [
        | inl new ↦
            rw (new, seen_at)
              (save-P
                (record s {
                  content = record s.content {
                    first_seen = insert (pair_key key digest) now s.content.first_seen;
                  };
                })
                w h)
        | inr (t, old) ↦ rw (old, seen_at) h
      ]

  soak_gate-P :
      (t : Target) (current remote : Str) (r : Run W)
      → P r.world
      → P (soak_gate host e t true current remote r).1.world
  unfolding soak_gate first_seen
  soak_gate-P t current remote r h =
      let x = host.now r.world in
      let y = seen_at host.disk t.name remote x.0 r.st x.1 in
      now-P y.2 (seen_at-P t.name remote x.0 r.st x.1 (now-P r.world h))

  newer_checked-P :
      (own bad held : Bool) (t : Target) (current remote : Str) (r : Run W)
      → P r.world
      → P (newer_checked host e own bad held t true current remote r).1.world
  unfolding newer_checked
  newer_checked-P true bad held t current remote r h = h
  newer_checked-P false true held t current remote r h = h
  newer_checked-P false false true t current remote r h = h
  newer_checked-P false false false t current remote r h = soak_gate-P t current remote r h

  compare_remote-P :
      (t : Target) (current : Str) (x : Result RegistryError Str) (r : Run W)
      → P r.world
      → P (compare_remote host e t true current x r).1.world
  unfolding compare_remote newer
  compare_remote-P t current (err x) r h = h
  compare_remote-P t current (ok remote) r h = elim (Bool-cases (str_eq remote current)) [
    | inl same ↦ rw (same, compare_remote) h
    | inr other ↦
        rw (other, compare_remote)
          (newer_checked-P (str_eq t.id e.self_id) (is_bad remote r.st) t.set.monitor_only t current
            remote r h)
  ]

  compare_local-P :
      (t : Target) (x : Result CallError (List Str)) (r : Run W)
      → P r.world
      → P (compare_local host e t true x r).1.world
  unfolding compare_local
  compare_local-P t (err x) r h = h
  compare_local-P t (ok rds) r h =
      let current = match_repo_digest host.parse_named t.image rds in
      let x = remote_digest host.http host.parse_named host.basic t.image r.world in
      elim (Bool-cases (is_empty current)) [
        | inl nothing ↦ rw (nothing, compare_local) h
        | inr something ↦
            rw (something, compare_local)
              (compare_remote-P t current x.0 (record r { world = x.1 })
                (remote_digest-P host.http P head-P token-P host.parse_named host.basic t.image
                  r.world h))
      ]

  evaluate-P : (t : Target) (r : Run W) → P r.world → P (evaluate host e t true r).1.world
  unfolding evaluate
  evaluate-P t r h = elim (Option-cases (parse_ref host.parse_named t.image)) [
    | inl bad ↦ rw (bad, evaluate) h
    | inr (ref, good) ↦ elim (Bool-cases (pinned ref)) [
      | inl fixed ↦ rw (good, fixed, evaluate) h
      | inr tagged ↦
          let x = host.docker.repo_digests t.inspect.image_id r.world in
          rw (good, tagged, evaluate)
            (compare_local-P t x.0 (record r { world = x.1 })
              (repo_digests-P t.inspect.image_id r.world h))
    ]
  ]

  evaluate_all-P :
      (ts : List Target) (r : Run W) → P r.world → P (evaluate_all host e ts true r).1.world
  unfolding evaluate_all
  evaluate_all-P [] r h = h
  evaluate_all-P (t ∷ ts) r h = evaluate_all-P ts (evaluate host e t true r).1 (evaluate-P t r h)

  plan_targets-P :
      (x : Result CallError (List Target)) (r : Run W)
      → P r.world
      → P (plan_targets host e true x r).1.world
  unfolding plan_targets
  plan_targets-P (err y) r h = h
  plan_targets-P (ok ts) r h = evaluate_all-P ts r h

  pub build_plan-P : (r : Run W) → P r.world → P (build_plan host e true r).1.world
  unfolding build_plan discover
  build_plan-P r h =
      let x = discover_in host e e.cfg.scope.mode r in
      plan_targets-P x.0 x.1 ((discover_in-Untouched k e e.cfg.scope.mode r).kept h)
