-- ===== src/Tests/Updates.antt =====
-- Updates and cycles against the toy host.
use mathlib.Core.List.{Perm}
use pullpilot.Prelude.{
  ◌*◌, ◌≤◌, ◌≡◌, refl, subst, ◌≢◌, true, false, ◌&&◌, ◌||◌, none, some, List, [], ◌∷◌, ◌++◌, arith,
  if◌then◌else◌, Option, length, map,
}
use pullpilot.Std.Str.{Str, bytes, str_eq, trim_prefix, cut, cut_suffix}
use pullpilot.Std.Dict.{lookup, insert, delete_if, get_or}
use pullpilot.Std.Num.{hour}
use pullpilot.State.{is_bad, mark_bad, mark_applied, seen_at}
use pullpilot.Registry.{parse_ref, pinned, remote_digest}
use pullpilot.Engine.Host.{
  Summary, ApplyError, unhealthy, gate_failed, still_waiting, Run, rolled_back,
}
use pullpilot.Engine.View.{update, soaking}
use pullpilot.Engine.Network.{str_le, build_networking, carry}
use pullpilot.Engine.Network.Laws.{build_networking_complete}
use pullpilot.Engine.Plan.{Plan, match_repo_digest, soak_verdict, evaluate, sort_plans}
use pullpilot.Engine.Plan.Verdicts.{IsRollout, evaluate-IsRollout}
use pullpilot.Engine.Plan.Sort.{IsOrdered, tied, sort_plans_stable}
use pullpilot.Engine.Gate.{health_gate, interrupted}
use pullpilot.Engine.Gate.Fuel.{health_gate_ends}
use pullpilot.Engine.Apply.{apply, op_context}
use pullpilot.Engine.Apply.Outcome.{is_bad-apply, last_applied-apply, rejects, succeeds}
use pullpilot.Engine.Apply.Restore.{Outcome}
use pullpilot.Engine.Apply.Restore.Steps.{apply-Outcome}
use pullpilot.Engine.Host.{Engine}
use pullpilot.Engine.Cycle.Rejected.{run-rejected}
use pullpilot.Engine.Cycle.{status, run, reconcile_orphans}
use pullpilot.Engine.Cycle.Effects.{LooksKeep, Untouched, status-Untouched, run_dry-Untouched}
use pullpilot.Engine.Cycle.Orphans.{IsLive, reconcile_orphans-view}
use pullpilot.Engine.Daemon.{IsDaemon}
use pullpilot.Engine.Daemon.Toy.{in_use, ToyWorld, toy_host, toy_name}
use pullpilot.Engine.Daemon.Toy.Laws.{
  toy_host-IsDaemon, toy_host-lasting, toy_host-IsClock, toy_host-LooksKeep, toy_host-IsSeparate,
}
use pullpilot.Tests.Data.{
  engine, host, inspected, summary, networks, old_digest, new_digest, plan, target, world, settings,
  seen_since,
}

-- The update is rolled back, and the digest is rejected.
sick : Option ApplyError × Run ToyWorld
unfolding apply toy_host
sick = apply (host (bytes "unhealthy")) engine plan (seen_since 1)

sick_run :
    (sick.0 ≡ some (gate_failed unhealthy))
    × (sick.1.notes ≡ rolled_back (bytes "web") new_digest old_digest ∷ [])
    × (toy_name sick.1.world (bytes "abc123") ≡ some (bytes "web"))
unfolding sick lookup str_eq insert build_networking str_le health_gate toy_name interrupted
    delete_if mark_bad in_use
sick_run = (refl, refl, refl)

-- The update succeeds, and the new container has the name.
well : Option ApplyError × Run ToyWorld
unfolding apply toy_host
well = apply (host (bytes "healthy")) engine plan (seen_since 1)

well_run :
    (well.0 ≡ none)
    × (toy_name well.1.world (bytes "c0ffee") ≡ some (bytes "web"))
    × (toy_name well.1.world (bytes "abc123") ≡ none)
    × (lookup (bytes "web") well.1.st.content.last_applied ≡ some new_digest)
unfolding well lookup str_eq insert build_networking str_le health_gate toy_name delete_if
    mark_applied in_use
well_run = (refl, refl, refl, refl)

abbrev lawful : (health : Str) → IsDaemon (host health) toy_name
lawful health =
    toy_host-IsDaemon (summary ∷ []) (inspected health) (bytes "web@sha256:0ld" ∷ []) new_digest

apply-Outcome_example :
    Outcome
      (host (bytes "unhealthy"))
      toy_name
      (lawful (bytes "unhealthy")).refused
      plan
      []
      (apply (host (bytes "unhealthy")) engine plan (seen_since 1))
unfolding toy_name lookup str_eq
apply-Outcome_example =
    apply-Outcome (lawful (bytes "unhealthy")) engine plan (seen_since 1)
      (toy_host-lasting (summary ∷ []) (inspected (bytes "unhealthy")) (bytes "web@sha256:0ld" ∷ [])
        new_digest plan.id)
      refl

is_bad-apply_example :
    is_bad new_digest (apply (host (bytes "unhealthy")) engine plan (seen_since 1)).1.st ≡ (
      is_bad new_digest (seen_since 1).st
      || (rejects (apply (host (bytes "unhealthy")) engine plan (seen_since 1)).0
          && str_eq new_digest new_digest))
is_bad-apply_example = is_bad-apply (host (bytes "unhealthy")) engine plan new_digest (seen_since 1)

last_applied-apply_example :
    lookup
      (bytes "web")
      (apply (host (bytes "healthy")) engine plan (seen_since 1)).1.st.content.last_applied
    ≡ (if succeeds (apply (host (bytes "healthy")) engine plan (seen_since 1)).0
          && str_eq (bytes "web") (bytes "web")
        then some new_digest
        else lookup (bytes "web") (seen_since 1).st.content.last_applied)
last_applied-apply_example =
    last_applied-apply (host (bytes "healthy")) engine plan (bytes "web") (seen_since 1)

-- 99 hours after the first sight of the digest.
ready : Plan × Run ToyWorld
unfolding evaluate toy_host
ready = evaluate (host (bytes "healthy")) engine target true (seen_since 1)

-- Half an hour after it.
young : Plan × Run ToyWorld
unfolding evaluate toy_host
young = evaluate (host (bytes "healthy")) engine target true (seen_since 100)

verdict_runs : (ready.0.action ≡ update) × (young.0.action ≡ soaking)
unfolding ready young parse_ref pinned match_repo_digest cut str_eq remote_digest is_bad get_or
    soak_verdict seen_at
verdict_runs = (refl, refl)

evaluate-IsRollout_example :
    IsRollout
      (host (bytes "healthy"))
      engine
      target
      (seen_since 1).st
      (evaluate (host (bytes "healthy")) engine target true (seen_since 1))
unfolding evaluate toy_host parse_ref pinned match_repo_digest cut str_eq remote_digest is_bad
    get_or soak_verdict seen_at
evaluate-IsRollout_example =
    evaluate-IsRollout (host (bytes "healthy")) engine target (seen_since 1) refl

health_gate_ends_example :
    (health_gate (host (bytes "starting")) (op_context settings) (bytes "c0ffee") settings world).0
    ≢ some still_waiting
health_gate_ends_example =
    health_gate_ends
      (toy_host-IsClock (summary ∷ []) (inspected (bytes "starting")) (bytes "web@sha256:0ld" ∷ [])
        new_digest)
      (op_context settings) (bytes "c0ffee") settings world

looking : LooksKeep (host (bytes "healthy")) (λ w. w.clock ≡ 100 * hour)
looking =
    toy_host-LooksKeep (summary ∷ []) (inspected (bytes "healthy")) (bytes "web@sha256:0ld" ∷ [])
      new_digest (λ w. w.clock ≡ 100 * hour)

status-Untouched_example :
    Untouched
      (λ w. w.clock ≡ 100 * hour)
      (seen_since 1)
      (status (host (bytes "healthy")) engine (λ d. []) (seen_since 1)).1
status-Untouched_example = status-Untouched looking engine (λ d. []) (seen_since 1)

run_dry-Untouched_example :
    Untouched
      (λ w. w.clock ≡ 100 * hour)
      (seen_since 1)
      (run (host (bytes "healthy")) engine (seen_since 1)).1
run_dry-Untouched_example = run_dry-Untouched looking engine (seen_since 1) refl

-- `web` was interrupted before its replacement was made; `db` is another container.
abbrev leftovers : List Summary
leftovers =
    record { id = bytes "abc123"; names = bytes "/web_pp_old" ∷ []; labels = [] }
    ∷ record { id = bytes "db"; names = bytes "/db" ∷ []; labels = [] }
    ∷ []

leftovers-IsLive : IsLive (bytes "db") leftovers
unfolding cut_suffix str_eq trim_prefix
leftovers-IsLive = ((λ e. cc), ((λ e. (refl, tt)), tt))

reconcile_orphans-view_example :
    lookup
      (bytes "db")
      (reconcile_orphans
        (toy_host leftovers (inspected []) [] new_digest)
        (seen_since 1)).1.world.table
    ≡ lookup (bytes "db") world.table
unfolding toy_host
reconcile_orphans-view_example =
    reconcile_orphans-view
      (toy_host-IsSeparate leftovers (inspected []) [] new_digest (ground arith)) (bytes "db")
      (seen_since 1) (λ cs e. subst (IsLive (bytes "db")) {x = leftovers} (cc) leftovers-IsLive)

build_networking_complete_example :
    let (primary, extra) = build_networking (some networks) in
    (length primary ≤ 1) × Perm (primary ++ extra) (map carry networks)
build_networking_complete_example = build_networking_complete networks

sort_plans_stable_example :
    Perm (sort_plans (plan ∷ plan ∷ [])) (plan ∷ plan ∷ [])
    × IsOrdered (sort_plans (plan ∷ plan ∷ []))
    × ((p : Plan) → tied p (sort_plans (plan ∷ plan ∷ [])) ≡ tied p (plan ∷ plan ∷ []))
sort_plans_stable_example = sort_plans_stable (plan ∷ plan ∷ [])

-- The digest on offer failed its gate before.
abbrev rejected : Run ToyWorld
rejected = record (seen_since 1) {
  st = record (seen_since 1).st {
    content = record (seen_since 1).st.content { bad_digests = (new_digest, true) ∷ [] };
  };
}

abbrev live : Engine
live = record engine { cfg = record engine.cfg { dry_run = false } }

run-rejected_example :
    (is_bad new_digest (run (host (bytes "healthy")) live rejected).1.st ≡ true)
    × (lookup (bytes "web") (run (host (bytes "healthy")) live rejected).1.st.content.last_applied
        ≢ some new_digest)
unfolding is_bad get_or str_eq
run-rejected_example =
    run-rejected (host (bytes "healthy")) live new_digest (bytes "web") rejected refl (λ e. cc e)
