-- ===== src/Tests/Scoped.antt =====
-- The containers that a cycle leaves out, at concrete data.
use pullpilot.Prelude.{
  ◌≡◌, ◌≢◌, refl, ap, arith, subst, sym, true, inl, inr, false, Option, none, some, List, [], ◌∷◌,
  All, if◌then◌else◌,
}
use pullpilot.Prelude.Exec.{Result, ok, err}
use pullpilot.Std.Str.{
  Str, bytes, str_eq, one_of, to_lower, trim_space, cut, cut_suffix, trim_prefix,
}
use pullpilot.Std.Str.Laws.{str_eq-cases}
use pullpilot.Std.Dict.{get_or, lookup}
use pullpilot.Labels.{compose_project, parse, truthy, duration}
use pullpilot.Config.{project}
use pullpilot.Std.Num.{exact}
use pullpilot.Engine.Host.{CallError, Summary, Host, Engine, Run}
use pullpilot.Engine.Scope.{project_filter, Target, target_of, eligible, discover}
use pullpilot.Engine.Scope.Permitted.{IsFiltering, Permitted, InScope, discover-Permitted}
use pullpilot.Engine.Daemon.Toy.{ToyWorld, toy_host, toy_name}
use pullpilot.Engine.Daemon.Toy.Laws.{
  toy_host-IsDaemon, toy_host-IsExact, toy_name-IsSeparate, toy_host-LooksKeep,
}
use pullpilot.Engine.View.{update}
use pullpilot.Engine.Plan.{
  Plan, build_plan, sort_plans, evaluate_all, evaluate, match_repo_digest, soak_verdict,
}
use pullpilot.Registry.{parse_ref, pinned, remote_digest}
use pullpilot.State.{is_bad, seen_at}
use pullpilot.Engine.Apply.{tmp_name}
use pullpilot.Engine.Cycle.{reconcile_orphans, run}
use pullpilot.Engine.Cycle.Orphans.{IsLive}
use pullpilot.Engine.Cycle.Bystanders.{IsApart, run_bystander}
use pullpilot.Tests.Data.{config, engine, host, inspected, seen_since, summary, world, new_digest}

abbrev member : Str → Str → Summary
member id proj = record summary { id = id; labels = (compose_project, proj) ∷ [] }

-- `web` of the project media, PullPilot's own container there, and a container of another project.
abbrev web : Summary
web = member (bytes "abc123") (bytes "media")

abbrev media : List Summary
media = web ∷ member (bytes "5e1f") (bytes "media") ∷ []

abbrev listing : Option Str → List Summary
listing none = member (bytes "0b5e") (bytes "other") ∷ media
listing (some q) = if str_eq q (project_filter (bytes "media")) then media else []

abbrev two_projects : Host ToyWorld
two_projects =
    let h = host (bytes "healthy") in
    record h { docker = record h.docker { list = λ f w. (ok (listing f), w) } }

listed :
    (p : Str)
    → All (λ c. get_or compose_project [] c.labels ≡ p) (listing (some (project_filter p)))
unfolding get_or lookup str_eq
listed p = elim (str_eq-cases p (bytes "media")) [
  | inl (same, path) ↦ rw same (sym path, (sym path, tt))
  | inr (other, ne) ↦ rw other tt
]

two_projects-IsFiltering : IsFiltering two_projects
two_projects-IsFiltering = record {
  filtered = λ p w cs found.
      subst (All (λ c. get_or compose_project [] c.labels ≡ p)) (cc found) (listed p);
}

abbrev scoped : Engine
scoped = record engine {
  cfg = record config { scope = record { mode = project; project = bytes "media" } };
}

abbrev found : List Target
found = target_of (bytes "abc123") (parse exact web.labels false) (inspected (bytes "healthy")) ∷ []

discover-Permitted_example :
    All (λ t. Permitted scoped t.id t.set × InScope scoped t.set.project) found
unfolding discover toy_host str_eq eligible parse truthy one_of to_lower trim_space get_or
discover-Permitted_example =
    discover-Permitted two_projects-IsFiltering scoped (seen_since 1) found refl

-- Beside `web` there is a container `other`.
abbrev neighbours : Run ToyWorld
neighbours = record (seen_since 1) {
  world = record world { table = (bytes "0b5e", bytes "other") ∷ world.table };
}

abbrev unfit : Host ToyWorld
unfit = host (bytes "unhealthy")

-- A cycle that changes things; it decides to update `web`, and the update is rolled back.
abbrev resolute : Engine
resolute = record engine { cfg = record config { dry_run = false } }

abbrev chosen : Result CallError (List Plan) → List Plan
chosen (ok ps) = ps
chosen (err x) = []

abbrev planning : Result CallError (List Plan)
planning = (build_plan unfit resolute true (reconcile_orphans unfit neighbours).1).0

abbrev OthersApart : List Plan → Type 0
OthersApart = All (λ p. p.action ≡ update → IsApart (bytes "0b5e") (bytes "other") p)

web_apart :
    (bytes "0b5e" ≢ bytes "abc123")
    × (bytes "other" ≢ bytes "abc123")
    × (bytes "other" ≢ tmp_name (bytes "web"))
web_apart = ((λ h. cc h), (λ h. cc h), (λ h. cc h))

chosen-OthersApart : OthersApart (chosen planning)
unfolding build_plan reconcile_orphans toy_host str_eq discover sort_plans evaluate_all eligible
    parse truthy one_of to_lower trim_space get_or evaluate parse_ref pinned match_repo_digest cut
    remote_digest is_bad cut_suffix trim_prefix soak_verdict seen_at duration
chosen-OthersApart = ((λ up. web_apart), tt)

run_bystander_example :
    toy_name (run unfit resolute neighbours).1.world (bytes "0b5e") ≡ some (bytes "other")
unfolding toy_name lookup str_eq toy_host
run_bystander_example =
    run_bystander
      (toy_host-IsDaemon (summary ∷ []) (inspected (bytes "unhealthy"))
        (bytes "web@sha256:0ld" ∷ []) new_digest)
      (toy_host-IsExact (summary ∷ []) (inspected (bytes "unhealthy")) (bytes "web@sha256:0ld" ∷ [])
        new_digest)
      resolute (bytes "0b5e") (bytes "other")
      (toy_name-IsSeparate (summary ∷ []) (inspected (bytes "unhealthy"))
        (bytes "web@sha256:0ld" ∷ []) new_digest (ground arith))
      (toy_host-LooksKeep (summary ∷ []) (inspected (bytes "unhealthy"))
        (bytes "web@sha256:0ld" ∷ []) new_digest
        (λ w. toy_name w (bytes "0b5e") ≡ some (bytes "other")))
      neighbours (λ cs e. subst (IsLive (bytes "0b5e")) {x = summary ∷ []} (cc) ((λ e. cc e), tt))
      (λ ps e. subst OthersApart (ap chosen e) chosen-OthersApart) refl
