-- ===== src/Engine/Plan/Keeps.antt =====
-- What evaluate and buildPlan leave as it is in a real cycle: the rejected and the applied digests.
use pullpilot.Prelude.{
  ◌≡◌, refl, ◌∙◌, Bool, true, false, some, none, List, [], ◌∷◌, Bool-cases, Option-cases, inl, inr,
}
use pullpilot.Prelude.Exec.{Result, ok, err}
use pullpilot.Std.Str.{Str, str_eq, is_empty}
use pullpilot.Std.Dict.{lookup}
use pullpilot.Labels.{parse}
use pullpilot.State.{Time, State, Disk, pair_key, seen_at, is_bad}
use pullpilot.Registry.{RegistryError, parse_ref, pinned, remote_digest}
use pullpilot.Config.{Mode, all, project}
use pullpilot.Engine.Host.{CallError, Summary, Host, Engine, Run}
use pullpilot.Engine.Scope.{
  Target, eligible, collect, after_list, discover_in, cycle_context, resolved_project,
  project_filter,
}
use pullpilot.Engine.Plan.{
  soak_gate, first_seen, newer_checked, newer, compare_remote, compare_local, evaluate,
  evaluate_all, match_repo_digest,
}

-- The second bookkeeping has the rejected and the applied digests of the first.
pub record Kept (s s' : State) : Type 0 where
  pub same_bad : s'.content.bad_digests ≡ s.content.bad_digests
  pub same_applied : s'.content.last_applied ≡ s.content.last_applied

pub same : (s : State) → Kept s s
same s = record { same_bad = refl; same_applied = refl }

pub next : {s t u : State} → Kept s t → Kept t u → Kept s u
next a b = record {
  same_bad = b.same_bad ∙ a.same_bad;
  same_applied = b.same_applied ∙ a.same_applied;
}

seen_at-Kept :
    {W : Type 0} (disk : Disk W) (key digest : Str) (now : Time) (s : State) (w : W)
    → Kept s (seen_at disk key digest now s w).1
unfolding seen_at
seen_at-Kept disk key digest now s w =
    elim (Option-cases (lookup (pair_key key digest) s.content.first_seen)) [
      | inl new ↦ rw (new, seen_at) (record { same_bad = refl; same_applied = refl })
      | inr (t, old) ↦ rw (old, seen_at) (same s)
    ]

module _ {W : Type 0} (host : Host W) (e : Engine) where
  soak_gate-Kept :
      (t : Target) (current remote : Str) (r : Run W)
      → Kept r.st (soak_gate host e t true current remote r).1.st
  unfolding soak_gate first_seen
  soak_gate-Kept t current remote r =
      let x = host.now r.world in seen_at-Kept host.disk t.name remote x.0 r.st x.1

  newer_checked-Kept :
      (own bad held : Bool) (t : Target) (current remote : Str) (r : Run W)
      → Kept r.st (newer_checked host e own bad held t true current remote r).1.st
  unfolding newer_checked
  newer_checked-Kept true bad held t current remote r = same r.st
  newer_checked-Kept false true held t current remote r = same r.st
  newer_checked-Kept false false true t current remote r = same r.st
  newer_checked-Kept false false false t current remote r = soak_gate-Kept t current remote r

  compare_remote-Kept :
      (t : Target) (current : Str) (x : Result RegistryError Str) (r : Run W)
      → Kept r.st (compare_remote host e t true current x r).1.st
  unfolding compare_remote newer
  compare_remote-Kept t current (err x) r = same r.st
  compare_remote-Kept t current (ok remote) r = elim (Bool-cases (str_eq remote current)) [
    | inl equal ↦ rw (equal, compare_remote) (same r.st)
    | inr other ↦
        rw (other, compare_remote)
          (newer_checked-Kept (str_eq t.id e.self_id) (is_bad remote r.st) t.set.monitor_only t
            current remote r)
  ]

  compare_local-Kept :
      (t : Target) (x : Result CallError (List Str)) (r : Run W)
      → Kept r.st (compare_local host e t true x r).1.st
  unfolding compare_local
  compare_local-Kept t (err x) r = same r.st
  compare_local-Kept t (ok rds) r =
      let current = match_repo_digest host.parse_named t.image rds in
      let x = remote_digest host.http host.parse_named host.basic t.image r.world in
      elim (Bool-cases (is_empty current)) [
        | inl nothing ↦ rw (nothing, compare_local) (same r.st)
        | inr something ↦
            rw (something, compare_local)
              (compare_remote-Kept t current x.0 (record r { world = x.1 }))
      ]

  pub evaluate-Kept : (t : Target) (r : Run W) → Kept r.st (evaluate host e t true r).1.st
  unfolding evaluate
  evaluate-Kept t r = elim (Option-cases (parse_ref host.parse_named t.image)) [
    | inl bad ↦ rw (bad, evaluate) (same r.st)
    | inr (ref, good) ↦ elim (Bool-cases (pinned ref)) [
      | inl fixed ↦ rw (good, fixed, evaluate) (same r.st)
      | inr tagged ↦
          let x = host.docker.repo_digests t.inspect.image_id r.world in
          rw (good, tagged, evaluate) (compare_local-Kept t x.0 (record r { world = x.1 }))
    ]
  ]

  pub evaluate_all-Kept :
      (ts : List Target) (r : Run W) → Kept r.st (evaluate_all host e ts true r).1.st
  unfolding evaluate_all
  evaluate_all-Kept [] r = same r.st
  evaluate_all-Kept (t ∷ ts) r =
      next (evaluate-Kept t r) (evaluate_all-Kept ts (evaluate host e t true r).1)

  -- Discovery does not touch the bookkeeping.
  collect-st : (cs : List Summary) (r : Run W) → (collect host e cs r).1.st ≡ r.st
  unfolding collect
  collect-st [] r = refl
  collect-st (c ∷ cs) r =
      let set = parse host.fraction c.labels e.cfg.compat_watchtower in
      let x = host.docker.inspect cycle_context c.id r.world in
      elim (Bool-cases (eligible e c.id set)) [
        | inl take ↦ rw (take, collect) (collect-st cs (record r { world = x.1 }))
        | inr leave ↦ rw (leave, collect) (collect-st cs r)
      ]

  after_list-st :
      (x : Result CallError (List Summary)) (r : Run W) → (after_list host e x r).1.st ≡ r.st
  unfolding after_list
  after_list-st (err y) r = refl
  after_list-st (ok cs) r = collect-st cs r

  pub discover_in-st : (mode : Mode) (r : Run W) → (discover_in host e mode r).1.st ≡ r.st
  unfolding discover_in
  discover_in-st all r =
      let x = host.docker.list none r.world in after_list-st x.0 (record r { world = x.1 })
  discover_in-st project r = elim (Bool-cases (is_empty (resolved_project e))) [
    | inl unknown ↦ rw (unknown, discover_in)
    | inr known ↦
        let x = host.docker.list (some (project_filter (resolved_project e))) r.world in
        rw (known, discover_in) (after_list-st x.0 (record r { world = x.1 }))
  ]
