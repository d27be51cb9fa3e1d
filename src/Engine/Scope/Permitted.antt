-- ===== src/Engine/Scope/Permitted.antt =====
-- What discover of internal/engine/engine.go hands to a cycle.
use pullpilot.Prelude.{
  ℕ, ◌≡◌, ◌≢◌, ◌⊎◌, inl, inr, refl, subst, Bool, true, false, Bool-cases, Option, none, some, List,
  [], ◌∷◌, All, arith,
}
use pullpilot.Prelude.Exec.{Result, ok, err}
use pullpilot.Std.Str.{Str, is_empty}
use pullpilot.Std.Str.Laws.{str_eq-cases}
use pullpilot.Std.Dict.{Dict, get_or}
use pullpilot.Labels.{Settings, compose_project, parse}
use pullpilot.Config.{Mode, all, project}
use pullpilot.Engine.Host.{CallError, Summary, Inspect, Host, Engine, Run, call}
use pullpilot.Engine.Scope.{
  resolved_project, eligible, Target, target_of, cycle_context, project_filter, keep_target,
  collect, after_list, discover_in, discover,
}

-- ContainerList with a label filter lists only containers with that label.
pub record IsFiltering {W : Type 0} (host : Host W) : Type 0 where
  pub filtered :
      (p : Str) (w : W) (cs : List Summary)
      → (host.docker.list (some (project_filter p)) w).0 ≡ ok cs
      → All (λ c. get_or compose_project [] c.labels ≡ p) cs

-- A container that may be handled: it is not PullPilot's own unless that is allowed, not the
-- container of a one-off command, not excluded, and not switched off.
pub record Permitted (e : Engine) (id : Str) (set : Settings) : Type 0 where
  pub own : (id ≢ e.self_id) ⊎ (e.cfg.self_update ≡ true)
  pub lasting : set.oneoff ≡ false
  pub included : set.exclude ≡ false
  pub enabled : set.enable ≢ some false

-- The scope is the whole host, or the project is known and is the container's.
abbrev pub InScope : Engine → Str → Type 0
InScope e p =
    (e.cfg.scope.mode ≡ all) ⊎ ((p ≡ resolved_project e) × (is_empty (resolved_project e) ≡ false))

not_off : (x : Option Bool) → (elim x [ none ↦ true | some on ↦ on ]) ≡ true → x ≢ some false
not_off none h k = cc k
not_off (some true) h k = cc k
not_off (some false) h k = cc h

eligible-Permitted :
    (e : Engine) (id : Str) (set : Settings) → eligible e id set ≡ true → Permitted e id set
unfolding eligible
eligible-Permitted e id set h = record {
  own = elim (str_eq-cases id e.self_id) [
    | inl (same, path) ↦ inr (ground arith)
    | inr (other, ne) ↦ inl ne
  ];
  lasting = ground arith;
  included = ground arith;
  enabled = not_off set.enable (ground arith);
}

project-parse :
    (fraction : ℕ → ℕ → ℕ → ℕ) (m : Dict Str) (compat : Bool)
    → (parse fraction m compat).project ≡ get_or compose_project [] m
unfolding parse
project-parse fraction m false = refl
project-parse fraction m true = refl

module _ {W : Type 0} (host : Host W) (e : Engine) where
  abbrev Fit : Target → Type 0
  Fit t = Permitted e t.id t.set × InScope e t.set.project

  keep_target-Fit :
      (id : Str) (set : Settings) (x : Result CallError Inspect) (ts : List Target)
      → Permitted e id set
      → InScope e set.project
      → All Fit ts
      → All Fit (keep_target host e id set x ts)
  unfolding keep_target target_of
  keep_target-Fit id set (err y) ts p s h = h
  keep_target-Fit id set (ok insp) ts p s h = ((p, s), h)

  collect-Fit :
      (cs : List Summary) (r : Run W)
      → All (λ c. InScope e (get_or compose_project [] c.labels)) cs
      → All Fit (collect host e cs r).0
  unfolding collect
  collect-Fit [] r h = tt
  collect-Fit (c ∷ cs) r (h, hs) =
      let set = parse host.fraction c.labels e.cfg.compat_watchtower in
      elim (Bool-cases (eligible e c.id set)) [
        | inl good ↦
            let x = call (host.docker.inspect cycle_context c.id) r in
            rw (good, collect)
              (keep_target-Fit c.id set x.0 (collect host e cs x.1).0
                (eligible-Permitted e c.id set good)
                (rw (project-parse host.fraction c.labels e.cfg.compat_watchtower) h)
                (collect-Fit cs x.1 hs))
        | inr bad ↦ rw (bad, collect) (collect-Fit cs r hs)
      ]

  after_list-Fit :
      (x : Result CallError (List Summary)) (r : Run W) (ts : List Target)
      → ((cs : List Summary)
          → x ≡ ok cs
          → All (λ c. InScope e (get_or compose_project [] c.labels)) cs)
      → (after_list host e x r).0 ≡ ok ts
      → All Fit ts
  unfolding after_list
  after_list-Fit (err y) r ts h k = cc k
  after_list-Fit (ok cs) r ts h k = subst (All Fit) (cc k) (collect-Fit cs r (h cs refl))

All-map :
    {P Q : Summary → Type 0} (cs : List Summary) → ((c : Summary) → P c → Q c) → All P cs → All Q cs
All-map [] f h = tt
All-map (c ∷ cs) f (h, hs) = (f c h, All-map cs f hs)

All-all : {Q : Summary → Type 0} (cs : List Summary) → ((c : Summary) → Q c) → All Q cs
All-all [] f = tt
All-all (c ∷ cs) f = (f c, All-all cs f)

discover_in-Fit :
    {W : Type 0} {host : Host W}
    → IsFiltering host
    → (e : Engine) (m : Mode) (r : Run W) (ts : List Target) → e.cfg.scope.mode ≡ m
    → (discover_in host e m r).0 ≡ ok ts
    → All (Fit host e) ts
unfolding discover_in
discover_in-Fit {host} k e all r ts scope h =
    after_list-Fit host e (call (host.docker.list none) r).0 (call (host.docker.list none) r).1 ts
      (λ cs found. All-all cs (λ c. inl scope)) h
discover_in-Fit {host} k e project r ts scope h =
    elim (Bool-cases (is_empty (resolved_project e))) [
      | inl unknown ↦
          let empty : [] ≡ ts = cc (rw (unknown, discover_in) at h) in
          subst (All (Fit host e)) empty tt
      | inr known ↦
          let p = resolved_project e in
          let x = call (host.docker.list (some (project_filter p))) r in
          after_list-Fit host e x.0 x.1 ts
            (λ cs found. All-map cs (λ c same. inr (same, known)) (k.filtered p r.world cs found))
            (rw (known, discover_in) at h)
    ]

-- On a daemon that heeds the label filter, every container that a cycle discovers is permitted and in
-- scope: it is not PullPilot's own unless self_update is set, it is not of a one-off command, not
-- excluded and not switched off; and unless the scope is the whole host, the project is known and is
-- that of the container.
pub discover-Permitted :
    {W : Type 0} {host : Host W}
    → IsFiltering host
    → (e : Engine) (r : Run W) (ts : List Target) → (discover host e r).0 ≡ ok ts
    → All (λ t. Permitted e t.id t.set × InScope e t.set.project) ts
unfolding discover
discover-Permitted k e r ts h = discover_in-Fit k e e.cfg.scope.mode r ts refl h
