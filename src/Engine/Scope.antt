-- ===== src/Engine/Scope.antt =====
-- Self-identification, scope and discovery of internal/engine/engine.go.
pub mod Permitted
use pullpilot.Prelude.{
  ℕ, Bool, true, false, not, ◌&&◌, ◌||◌, Option, none, some, List, [], ◌∷◌, ◌++◌, if◌then◌else◌,
}
use pullpilot.Prelude.Exec.{Result, ok, err, Exec, pure, ◌>>=◌}
use pullpilot.Std.Str.{Str, bytes, str_eq, is_empty, has_prefix, trim_prefix}
use pullpilot.Std.Dict.{get_or}
use pullpilot.Labels.{Settings, compose_project, parse}
use pullpilot.Config.{Mode, all, project}
use pullpilot.Engine.Host.{CallError, Context, Summary, Inspect, Host, Engine, Run, call}

-- The first container that passes a test: its id and its Compose project.
find_self : (Summary → Bool) → List Summary → Option (Str × Str)
find_self p [] = none
find_self p (c ∷ cs) =
    let rest = find_self p cs in
    if p c then some (c.id, get_or compose_project [] c.labels) else rest

by_hostname : Str → Summary → Bool
by_hostname host c = not (is_empty host) && has_prefix c.id host

by_label : (ℕ → ℕ → ℕ → ℕ) → Summary → Bool
by_label fraction c = (parse fraction c.labels false).is_self

with_self : Engine → Option (Str × Str) → Engine
with_self e none = e
with_self e (some (id, proj)) = record e { self_id = id; project = proj; self_identified = true }

-- identifySelf, on the answer to ContainerList. The second loop runs only if the first found nothing.
unfoldable pub identify_self :
    (ℕ → ℕ → ℕ → ℕ) → Str → Result CallError (List Summary) → Engine → Engine
unfolding find_self by_hostname by_label with_self
identify_self fraction host (err _) e = e
identify_self fraction host (ok cs) e =
    let e₁ = with_self e (find_self (by_hostname host) cs) in
    if e₁.self_identified then e₁ else with_self e₁ (find_self (by_label fraction) cs)

unfoldable pub resolved_project : Engine → Str
resolved_project e = if is_empty e.cfg.scope.project then e.project else e.cfg.scope.project

unfoldable pub scope_label : Engine → Str
unfolding resolved_project
scope_label e = elim e.cfg.scope.mode [
  | all ↦ bytes "all"
  | project ↦
      let p = resolved_project e in
      if is_empty p then bytes "project:(unknown)" else bytes "project:" ++ p
]

unfoldable pub eligible : Engine → Str → Settings → Bool
eligible e id set =
    if str_eq id e.self_id && not e.cfg.self_update
    then false
    else if set.oneoff || set.exclude
    then false
    else elim set.enable [ none ↦ true | some on ↦ on ]

pub record Target : Type 0 where
  pub id : Str
  pub name : Str
  pub image : Str
  pub inspect : Inspect
  pub set : Settings
  pub running : Bool

-- insp.State != nil && insp.State.Running
unfoldable pub is_running : Inspect → Bool
is_running insp = elim insp.run_state [ none ↦ false | some s ↦ s.running ]

unfoldable pub target_of : Str → Settings → Inspect → Target
unfolding is_running
target_of id set insp = record {
  id = id;
  name = trim_prefix insp.name (bytes "/");
  image = insp.config.image;
  inspect = insp;
  set = set;
  running = is_running insp;
}

-- The context of a cycle.
abbrev pub cycle_context : Context
cycle_context = record { detached = false; timeout = none }

-- The label filter: project=name, in the form that the daemon takes.
abbrev pub project_filter : Str → Str
project_filter proj = compose_project ++ bytes "=" ++ proj

module _ {W : Type 0} (host : Host W) (e : Engine) where
  -- One round of discover's loop.
  keep_target : Str → Settings → Result CallError Inspect → List Target → List Target
  keep_target id set (err _) ts = ts
  keep_target id set (ok insp) ts = target_of id set insp ∷ ts

  unfoldable pub collect : List Summary → Exec (Run W) (List Target)
  unfolding keep_target target_of
  collect [] = pure []
  collect (c ∷ cs) =
      let set = parse host.fraction c.labels e.cfg.compat_watchtower in
      let rest = collect cs in
      elim (eligible e c.id set) [
        | false ↦ rest
        | true ↦ do
          insp ← call (host.docker.inspect cycle_context c.id)
          ts ← rest
          pure (keep_target c.id set insp ts)
      ]

  unfoldable pub after_list :
      Result CallError (List Summary) → Exec (Run W) (Result CallError (List Target))
  unfolding collect
  after_list (err x) = pure (err x)
  after_list (ok cs) = do ts ← collect cs; pure (ok ts)

  unfoldable pub discover_in : Mode → Exec (Run W) (Result CallError (List Target))
  unfolding after_list resolved_project
  discover_in all = do r ← call (host.docker.list none); after_list r
  discover_in project =
      let proj = resolved_project e in
      elim (is_empty proj) [
        | true ↦ pure (ok [])
        | false ↦ do r ← call (host.docker.list (some (project_filter proj))); after_list r
      ]

  unfoldable pub discover : Exec (Run W) (Result CallError (List Target))
  unfolding discover_in
  discover = discover_in e.cfg.scope.mode
