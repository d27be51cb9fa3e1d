-- ===== src/Engine/Cycle.antt =====
-- reconcileOrphans, Run and Status of internal/engine/engine.go.
pub mod Orphans
pub mod Effects
pub mod Rejected
pub mod Books
pub mod Bystanders
pub mod Records
use pullpilot.Prelude.{
  ℕ, ◌+◌, Bool, true, false, Option, none, some, List, [], ◌∷◌, ◌++◌, map, any, if◌then◌else◌,
}
use pullpilot.Prelude.Exec.{Result, ok, err, Exec, pure, ◌>>=◌, ◌>>◌}
use pullpilot.Std.Str.{Str, bytes, str_eq, one_of, trim_prefix, cut_suffix}
use pullpilot.State.{first_notify}
use pullpilot.Config.{Config}
use pullpilot.Engine.Host.{
  CallError, Summary, Host, Engine, ApplyError, Note, update_failed, soaking, available, Run, call,
  notify, book,
}
use pullpilot.Engine.View
use pullpilot.Engine.View.{Action, short, dash, state_text}
use pullpilot.Engine.Scope.{cycle_context, discover}
use pullpilot.Engine.Plan.{Plan, build_plan}
use pullpilot.Engine.Apply.{Status, old_suffix, apply}
use pullpilot.Prelude.Int.{ℤ}

abbrev pub container_name : Str → Str
container_name n = trim_prefix n (bytes "/")

-- The keys of the map `present`.
unfoldable pub present_names : List Summary → List Str
present_names [] = []
present_names (c ∷ cs) = map container_name c.names ++ present_names cs

module _ {W : Type 0} (host : Host W) where
  unfoldable pub after_restore : Str → Status → Exec (Run W) (Unit {0})
  after_restore id (err x) = pure tt
  after_restore id (ok _) = do call (host.docker.start cycle_context id); pure tt

  -- One name of one container: remove the leftover if its original is there, else restore it.
  unfoldable pub reconcile_name : List Str → Str → Str → Exec (Run W) (Unit {0})
  unfolding after_restore
  reconcile_name present id raw = elim (cut_suffix (container_name raw) old_suffix) [
    | none ↦ pure tt
    | some orig ↦ elim (one_of orig present) [
      | true ↦ do call (host.docker.remove cycle_context id false); pure tt
      | false ↦ do r ← call (host.docker.rename cycle_context id orig); after_restore id r
    ]
  ]

  unfoldable pub reconcile_names : List Str → Str → List Str → Exec (Run W) (Unit {0})
  unfolding reconcile_name
  reconcile_names present id [] = pure tt
  reconcile_names present id (raw ∷ names) =
      reconcile_name present id raw >> reconcile_names present id names

  unfoldable pub reconcile_all : List Str → List Summary → Exec (Run W) (Unit {0})
  unfolding reconcile_names
  reconcile_all present [] = pure tt
  reconcile_all present (c ∷ cs) = reconcile_names present c.id c.names >> reconcile_all present cs

  unfoldable pub reconcile_listed : Result CallError (List Summary) → Exec (Run W) (Unit {0})
  unfolding reconcile_all present_names
  reconcile_listed (err x) = pure tt
  reconcile_listed (ok cs) = reconcile_all (present_names cs) cs

  unfoldable pub reconcile_orphans : Exec (Run W) (Unit {0})
  unfolding reconcile_listed
  reconcile_orphans = do r ← call (host.docker.list none); reconcile_listed r

-- The counters of Run.
pub record Counts : Type 0 where
  pub updated : ℕ
  pub soaking : ℕ
  pub failed : ℕ

abbrev pub no_counts : Counts
no_counts = record { updated = 0; soaking = 0; failed = 0 }

module _ {W : Type 0} (host : Host W) (e : Engine) where
  unfoldable pub after_apply : Plan → Counts → Option ApplyError → Exec (Run W) Counts
  after_apply p n (some x) = do
    notify (update_failed p.name p.available x)
    pure (record n { failed = n.failed + 1 })
  after_apply p n none = pure (record n { updated = n.updated + 1 })

  -- One notice for each new digest.
  unfoldable pub announce : Plan → Note ApplyError → Exec (Run W) (Unit {0})
  announce p note = do
    first ← book (first_notify host.disk p.name p.available)
    elim first [ true ↦ notify note | false ↦ pure tt ]

  -- The switch of Run's loop.
  unfoldable pub act : Plan → Action → Counts → Exec (Run W) Counts
  unfolding after_apply announce
  act p View.update n = do r ← apply host e p; after_apply p n r
  act p View.soaking n = do
    announce p (soaking p.name p.available p.soak_left)
    pure (record n { soaking = n.soaking + 1 })
  act p View.monitor n = do announce p (available p.name p.available p.reason); pure n
  act p _ n = pure n

  unfoldable pub run_plans : List Plan → Counts → Exec (Run W) Counts
  unfolding act
  run_plans [] n = pure n
  run_plans (p ∷ ps) n = do n' ← act p p.action n; run_plans ps n'

  unfoldable pub run_planned : Result CallError (List Plan) → Exec (Run W) Counts
  unfolding run_plans
  run_planned (err x) = pure no_counts
  run_planned (ok ps) = run_plans ps no_counts

  unfoldable pub real_run : Exec (Run W) Counts
  unfolding reconcile_orphans run_planned
  real_run = do reconcile_orphans host; r ← build_plan host e true; run_planned r

  -- A dry run prints the plan; what it changes is what buildPlan changes.
  unfoldable pub dry_run : Exec (Run W) Counts
  dry_run = do build_plan host e false; pure no_counts

  unfoldable pub run_if : Bool → Exec (Run W) Counts
  unfolding real_run dry_run
  run_if true = dry_run
  run_if false = real_run

  unfoldable pub run : Exec (Run W) Counts
  unfolding run_if
  run = run_if e.cfg.dry_run

  -- The rows of renderTable.
  unfoldable pub row : (ℤ → Str) → Plan → List Str
  row show_minutes p =
      p.name
      ∷ dash (short p.current)
      ∷ dash (short p.available)
      ∷ state_text show_minutes p.action p.reason p.soak_left
      ∷ []

  -- Status returns the error, or the rows of its table.
  unfoldable pub status : (ℤ → Str) → Exec (Run W) (Result CallError (List (List Str)))
  unfolding row
  status show_minutes = do
    r ← build_plan host e false
    pure (elim r [ err x ↦ err x | ok ps ↦ ok (map (row show_minutes) ps) ])
