-- ===== src/Engine/Cycle/Bystanders.antt =====
-- A cycle and the containers that it does not update.
use pullpilot.Prelude.{
  ◌≡◌, ◌≢◌, refl, ap, ◌∙◌, Bool, true, false, Option, none, some, List, [], ◌∷◌, All, Bool-cases,
  inl, inr,
}
use pullpilot.Std.Str.{Str}
use pullpilot.Std.Dict.{get_or, insert}
use pullpilot.State.{State, pair_key, first_notify}
use pullpilot.Engine.Host.{
  CallError, Summary, Host, Engine, ApplyError, Note, soaking, available, Run, notify,
}
use pullpilot.Prelude.Exec.{Result, ok, err, Exec, pure}
use pullpilot.Engine.View
use pullpilot.Engine.View.{Action}
use pullpilot.Engine.Plan.{Plan}
use pullpilot.Engine.Daemon.{IsDaemon}
use pullpilot.Engine.Apply.{tmp_name, apply}
use pullpilot.Engine.Apply.Restore.{name-save}
use pullpilot.Engine.Apply.Restore.Bystander.{IsExact, apply_bystander}
use pullpilot.Engine.Plan.{build_plan}
use pullpilot.Engine.Cycle.{
  Counts, no_counts, after_apply, announce, act, run_plans, run_planned, reconcile_orphans,
  real_run, run_if, run,
}
use pullpilot.Engine.Cycle.Effects.{LooksKeep, run_dry-Untouched}
use pullpilot.Engine.Cycle.Orphans.{IsSeparate, IsLive, reconcile_orphans-view}
use pullpilot.Engine.Cycle.Records.{build_plan-P}

-- The container `j` under the name `m` is not the one that the plan updates, and its name is neither
-- that container's id nor the temporary name.
abbrev pub IsApart : Str → Str → Plan → Type 0
IsApart j m p = (j ≢ p.id) × (m ≢ p.id) × (m ≢ tmp_name p.name)

module _ {W : Type 0} {host : Host W} {name : W → Str → Option Str} (d : IsDaemon host name)
    (k : IsExact host name) (e : Engine) (j m : Str) where
  name-first_notify :
      (key digest : Str) (s : State) (w : W)
      → name (first_notify host.disk key digest s w).2 j ≡ name w j
  unfolding first_notify
  name-first_notify key digest s w =
      elim (Bool-cases (get_or (pair_key key digest) false s.content.notified)) [
        | inl told ↦ rw (told, first_notify)
        | inr new ↦
            rw (new, first_notify)
              (name-save d
                (record s {
                  content = record s.content {
                    notified = insert (pair_key key digest) true s.content.notified;
                  };
                })
                w j)
      ]

  world-notify_if :
      (first : Bool) (note : Note ApplyError) (r : Run W)
      → (elim first as (λ b. Exec (Run W) (Unit {0})) [ true ↦ notify note | false ↦ pure tt ]
          r).1.world
        ≡ r.world
  world-notify_if true note r = refl
  world-notify_if false note r = refl

  name-announce :
      (p : Plan) (note : Note ApplyError) (r : Run W)
      → name (announce host e p note r).1.world j ≡ name r.world j
  unfolding announce
  name-announce p note r =
      let x = first_notify host.disk p.name p.available r.st r.world in
      ap (λ w. name w j) (world-notify_if x.0 note (record r { st = x.1; world = x.2 }))
      ∙ name-first_notify p.name p.available r.st r.world

  name-after_apply :
      (p : Plan) (n : Counts) (x : Option ApplyError) (r : Run W)
      → name (after_apply host e p n x r).1.world j ≡ name r.world j
  unfolding after_apply
  name-after_apply p n (some x) r = refl
  name-after_apply p n none r = refl

  act_bystander :
      (p : Plan) (a : Action) (n : Counts) (r : Run W)
      → (a ≡ View.update → IsApart j m p)
      → name r.world j ≡ some m
      → name (act host e p a n r).1.world j ≡ some m
  unfolding act
  act_bystander p View.update n r apart h =
      let (other, free, away) = apart refl in
      let x = apply host e p r in
      name-after_apply p n x.0 x.1 ∙ apply_bystander d k e p j m away r other free h
  act_bystander p View.soaking n r apart h =
      name-announce p (soaking p.name p.available p.soak_left) r ∙ h
  act_bystander p View.monitor n r apart h =
      name-announce p (available p.name p.available p.reason) r ∙ h
  act_bystander p _ n r apart h = h

  -- Through the loop over the plans.
  run_plans_bystander :
      (ps : List Plan) (n : Counts) (r : Run W)
      → All (λ p. p.action ≡ View.update → IsApart j m p) ps
      → name r.world j ≡ some m
      → name (run_plans host e ps n r).1.world j ≡ some m
  unfolding run_plans
  run_plans_bystander [] n r apart h = h
  run_plans_bystander (p ∷ ps) n r (here, rest) h =
      let x = act host e p p.action n r in
      run_plans_bystander ps x.0 x.1 rest (act_bystander p p.action n r here h)

  run_planned_bystander :
      (x : Result CallError (List Plan)) (r : Run W)
      → ((ps : List Plan) → x ≡ ok ps → All (λ p. p.action ≡ View.update → IsApart j m p) ps)
      → name r.world j ≡ some m
      → name (run_planned host e x r).1.world j ≡ some m
  unfolding run_planned
  run_planned_bystander (err y) r apart h = h
  run_planned_bystander (ok ps) r apart h = run_plans_bystander ps no_counts r (apart ps refl) h

  module _ (s : IsSeparate host name) (looks : LooksKeep host (λ w. name w j ≡ some m)) where
    real_run_bystander :
        (r : Run W)
        → ((cs : List Summary) → (host.docker.list none r.world).0 ≡ ok cs → IsLive j cs)
        → ((ps : List Plan)
            → (build_plan host e true (reconcile_orphans host r).1).0 ≡ ok ps
            → All (λ p. p.action ≡ View.update → IsApart j m p) ps)
        → name r.world j ≡ some m
        → name (real_run host e r).1.world j ≡ some m
    unfolding real_run
    real_run_bystander r live apart h =
        let r₁ = (reconcile_orphans host r).1 in
        let x = build_plan host e true r₁ in
        run_planned_bystander x.0 x.1 apart (
          build_plan-P looks (λ st w g. name-save d st w j ∙ g) e r₁
            (reconcile_orphans-view s j r live ∙ h))

    -- On a daemon with the laws of IsDaemon and IsExact: a container that is no leftover of an
    -- interrupted update, that no plan of the cycle updates, and whose name is neither the id nor the
    -- temporary name of one that is updated, is still there after the cycle, under its name, whatever
    -- fails on the way.
    pub run_bystander :
        (r : Run W)
        → ((cs : List Summary) → (host.docker.list none r.world).0 ≡ ok cs → IsLive j cs)
        → ((ps : List Plan)
            → (build_plan host e true (reconcile_orphans host r).1).0 ≡ ok ps
            → All (λ p. p.action ≡ View.update → IsApart j m p) ps)
        → name r.world j ≡ some m
        → name (run host e r).1.world j ≡ some m
    unfolding run run_if
    run_bystander r live apart h = elim (Bool-cases e.cfg.dry_run) [
      | inl dry ↦ (run_dry-Untouched looks e r dry).kept h
      | inr wet ↦ rw (wet, run, run_if) (real_run_bystander r live apart h)
    ]
