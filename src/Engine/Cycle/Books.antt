-- ===== src/Engine/Cycle/Books.antt =====
-- The rejected and the applied digests over the parts of a cycle that are no updates.
use pullpilot.Prelude.{
  ◌≡◌, refl, sym, subst, ◌∙◌, Bool, true, false, Option, none, some, List, [], ◌∷◌, Bool-cases,
  Option-cases, inl, inr,
}
use pullpilot.Prelude.Exec.{Result, Exec, ok, err, pure}
use pullpilot.Std.Str.{Str, one_of, cut_suffix}
use pullpilot.Std.Dict.{get_or}
use pullpilot.State.{State, first_notify, pair_key}
use pullpilot.Engine.Host.{CallError, Summary, Host, Engine, ApplyError, Note, Run, notify}
use pullpilot.Engine.Scope.{cycle_context}
use pullpilot.Engine.Plan.{Plan}
use pullpilot.Engine.Plan.Keeps.{Kept, same}
use pullpilot.Engine.Apply.{Status, old_suffix}
use pullpilot.Engine.Cycle.{
  Counts, after_apply, announce, container_name, present_names, after_restore, reconcile_name,
  reconcile_names, reconcile_all, reconcile_listed, reconcile_orphans,
}

module _ {W : Type 0} (host : Host W) (e : Engine) where
  -- first_notify changes neither of the two records.
  first_notify-Kept :
      (key digest : Str) (s : State) (w : W) → Kept s (first_notify host.disk key digest s w).1
  unfolding first_notify
  first_notify-Kept key digest s w =
      elim (Bool-cases (get_or (pair_key key digest) false s.content.notified)) [
        | inl told ↦ rw (told, first_notify) (same s)
        | inr new ↦ rw (new, first_notify) (record { same_bad = refl; same_applied = refl })
      ]

  notify_if-st :
      (b : Bool) (note : Note ApplyError) (r : Run W)
      → (elim b as (λ x. Exec (Run W) (Unit {0})) [ true ↦ notify note | false ↦ pure tt ] r).1.st
        ≡ r.st
  notify_if-st true note r = refl
  notify_if-st false note r = refl

  pub announce-Kept :
      (p : Plan) (note : Note ApplyError) (r : Run W) → Kept r.st (announce host e p note r).1.st
  unfolding announce
  announce-Kept p note r =
      let x = first_notify host.disk p.name p.available r.st r.world in
      subst (Kept r.st) (sym (notify_if-st x.0 note (record r { st = x.1; world = x.2 })))
        (first_notify-Kept p.name p.available r.st r.world)

  pub after_apply-st :
      (p : Plan) (n : Counts) (x : Option ApplyError) (r : Run W)
      → (after_apply host e p n x r).1.st ≡ r.st
  unfolding after_apply
  after_apply-st p n none r = refl
  after_apply-st p n (some x) r = refl

  -- reconcileOrphans does not touch the bookkeeping.
  after_restore-st : (id : Str) (x : Status) (r : Run W) → (after_restore host id x r).1.st ≡ r.st
  unfolding after_restore
  after_restore-st id (err y) r = refl
  after_restore-st id (ok u) r = refl

  reconcile_name-st :
      (present : List Str) (id raw : Str) (r : Run W)
      → (reconcile_name host present id raw r).1.st ≡ r.st
  unfolding reconcile_name
  reconcile_name-st present id raw r =
      elim (Option-cases (cut_suffix (container_name raw) old_suffix)) [
        | inl live ↦ rw (live, reconcile_name)
        | inr (orig, left) ↦ elim (Bool-cases (one_of orig present)) [
          | inl there ↦ rw (left, there, reconcile_name)
          | inr gone ↦
              let x = host.docker.rename cycle_context id orig r.world in
              rw (left, gone, reconcile_name) (after_restore-st id x.0 (record r { world = x.1 }))
        ]
      ]

  reconcile_names-st :
      (present : List Str) (id : Str) (names : List Str) (r : Run W)
      → (reconcile_names host present id names r).1.st ≡ r.st
  unfolding reconcile_names
  reconcile_names-st present id [] r = refl
  reconcile_names-st present id (raw ∷ names) r =
      reconcile_names-st present id names (reconcile_name host present id raw r).1
      ∙ reconcile_name-st present id raw r

  reconcile_all-st :
      (present : List Str) (cs : List Summary) (r : Run W)
      → (reconcile_all host present cs r).1.st ≡ r.st
  unfolding reconcile_all
  reconcile_all-st present [] r = refl
  reconcile_all-st present (c ∷ cs) r =
      reconcile_all-st present cs (reconcile_names host present c.id c.names r).1
      ∙ reconcile_names-st present c.id c.names r

  reconcile_listed-st :
      (x : Result CallError (List Summary)) (r : Run W) → (reconcile_listed host x r).1.st ≡ r.st
  unfolding reconcile_listed
  reconcile_listed-st (err y) r = refl
  reconcile_listed-st (ok cs) r = reconcile_all-st (present_names cs) cs r

  pub reconcile_orphans-st : (r : Run W) → (reconcile_orphans host r).1.st ≡ r.st
  unfolding reconcile_orphans
  reconcile_orphans-st r =
      let x = host.docker.list none r.world in reconcile_listed-st x.0 (record r { world = x.1 })
