-- ===== src/Engine/Apply/Restore/Steps.antt =====
-- The steps of an update up to the replacement's creation, and the update as a whole.
use pullpilot.Prelude.{◌≡◌, refl, ◌∙◌, Bool, true, false, Option, some, subst, Bool-cases, inl, inr}
use pullpilot.Prelude.Exec.{ok, err}
use pullpilot.Std.Str.{Str}
use pullpilot.Engine.Host.{CallError, Host, Engine, pull_failed, stop_failed, rename_failed, Run}
use pullpilot.Engine.Plan.{Plan}
use pullpilot.Engine.Network.{build_networking}
use pullpilot.Engine.Daemon.{IsDaemon}
use pullpilot.Engine.Apply.{
  Status, tmp_name, op_context, new_config, registry_auth, pull, pull_context, stop_if,
  after_rename, stop_old, stop_seconds, after_stop, after_pull, apply,
}
use pullpilot.Engine.Apply.Restore.{Outcome, restored, unclear, Aside}
use pullpilot.Engine.Apply.Restore.Create.{after_create-Outcome}

module _ {W : Type 0} {host : Host W} {name : W → Str → Option Str} (d : IsDaemon host name)
    (e : Engine) (p : Plan) where
  after_rename-Outcome :
      (x : Status) (r : Run W)
      → (x ≡ ok tt → Aside host name p r.world)
      → ((y : CallError) → x ≡ err y → d.refused y ≡ true → name r.world p.id ≡ some p.name)
      → Outcome host name d.refused p r.notes (after_rename host e p x r)
  unfolding after_rename
  after_rename-Outcome (err y) r good bad = elim (Bool-cases (d.refused y)) [
    | inl answer ↦ restored (rename_failed y) refl (bad y refl answer)
    | inr other ↦ unclear y other refl
  ]
  after_rename-Outcome (ok u) r good bad =
      let c = op_context p.settings in
      let nets = (build_networking p.inspect.networks).0 in
      let x = host.docker.create c (new_config p) p.inspect.host_config nets p.name r.world in
      let keeps = d.create_keeps c (new_config p) p.inspect.host_config nets p.name r.world in
      let fresh = d.create_fresh c (new_config p) p.inspect.host_config nets p.name in
      let aside = keeps p.id (tmp_name p.name) (good refl) in
      after_create-Outcome d e p x.0 (record r { world = x.1 }) aside
        (λ id e. let f = fresh id r.world e in ((λ q. cc (f.0, good refl, q)), aside, f.1))

  after_stop-Outcome :
      (x : Status) (r : Run W)
      → name r.world p.id ≡ some p.name
      → Outcome host name d.refused p r.notes (after_stop host e p x r)
  unfolding after_stop
  after_stop-Outcome (err y) r h = restored (stop_failed y) refl h
  after_stop-Outcome (ok u) r h =
      let c = op_context p.settings in
      let x = host.docker.rename c p.id (tmp_name p.name) r.world in
      after_rename-Outcome x.0 (record r { world = x.1 })
        (λ e. d.rename_by_id c p.id (tmp_name p.name) p.name r.world h e)
        (λ y e answer. d.rename_failure c p.id (tmp_name p.name) r.world p.id answer e ∙ h)

  name-stop_if :
      (running : Bool) (r : Run W)
      → d.lasting p.id ≡ true
      → name (stop_if host e p running r).1.world p.id ≡ name r.world p.id
  unfolding stop_if
  name-stop_if true r l =
      d.stop_lasting (op_context p.settings) p.id (stop_seconds host.whole_seconds p.settings)
        r.world l
  name-stop_if false r l = refl

  notes-stop_if : (running : Bool) (r : Run W) → (stop_if host e p running r).1.notes ≡ r.notes
  unfolding stop_if
  notes-stop_if true r = refl
  notes-stop_if false r = refl

  after_pull-Outcome :
      (x : Status) (r : Run W)
      → d.lasting p.id ≡ true
      → name r.world p.id ≡ some p.name
      → Outcome host name d.refused p r.notes (after_pull host e p x r)
  unfolding after_pull stop_old
  after_pull-Outcome (err y) r l h = restored (pull_failed y) refl h
  after_pull-Outcome (ok u) r l h =
      let s = stop_if host e p p.running r in
      subst (λ ns. Outcome host name d.refused p ns (after_stop host e p s.0 s.1))
        (notes-stop_if p.running r) (after_stop-Outcome s.0 s.1 (name-stop_if p.running r l ∙ h))

  -- On a daemon with the laws of IsDaemon, an update of a container that has its name and was not made
  -- with AutoRemove ends in one of four ways: it succeeds and another container bears the name; it
  -- fails and the old container bears its name again; it fails and its first notice is that the
  -- container has to be recovered by hand; or it fails at the rename that sets the old container
  -- aside, by an error that is not the daemon's refusal.
  pub apply-Outcome :
      (r : Run W)
      → d.lasting p.id ≡ true
      → name r.world p.id ≡ some p.name
      → Outcome host name d.refused p r.notes (apply host e p r)
  unfolding apply pull
  apply-Outcome r l h =
      let auth = registry_auth host p.image in
      let x = host.docker.pull pull_context p.image auth r.world in
      after_pull-Outcome x.0 (record r { world = x.1 }) l
        (d.name-pull pull_context p.image auth r.world p.id ∙ h)
