-- ===== src/Engine/Apply/Restore/Create.antt =====
-- The steps of an update from the replacement's creation on, each with what it leaves behind.
use pullpilot.Prelude.{
  ◌≡◌, refl, sym, ap, ◌∙◌, inl, inr, Bool, true, false, Option, none, some, List, [], subst, ◌∷◌,
  ◌++◌, Bool-cases,
}
use mathlib.Core.List.{append_assoc}
use pullpilot.Prelude.Exec.{Result, ok, err, Result-cases}
use pullpilot.Std.Str.{Str}
use pullpilot.Std.Dict.{Dict}
use pullpilot.State.{mark_applied}
use pullpilot.Engine.Host.{
  CallError, Endpoint, Host, Engine, GateError, ApplyError, Notice, create_failed, attach_failed,
  start_failed, gate_failed, action_needed, rolled_back, Run,
}
use pullpilot.Engine.Plan.{Plan}
use pullpilot.Engine.Network.{build_networking}
use pullpilot.Engine.Gate.{health_gate, interrupted}
use pullpilot.Engine.Daemon.{IsDaemon}
use pullpilot.Engine.Apply.{
  Status, tmp_name, op_context, rollback, give_up, remove_old_image, finish, blacklist, after_gate,
  after_start, start_if, go_live, attach, after_attach, after_create,
}
use pullpilot.Engine.Apply.Restore.{
  tmp_name-ne, id-ne-tmp, name-mark_bad, name-mark_applied, name-health_gate, Outcome, replaced,
  restored, reported, Aside, Live, IsPlaced, Back, rollback-Back,
}

module _ {W : Type 0} {host : Host W} {name : W → Str → Option Str} (d : IsDaemon host name)
    (e : Engine) (p : Plan) where
  abbrev Good : List Notice → Option ApplyError × Run W → Type 0
  Good = Outcome host name d.refused p

  -- From a rollback to the outcome: the error, and the notices that follow.
  Back-Outcome :
      (notes : List Notice) (x : ApplyError) (r : Run W) → Back d p notes r → Good notes (some x, r)
  Back-Outcome notes x r (inl h) = restored x refl h
  Back-Outcome notes x r (inr (y, h)) = reported x y [] refl h

  give_up-Outcome :
      (new_id : Option Str) (x : ApplyError) (r : Run W)
      → IsPlaced host name p new_id r.world
      → Good r.notes (give_up host e p new_id x r)
  unfolding give_up
  give_up-Outcome new_id x r h =
      Back-Outcome r.notes x (rollback host (op_context p.settings) p (tmp_name p.name) new_id r).1
        (rollback-Back d p (op_context p.settings) new_id r h)

  pub name-remove_old_image :
      (r : Run W) (j : Str) → name (remove_old_image host e p r).1.world j ≡ name r.world j
  unfolding remove_old_image
  name-remove_old_image r j = elim (Bool-cases e.cfg.cleanup) [
    | inl c ↦
        rw (c, remove_old_image) (d.name-remove_image (op_context p.settings) p.current r.world j)
    | inr c ↦ rw (c, remove_old_image)
  ]

  finish-Outcome :
      (id : Str) (r : Run W) (notes : List Notice)
      → Live host name p id r.world
      → Good notes (finish host e p r)
  unfolding finish
  finish-Outcome id r notes (ne, aside, live) =
      let c = op_context p.settings in
      let w = (host.docker.remove c (tmp_name p.name) p.settings.remove_anon_vols r.world).1 in
      let m = mark_applied host.disk p.name p.available r.st w in
      replaced id refl (λ q. ne (sym q))
        (name-remove_old_image (record r { world = m.1; st = m.0 }) id
          ∙ name-mark_applied d p.name p.available r.st w id
          ∙ d.remove_keeps c (tmp_name p.name) p.settings.remove_anon_vols r.world id p.name live
              (id-ne-tmp d r.world id p.name p.name live) (tmp_name-ne p.name))

  pub blacklist_keeps :
      (x : GateError) (r : Run W)
      → ((j : Str) → name (blacklist host e p x r).1.world j ≡ name r.world j)
        × ((blacklist host e p x r).1.notes ≡ r.notes)
  unfolding blacklist
  blacklist_keeps x r = elim (Bool-cases (interrupted x)) [
    | inl c ↦ (λ j. rw (c, blacklist), rw (c, blacklist))
    | inr c ↦
        (λ j. rw (c, blacklist) (name-mark_bad d p.available r.st r.world j), rw (c, blacklist))
  ]

  -- The notice of the rollback comes after the one that asks for help.
  noted :
      (notes : List Notice) (x : ApplyError) (n : Notice) (r : Run W)
      → Back d p notes r
      → Good notes (some x, record r { notes = r.notes ++ n ∷ [] })
  noted notes x n r (inl h) = restored x refl h
  noted notes x n r (inr (y, h)) =
      reported x y (n ∷ []) refl
        (ap (λ l. l ++ n ∷ []) h ∙ append_assoc notes (action_needed p.name y ∷ []) (n ∷ []))

  after_gate-Outcome :
      (id : Str) (v : Option GateError) (r : Run W)
      → Live host name p id r.world
      → Good r.notes (after_gate host e p id v r)
  unfolding after_gate
  after_gate-Outcome id none r h = finish-Outcome id r r.notes h
  after_gate-Outcome id (some x) r (ne, aside, live) =
      let b = (blacklist host e p x r).1 in
      let keeps = blacklist_keeps x r in
      let c = op_context p.settings in
      noted r.notes (gate_failed x) (rolled_back p.name p.available p.current)
        (rollback host c p (tmp_name p.name) (some id) b).1
        (subst (λ ns. Back d p ns (rollback host c p (tmp_name p.name) (some id) b).1) keeps.1
          (rollback-Back d p c (some id) b (ne, (keeps.0 p.id ∙ aside), (keeps.0 id ∙ live))))

  after_start-Outcome :
      (id : Str) (x : Status) (r : Run W)
      → Live host name p id r.world
      → Good r.notes (after_start host e p id x r)
  unfolding after_start
  after_start-Outcome id (err x) r h = give_up-Outcome (some id) (start_failed x) r h
  after_start-Outcome id (ok u) r (ne, aside, live) =
      let c = op_context p.settings in
      let v = health_gate host c id p.settings r.world in
      let same = name-health_gate d c id p.settings r.world in
      after_gate-Outcome id v.0 (record r { world = v.1 })
        (ne, (same p.id ∙ aside), (same id ∙ live))

  start_if-Outcome :
      (running : Bool) (id : Str) (r : Run W)
      → Live host name p id r.world
      → Good r.notes (start_if host e p running id r)
  unfolding start_if
  start_if-Outcome false id r h = finish-Outcome id r r.notes h
  start_if-Outcome true id r (ne, aside, live) =
      let c = op_context p.settings in
      let x = host.docker.start c id r.world in
      let same = d.name-start c id r.world in
      after_start-Outcome id x.0 (record r { world = x.1 })
        (ne, (same p.id ∙ aside), (same id ∙ live))

  pub attach_keeps :
      (id : Str) (nets : Dict Endpoint) (r : Run W)
      → ((j : Str) → name (attach host e p id nets r).1.world j ≡ name r.world j)
        × ((attach host e p id nets r).1.notes ≡ r.notes)
  unfolding attach
  attach_keeps id [] r = (λ j. refl, refl)
  attach_keeps id ((net, ep) ∷ nets) r =
      let c = op_context p.settings in
      let x = host.docker.connect c net id ep r.world in
      let same = d.name-connect c net id ep r.world in
      let rest = attach_keeps id nets (record r { world = x.1 }) in
      elim (Result-cases x.0) [
        | inl (u, ok_eq) ↦ (λ j. rw (ok_eq, attach) (rest.0 j ∙ same j), rw (ok_eq, attach) rest.1)
        | inr (y, err_eq) ↦ (λ j. rw (err_eq, attach) (same j), rw (err_eq, attach))
      ]

  after_attach-Outcome :
      (id : Str) (x : Option (Str × CallError)) (r : Run W)
      → Live host name p id r.world
      → Good r.notes (after_attach host e p id x r)
  unfolding after_attach go_live
  after_attach-Outcome id none r h = start_if-Outcome p.running id r h
  after_attach-Outcome id (some (net, y)) r h = give_up-Outcome (some id) (attach_failed net y) r h

  pub after_create-Outcome :
      (x : Result CallError Str) (r : Run W)
      → Aside host name p r.world
      → ((id : Str) → x ≡ ok id → Live host name p id r.world)
      → Good r.notes (after_create host e p x r)
  unfolding after_create
  after_create-Outcome (err y) r aside live = give_up-Outcome none (create_failed y) r aside
  after_create-Outcome (ok id) r aside live =
      let nets = (build_networking p.inspect.networks).1 in
      let a = attach host e p id nets r in
      let keeps = attach_keeps id nets r in
      let (ne, old, new) = live id refl in
      subst (λ ns. Good ns (after_attach host e p id a.0 a.1)) keeps.1
        (after_attach-Outcome id a.0 a.1 (ne, (keeps.0 p.id ∙ old), (keeps.0 id ∙ new)))
