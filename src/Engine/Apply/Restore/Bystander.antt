-- ===== src/Engine/Apply/Restore/Bystander.antt =====
-- An update and the containers that it is not about.
use pullpilot.Prelude.{
  ◌≡◌, ◌≢◌, refl, ◌∙◌, Bool, true, false, Option, none, some, inl, inr, Bool-cases,
}
use pullpilot.Prelude.Exec.{Result, ok, err}
use pullpilot.Std.Str.{Str, is_empty}
use pullpilot.State.{mark_applied}
use pullpilot.Std.Dict.{Dict}
use pullpilot.Engine.Host.{
  ContainerConfig, Payload, Endpoint, CallError, Context, Host, Engine, GateError, ApplyError,
  create_failed, attach_failed, start_failed, Run,
}
use pullpilot.Engine.Plan.{Plan}
use pullpilot.Engine.Network.{build_networking}
use pullpilot.Engine.Gate.{health_gate}
use pullpilot.Engine.Daemon.{IsDaemon}
use pullpilot.Engine.Apply.{
  Status, tmp_name, op_context, new_config, registry_auth, pull, pull_context, discard,
  after_rename_back, rollback, give_up, finish, after_gate, after_start, start_if, go_live, attach,
  after_attach, after_create, after_rename, stop_if, stop_seconds, stop_old, after_stop, after_pull,
  apply, blacklist,
}
use pullpilot.Engine.Apply.Restore.{id-ne-tmp, name-mark_applied, name-health_gate}
use pullpilot.Engine.Apply.Restore.Create.{name-remove_old_image, blacklist_keeps, attach_keeps}

-- A rename touches only what its reference is the id or the name of; and the id of a new container
-- is no name of another.
pub record IsExact {W : Type 0} (host : Host W) (name : W → Str → Option Str) : Type 0 where
  pub rename_other :
      (c : Context) (ref n : Str) (w : W) (j m : Str)
      → name w j ≡ some m
      → j ≢ ref
      → m ≢ ref
      → name (host.docker.rename c ref n w).1 j ≡ some m
  pub create_unnamed :
      (c : Context) (cfg : ContainerConfig) (h : Payload) (nets : Dict Endpoint) (n id : Str)
      (w : W) (j m : Str)
      → (host.docker.create c cfg h nets n w).0 ≡ ok id
      → name w j ≡ some m
      → m ≢ id

module _ {W : Type 0} {host : Host W} {name : W → Str → Option Str} (d : IsDaemon host name)
    (k : IsExact host name) (e : Engine) (p : Plan) (j m : Str) (away : m ≢ tmp_name p.name) where
  abbrev There : W → Type 0
  There w = name w j ≡ some m

  -- The replacement is there and is another container.
  abbrev Safe : Option Str → W → Type 0
  Safe none w = There w
  Safe (some id) w = (j ≢ id) × (m ≢ id) × There w

  abbrev Same : W → W → Type 0
  Same w w' = (i : Str) → name w' i ≡ name w i

  Safe-Same : (o : Option Str) (w w' : W) → Same w w' → Safe o w → Safe o w'
  Safe-Same none w w' same h = same j ∙ h
  Safe-Same (some id) w w' same (ne, free, h) = (ne, free, (same j ∙ h))

  Safe-There : (o : Option Str) (w : W) → Safe o w → There w
  Safe-There none w h = h
  Safe-There (some id) w (ne, free, h) = h

  discard-There :
      (c : Context) (o : Option Str) (r : Run W)
      → Safe o r.world
      → There (discard host c o r).1.world
  unfolding discard
  discard-There c none r h = h
  discard-There c (some id) r (ne, free, h) =
      let w = (host.docker.stop c id none r.world).1 in
      elim (Bool-cases (is_empty id)) [
        | inl nothing ↦ rw (nothing, discard) h
        | inr something ↦
            rw (something, discard)
              (d.remove_keeps c id false w j m (d.stop_keeps c id none r.world j m h ne free) ne
                free)
      ]

  after_rename_back-There :
      (c : Context) (x : Status) (r : Run W)
      → There r.world
      → There (after_rename_back host c p x r).1.world
  unfolding after_rename_back
  after_rename_back-There c (err y) r h = h
  after_rename_back-There c (ok u) r h = elim (Bool-cases p.running) [
    | inl runs ↦ rw (runs, after_rename_back) (d.name-start c p.id r.world j ∙ h)
    | inr idle ↦ rw (idle, after_rename_back) h
  ]

  rollback-There :
      (o : Option Str) (r : Run W)
      → Safe o r.world
      → There (rollback host (op_context p.settings) p (tmp_name p.name) o r).1.world
  unfolding rollback
  rollback-There o r h =
      let c = op_context p.settings in
      let r₁ = (discard host c o r).1 in
      let x = host.docker.rename c (tmp_name p.name) p.name r₁.world in
      let h₁ = discard-There c o r h in
      after_rename_back-There c x.0 (record r₁ { world = x.1 })
        (k.rename_other c (tmp_name p.name) p.name r₁.world j m h₁
          (id-ne-tmp d r₁.world j p.name m h₁) away)

  give_up-There :
      (o : Option Str) (x : ApplyError) (r : Run W)
      → Safe o r.world
      → There (give_up host e p o x r).1.world
  unfolding give_up
  give_up-There o x r h = rollback-There o r h

  finish-There : (r : Run W) → There r.world → There (finish host e p r).1.world
  unfolding finish
  finish-There r h =
      let c = op_context p.settings in
      let w = (host.docker.remove c (tmp_name p.name) p.settings.remove_anon_vols r.world).1 in
      let a = mark_applied host.disk p.name p.available r.st w in
      name-remove_old_image d e p (record r { world = a.1; st = a.0 }) j
      ∙ name-mark_applied d p.name p.available r.st w j
      ∙ d.remove_keeps c (tmp_name p.name) p.settings.remove_anon_vols r.world j m h
          (id-ne-tmp d r.world j p.name m h) away

  after_gate-There :
      (id : Str) (v : Option GateError) (r : Run W)
      → Safe (some id) r.world
      → There (after_gate host e p id v r).1.world
  unfolding after_gate
  after_gate-There id none r h = finish-There r (Safe-There (some id) r.world h)
  after_gate-There id (some x) r h =
      let b = (blacklist host e p x r).1 in
      rollback-There (some id) b
        (Safe-Same (some id) r.world b.world (blacklist_keeps d e p x r).0 h)

  after_start-There :
      (id : Str) (x : Status) (r : Run W)
      → Safe (some id) r.world
      → There (after_start host e p id x r).1.world
  unfolding after_start
  after_start-There id (err x) r h = give_up-There (some id) (start_failed x) r h
  after_start-There id (ok u) r h =
      let c = op_context p.settings in
      let v = health_gate host c id p.settings r.world in
      after_gate-There id v.0 (record r { world = v.1 })
        (Safe-Same (some id) r.world v.1 (name-health_gate d c id p.settings r.world) h)

  start_if-There :
      (running : Bool) (id : Str) (r : Run W)
      → Safe (some id) r.world
      → There (start_if host e p running id r).1.world
  unfolding start_if
  start_if-There false id r h = finish-There r (Safe-There (some id) r.world h)
  start_if-There true id r h =
      let x = host.docker.start (op_context p.settings) id r.world in
      after_start-There id x.0 (record r { world = x.1 })
        (Safe-Same (some id) r.world x.1 (d.name-start (op_context p.settings) id r.world) h)

  after_attach-There :
      (id : Str) (x : Option (Str × CallError)) (r : Run W)
      → Safe (some id) r.world
      → There (after_attach host e p id x r).1.world
  unfolding after_attach go_live
  after_attach-There id none r h = start_if-There p.running id r h
  after_attach-There id (some (net, y)) r h = give_up-There (some id) (attach_failed net y) r h

  after_create-There :
      (x : Result CallError Str) (r : Run W)
      → There r.world
      → ((id : Str) → x ≡ ok id → Safe (some id) r.world)
      → There (after_create host e p x r).1.world
  unfolding after_create
  after_create-There (err y) r h safe = give_up-There none (create_failed y) r h
  after_create-There (ok id) r h safe =
      let nets = (build_networking p.inspect.networks).1 in
      let a = attach host e p id nets r in
      after_attach-There id a.0 a.1
        (Safe-Same (some id) r.world a.1.world (attach_keeps d e p id nets r).0 (safe id refl))

  after_rename-There :
      (x : Status) (r : Run W) → There r.world → There (after_rename host e p x r).1.world
  unfolding after_rename
  after_rename-There (err y) r h = h
  after_rename-There (ok u) r h =
      let c = op_context p.settings in
      let nets = (build_networking p.inspect.networks).0 in
      let x = host.docker.create c (new_config p) p.inspect.host_config nets p.name r.world in
      let there = d.create_keeps c (new_config p) p.inspect.host_config nets p.name r.world j m h in
      let fresh = d.create_fresh c (new_config p) p.inspect.host_config nets p.name in
      after_create-There x.0 (record r { world = x.1 }) there
        (λ id q.
          let f = fresh id r.world q in
          (
            (λ same. cc (f.0, h, same)),
            k.create_unnamed c (new_config p) p.inspect.host_config nets p.name id r.world j m q h,
            there,
          ))

  after_stop-There :
      (x : Status) (r : Run W)
      → j ≢ p.id
      → m ≢ p.id
      → There r.world
      → There (after_stop host e p x r).1.world
  unfolding after_stop
  after_stop-There (err y) r ne free h = h
  after_stop-There (ok u) r ne free h =
      let c = op_context p.settings in
      let x = host.docker.rename c p.id (tmp_name p.name) r.world in
      after_rename-There x.0 (record r { world = x.1 })
        (k.rename_other c p.id (tmp_name p.name) r.world j m h ne free)

  stop_if-There :
      (running : Bool) (r : Run W)
      → j ≢ p.id
      → m ≢ p.id
      → There r.world
      → There (stop_if host e p running r).1.world
  unfolding stop_if
  stop_if-There true r ne free h =
      d.stop_keeps (op_context p.settings) p.id (stop_seconds host.whole_seconds p.settings) r.world
        j m h ne free
  stop_if-There false r ne free h = h

  after_pull-There :
      (x : Status) (r : Run W)
      → j ≢ p.id
      → m ≢ p.id
      → There r.world
      → There (after_pull host e p x r).1.world
  unfolding after_pull stop_old
  after_pull-There (err y) r ne free h = h
  after_pull-There (ok u) r ne free h =
      let s = stop_if host e p p.running r in
      after_stop-There s.0 s.1 ne free (stop_if-There p.running r ne free h)

  -- Whatever becomes of the update, another container is still there after it, under its name.
  pub apply_bystander :
      (r : Run W)
      → j ≢ p.id
      → m ≢ p.id
      → name r.world j ≡ some m
      → name (apply host e p r).1.world j ≡ some m
  unfolding apply pull
  apply_bystander r ne free h =
      let auth = registry_auth host p.image in
      let x = host.docker.pull pull_context p.image auth r.world in
      let same = d.name-pull pull_context p.image auth r.world in
      after_pull-There x.0 (record r { world = x.1 }) ne free (same j ∙ h)
