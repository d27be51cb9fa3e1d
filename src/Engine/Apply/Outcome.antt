-- ===== src/Engine/Apply/Outcome.antt =====
-- What an update writes into the bookkeeping, for each of its results.
use pullpilot.Prelude.{
  ◌≡◌, refl, ◌∙◌, Bool, true, false, not, ◌&&◌, ◌||◌, Option, none, some, [], ◌∷◌, arith,
  Bool-cases, inl, inr, if◌then◌else◌,
}
use pullpilot.Prelude.Exec.{Result, ok, err, Result-cases}
use pullpilot.Std.Str.{Str, str_eq, is_empty}
use pullpilot.Std.Dict.{Dict, lookup}
use pullpilot.Std.Dict.Laws.{lookup-insert, get_or-insert}
use pullpilot.State.{State, is_bad, mark_bad, mark_applied}
use pullpilot.Engine.Host.{
  CallError, Context, Endpoint, Host, Engine, GateError, ApplyError, create_failed, attach_failed,
  start_failed, gate_failed, Run,
}
use pullpilot.Engine.Plan.{Plan}
use pullpilot.Engine.Network.{build_networking}
use pullpilot.Engine.Gate.{health_gate, interrupted}
use pullpilot.Engine.Apply.{
  Status, tmp_name, op_context, new_config, registry_auth, pull, pull_context, discard,
  after_rename_back, rollback, give_up, remove_old_image, finish, blacklist, after_gate,
  after_start, start_if, go_live, attach, after_attach, after_create, after_rename, stop_if,
  stop_old, after_stop, after_pull, apply,
}

-- The results that reject the digest: the gate failed, by a verdict or at an inspection that failed,
-- and no interruption caused it.
abbrev pub rejects : Option ApplyError → Bool
rejects (some (gate_failed x)) = not (interrupted x)
rejects _ = false

abbrev pub succeeds : Option ApplyError → Bool
succeeds none = true
succeeds (some x) = false

module _ {W : Type 0} (host : Host W) (e : Engine) (p : Plan) where
  -- The bookkeeping after each result.
  books : State → W → Option ApplyError → State
  books s w none = (mark_applied host.disk p.name p.available s w).0
  books s w (some (gate_failed x)) =
      if interrupted x then s else (mark_bad host.disk p.available s w).0
  books s w (some _) = s

  abbrev Books : Run W → Option ApplyError × Run W → Type 0
  Books r out = out.1.st ≡ books r.st r.world out.0

  st-rollback :
      (c : Context) (id : Option Str) (r : Run W)
      → (rollback host c p (tmp_name p.name) id r).1.st ≡ r.st
  unfolding rollback discard after_rename_back
  st-rollback c none r = ground arith
  st-rollback c (some id) r = elim (Bool-cases (is_empty id)) [
    | inl nothing ↦ rw (nothing, discard) (ground arith)
    | inr something ↦ rw (something, discard) (ground arith)
  ]

  st-give_up :
      (id : Option Str) (x : ApplyError) (r : Run W) → (give_up host e p id x r).1.st ≡ r.st
  unfolding give_up
  st-give_up id x r = st-rollback (op_context p.settings) id r

  finish-Books : (r : Run W) → Books r (finish host e p r)
  unfolding finish remove_old_image books mark_applied
  finish-Books r = elim (Bool-cases e.cfg.cleanup) [
    | inl c ↦ rw (c, remove_old_image)
    | inr c ↦ rw (c, remove_old_image)
  ]

  st-blacklist :
      (x : GateError) (r : Run W)
      → (blacklist host e p x r).1.st ≡ books r.st r.world (some (gate_failed x))
  unfolding blacklist books mark_bad
  st-blacklist x r = elim (Bool-cases (interrupted x)) [
    | inl c ↦ rw (c, blacklist, books)
    | inr c ↦ rw (c, blacklist, books)
  ]

  after_gate-Books :
      (id : Str) (v : Option GateError) (r : Run W) → Books r (after_gate host e p id v r)
  unfolding after_gate
  after_gate-Books id none r = finish-Books r
  after_gate-Books id (some x) r =
      st-rollback (op_context p.settings) (some id) (blacklist host e p x r).1 ∙ st-blacklist x r

  -- The bookkeeping does not depend on the world that it is saved in.
  books_world : (s : State) (w v : W) (x : Option ApplyError) → books s w x ≡ books s v x
  unfolding books mark_applied mark_bad
  books_world s w v none = refl
  books_world s w v (some (gate_failed x)) = refl
  books_world s w v (some _) = refl

  after_start-Books : (id : Str) (x : Status) (r : Run W) → Books r (after_start host e p id x r)
  unfolding after_start books
  after_start-Books id (err x) r = st-give_up (some id) (start_failed x) r
  after_start-Books id (ok u) r =
      let v = health_gate host (op_context p.settings) id p.settings r.world in
      let r' : Run W = record r { world = v.1 } in
      after_gate-Books id v.0 r' ∙ books_world r.st v.1 r.world (after_gate host e p id v.0 r').0

  start_if-Books :
      (running : Bool) (id : Str) (r : Run W) → Books r (start_if host e p running id r)
  unfolding start_if
  start_if-Books false id r = finish-Books r
  start_if-Books true id r =
      let x = host.docker.start (op_context p.settings) id r.world in
      let r' : Run W = record r { world = x.1 } in
      after_start-Books id x.0 r' ∙ books_world r.st x.1 r.world (after_start host e p id x.0 r').0

  st-attach :
      (id : Str) (nets : Dict Endpoint) (r : Run W) → (attach host e p id nets r).1.st ≡ r.st
  unfolding attach
  st-attach id [] r = refl
  st-attach id ((net, ep) ∷ nets) r =
      let x = host.docker.connect (op_context p.settings) net id ep r.world in
      elim (Result-cases x.0) [
        | inl (u, good) ↦ rw (good, attach) (st-attach id nets (record r { world = x.1 }))
        | inr (y, bad) ↦ rw (bad, attach)
      ]

  after_attach-Books :
      (id : Str) (x : Option (Str × CallError)) (r : Run W) → Books r (after_attach host e p id x r)
  unfolding after_attach go_live books
  after_attach-Books id none r = start_if-Books p.running id r
  after_attach-Books id (some (net, y)) r = st-give_up (some id) (attach_failed net y) r

  after_create-Books : (x : Result CallError Str) (r : Run W) → Books r (after_create host e p x r)
  unfolding after_create books
  after_create-Books (err y) r = st-give_up none (create_failed y) r
  after_create-Books (ok id) r =
      let nets = (build_networking p.inspect.networks).1 in
      let a = attach host e p id nets r in
      let out = after_attach host e p id a.0 a.1 in
      after_attach-Books id a.0 a.1
      ∙ books_world a.1.st a.1.world r.world out.0
      ∙ rw (st-attach id nets r)

  after_rename-Books : (x : Status) (r : Run W) → Books r (after_rename host e p x r)
  unfolding after_rename books
  after_rename-Books (err y) r = refl
  after_rename-Books (ok u) r =
      let nets = (build_networking p.inspect.networks).0 in
      let x =
        host.docker.create (op_context p.settings) (new_config p) p.inspect.host_config nets p.name
          r.world in
      let r' : Run W = record r { world = x.1 } in
      after_create-Books x.0 r' ∙ books_world r.st x.1 r.world (after_create host e p x.0 r').0

  after_stop-Books : (x : Status) (r : Run W) → Books r (after_stop host e p x r)
  unfolding after_stop books
  after_stop-Books (err y) r = refl
  after_stop-Books (ok u) r =
      let x = host.docker.rename (op_context p.settings) p.id (tmp_name p.name) r.world in
      let r' : Run W = record r { world = x.1 } in
      after_rename-Books x.0 r' ∙ books_world r.st x.1 r.world (after_rename host e p x.0 r').0

  st-stop_if : (running : Bool) (r : Run W) → (stop_if host e p running r).1.st ≡ r.st
  unfolding stop_if
  st-stop_if true r = refl
  st-stop_if false r = refl

  after_pull-Books : (x : Status) (r : Run W) → Books r (after_pull host e p x r)
  unfolding after_pull stop_old books
  after_pull-Books (err y) r = refl
  after_pull-Books (ok u) r =
      let s = stop_if host e p p.running r in
      let out = after_stop host e p s.0 s.1 in
      after_stop-Books s.0 s.1
      ∙ books_world s.1.st s.1.world r.world out.0
      ∙ rw (st-stop_if p.running r)

  apply-Books : (r : Run W) → Books r (apply host e p r)
  unfolding apply pull
  apply-Books r =
      let x = host.docker.pull pull_context p.image (registry_auth host p.image) r.world in
      let r' : Run W = record r { world = x.1 } in
      after_pull-Books x.0 r' ∙ books_world r.st x.1 r.world (after_pull host e p x.0 r').0

  is_bad-books :
      (digest : Str) (s : State) (w : W) (x : Option ApplyError)
      → is_bad digest (books s w x) ≡ (is_bad digest s || (rejects x && str_eq p.available digest))
  unfolding books is_bad mark_applied mark_bad
  is_bad-books digest s w none = ground arith
  is_bad-books digest s w (some (gate_failed x)) =
      ground (arith, get_or-insert p.available digest false true s.content.bad_digests)
  is_bad-books digest s w (some _) = ground arith

  -- A digest is blacklisted after an update exactly if it was before, or it is the new digest and
  -- the health gate failed otherwise than by an interruption: by a verdict, or at an inspection that
  -- failed.
  pub is_bad-apply :
      (digest : Str) (r : Run W)
      → is_bad digest (apply host e p r).1.st
        ≡ (is_bad digest r.st || (rejects (apply host e p r).0 && str_eq p.available digest))
  is_bad-apply digest r = rw (apply-Books r) (is_bad-books digest r.st r.world (apply host e p r).0)

  last_applied-books :
      (key : Str) (s : State) (w : W) (x : Option ApplyError)
      → lookup key (books s w x).content.last_applied ≡ (
          if succeeds x && str_eq p.name key
          then some p.available
          else lookup key s.content.last_applied)
  unfolding books mark_applied mark_bad
  last_applied-books key s w none = lookup-insert p.name key p.available s.content.last_applied
  last_applied-books key s w (some (gate_failed x)) = ground arith
  last_applied-books key s w (some _) = refl

  -- The last applied digest of a container changes to the new digest if the update of that
  -- container succeeded, and stays otherwise.
  pub last_applied-apply :
      (key : Str) (r : Run W)
      → lookup key (apply host e p r).1.st.content.last_applied ≡ (
          if succeeds (apply host e p r).0 && str_eq p.name key
          then some p.available
          else lookup key r.st.content.last_applied)
  last_applied-apply key r =
      rw (apply-Books r) (last_applied-books key r.st r.world (apply host e p r).0)
