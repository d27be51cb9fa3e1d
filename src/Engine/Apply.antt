-- ===== src/Engine/Apply.antt =====
-- apply, pull and rollback of internal/engine/engine.go.
pub mod Outcome
pub mod Restore
use pullpilot.Prelude.{
  ℕ, ◌/◌, ◌*◌, Bool, true, false, not, ◌&&◌, Option, none, some, List, [], ◌∷◌, ◌++◌, if◌then◌else◌,
}
use pullpilot.Prelude.Int.{ℤ, pos, negsuc, ltb_ℤ, sub_ℕ, neg_part, ◌+ℤ◌}
use pullpilot.Prelude.Exec.{Result, ok, err, Exec, pure, ◌>>=◌, ◌>>◌}
use pullpilot.Std.Str.{Str, bytes, is_empty, has_prefix}
use pullpilot.Std.Dict.{Dict}
use pullpilot.Std.Num.{second, minute, wrap64}
use pullpilot.State.{mark_bad, mark_applied}
use pullpilot.Labels.{Settings}
use pullpilot.Registry.{credentials}
use pullpilot.Engine.Host.{
  CallError, Context, Endpoint, ContainerConfig, Inspect, Host, Engine, GateError, ApplyError,
  pull_failed, stop_failed, rename_failed, create_failed, start_failed, attach_failed, gate_failed,
  Note, rolled_back, action_needed, updated, Run, call, notify, book_,
}
use pullpilot.Engine.Network.{build_networking}
use pullpilot.Engine.Scope.{cycle_context}
use pullpilot.Engine.Plan.{Plan}
use pullpilot.Engine.Gate.{health_timeout, health_gate, interrupted}

-- The budget of the critical section.
unfoldable pub op_timeout : Settings → ℤ
unfolding health_timeout ◌+ℤ◌ wrap64
op_timeout set =
    let t = wrap64 (health_timeout set +ℤ pos (2 * minute)) in
    if ltb_ℤ t (pos (5 * minute)) then pos (5 * minute) else t

unfoldable pub op_context : Settings → Context
op_context set = record { detached = true; timeout = some (op_timeout set) }

abbrev pub pull_context : Context
pull_context = record { detached = false; timeout = some (pos (10 * minute)) }

abbrev pub old_suffix : Str
old_suffix = bytes "_pp_old"

abbrev pub tmp_name : Str → Str
tmp_name name = name ++ old_suffix

-- `whole_seconds` is int(d.Seconds()), which rounds in floating point.
unfoldable pub stop_seconds : (ℤ → ℤ) → Settings → Option ℤ
stop_seconds whole_seconds set = elim set.stop_timeout [
  | none ↦ none
  | some d ↦ some (whole_seconds d)
]

-- The config of the replacement: the plan's image, and no hostname that is the old id's.
unfoldable pub new_config : Plan → ContainerConfig
new_config p =
    let cfg : ContainerConfig = record p.inspect.config { image = p.image } in
    if not (is_empty cfg.hostname) && has_prefix p.id cfg.hostname
    then record cfg { hostname = [] }
    else cfg

abbrev pub Status : Type 0
Status = Result CallError (Unit {0})

module _ {W : Type 0} (host : Host W) where
  -- opts.RegistryAuth; "" where there are no credentials
  unfoldable pub registry_auth : Str → Str
  registry_auth ref = elim (credentials host.parse_named host.basic ref) [
    | none ↦ []
    | some (user, pass, server) ↦ elim (host.encode_auth user pass server) [
      | none ↦ []
      | some auth ↦ auth
    ]
  ]

  unfoldable pub pull : Context → Str → Exec (Run W) Status
  unfolding registry_auth
  pull ctx ref = call (host.docker.pull ctx ref (registry_auth ref))

  -- ContainerStop and ContainerRemove of the failed replacement, their errors dropped. `none` is the
  -- empty id that the source passes where there is no replacement.
  unfoldable pub discard : Context → Option Str → Exec (Run W) (Unit {0})
  discard ctx none = pure tt
  discard ctx (some id) = elim (is_empty id) [
    | true ↦ pure tt
    | false ↦ do
      call (host.docker.stop ctx id none)
      call (host.docker.remove ctx id false)
      pure tt
  ]

  unfoldable pub after_rename_back : Context → Plan → Status → Exec (Run W) (Unit {0})
  after_rename_back ctx p (err x) = notify (action_needed p.name x)
  after_rename_back ctx p (ok _) = elim p.running [
    | true ↦ do call (host.docker.start ctx p.id); pure tt
    | false ↦ pure tt
  ]

  unfoldable pub rollback : Context → Plan → Str → Option Str → Exec (Run W) (Unit {0})
  unfolding discard after_rename_back
  rollback ctx p tmp new_id = do
    discard ctx new_id
    r ← call (host.docker.rename ctx tmp p.name)
    after_rename_back ctx p r

module _ {W : Type 0} (host : Host W) (e : Engine) (p : Plan) where
  abbrev ctx : Context
  ctx = op_context p.settings

  abbrev tmp : Str
  tmp = tmp_name p.name

  -- A step failed: roll back, and return its error.
  unfoldable pub give_up : Option Str → ApplyError → Exec (Run W) (Option ApplyError)
  unfolding rollback
  give_up new_id x = do rollback host ctx p tmp new_id; pure (some x)

  -- 6. Success.
  unfoldable pub remove_old_image : Exec (Run W) (Unit {0})
  remove_old_image = elim e.cfg.cleanup [
    | true ↦ do call (host.docker.remove_image ctx p.current); pure tt
    | false ↦ pure tt
  ]

  unfoldable pub finish : Exec (Run W) (Option ApplyError)
  unfolding remove_old_image
  finish = do
    call (host.docker.remove ctx tmp p.settings.remove_anon_vols)
    book_ (mark_applied host.disk p.name p.available)
    remove_old_image
    notify (updated p.name p.current p.available)
    pure none

  -- 5. Start and health gate.
  unfoldable pub blacklist : GateError → Exec (Run W) (Unit {0})
  blacklist x = elim (interrupted x) [
    | true ↦ pure tt
    | false ↦ book_ (mark_bad host.disk p.available)
  ]

  unfoldable pub after_gate : Str → Option GateError → Exec (Run W) (Option ApplyError)
  unfolding finish blacklist rollback
  after_gate id none = finish
  after_gate id (some x) = do
    blacklist x
    rollback host ctx p tmp (some id)
    notify (rolled_back p.name p.available p.current)
    pure (some (gate_failed x))

  unfoldable pub after_start : Str → Status → Exec (Run W) (Option ApplyError)
  unfolding after_gate give_up
  after_start id (err x) = give_up (some id) (start_failed x)
  after_start id (ok _) = do r ← call (health_gate host ctx id p.settings); after_gate id r

  unfoldable pub start_if : Bool → Str → Exec (Run W) (Option ApplyError)
  unfolding after_start finish
  start_if true id = do r ← call (host.docker.start ctx id); after_start id r
  start_if false id = finish

  unfoldable pub go_live : Str → Exec (Run W) (Option ApplyError)
  unfolding start_if
  go_live id = start_if p.running id

  -- 4. The additional networks: the first failure, if there is one. Go's map order is any order.
  unfoldable pub attach : Str → Dict Endpoint → Exec (Run W) (Option (Str × CallError))
  attach id [] r = (none, r)
  attach id ((name, ep) ∷ nets) r =
      let (x, r') = call (host.docker.connect ctx name id ep) r in
      let rest = attach id nets r' in elim x [ err y ↦ (some (name, y), r') | ok _ ↦ rest ]

  unfoldable pub after_attach : Str → Option (Str × CallError) → Exec (Run W) (Option ApplyError)
  unfolding go_live give_up
  after_attach id none = go_live id
  after_attach id (some (name, x)) = give_up (some id) (attach_failed name x)

  -- 3. The replacement.
  unfoldable pub after_create : Result CallError Str → Exec (Run W) (Option ApplyError)
  unfolding attach after_attach give_up
  after_create (err x) = give_up none (create_failed x)
  after_create (ok id) = do r ← attach id (build_networking p.inspect.networks).1; after_attach id r

  unfoldable pub after_rename : Status → Exec (Run W) (Option ApplyError)
  unfolding after_create new_config
  after_rename (err x) = pure (some (rename_failed x))
  after_rename (ok _) = do
    r ← call (
        host.docker.create ctx (new_config p) p.inspect.host_config
          (build_networking p.inspect.networks).0 p.name)
    after_create r

  -- 2. Stop the old container and free its name.
  unfoldable pub after_stop : Status → Exec (Run W) (Option ApplyError)
  unfolding after_rename
  after_stop (err x) = pure (some (stop_failed x))
  after_stop (ok _) = do r ← call (host.docker.rename ctx p.id tmp); after_rename r

  unfoldable pub stop_if : Bool → Exec (Run W) Status
  stop_if true = call (host.docker.stop ctx p.id (stop_seconds host.whole_seconds p.settings))
  stop_if false = pure (ok tt)

  unfoldable pub stop_old : Exec (Run W) Status
  unfolding stop_if
  stop_old = stop_if p.running

  -- 1. Pull before the running container is touched.
  unfoldable pub after_pull : Status → Exec (Run W) (Option ApplyError)
  unfolding stop_old after_stop
  after_pull (err x) = pure (some (pull_failed x))
  after_pull (ok _) = do r ← stop_old; after_stop r

  -- `none` is nil.
  unfoldable pub apply : Exec (Run W) (Option ApplyError)
  unfolding pull after_pull
  apply = do r ← pull host pull_context p.image; after_pull r
