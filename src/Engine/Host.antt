-- ===== src/Engine/Host.antt =====
-- What the update cycle asks of the world, and the state that it carries. The Docker daemon, the
-- network, the clock, the file system and the parser of image references are not the program's:
-- they are the record `Host W` over the states `W` of the world.
use pullpilot.Prelude.{ℕ, Bool, Option, List, ◌∷◌, ◌++◌, []}
use pullpilot.Prelude.Int.{ℤ}
use pullpilot.Prelude.Exec.{Result, Exec}
use pullpilot.Std.Str.{Str}
use pullpilot.Std.Dict.{Dict}
use pullpilot.State.{State, Disk, Time}
use pullpilot.Registry.{Named, Http}
use pullpilot.Config.{Config}

-- A call's error: what errors.Is tells apart.
pub data CallError : Type 0 where
  canceled deadline_exceeded : CallError
  failed : Str → CallError

-- The settings that the code passes on without reading them.
abbrev pub Payload : Type 0
Payload = Str

-- A context: whether the caller's cancellation reaches it, and its timeout.
pub record Context : Type 0 where
  pub detached : Bool
  pub timeout : Option ℤ

-- An element of ContainerList's result.
pub record Summary : Type 0 where
  pub id : Str
  pub names : List Str
  pub labels : Dict Str

-- network.EndpointSettings; `assigned` is what the daemon filled in (address, gateway, id).
pub record Endpoint : Type 0 where
  pub aliases : Payload
  pub links : Payload
  pub ipam_config : Payload
  pub driver_opts : Payload
  pub assigned : Payload

abbrev pub Networks : Type 0
Networks = Dict (Option Endpoint)

pub record ContainerConfig : Type 0 where
  pub image : Str
  pub hostname : Str
  pub rest : Payload

pub record RunState : Type 0 where
  pub running : Bool
  pub health : Option Str
  pub exit_code : ℤ

pub record Inspect : Type 0 where
  pub name : Str
  pub image_id : Str
  pub config : ContainerConfig
  pub host_config : Payload
  pub run_state : Option RunState
  pub restart_count : ℕ
  pub networks : Option Networks

pub record Docker (W : Type 0) : Type 0 where
  -- the label filter, if there is one; stopped containers are listed too
  pub list : Option Str → Exec W (Result CallError (List Summary))
  pub inspect : Context → Str → Exec W (Result CallError Inspect)
  -- ImageInspectWithRaw: the image's RepoDigests
  pub repo_digests : Str → Exec W (Result CallError (List Str))
  -- ImagePull with its registry auth, the progress stream read to its end
  pub pull : Context → Str → Str → Exec W (Result CallError Unit)
  pub stop : Context → Str → Option ℤ → Exec W (Result CallError Unit)
  pub rename : Context → Str → Str → Exec W (Result CallError Unit)
  -- config, host config, endpoints and name; returns the new id
  pub create :
      Context → ContainerConfig → Payload → Dict Endpoint → Str → Exec W (Result CallError Str)
  pub connect : Context → Str → Str → Endpoint → Exec W (Result CallError Unit)
  pub start : Context → Str → Exec W (Result CallError Unit)
  -- whether its volumes go too
  pub remove : Context → Str → Bool → Exec W (Result CallError Unit)
  pub remove_image : Context → Str → Exec W (Result CallError Unit)

pub record Host (W : Type 0) : Type 1 where
  pub docker : Docker W
  pub http : Http W
  pub disk : Disk W
  -- time.Now
  pub now : Exec W Time
  -- The select of healthGate: waits for the k-th tick of a ticker that was made at or after the
  -- given time; `err` if the context ended first.
  pub wait_tick : Context → Time → ℕ → Exec W (Result CallError Unit)
  pub parse_named : Str → Option Named
  -- CredStore.Basic over the loaded store
  pub basic : Str → Option (Str × Str)
  -- encodeRegistryAuth; `none` where Marshal fails
  pub encode_auth : Str → Str → Str → Option Str
  -- int(d.Seconds()), by way of a float64
  pub whole_seconds : ℤ → ℤ
  -- the floating-point step of time.ParseDuration
  pub fraction : ℕ → ℕ → ℕ → ℕ

-- The fields of Engine that New sets and no cycle changes.
pub record Engine : Type 0 where
  pub cfg : Config
  pub self_id : Str
  pub project : Str
  pub self_identified : Bool

-- What a notification tells: the values that its title and body print.
pub data Note (E : Type 0) : Type 0 where
  -- container, new digest, error
  update_failed : Str → Str → E → Note E
  -- container, new digest, time left
  soaking : Str → Str → ℤ → Note E
  -- container, new digest, reason
  available : Str → Str → Str → Note E
  -- container, new digest, old digest
  rolled_back : Str → Str → Str → Note E
  -- container, error
  action_needed : Str → CallError → Note E
  -- container, old digest, new digest
  updated : Str → Str → Str → Note E

-- The verdicts of the health gate.
pub data GateError : Type 0 where
  call_failed : CallError → GateError
  no_state unhealthy exited restart_looping not_healthy_in_time : GateError
  -- not an error of the source: the fuel of the loop's model ran out (Engine/Gate/Fuel)
  still_waiting : GateError

-- The errors of apply, by the prefix that fmt.Errorf adds.
pub data ApplyError : Type 0 where
  pull_failed stop_failed rename_failed create_failed start_failed : CallError → ApplyError
  attach_failed : Str → CallError → ApplyError
  gate_failed : GateError → ApplyError

abbrev pub Notice : Type 0
Notice = Note ApplyError

-- What a cycle changes.
pub record Run (W : Type 0) : Type 0 where
  pub st : State
  pub world : W
  pub notes : List Notice

abbrev pub call : {W A : Type 0} → Exec W A → Exec (Run W) A
call m r = ((m r.world).0, record r { world = (m r.world).1 })

-- The notifier sends in the background; what counts here is what was handed to it.
abbrev pub notify : {W : Type 0} → Notice → Exec (Run W) (Unit {0})
notify n r = (tt, record r { notes = r.notes ++ n ∷ [] })

-- An operation of the bookkeeping that returns a value, and one that does not.
abbrev pub book : {W A : Type 0} → (State → W → A × State × W) → Exec (Run W) A
book f r = let (a, s, w) = f r.st r.world in (a, record r { st = s; world = w })

abbrev pub book_ : {W : Type 0} → (State → W → State × W) → Exec (Run W) (Unit {0})
book_ f r = let (s, w) = f r.st r.world in (tt, record r { st = s; world = w })
