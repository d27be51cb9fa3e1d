-- ===== src/Engine/Plan.antt =====
-- evaluate, matchRepoDigest and buildPlan of internal/engine/engine.go.
pub mod Verdicts
pub mod Keeps
pub mod Preview
pub mod Spared
pub mod Sort
use Prim.Native.Nat.{min}
use pullpilot.Prelude.{
  ℕ, ◌-◌, ◌==◌, Bool, true, false, not, ◌&&◌, Option, none, some, List, [], ◌∷◌, leb, length,
  if◌then◌else◌,
}
use pullpilot.Prelude.Int.{ℤ, pos, negsuc, sub_ℕ, ltb_ℤ, ◌-ℤ◌}
use pullpilot.Prelude.Exec.{Result, ok, err, Exec, pure, ◌>>=◌}
use pullpilot.Std.Str.{Str, bytes, str_eq, is_empty, cut}
use pullpilot.Std.Num.{max_int64, wrap64}
use pullpilot.State.{Time, seen_at, peek_seen, is_bad}
use pullpilot.Labels.{Settings}
use pullpilot.Registry.{Named, Ref, RegistryError, parse_ref, pinned, remote_digest}
use pullpilot.Engine.Host.{CallError, Inspect, Host, Engine, Run, call, book}
use pullpilot.Engine.View.{Action, up_to_date, skip, monitor, soaking, update}
use pullpilot.Engine.Network.{str_le}
use pullpilot.Engine.Scope.{Target, discover}

-- type plan
pub record Plan : Type 0 where
  pub id : Str
  pub name : Str
  pub image : Str
  pub current : Str
  pub available : Str
  pub action : Action
  pub reason : Str
  pub soak_left : ℤ
  pub inspect : Inspect
  pub settings : Settings
  pub running : Bool

-- A plan for a target: the two digests, the action and the reason.
unfoldable pub plan_of : Target → Str → Str → Action → Str → Plan
plan_of t current available action reason = record {
  id = t.id;
  name = t.name;
  image = t.image;
  current = current;
  available = available;
  action = action;
  reason = reason;
  soak_left = pos 0;
  inspect = t.inspect;
  settings = t.set;
  running = t.running;
}

module _ (parse_named : Str → Option Named) where
  -- The digest of a RepoDigests entry, if its repository is the wanted one.
  unfoldable pub digest_for : Ref → Str → Option Str
  digest_for want rd = elim (cut rd b'@') [
    | none ↦ none
    | some (name, dg) ↦ elim (parse_ref parse_named name) [
      | none ↦ none
      | some got ↦
          if str_eq got.repository want.repository && str_eq got.registry want.registry
          then some dg
          else none
    ]
  ]

  unfoldable pub first_digest : Ref → List Str → Option Str
  unfolding digest_for
  first_digest want [] = none
  first_digest want (rd ∷ rds) =
      let rest = first_digest want rds in
      elim (digest_for want rd) [ none ↦ rest | some dg ↦ some dg ]

  -- The fallback: the digest of the sole entry.
  unfoldable pub sole_digest : List Str → Str
  sole_digest (rd ∷ []) = elim (cut rd b'@') [ none ↦ [] | some (name, dg) ↦ dg ]
  sole_digest _ = []

  unfoldable pub match_repo_digest : Str → List Str → Str
  unfolding first_digest sole_digest
  match_repo_digest image rds = elim (parse_ref parse_named image) [
    | none ↦ sole_digest rds
    | some want ↦ elim (first_digest want rds) [ none ↦ sole_digest rds | some dg ↦ dg ]
  ]

-- time.Since: the difference, kept in the range of int64.
unfoldable pub since : Time → Time → ℤ
since now first =
    if leb first now
    then pos (min (now - first) max_int64)
    else negsuc (min (first - now - 1) max_int64)

-- The soak window of a container: its label, or else the global setting.
unfoldable pub soak_window : ℤ → Settings → ℤ
soak_window global set = elim set.soak [ none ↦ global | some d ↦ d ]

-- The end of evaluate, from the first-seen time and the time now.
unfoldable pub soak_verdict : ℤ → Target → Str → Str → Time → Time → Plan
unfolding since soak_window plan_of ◌-ℤ◌ wrap64
soak_verdict global t current remote first now =
    let soak = soak_window global t.set in
    let elapsed = since now first in
    if ltb_ℤ elapsed soak
    then record (plan_of t current remote soaking (bytes "within soak window")) {
      soak_left = wrap64 (soak -ℤ elapsed);
    }
    else plan_of t current remote update (bytes "newer image, soak elapsed")

module _ {W : Type 0} (host : Host W) (e : Engine) where
  -- The first-seen time: recorded in a real cycle, only read in a view.
  unfoldable pub first_seen : Target → Str → Bool → Exec (Run W) Time
  unfolding peek_seen
  first_seen t remote true r =
      let (now, r') = call host.now r in book (seen_at host.disk t.name remote now) r'
  first_seen t remote false r = elim (peek_seen t.name remote r.st) [
    | some t₀ ↦ (t₀, r)
    | none ↦ call host.now r
  ]

  unfoldable pub soak_gate : Target → Bool → Str → Str → Exec (Run W) Plan
  unfolding first_seen
  soak_gate t rec current remote = do
    first ← first_seen t remote rec
    now ← call host.now
    pure (soak_verdict e.cfg.soak t current remote first now)

  -- The checks on a newer digest, in order: PullPilot's own container, a bad digest, monitor-only.
  unfoldable pub newer_checked : Bool → Bool → Bool → Target → Bool → Str → Str → Exec (Run W) Plan
  unfolding soak_gate
  newer_checked true bad held t rec current remote =
      pure (plan_of t current remote monitor (bytes "self-update available (notify only)"))
  newer_checked false true held t rec current remote =
      pure (plan_of t current remote skip (bytes "digest previously failed health check"))
  newer_checked false false true t rec current remote =
      pure (plan_of t current remote monitor (bytes "monitor-only"))
  newer_checked false false false t rec current remote = soak_gate t rec current remote

  unfoldable pub newer : Target → Bool → Str → Str → Exec (Run W) Plan
  unfolding newer_checked
  newer t rec current remote r =
      newer_checked (str_eq t.id e.self_id) (is_bad remote r.st) t.set.monitor_only t rec current
        remote r

  unfoldable pub compare_remote : Target → Bool → Str → Result RegistryError Str → Exec (Run W) Plan
  unfolding newer
  compare_remote t rec current (err x) =
      pure (plan_of t current [] skip (bytes "registry unreachable"))
  compare_remote t rec current (ok remote) = elim (str_eq remote current) [
    | true ↦ pure (plan_of t current remote up_to_date (bytes "current"))
    | false ↦ newer t rec current remote
  ]

  unfoldable pub no_digest : Target → Plan
  no_digest t = plan_of t [] [] skip (bytes "no local repo digest (locally-built image?)")

  unfoldable pub compare_local : Target → Bool → Result CallError (List Str) → Exec (Run W) Plan
  unfolding compare_remote no_digest
  compare_local t rec (err x) = pure (no_digest t)
  compare_local t rec (ok rds) =
      let current = match_repo_digest host.parse_named t.image rds in
      elim (is_empty current) [
        | true ↦ pure (no_digest t)
        | false ↦ do
          remote ← call (remote_digest host.http host.parse_named host.basic t.image)
          compare_remote t rec current remote
      ]

  unfoldable pub evaluate : Target → Bool → Exec (Run W) Plan
  unfolding compare_local
  evaluate t rec = elim (parse_ref host.parse_named t.image) [
    | none ↦ pure (plan_of t [] [] skip (bytes "unparseable image ref"))
    | some ref ↦ elim (pinned ref) [
      | true ↦ pure (plan_of t [] [] skip (bytes "pinned by digest"))
      | false ↦ do rds ← call (host.docker.repo_digests t.inspect.image_id); compare_local t rec rds
    ]
  ]

  unfoldable pub evaluate_all : List Target → Bool → Exec (Run W) (List Plan)
  evaluate_all [] rec = pure []
  evaluate_all (t ∷ ts) rec = do p ← evaluate t rec; ps ← evaluate_all ts rec; pure (p ∷ ps)

-- The comparison of buildPlan: io.pullpilot.order, then the name.
unfoldable pub plan_lt : Plan → Plan → Bool
plan_lt p q =
    if ltb_ℤ p.settings.order q.settings.order
    then true
    else if ltb_ℤ q.settings.order p.settings.order
    then false
    else not (str_le q.name p.name)

-- sort.SliceStable by that comparison: equal plans keep their order.
unfoldable pub insert_plan : Plan → List Plan → List Plan
insert_plan p [] = p ∷ []
insert_plan p (q ∷ qs) = let rest = insert_plan p qs in if plan_lt q p then q ∷ rest else p ∷ q ∷ qs

unfoldable pub sort_plans : List Plan → List Plan
unfolding insert_plan plan_lt
sort_plans [] = []
sort_plans (p ∷ ps) = insert_plan p (sort_plans ps)

module _ {W : Type 0} (host : Host W) (e : Engine) where
  unfoldable pub plan_targets :
      Bool → Result CallError (List Target) → Exec (Run W) (Result CallError (List Plan))
  plan_targets rec (err x) = pure (err x)
  plan_targets rec (ok ts) = do ps ← evaluate_all host e ts rec; pure (ok (sort_plans ps))

  unfoldable pub build_plan : Bool → Exec (Run W) (Result CallError (List Plan))
  unfolding plan_targets
  build_plan rec = do r ← discover host e; plan_targets rec r
