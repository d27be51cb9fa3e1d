-- ===== src/Engine/Plan/Verdicts.antt =====
-- When evaluate decides for an update, and what it leaves alone.
use pullpilot.Prelude.{
  ◌≡◌, refl, ◌≢◌, Bool, true, false, some, List, [], Bool-cases, Option-cases, inl, inr,
}
use pullpilot.Prelude.Int.{ltb_ℤ}
use pullpilot.Prelude.Exec.{Result, ok, err}
use pullpilot.Std.Str.{Str, str_eq, is_empty}
use pullpilot.Std.Str.Laws.{str_eq_iff}
use pullpilot.State.{Time, State, seen_at, peek_seen, is_bad}
use pullpilot.State.Soak.{peek_seen-seen_at}
use pullpilot.Registry.{RegistryError, parse_ref, pinned, remote_digest}
use pullpilot.Engine.Host.{CallError, Host, Engine, Run}
use pullpilot.Engine.View.{update}
use pullpilot.Engine.Scope.{Target}
use pullpilot.Engine.Plan.{
  Plan, plan_of, match_repo_digest, since, soak_window, soak_verdict, first_seen, soak_gate,
  newer_checked, newer, compare_remote, compare_local, evaluate,
}

module _ {W : Type 0} (host : Host W) (e : Engine) (t : Target) where
  -- The conditions of a rollout, on the bookkeeping before and after the evaluation.
  pub record IsRollout (s : State) (out : Plan × Run W) : Type 0 where
    -- The digest that runs is known, and the registry has another.
    pub known : out.0.current ≢ []
    pub differs : out.0.available ≢ out.0.current
    -- It is not PullPilot's own container, not only monitored, and the digest is not rejected.
    pub not_own : t.id ≢ e.self_id
    pub not_held : t.set.monitor_only ≡ false
    pub not_bad : is_bad out.0.available s ≡ false
    -- The digest has a recorded first-seen time, and when the clock was read last, in the world that
    -- this reading left, the soak window had passed since.
    pub first : Time
    pub now : Time
    pub at : W
    pub read_clock : host.now at ≡ (now, out.1.world)
    pub recorded : peek_seen t.name out.0.available out.1.st ≡ some first
    pub soaked : ltb_ℤ (since now first) (soak_window e.cfg.soak t.set) ≡ false

  -- What the last step needs to know of the digests.
  abbrev Differs : Str → Str → Type 0
  Differs current remote = (current ≢ []) × (remote ≢ current)

  verdict_update :
      (current remote : Str) (f n : Time)
      → (soak_verdict e.cfg.soak t current remote f n).action ≡ update
      → (ltb_ℤ (since n f) (soak_window e.cfg.soak t.set) ≡ false)
        × ((soak_verdict e.cfg.soak t current remote f n).available ≡ remote)
        × ((soak_verdict e.cfg.soak t current remote f n).current ≡ current)
  unfolding soak_verdict
  verdict_update current remote f n h =
      elim (Bool-cases (ltb_ℤ (since n f) (soak_window e.cfg.soak t.set))) [
        | inl young ↦ cc (rw (young, soak_verdict) at h)
        | inr old ↦ (old, rw (old, soak_verdict), rw (old, soak_verdict))
      ]

  soak_gate-IsRollout :
      (current remote : Str) (r : Run W)
      → Differs current remote
      → t.id ≢ e.self_id
      → is_bad remote r.st ≡ false
      → t.set.monitor_only ≡ false
      → (soak_gate host e t true current remote r).0.action ≡ update
      → IsRollout r.st (soak_gate host e t true current remote r)
  unfolding soak_gate first_seen
  soak_gate-IsRollout current remote r (known, ne) own bad held h =
      let w = host.now r.world in
      let s = seen_at host.disk t.name remote w.0 r.st w.1 in
      let n = host.now s.2 in
      let (old, avail, cur) = verdict_update current remote s.0 n.0 h in
      record {
        known = rw cur known;
        differs = rw (avail, cur) ne;
        not_own = own;
        not_held = held;
        not_bad = rw avail bad;
        first = s.0;
        now = n.0;
        at = s.2;
        read_clock = refl;
        recorded = rw avail (peek_seen-seen_at host.disk t.name remote w.0 r.st w.1);
        soaked = old;
      }

  newer_checked-IsRollout :
      (own bad held : Bool) (current remote : Str) (r : Run W)
      → Differs current remote
      → (own ≡ false → t.id ≢ e.self_id)
      → (bad ≡ false → is_bad remote r.st ≡ false)
      → (held ≡ false → t.set.monitor_only ≡ false)
      → (newer_checked host e own bad held t true current remote r).0.action ≡ update
      → IsRollout r.st (newer_checked host e own bad held t true current remote r)
  unfolding newer_checked plan_of
  newer_checked-IsRollout true bad held current remote r d o b k h = cc
  newer_checked-IsRollout false true held current remote r d o b k h = cc
  newer_checked-IsRollout false false true current remote r d o b k h = cc
  newer_checked-IsRollout false false false current remote r d o b k h =
      soak_gate-IsRollout current remote r d (o refl) (b refl) (k refl) h

  newer-IsRollout :
      (current remote : Str) (r : Run W)
      → Differs current remote
      → (newer host e t true current remote r).0.action ≡ update
      → IsRollout r.st (newer host e t true current remote r)
  unfolding newer
  newer-IsRollout current remote r d h =
      newer_checked-IsRollout (str_eq t.id e.self_id) (is_bad remote r.st) t.set.monitor_only
        current remote r d (λ n q. cc (n, (str_eq_iff t.id e.self_id).1 q)) (λ b. b) (λ m. m) h

  compare_remote-IsRollout :
      (current : Str) (x : Result RegistryError Str) (r : Run W)
      → current ≢ []
      → (compare_remote host e t true current x r).0.action ≡ update
      → IsRollout r.st (compare_remote host e t true current x r)
  unfolding compare_remote plan_of
  compare_remote-IsRollout current (err x) r known h = cc
  compare_remote-IsRollout current (ok remote) r known h =
      elim (Bool-cases (str_eq remote current)) [
        | inl same ↦ cc (rw (same, compare_remote) at h)
        | inr other ↦
            rw (other, compare_remote)
              (newer-IsRollout current remote r
                (known, λ q. cc (other, (str_eq_iff remote current).1 q))
                (rw (other, compare_remote) at h))
      ]

  compare_local-IsRollout :
      (x : Result CallError (List Str)) (r : Run W)
      → (compare_local host e t true x r).0.action ≡ update
      → IsRollout r.st (compare_local host e t true x r)
  unfolding compare_local plan_of
  compare_local-IsRollout (err x) r h = cc
  compare_local-IsRollout (ok rds) r h =
      let current = match_repo_digest host.parse_named t.image rds in
      elim (Bool-cases (is_empty current)) [
        | inl nothing ↦ cc (rw (nothing, compare_local) at h)
        | inr something ↦
            let x = remote_digest host.http host.parse_named host.basic t.image r.world in
            rw (something, compare_local)
              (compare_remote-IsRollout current x.0 (record r { world = x.1 })
                (λ q. cc (something, q)) (rw (something, compare_local) at h))
      ]

  -- If a cycle decides to update a container, then its running digest is known and differs from the
  -- registry's; it is not PullPilot's own container nor monitor-only, and the digest is not rejected;
  -- and the digest's first-seen time is recorded, at least the soak window before the time that the
  -- clock showed when it was read last.
  pub evaluate-IsRollout :
      (r : Run W)
      → (evaluate host e t true r).0.action ≡ update
      → IsRollout r.st (evaluate host e t true r)
  unfolding evaluate plan_of
  evaluate-IsRollout r h = elim (Option-cases (parse_ref host.parse_named t.image)) [
    | inl bad ↦ cc (rw (bad, evaluate) at h)
    | inr (ref, good) ↦ elim (Bool-cases (pinned ref)) [
      | inl fixed ↦ cc (rw (good, fixed, evaluate) at h)
      | inr tagged ↦
          let x = host.docker.repo_digests t.inspect.image_id r.world in
          rw (good, tagged, evaluate)
            (compare_local-IsRollout x.0 (record r { world = x.1 })
              (rw (good, tagged, evaluate) at h))
    ]
  ]
