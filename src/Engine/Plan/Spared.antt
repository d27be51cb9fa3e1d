-- ===== src/Engine/Plan/Spared.antt =====
-- The plans of buildPlan (internal/engine/engine.go) and the rejected digests.
use pullpilot.Prelude.{
  ◌≡◌, ◌≢◌, sym, subst, ◌∙◌, true, false, List, [], ◌∷◌, All, Bool-cases, inl, inr,
}
use pullpilot.Prelude.Exec.{Result, ok, err}
use pullpilot.Std.Str.{Str}
use pullpilot.State.{State, is_bad}
use pullpilot.Engine.Host.{CallError, Host, Engine, Run}
use pullpilot.Engine.View.{update}
use pullpilot.Engine.Scope.{Target, discover_in, discover}
use pullpilot.Engine.Plan.{
  Plan, plan_lt, insert_plan, sort_plans, evaluate, evaluate_all, plan_targets, build_plan,
}
use pullpilot.Engine.Plan.Verdicts.{evaluate-IsRollout}
use pullpilot.Engine.Plan.Keeps.{Kept, same, next, evaluate-Kept, evaluate_all-Kept, discover_in-st}

-- The plan does not roll out a digest that the bookkeeping rejects.
abbrev pub Spares : State → Plan → Type 0
Spares s p = p.action ≡ update → is_bad p.available s ≡ false

pub is_bad-Kept : {s s' : State} (digest : Str) → Kept s s' → is_bad digest s' ≡ is_bad digest s
unfolding is_bad
is_bad-Kept digest k = rw (k.same_bad)

-- Sorting keeps what all plans have.
insert_plan-All :
    (P : Plan → Type 0) (p : Plan) (ps : List Plan) → P p → All P ps → All P (insert_plan p ps)
unfolding insert_plan
insert_plan-All P p [] h hs = (h, hs)
insert_plan-All P p (q ∷ qs) h (k, ks) = elim (Bool-cases (plan_lt q p)) [
  | inl lt ↦ rw (lt, insert_plan) (k, insert_plan-All P p qs h ks)
  | inr ge ↦ let same_list : All P (p ∷ q ∷ qs) = (h, (k, ks)) in rw (ge, insert_plan) same_list
]

sort_plans-All : (P : Plan → Type 0) (ps : List Plan) → All P ps → All P (sort_plans ps)
unfolding sort_plans
sort_plans-All P [] h = h
sort_plans-All P (p ∷ ps) (h, hs) = insert_plan-All P p (sort_plans ps) h (sort_plans-All P ps hs)

module _ {W : Type 0} (host : Host W) (e : Engine) where
  evaluate_all-Spares :
      (s : State) (ts : List Target) (r : Run W)
      → Kept s r.st
      → All (Spares s) (evaluate_all host e ts true r).0
  unfolding evaluate_all
  evaluate_all-Spares s [] r k = tt
  evaluate_all-Spares s (t ∷ ts) r k =
      let out = evaluate host e t true r in
      (
        λ h. sym (is_bad-Kept out.0.available k) ∙ (evaluate-IsRollout host e t r h).not_bad,
        evaluate_all-Spares s ts out.1 (next k (evaluate-Kept host e t r)),
      )

  plan_targets-Spares :
      (x : Result CallError (List Target)) (r : Run W) (ps : List Plan)
      → (plan_targets host e true x r).0 ≡ ok ps
      → All (Spares r.st) ps
  unfolding plan_targets
  plan_targets-Spares (err y) r ps h = cc h
  plan_targets-Spares (ok ts) r ps h =
      let qs = (evaluate_all host e ts true r).0 in
      let sorted : sort_plans qs ≡ ps = cc h in
      subst (All (Spares r.st)) sorted
        (sort_plans-All (Spares r.st) qs (evaluate_all-Spares r.st ts r (same r.st)))

  plan_targets-Kept :
      (x : Result CallError (List Target)) (r : Run W)
      → Kept r.st (plan_targets host e true x r).1.st
  unfolding plan_targets
  plan_targets-Kept (err y) r = same r.st
  plan_targets-Kept (ok ts) r = evaluate_all-Kept host e ts r

  -- The plans spare a digest that is rejected.
  pub Spares-other :
      (digest : Str) (s : State) (ps : List Plan)
      → is_bad digest s ≡ true
      → All (Spares s) ps
      → All (λ p. p.action ≡ update → p.available ≢ digest) ps
  Spares-other digest s [] h k = tt
  Spares-other digest s (p ∷ ps) h (k, ks) =
      (λ up same_digest. cc (h, k up, same_digest), Spares-other digest s ps h ks)

  pub build_plan-Kept : (r : Run W) → Kept r.st (build_plan host e true r).1.st
  unfolding build_plan discover
  build_plan-Kept r =
      let x = discover_in host e e.cfg.scope.mode r in
      subst (λ s. Kept s (plan_targets host e true x.0 x.1).1.st)
        (discover_in-st host e e.cfg.scope.mode r) (plan_targets-Kept x.0 x.1)

  pub build_plan-Spares :
      (r : Run W) (ps : List Plan) → (build_plan host e true r).0 ≡ ok ps → All (Spares r.st) ps
  unfolding build_plan discover
  build_plan-Spares r ps h =
      let x = discover_in host e e.cfg.scope.mode r in
      subst (λ s. All (Spares s) ps) (discover_in-st host e e.cfg.scope.mode r)
        (plan_targets-Spares x.0 x.1 ps h)
