-- ===== src/Engine/Cycle/Rejected.antt =====
-- A rejected digest over a cycle (Run of internal/engine/engine.go).
use pullpilot.Prelude.{
  ◌≡◌, ◌≢◌, refl, sym, ap, subst, ◌∙◌, Bool, true, false, some, List, [], ◌∷◌, ◌&&◌, All,
  Bool-cases, inl, inr,
}
use pullpilot.Prelude.Exec.{Result, ok, err}
use pullpilot.Std.Str.{Str, str_eq}
use pullpilot.Std.Dict.{lookup}
use pullpilot.State.{State, is_bad}
use pullpilot.Engine.Host.{CallError, Host, Engine, available, soaking, Run}
use pullpilot.Engine.View
use pullpilot.Engine.View.{Action, up_to_date, skip, monitor, update}
use pullpilot.Engine.Plan.{Plan, build_plan}
use pullpilot.Engine.Plan.Keeps.{Kept}
use pullpilot.Engine.Apply.{apply}
use pullpilot.Engine.Apply.Outcome.{succeeds, is_bad-apply, last_applied-apply}
use pullpilot.Engine.Cycle.Effects.{LooksKeep, build_plan-Untouched}
use pullpilot.Engine.Cycle.{
  Counts, no_counts, act, run_plans, run_planned, reconcile_orphans, real_run, dry_run, run_if, run,
}
use pullpilot.Engine.Plan.Spared.{Spares-other, is_bad-Kept, build_plan-Kept, build_plan-Spares}
use pullpilot.Engine.Cycle.Books.{announce-Kept, after_apply-st, reconcile_orphans-st}

-- The digest stays rejected, and no container newly has it as its last applied digest.
pub record Refused (digest : Str) (s s' : State) : Type 0 where
  pub still_bad : is_bad digest s ≡ true → is_bad digest s' ≡ true
  pub not_applied :
      (key : Str)
      → lookup key s'.content.last_applied ≡ some digest
      → lookup key s.content.last_applied ≡ some digest

module _ (digest : Str) where
  idle : (s : State) → Refused digest s s
  idle s = record { still_bad = λ h. h; not_applied = λ key k. k }

  onward : {s t u : State} → Refused digest s t → Refused digest t u → Refused digest s u
  onward a b = record {
    still_bad = λ h. b.still_bad (a.still_bad h);
    not_applied = λ key k. a.not_applied key (b.not_applied key k);
  }

Kept-Refused : {s s' : State} (digest : Str) → Kept s s' → Refused digest s s'
Kept-Refused digest k = record {
  still_bad = λ h. is_bad-Kept digest k ∙ h;
  not_applied = λ key q. ap (lookup key) (sym k.same_applied) ∙ q;
}

always_keep : {W : Type 0} (host : Host W) → LooksKeep host (λ w. Unit {0})
always_keep host = record {
  list-P = λ f w h. h;
  inspect-P = λ c id w h. h;
  repo_digests-P = λ i w h. h;
  head-P = λ u b w h. h;
  token-P = λ a s c b w h. h;
  now-P = λ w h. h;
}

module _ {W : Type 0} (host : Host W) (e : Engine) where
  apply-Refused :
      (digest : Str) (p : Plan) (r : Run W)
      → p.available ≢ digest
      → Refused digest r.st (apply host e p r).1.st
  apply-Refused digest p r other =
      let x = (apply host e p r).0 in
      record {
        still_bad = λ h. rw (is_bad-apply host e p digest r, h);
        not_applied = λ key k. elim (Bool-cases (succeeds x && str_eq p.name key)) [
          | inl now ↦ elim (other (cc (rw (last_applied-apply host e p key r, now) at k))) [ ]
          | inr not_now ↦ cc (rw (last_applied-apply host e p key r, not_now) at k)
        ];
      }

  act-Refused :
      (digest : Str) (p : Plan) (a : Action) (n : Counts) (r : Run W)
      → (a ≡ update → p.available ≢ digest)
      → Refused digest r.st (act host e p a n r).1.st
  unfolding act
  act-Refused digest p update n r other =
      let x = apply host e p r in
      subst (Refused digest r.st) (sym (after_apply-st host e p n x.0 x.1))
        (apply-Refused digest p r (other refl))
  act-Refused digest p View.soaking n r other =
      Kept-Refused digest (announce-Kept host e p (soaking p.name p.available p.soak_left) r)
  act-Refused digest p monitor n r other =
      Kept-Refused digest (announce-Kept host e p (available p.name p.available p.reason) r)
  act-Refused digest p up_to_date n r other = idle digest r.st
  act-Refused digest p skip n r other = idle digest r.st

  run_plans-Refused :
      (digest : Str) (ps : List Plan) (n : Counts) (r : Run W)
      → All (λ p. p.action ≡ update → p.available ≢ digest) ps
      → Refused digest r.st (run_plans host e ps n r).1.st
  unfolding run_plans
  run_plans-Refused digest [] n r h = idle digest r.st
  run_plans-Refused digest (p ∷ ps) n r (h, hs) =
      let x = act host e p p.action n r in
      onward digest (act-Refused digest p p.action n r h) (run_plans-Refused digest ps x.0 x.1 hs)

  -- After the plan is there, with the state before it as the reference.
  run_planned-Refused :
      (digest : Str) (x : Result CallError (List Plan)) (r : Run W)
      → ((ps : List Plan) → x ≡ ok ps → All (λ p. p.action ≡ update → p.available ≢ digest) ps)
      → Refused digest r.st (run_planned host e x r).1.st
  unfolding run_planned
  run_planned-Refused digest (err y) r h = idle digest r.st
  run_planned-Refused digest (ok ps) r h = run_plans-Refused digest ps no_counts r (h ps refl)

  real_run-Refused :
      (digest : Str) (r : Run W)
      → is_bad digest r.st ≡ true
      → Refused digest r.st (real_run host e r).1.st
  unfolding real_run
  real_run-Refused digest r h =
      let r₁ = (reconcile_orphans host r).1 in
      let x = build_plan host e true r₁ in
      let h₁ : is_bad digest r₁.st ≡ true = rw (reconcile_orphans-st host e r) h in
      subst (λ s. Refused digest s (run_planned host e x.0 x.1).1.st)
        (reconcile_orphans-st host e r)
        (onward digest (Kept-Refused digest (build_plan-Kept host e r₁)) (
          run_planned-Refused digest x.0 x.1
            (λ ps q. Spares-other host e digest r₁.st ps h₁ (build_plan-Spares host e r₁ ps q))))

  run_if-Refused :
      (digest : Str) (dry : Bool) (r : Run W)
      → is_bad digest r.st ≡ true
      → Refused digest r.st (run_if host e dry r).1.st
  unfolding run_if dry_run
  run_if-Refused digest true r h =
      subst (Refused digest r.st) (sym (build_plan-Untouched (always_keep host) e r).same_books)
        (idle digest r.st)
  run_if-Refused digest false r h = real_run-Refused digest r h

  -- A digest that is rejected when a cycle begins is rejected when it ends; and a container of which
  -- it was not the last applied digest does not get it as its last applied digest.
  pub run-rejected :
      (digest key : Str) (r : Run W)
      → is_bad digest r.st ≡ true
      → lookup key r.st.content.last_applied ≢ some digest
      → (is_bad digest (run host e r).1.st ≡ true)
        × (lookup key (run host e r).1.st.content.last_applied ≢ some digest)
  unfolding run
  run-rejected digest key r bad other =
      let refused = run_if-Refused digest e.cfg.dry_run r bad in
      (refused.still_bad bad, λ q. other (refused.not_applied key q))
