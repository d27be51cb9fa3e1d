-- ===== src/Engine/Apply/Restore.antt =====
-- What a rollback restores, and the ways in which an update can end.
pub mod Create
pub mod Steps
pub mod Bystander
use pullpilot.Prelude.{
  ℕ, ◌≡◌, refl, sym, ap, ◌∙◌, ◌≢◌, ◌⊎◌, inl, inr, Bool, true, false, Option, none, some, List, [],
  ◌∷◌, ◌++◌, arith, All, length, length-append, Bool-cases, Option-cases,
}
use mathlib.Core.List.{append_assoc, append-nil}
use pullpilot.Prelude.Exec.{Result, ok, err, Result-cases}
use pullpilot.Std.Str.{Str, is_empty}
use pullpilot.Std.Dict.{Dict}
use pullpilot.Labels.{Settings}
use pullpilot.State.{State, tmp_path, save, mark_applied, mark_bad}
use pullpilot.Engine.Host.{
  CallError, Context, Endpoint, Host, Engine, GateError, ApplyError, Notice, Note, pull_failed,
  stop_failed, rename_failed, create_failed, attach_failed, start_failed, gate_failed,
  action_needed, rolled_back, Run,
}
use pullpilot.Engine.Plan.{Plan}
use pullpilot.Engine.Network.{build_networking}
use pullpilot.Engine.Gate.{health_gate, interrupted}
use pullpilot.Engine.Gate.Laws.{health_gate-P}
use pullpilot.Engine.Daemon.{IsDaemon, IsHex, is_hex}
use pullpilot.Engine.Apply.{
  Status, old_suffix, tmp_name, op_context, new_config, registry_auth, pull, pull_context, discard,
  after_rename_back, rollback, give_up, remove_old_image, finish, blacklist, after_gate,
  after_start, go_live, attach, after_attach, after_create, after_rename, stop_old, stop_seconds,
  after_stop, after_pull, apply,
}

All-append_right : (xs ys : Str) → IsHex (xs ++ ys) → IsHex ys
All-append_right [] ys h = h
All-append_right (x ∷ xs) ys h = All-append_right xs ys h.1

-- The temporary name is no id, and not the name itself.
tmp_name-not_hex : (n : Str) → IsHex (tmp_name n) → ⊥
tmp_name-not_hex n h = cc ((All-append_right n old_suffix h).0)

tmp_name-ne : (n : Str) → n ≢ tmp_name n
tmp_name-ne n e = omega (arith, ap length e, length-append n old_suffix)

module _ {W : Type 0} {host : Host W} {name : W → Str → Option Str} (d : IsDaemon host name) where
  no_id : (w : W) (n : Str) → name w (tmp_name n) ≡ none
  no_id w n = elim (Option-cases (name w (tmp_name n))) [
    | inl e ↦ e
    | inr (m, e) ↦ absurd (tmp_name-not_hex n (d.hex w (tmp_name n) e))
  ]

  id-ne-tmp : (w : W) (id n m : Str) → name w id ≡ some m → id ≢ tmp_name n
  id-ne-tmp w id n m h e = tmp_name-not_hex n (rw e at (d.hex w id h))

  pub name-save : (s : State) (w : W) (j : Str) → name (save host.disk s w).1 j ≡ name w j
  unfolding save
  name-save s w j = elim (Option-cases (host.disk.encode s.content)) [
    | inl no_text ↦ rw (no_text, save)
    | inr (c, encoded) ↦
        let tmp = tmp_path s.path in
        let r = host.disk.write tmp c w in
        elim (Bool-cases r.0) [
          | inl e ↦ rw (encoded, e, save) (d.name-move tmp s.path r.1 j ∙ d.name-write tmp c w j)
          | inr e ↦ rw (encoded, e, save) (d.name-write tmp c w j)
        ]
  ]

  name-mark_bad :
      (digest : Str) (s : State) (w : W) (j : Str)
      → name (mark_bad host.disk digest s w).1 j ≡ name w j
  unfolding mark_bad
  name-mark_bad digest s w j = name-save (mark_bad host.disk digest s w).0 w j

  name-mark_applied :
      (key digest : Str) (s : State) (w : W) (j : Str)
      → name (mark_applied host.disk key digest s w).1 j ≡ name w j
  unfolding mark_applied
  name-mark_applied key digest s w j = name-save (mark_applied host.disk key digest s w).0 w j

  name-health_gate :
      (ctx : Context) (id : Str) (set : Settings) (w : W) (j : Str)
      → name (health_gate host ctx id set w).1 j ≡ name w j
  name-health_gate ctx id set w j =
      health_gate-P host (λ v. name v j ≡ name w j) (λ c i v h. d.name-inspect c i v j ∙ h)
        (λ v h. d.name-now v j ∙ h) (λ c t k v h. d.name-wait_tick c t k v j ∙ h) ctx id set w refl

module _ {W : Type 0} (host : Host W) (name : W → Str → Option Str) (refused : CallError → Bool)
    (p : Plan) where
  -- What became of the container `p.id` and of its name, from the notices before the update and
  -- what the update returned.
  pub data Outcome (notes : List Notice) (out : Option ApplyError × Run W) : Type 0 where
    -- It failed at the rename that sets the old container aside, by an error that is no refusal.
    unclear :
        (y : CallError) → refused y ≡ false → out.0 ≡ some (rename_failed y) → Outcome notes out
    -- It succeeded, and another container bears the name.
    replaced :
        (id : Str)
        → out.0 ≡ none
        → id ≢ p.id
        → name out.1.world id ≡ some p.name
        → Outcome notes out
    -- It failed, and the old container bears its name.
    restored :
        (x : ApplyError) → out.0 ≡ some x → name out.1.world p.id ≡ some p.name → Outcome notes out
    -- It failed, and the first notice of the update says that the container has to be recovered.
    reported :
        (x : ApplyError) (y : CallError) (more : List Notice)
        → out.0 ≡ some x
        → out.1.notes ≡ notes ++ action_needed p.name y ∷ more
        → Outcome notes out

module _ {W : Type 0} (host : Host W) (name : W → Str → Option Str) (p : Plan) where
  -- The old container waits under its temporary name.
  abbrev Aside : W → Type 0
  Aside w = name w p.id ≡ some (tmp_name p.name)

  -- The replacement is there as well.
  abbrev Live : Str → W → Type 0
  Live id w = (p.id ≢ id) × Aside w × (name w id ≡ some p.name)

  abbrev IsPlaced : Option Str → W → Type 0
  IsPlaced none w = Aside w
  IsPlaced (some id) w = Live id w

module _ {W : Type 0} {host : Host W} {name : W → Str → Option Str} (d : IsDaemon host name)
    (p : Plan) where
  -- The replacement's removal leaves the old container.
  discard-Aside :
      (c : Context) (new_id : Option Str) (r : Run W)
      → IsPlaced host name p new_id r.world
      → Aside host name p (discard host c new_id r).1.world
  unfolding discard
  discard-Aside c none r h = h
  discard-Aside c (some id) r (ne, aside, live) =
      let w = (host.docker.stop c id none r.world).1 in
      let other : tmp_name p.name ≢ id = λ e. id-ne-tmp d r.world id p.name p.name live (sym e) in
      elim (Bool-cases (is_empty id)) [
        | inl nothing ↦ rw (nothing, discard) aside
        | inr something ↦
            rw (something, discard)
              (d.remove_keeps c id false w p.id (tmp_name p.name)
                (d.stop_keeps c id none r.world p.id (tmp_name p.name) aside ne other) ne other)
      ]

  discard_notes :
      (c : Context) (new_id : Option Str) (r : Run W) → (discard host c new_id r).1.notes ≡ r.notes
  unfolding discard
  discard_notes c none r = refl
  discard_notes c (some id) r = elim (Bool-cases (is_empty id)) [
    | inl nothing ↦ rw (nothing, discard)
    | inr something ↦ rw (something, discard)
  ]

  -- Either the name is back, or the notice is the one that was added.
  abbrev Back : List Notice → Run W → Type 0
  Back notes r =
      (name r.world p.id ≡ some p.name)
      ⊎ ((y : CallError) × (r.notes ≡ notes ++ action_needed p.name y ∷ []))

  after_rename_back-Back :
      (c : Context) (r r₁ : Run W) (x : Status)
      → r₁.notes ≡ r.notes
      → (x ≡ ok tt → name r₁.world p.id ≡ some p.name)
      → Back r.notes (after_rename_back host c p x r₁).1
  unfolding after_rename_back
  after_rename_back-Back c r r₁ (err y) same h =
      inr (y, ap (λ l. l ++ action_needed p.name y ∷ []) same)
  after_rename_back-Back c r r₁ (ok u) same h = elim (Bool-cases p.running) [
    | inl e ↦ inl (rw (e, after_rename_back) (d.name-start c p.id r₁.world p.id ∙ h refl))
    | inr e ↦ inl (rw (e, after_rename_back) (h refl))
  ]

  pub rollback-Back :
      (c : Context) (new_id : Option Str) (r : Run W)
      → IsPlaced host name p new_id r.world
      → Back r.notes (rollback host c p (tmp_name p.name) new_id r).1
  unfolding rollback
  rollback-Back c new_id r h =
      let r₁ = (discard host c new_id r).1 in
      let x = host.docker.rename c (tmp_name p.name) p.name r₁.world in
      after_rename_back-Back c r (record r₁ { world = x.1 }) x.0 (discard_notes c new_id r)
        (λ e.
          d.rename_by_name c (tmp_name p.name) p.name p.id r₁.world (discard-Aside c new_id r h)
            (no_id d r₁.world p.name) e)
