-- ===== src/Engine/Cycle/Orphans.antt =====
-- What reconcileOrphans of internal/engine/engine.go touches.
use pullpilot.Prelude.{
  ◌≡◌, refl, sym, ap, ◌∙◌, ◌≢◌, Bool, false, Option, none, List, [], ◌∷◌, All, Bool-cases,
  Option-cases, inl, inr,
}
use pullpilot.Prelude.Exec.{Result, ok, err}
use pullpilot.Std.Str.{Str, one_of, cut_suffix}
use pullpilot.Std.Str.Laws.{str_eq-cases}
use pullpilot.Engine.Host.{CallError, Context, Summary, Host, Run}
use pullpilot.Engine.Scope.{cycle_context}
use pullpilot.Engine.Daemon.{IsHex}
use pullpilot.Engine.Apply.{Status, old_suffix}
use pullpilot.Engine.Cycle.{
  container_name, present_names, after_restore, reconcile_name, reconcile_names, reconcile_all,
  reconcile_listed, reconcile_orphans,
}

-- `view w id` is anything that can be seen of a container. Listed ids are hexadecimal; a call that
-- names one container by such an id changes nothing of another, and listing changes nothing.
pub record IsSeparate {W V : Type 0} (host : Host W) (view : W → Str → V) : Type 0 where
  pub view-list :
      (filter : Option Str) (w : W) (j : Str) → view (host.docker.list filter w).1 j ≡ view w j
  pub list-hex :
      (filter : Option Str) (w : W) (cs : List Summary)
      → (host.docker.list filter w).0 ≡ ok cs
      → All (λ c. IsHex c.id) cs
  pub view-remove :
      (c : Context) (id : Str) (v : Bool) (w : W) (j : Str)
      → IsHex id
      → j ≢ id
      → view (host.docker.remove c id v w).1 j ≡ view w j
  pub view-rename :
      (c : Context) (id n : Str) (w : W) (j : Str)
      → IsHex id
      → j ≢ id
      → view (host.docker.rename c id n w).1 j ≡ view w j
  pub view-start :
      (c : Context) (id : Str) (w : W) (j : Str)
      → IsHex id
      → j ≢ id
      → view (host.docker.start c id w).1 j ≡ view w j

-- No name of the container ends in _pp_old.
abbrev pub NoLeftover : List Str → Type 0
NoLeftover = All (λ raw. cut_suffix (container_name raw) old_suffix ≡ none)

-- In the list, the container `j` is no leftover.
abbrev pub IsLive : Str → List Summary → Type 0
IsLive j = All (λ c. c.id ≡ j → NoLeftover c.names)

module _ {W V : Type 0} {host : Host W} {view : W → Str → V} (s : IsSeparate host view)
    (j : Str) where
  after_restore-view :
      (id : Str) (x : Status) (r : Run W)
      → IsHex id
      → j ≢ id
      → view (after_restore host id x r).1.world j ≡ view r.world j
  unfolding after_restore
  after_restore-view id (err y) r hex ne = refl
  after_restore-view id (ok u) r hex ne = s.view-start cycle_context id r.world j hex ne

  -- A container with another id is not touched.
  reconcile_name-view :
      (present : List Str) (id raw : Str) (r : Run W)
      → IsHex id
      → j ≢ id
      → view (reconcile_name host present id raw r).1.world j ≡ view r.world j
  unfolding reconcile_name
  reconcile_name-view present id raw r hex ne =
      elim (Option-cases (cut_suffix (container_name raw) old_suffix)) [
        | inl live ↦ rw (live, reconcile_name)
        | inr (orig, left) ↦ elim (Bool-cases (one_of orig present)) [
          | inl there ↦
              rw (left, there, reconcile_name)
                (s.view-remove cycle_context id false r.world j hex ne)
          | inr gone ↦
              let x = host.docker.rename cycle_context id orig r.world in
              rw (left, gone, reconcile_name)
                (after_restore-view id x.0 (record r { world = x.1 }) hex ne
                  ∙ s.view-rename cycle_context id orig r.world j hex ne)
        ]
      ]

  reconcile_names-view :
      (present : List Str) (id : Str) (names : List Str) (r : Run W)
      → IsHex id
      → j ≢ id
      → view (reconcile_names host present id names r).1.world j ≡ view r.world j
  unfolding reconcile_names
  reconcile_names-view present id [] r hex ne = refl
  reconcile_names-view present id (raw ∷ names) r hex ne =
      reconcile_names-view present id names (reconcile_name host present id raw r).1 hex ne
      ∙ reconcile_name-view present id raw r hex ne

  -- A container without a leftover's name gets no call.
  reconcile_names_live :
      (present : List Str) (id : Str) (names : List Str) (r : Run W)
      → NoLeftover names
      → reconcile_names host present id names r ≡ (tt, r)
  unfolding reconcile_names reconcile_name
  reconcile_names_live present id [] r h = refl
  reconcile_names_live present id (raw ∷ names) r (h, hs) =
      rw (h, reconcile_name) (reconcile_names_live present id names r hs)

  reconcile_all-view :
      (present : List Str) (cs : List Summary) (r : Run W)
      → All (λ c. IsHex c.id) cs
      → IsLive j cs
      → view (reconcile_all host present cs r).1.world j ≡ view r.world j
  unfolding reconcile_all
  reconcile_all-view present [] r x h = refl
  reconcile_all-view present (c ∷ cs) r (x, xs) (h, hs) =
      let r' = (reconcile_names host present c.id c.names r).1 in
      reconcile_all-view present cs r' xs hs ∙ elim (str_eq-cases c.id j) [
        | inl (e, same) ↦
            ap (λ (y : Unit {0} × Run W). view y.1.world j)
              (reconcile_names_live present c.id c.names r (h same))
        | inr (e, other) ↦ reconcile_names-view present c.id c.names r x (λ q. other (sym q))
      ]

  reconcile_listed-view :
      (x : Result CallError (List Summary)) (r : Run W)
      → ((cs : List Summary) → x ≡ ok cs → All (λ c. IsHex c.id) cs)
      → ((cs : List Summary) → x ≡ ok cs → IsLive j cs)
      → view (reconcile_listed host x r).1.world j ≡ view r.world j
  unfolding reconcile_listed
  reconcile_listed-view (err y) r x h = refl
  reconcile_listed-view (ok cs) r x h =
      reconcile_all-view (present_names cs) cs r (x cs refl) (h cs refl)

  -- Healing interrupted updates changes nothing of a container none of whose names ends in _pp_old.
  pub reconcile_orphans-view :
      (r : Run W)
      → ((cs : List Summary) → (host.docker.list none r.world).0 ≡ ok cs → IsLive j cs)
      → view (reconcile_orphans host r).1.world j ≡ view r.world j
  unfolding reconcile_orphans
  reconcile_orphans-view r h =
      let x = host.docker.list none r.world in
      reconcile_listed-view x.0 (record r { world = x.1 }) (s.list-hex none r.world) h
      ∙ s.view-list none r.world j
