-- ===== src/Engine/Plan/Sort.antt =====
-- buildPlan's order of the plans (internal/engine/engine.go).
use pullpilot.Prelude.{
  ◌≡◌, refl, ap, ◌∙◌, ◌&&◌, Bool, true, false, not, List, [], ◌∷◌, arith, Bool-cases, inl, inr, All,
  if◌then◌else◌, ◌⊎◌, sym,
}
use mathlib.Core.List.{Perm}
use mathlib.Core.List.Perm
use pullpilot.Prelude.Int.{ltb_ℤ, ℤ}
use pullpilot.Std.Str.{Str, str_eq}
use pullpilot.Std.Str.Laws.{str_eq_iff}
use pullpilot.Engine.Network.{str_le}
use pullpilot.Engine.Network.Laws.{str_le_total, str_le_trans}
use pullpilot.Engine.Plan.{Plan, plan_lt, insert_plan, sort_plans}

insert_plan-Perm : (p : Plan) (ps : List Plan) → Perm (insert_plan p ps) (p ∷ ps)
unfolding insert_plan
insert_plan-Perm p [] = Perm.refl (p ∷ [])
insert_plan-Perm p (q ∷ qs) = elim (Bool-cases (plan_lt q p)) [
  | inl lt ↦
      rw (lt, insert_plan) (Perm.trans (Perm.cons q (insert_plan-Perm p qs)) (Perm.swap p q qs))
  | inr ge ↦ rw (ge, insert_plan) (Perm.refl (p ∷ q ∷ qs))
]

-- Sorting neither loses nor invents a plan.
sort_plans-Perm : (ps : List Plan) → Perm (sort_plans ps) ps
unfolding sort_plans
sort_plans-Perm [] = Perm.refl []
sort_plans-Perm (p ∷ ps) =
    Perm.trans (insert_plan-Perm p (sort_plans ps)) (Perm.cons p (sort_plans-Perm ps))

-- The comparison of two orders and names, apart from the plans.
before : ℤ → Str → ℤ → Str → Bool
before a s b t = if ltb_ℤ a b then true else if ltb_ℤ b a then false else not (str_le t s)

before_trans :
    (a b c : ℤ) (s t u : Str)
    → before a s b t ≡ false
    → before b t c u ≡ false
    → before a s c u ≡ false
unfolding before
before_trans a b c s t u h k = ground (arith, str_le_trans u t s)

before_asym : (a b : ℤ) (s t : Str) → before a s b t ≡ true → before b t a s ≡ false
unfolding before
before_asym a b s t h = ground (arith, str_le_total s t)

plan_lt_trans : (p q r : Plan) → plan_lt p q ≡ false → plan_lt q r ≡ false → plan_lt p r ≡ false
unfolding plan_lt before
plan_lt_trans p q r =
    before_trans p.settings.order q.settings.order r.settings.order p.name q.name r.name

plan_lt_asym : (p q : Plan) → plan_lt p q ≡ true → plan_lt q p ≡ false
unfolding plan_lt before
plan_lt_asym p q = before_asym p.settings.order q.settings.order p.name q.name

-- No plan stands behind one that it is less than.
abbrev IsSorted : List Plan → Type 0
IsSorted [] = Unit
IsSorted (p ∷ ps) = All (λ q. plan_lt q p ≡ false) ps × IsSorted ps

abbrev NotLess : Plan → List Plan → Type 0
NotLess p = All (λ q. plan_lt q p ≡ false)

NotLess-trans : (p q : Plan) (ps : List Plan) → plan_lt q p ≡ false → NotLess q ps → NotLess p ps
NotLess-trans p q [] h k = tt
NotLess-trans p q (r ∷ ps) h (kr, k) = (plan_lt_trans r q p kr h, NotLess-trans p q ps h k)

NotLess-insert_plan :
    (p x : Plan) (ps : List Plan)
    → plan_lt x p ≡ false
    → NotLess p ps
    → NotLess p (insert_plan x ps)
unfolding insert_plan
NotLess-insert_plan p x [] h k = (h, tt)
NotLess-insert_plan p x (q ∷ qs) h (kq, k) = elim (Bool-cases (plan_lt q x)) [
  | inl lt ↦ rw (lt, insert_plan) (kq, NotLess-insert_plan p x qs h k)
  | inr ge ↦ rw (ge, insert_plan) (h, (kq, k))
]

insert_plan-IsSorted : (p : Plan) (ps : List Plan) → IsSorted ps → IsSorted (insert_plan p ps)
unfolding insert_plan
insert_plan-IsSorted p [] h = (tt, tt)
insert_plan-IsSorted p (q ∷ qs) (hq, h) = elim (Bool-cases (plan_lt q p)) [
  | inl lt ↦
      rw (lt, insert_plan)
        (NotLess-insert_plan q p qs (plan_lt_asym q p lt) hq, insert_plan-IsSorted p qs h)
  | inr ge ↦ rw (ge, insert_plan) ((ge, NotLess-trans p q qs ge hq), (hq, h))
]

sort_plans-IsSorted : (ps : List Plan) → IsSorted (sort_plans ps)
unfolding sort_plans
sort_plans-IsSorted [] = tt
sort_plans-IsSorted (p ∷ ps) = insert_plan-IsSorted p (sort_plans ps) (sort_plans-IsSorted ps)

ltb_ℤ_antisym : (a b : ℤ) → ltb_ℤ a b ≡ false → ltb_ℤ b a ≡ false → a ≡ b
ltb_ℤ_antisym a b h k = ground arith

-- One plan may stand before another: its order is smaller, or the orders are equal and its name is
-- not behind the other's, byte by byte.
abbrev pub InOrder : Plan → Plan → Type 0
InOrder p q =
    (ltb_ℤ p.settings.order q.settings.order ≡ true)
    ⊎ ((p.settings.order ≡ q.settings.order) × (str_le p.name q.name ≡ true))

plan_lt-InOrder : (p q : Plan) → plan_lt q p ≡ false → InOrder p q
unfolding plan_lt
plan_lt-InOrder p q h =
    let a = p.settings.order in
    let b = q.settings.order in
    elim (Bool-cases (ltb_ℤ a b)) [
      | inl less ↦ inl less
      | inr ge ↦ elim (Bool-cases (ltb_ℤ b a)) [
        | inl more ↦ cc (rw (more, plan_lt) at h)
        | inr le ↦ inr (ltb_ℤ_antisym a b ge le, ground arith)
      ]
    ]

-- Each plan may stand before all that stand behind it.
abbrev pub IsOrdered : List Plan → Type 0
IsOrdered [] = Unit
IsOrdered (p ∷ ps) = All (InOrder p) ps × IsOrdered ps

NotLess-InOrder : (p : Plan) (ps : List Plan) → NotLess p ps → All (InOrder p) ps
NotLess-InOrder p [] h = tt
NotLess-InOrder p (q ∷ qs) (hq, h) = (plan_lt-InOrder p q hq, NotLess-InOrder p qs h)

IsSorted-IsOrdered : (ps : List Plan) → IsSorted ps → IsOrdered ps
IsSorted-IsOrdered [] h = tt
IsSorted-IsOrdered (p ∷ ps) (hp, h) = (NotLess-InOrder p ps hp, IsSorted-IsOrdered ps h)

-- The plans that have the order and the name of `p`, as they stand in a list.
abbrev ties : Plan → Plan → Bool
ties p q =
    str_eq p.name q.name
    && not (ltb_ℤ p.settings.order q.settings.order)
    && not (ltb_ℤ q.settings.order p.settings.order)

abbrev pub tied : Plan → List Plan → List Plan
tied p [] = []
tied p (q ∷ qs) = let rest = tied p qs in if ties p q then q ∷ rest else rest

ties-true :
    (p q : Plan) → ties p q ≡ true → (p.name ≡ q.name) × (p.settings.order ≡ q.settings.order)
ties-true p q h =
    let a = p.settings.order in
    let b = q.settings.order in
    ((str_eq_iff p.name q.name).0 (ground arith), ltb_ℤ_antisym a b (ground arith) (ground arith))

before_irrefl : (a : ℤ) (s : Str) → before a s a s ≡ false
unfolding before
before_irrefl a s = ground (arith, str_le_total s s)

-- Of two plans with the same order and name, neither is less.
plan_lt-tied :
    (q x : Plan) → x.name ≡ q.name → x.settings.order ≡ q.settings.order → plan_lt q x ≡ false
unfolding plan_lt before
plan_lt-tied q x name order = rw (name, order) (before_irrefl q.settings.order q.name)

-- A plan that is less than another ties with none that the other ties with.
not_tied : (p q x : Plan) → ties p x ≡ true → plan_lt q x ≡ true → ties p q ≡ false
not_tied p q x h lt = elim (Bool-cases (ties p q)) [
  | inr other ↦ other
  | inl same ↦
      let (name, order) = ties-true p x h in
      let (name', order') = ties-true p q same in
      cc (plan_lt-tied q x (sym name ∙ name') (sym order ∙ order'), lt)
]

tied-insert_plan : (p x : Plan) (ps : List Plan) → tied p (insert_plan x ps) ≡ tied p (x ∷ ps)
unfolding insert_plan
tied-insert_plan p x [] = refl
tied-insert_plan p x (q ∷ qs) = elim (Bool-cases (plan_lt q x)) [
  | inr ge ↦ rw (ge, insert_plan)
  | inl lt ↦ elim (Bool-cases (ties p x)) [
    | inl same ↦ rw (lt, insert_plan, same, not_tied p q x same lt, tied-insert_plan p x qs, same)
    | inr other ↦ rw (lt, insert_plan, other, tied-insert_plan p x qs, other)
  ]
]

tied-sort_plans : (p : Plan) (ps : List Plan) → tied p (sort_plans ps) ≡ tied p ps
unfolding sort_plans
tied-sort_plans p [] = refl
tied-sort_plans p (q ∷ qs) =
    tied-insert_plan p q (sort_plans qs)
    ∙ ap (λ l. if ties p q then q ∷ l else l) (tied-sort_plans p qs)

-- The sorted plans are the evaluated ones; those with a smaller order stand first, and among equal
-- orders the names ascend; and plans with the same order and name stand as they did.
pub sort_plans_stable :
    (ps : List Plan)
    → Perm (sort_plans ps) ps
      × IsOrdered (sort_plans ps)
      × ((p : Plan) → tied p (sort_plans ps) ≡ tied p ps)
sort_plans_stable ps = (
  sort_plans-Perm ps,
  IsSorted-IsOrdered (sort_plans ps) (sort_plans-IsSorted ps),
  λ p. tied-sort_plans p ps,
)
