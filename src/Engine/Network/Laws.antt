-- ===== src/Engine/Network/Laws.antt =====
-- The order of names, and what a recreated container keeps of its networks.
use pullpilot.Prelude.{
  ◌≡◌, refl, true, ◌⊎◌, inl, inr, Option, some, [], ◌∷◌, ◌++◌, arith, Bool-cases, length, ◌≤◌, map,
}
use mathlib.Core.List.{Perm}
use mathlib.Core.List.Perm
use pullpilot.Std.Str.{Str}
use pullpilot.Engine.Host.{Endpoint, Networks}
use pullpilot.Engine.Network.{
  str_le, insert_by_name, sort_by_name, carry, split_primary, build_networking,
}

pub str_le_total : (s t : Str) → (str_le s t ≡ true) ⊎ (str_le t s ≡ true)
unfolding str_le
str_le_total [] t = inl refl
str_le_total (a ∷ s) [] = inr refl
str_le_total (a ∷ s) (b ∷ t) = ground (arith, str_le_total s t)

pub str_le_trans : (s t u : Str) → str_le s t ≡ true → str_le t u ≡ true → str_le s u ≡ true
unfolding str_le
str_le_trans [] t u h k = refl
str_le_trans (a ∷ s) [] u h k = cc
str_le_trans (a ∷ s) (b ∷ t) [] h k = cc
str_le_trans (a ∷ s) (b ∷ t) (c ∷ u) h k = ground (arith, str_le_trans s t u)

insert_by_name-Perm :
    (x : Str × Option Endpoint) (xs : Networks) → Perm (insert_by_name x xs) (x ∷ xs)
unfolding insert_by_name
insert_by_name-Perm x [] = Perm.refl (x ∷ [])
insert_by_name-Perm x (y ∷ ys) = elim (Bool-cases (str_le x.0 y.0)) [
  | inl le ↦ rw (le, insert_by_name) (Perm.refl (x ∷ y ∷ ys))
  | inr gt ↦
      rw (gt, insert_by_name)
        (Perm.trans (Perm.cons y (insert_by_name-Perm x ys)) (Perm.swap x y ys))
]

sort_by_name-Perm : (xs : Networks) → Perm (sort_by_name xs) xs
unfolding sort_by_name
sort_by_name-Perm [] = Perm.refl []
sort_by_name-Perm (x ∷ xs) =
    Perm.trans (insert_by_name-Perm x (sort_by_name xs)) (Perm.cons x (sort_by_name-Perm xs))

split_primary-map : (xs : Networks) → (split_primary xs).0 ++ (split_primary xs).1 ≡ map carry xs
unfolding split_primary
split_primary-map [] = refl
split_primary-map (x ∷ xs) = refl

split_primary-one : (xs : Networks) → length (split_primary xs).0 ≤ 1
unfolding split_primary
split_primary-one [] = omega arith
split_primary-one (x ∷ xs) = omega arith

-- The create call gets at most one endpoint, and it and the later connections together are the old
-- container's networks, each once, with the carried settings.
pub build_networking_complete :
    (ns : Networks)
    → let (primary, extra) = build_networking (some ns) in
      (length primary ≤ 1) × Perm (primary ++ extra) (map carry ns)
unfolding build_networking
build_networking_complete ns = (
  split_primary-one (sort_by_name ns),
  rw (split_primary-map (sort_by_name ns)) (Perm.map carry (sort_by_name-Perm ns)),
)
