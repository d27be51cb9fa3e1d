-- ===== src/Std/Dict.antt =====
-- Go's `map[string]V`, as an association list in which the first entry of a key counts.
pub mod Laws
use pullpilot.Prelude.{Bool, not, Option, none, some, List, [], ◌∷◌, if◌then◌else◌}
use pullpilot.Std.Str.{Str, str_eq}

abbrev pub Dict {ℓ} : Type ℓ → Type ℓ
Dict V = List (Str × V)

module _ {ℓ} {V : Type ℓ} where
  -- v, ok := m[k]
  unfoldable pub lookup : Str → Dict V → Option V
  lookup k [] = none
  lookup k ((j, v) ∷ m) = if str_eq j k then some v else lookup k m

  -- m[k] = v
  unfoldable pub insert : Str → V → Dict V → Dict V
  insert k v [] = (k, v) ∷ []
  insert k v ((j, w) ∷ m) = if str_eq j k then (k, v) ∷ m else (j, w) ∷ insert k v m

  -- for k := range m { if drop(k) { delete(m, k) } }
  unfoldable pub delete_if : (Str → Bool) → Dict V → Dict V
  delete_if drop [] = []
  delete_if drop ((j, w) ∷ m) =
      let rest = delete_if drop m in if drop j then rest else (j, w) ∷ rest

  -- m[k], the zero value for a missing key
  unfoldable pub get_or : Str → V → Dict V → V
  unfolding lookup
  get_or k zero_value m = elim (lookup k m) [ none ↦ zero_value | some v ↦ v ]
