-- ===== src/Std/Dict/Laws.antt =====
-- What a lookup finds after each operation on a map.
use pullpilot.Prelude.{
  ◌≡◌, ◌≢◌, refl, inl, inr, Bool, none, some, [], ◌∷◌, arith, if◌then◌else◌, Bool-cases,
}
use pullpilot.Std.Str.{Str, str_eq}
use pullpilot.Std.Str.Laws.{str_eq_iff, str_eq_refl}
use pullpilot.Std.Dict.{Dict, lookup, insert, delete_if, get_or}

module _ {ℓ} {V : Type ℓ} where
  pub lookup-insert :
      (k j : Str) (v : V) (m : Dict V)
      → lookup j (insert k v m) ≡ (if str_eq k j then some v else lookup j m)
  unfolding lookup insert
  lookup-insert k j v [] = refl
  lookup-insert k j v ((i, w) ∷ m) =
      ground (arith, str_eq_iff k j, str_eq_iff i k, str_eq_iff i j, lookup-insert k j v m)

  pub lookup-insert_other :
      (k j : Str) (v : V) (m : Dict V) → k ≢ j → lookup j (insert k v m) ≡ lookup j m
  lookup-insert_other k j v m ne = ground (arith, lookup-insert k j v m, str_eq_iff k j)

  pub lookup-insert_self : (k : Str) (v : V) (m : Dict V) → lookup k (insert k v m) ≡ some v
  lookup-insert_self k v m = ground (arith, lookup-insert k k v m, str_eq_refl k)

  -- Deleting by a test of the key leaves the other keys as they were.
  pub lookup-delete_if :
      (drop : Str → Bool) (j : Str) (m : Dict V)
      → lookup j (delete_if drop m) ≡ (if drop j then none else lookup j m)
  unfolding lookup delete_if
  lookup-delete_if drop j [] = ground arith
  lookup-delete_if drop j ((i, w) ∷ m) = elim (Bool-cases (str_eq i j)) [
    | inl e ↦
        let same : i ≡ j = (str_eq_iff i j).0 e in
        ground (arith, lookup-delete_if drop j m, str_eq_iff i j)
    | inr n ↦ ground (arith, lookup-delete_if drop j m)
  ]

  pub get_or-insert :
      (k j : Str) (z v : V) (m : Dict V)
      → get_or j z (insert k v m) ≡ (if str_eq k j then v else get_or j z m)
  unfolding get_or
  get_or-insert k j z v m = ground (arith, lookup-insert k j v m)
