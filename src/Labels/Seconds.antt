-- ===== src/Labels/Seconds.antt =====
-- A label whose value is a plain numeral, read by duration of internal/labels/labels.go.
use pullpilot.Prelude.{
  ℕ, ◌+◌, ◌*◌, ◌≤◌, ◌≡◌, refl, false, some, List, [], ◌∷◌, arith, any, inl, inr,
}
use pullpilot.Prelude.Int.{pos}
use pullpilot.Std.Str.{is_space, trim_left, trim_space}
use pullpilot.Std.Str.Laws.{trim_right_none}
use pullpilot.Std.Num.{second, max_int64, wrap64, scale_ℤ}
use pullpilot.Std.Num.Numeral.{numeral, value_from, IsDecimal, atoi-numeral, parse_duration-numeral}
use pullpilot.Labels.{duration_of, duration}

no_space : (ds : List ℕ) → IsDecimal ds → any is_space (numeral ds) ≡ false
no_space [] h = refl
no_space (d ∷ ds) (hd, h) = ground (arith, no_space ds h)

trim_space-numeral : (ds : List ℕ) → IsDecimal ds → trim_space (numeral ds) ≡ numeral ds
unfolding trim_space trim_left
trim_space-numeral [] h = trim_right_none is_space [] refl
trim_space-numeral (d ∷ ds) h =
    let digit : is_space (b'0' + d) ≡ false = ground arith in
    rw digit (trim_right_none is_space (numeral (d ∷ ds)) (no_space (d ∷ ds) h))

wrap64_seconds :
    (n : ℕ) → n * second ≤ max_int64 → wrap64 (scale_ℤ (pos n) second) ≡ pos (n * second)
unfolding wrap64 scale_ℤ
wrap64_seconds n le = ground arith

module _ (fraction : ℕ → ℕ → ℕ → ℕ) where
  duration_of-numeral :
      (d : ℕ) (ds : List ℕ)
      → IsDecimal (d ∷ ds)
      → value_from 0 (d ∷ ds) * second ≤ max_int64
      → duration_of fraction (numeral (d ∷ ds)) ≡ some (pos (value_from 0 (d ∷ ds) * second))
  unfolding duration_of
  duration_of-numeral d ds h le = elim (parse_duration-numeral fraction d ds h) [
    | inl refused ↦
        rw
          (
            refused,
            duration_of,
            atoi-numeral d ds h (omega (arith, le)),
            wrap64_seconds (value_from 0 (d ∷ ds)) le,
          )
          refl
    | inr (nought, value) ↦ rw (nought, duration_of, value) refl
  ]

  -- A value that is a plain decimal numeral, leading zeros included, is that many seconds, as long as
  -- these fit into a Duration.
  pub duration-numeral :
      (d : ℕ) (ds : List ℕ)
      → IsDecimal (d ∷ ds)
      → value_from 0 (d ∷ ds) * second ≤ max_int64
      → duration fraction (numeral (d ∷ ds)) ≡ some (pos (value_from 0 (d ∷ ds) * second))
  unfolding duration
  duration-numeral d ds h le = rw (trim_space-numeral (d ∷ ds) h) (duration_of-numeral d ds h le)
