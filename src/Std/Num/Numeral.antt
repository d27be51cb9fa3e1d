-- ===== src/Std/Num/Numeral.antt =====
-- What Atoi and ParseDuration give for a plain numeral.
use pullpilot.Prelude.{
  ℕ, Bool, ◌+◌, ◌*◌, ◌^◌, ◌≤◌, ◌≡◌, refl, true, false, none, some, List, [], ◌∷◌, All, arith, ltb,
  leb, Bool-cases, inl, inr, ◌⊎◌, length, ◌==◌, ◌||◌, ◌-◌, ◌/◌,
}
use pullpilot.Prelude.Int.{pos}
use pullpilot.Std.Str.{Str, bytes, str_eq}
use pullpilot.Std.Num.{
  digits, unsigned, atoi, leading_int, component_value, component_point, component, components,
  unsigned_duration, parse_duration, max_int64, is_digit,
}

-- A numeral by its decimal digits, the highest first: how it is written, and its value.
abbrev pub numeral : List ℕ → Str
numeral [] = []
numeral (d ∷ ds) = (b'0' + d) ∷ numeral ds

abbrev pub value_from : ℕ → List ℕ → ℕ
value_from x [] = x
value_from x (d ∷ ds) = value_from (x * 10 + d) ds

abbrev pub IsDecimal : List ℕ → Type 0
IsDecimal = All (λ d. d ≤ 9)

digits-numeral :
    (x : ℕ) (ds : List ℕ) → IsDecimal ds → digits x (numeral ds) ≡ some (value_from x ds)
unfolding digits
digits-numeral x [] h = refl
digits-numeral x (d ∷ ds) (hd, h) =
    let value : b'0' + d - b'0' ≡ d = omega arith in
    let digit : is_digit (b'0' + d) ≡ true = ground arith in
    rw (digit, value) (digits-numeral (x * 10 + d) ds h)

unsigned-numeral :
    (d : ℕ) (ds : List ℕ)
    → IsDecimal (d ∷ ds)
    → value_from 0 (d ∷ ds) ≤ max_int64
    → unsigned false (numeral (d ∷ ds)) ≡ some (pos (value_from 0 (d ∷ ds)))
unfolding unsigned
unsigned-numeral d ds h le =
    let fits : leb (value_from 0 (d ∷ ds)) max_int64 ≡ true = ground arith in
    rw (digits-numeral 0 (d ∷ ds) h, unsigned, fits) refl

pub atoi-numeral :
    (d : ℕ) (ds : List ℕ)
    → IsDecimal (d ∷ ds)
    → value_from 0 (d ∷ ds) ≤ max_int64
    → atoi (numeral (d ∷ ds)) ≡ some (pos (value_from 0 (d ∷ ds)))
unfolding atoi
atoi-numeral d ds h le =
    let minus : ((b'0' + d) == b'-') ≡ false = ground arith in
    let plus : ((b'0' + d) == b'+') ≡ false = ground arith in
    rw (minus, plus) (unsigned-numeral d ds h le)

leading_int-numeral :
    (x : ℕ) (ds : List ℕ)
    → IsDecimal ds
    → (leading_int x (numeral ds) ≡ none) ⊎ ((v : ℕ) × (leading_int x (numeral ds) ≡ some (v, [])))
unfolding leading_int
leading_int-numeral x [] h = inr (x, refl)
leading_int-numeral x (d ∷ ds) (hd, h) =
    let y = x * 10 + (b'0' + d - b'0') in
    let digit : is_digit (b'0' + d) ≡ true = ground arith in
    elim (Bool-cases (ltb (2 ^ 63 / 10) x || ltb (2 ^ 63) y)) [
      | inl over ↦ inl (rw (digit, over, leading_int))
      | inr fits ↦ elim (leading_int-numeral y ds h) [
        | inl bad ↦ inl (rw (digit, fits, leading_int) bad)
        | inr (v, good) ↦ inr (v, rw (digit, fits, leading_int) good)
      ]
    ]

nought_value :
    (d : ℕ) (ds : List ℕ) → str_eq (numeral (d ∷ ds)) (bytes "0") ≡ true → value_from 0 (d ∷ ds) ≡ 0
unfolding str_eq
nought_value d [] h = ground arith
nought_value d (e ∷ ds) h = ground arith

module _ (fraction : ℕ → ℕ → ℕ → ℕ) where
  -- Behind the digits no unit follows.
  component_point_end : (v : ℕ) (pre : Bool) → component_point fraction v pre [] ≡ none
  unfolding component_point component_value
  component_point_end v true = refl
  component_point_end v false = refl

  component-numeral : (ds : List ℕ) → IsDecimal ds → component fraction (numeral ds) ≡ none
  unfolding component
  component-numeral ds h = elim (leading_int-numeral 0 ds h) [
    | inl over ↦ rw (over, component)
    | inr (v, read) ↦ rw (read, component) (component_point_end v (ltb 0 (length (numeral ds))))
  ]

  components-numeral :
      (d : ℕ) (ds : List ℕ)
      → IsDecimal (d ∷ ds)
      → components fraction (length (numeral (d ∷ ds))) 0 (numeral (d ∷ ds)) ≡ none
  unfolding components
  components-numeral d ds h = rw (component-numeral (d ∷ ds) h, components) refl

  -- ParseDuration refuses a plain numeral, but for "0".
  unsigned_duration-numeral :
      (d : ℕ) (ds : List ℕ)
      → IsDecimal (d ∷ ds)
      → (unsigned_duration fraction false (numeral (d ∷ ds)) ≡ none)
        ⊎ ((unsigned_duration fraction false (numeral (d ∷ ds)) ≡ some (pos 0))
            × (value_from 0 (d ∷ ds) ≡ 0))
  unfolding unsigned_duration
  unsigned_duration-numeral d ds h = elim (Bool-cases (str_eq (numeral (d ∷ ds)) (bytes "0"))) [
    | inl nought ↦ inr (rw (nought, unsigned_duration), nought_value d ds nought)
    | inr other ↦ inl (rw (other, components-numeral d ds h, unsigned_duration))
  ]

  pub parse_duration-numeral :
      (d : ℕ) (ds : List ℕ)
      → IsDecimal (d ∷ ds)
      → (parse_duration fraction (numeral (d ∷ ds)) ≡ none)
        ⊎ ((parse_duration fraction (numeral (d ∷ ds)) ≡ some (pos 0))
            × (value_from 0 (d ∷ ds) ≡ 0))
  unfolding parse_duration
  parse_duration-numeral d ds h =
      let minus : ((b'0' + d) == b'-') ≡ false = ground arith in
      let plus : ((b'0' + d) == b'+') ≡ false = ground arith in
      rw (minus, plus) (unsigned_duration-numeral d ds h)
