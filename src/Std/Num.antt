-- ===== src/Std/Num.antt =====
-- Go's int64, strconv.Atoi, and time.Duration with time.ParseDuration.
-- A duration is an integer number of nanoseconds. The one step of ParseDuration in floating point,
-- the scaling of a fraction, is the parameter `fraction f unit scale`.
pub mod Numeral
use pullpilot.Prelude.{
  ◌≡◌, refl, ℕ, zero, suc, ◌+◌, ◌-◌, ◌*◌, ◌/◌, ◌%◌, ◌^◌, Bool, true, false, ◌&&◌, ◌||◌, Option,
  none, some, [], ◌∷◌, ltb, leb, ◌==◌, length, if◌then◌else◌,
}
use pullpilot.Prelude.Int.{ℤ, pos, negsuc, sub_ℕ, pos_part, neg_part}
use pullpilot.Std.Str.{Str, bytes, str_eq}

abbrev pub max_int64 : ℕ
max_int64 = 9223372036854775807

-- The value that 64 bits hold after an overflow: the integer modulo 2^64, from -2^63 to 2^63 - 1.
unfoldable pub wrap64 : ℤ → ℤ
wrap64 (pos n) = let m = n % 2 ^ 64 in if leb m max_int64 then pos m else negsuc (2 ^ 64 - m - 1)
wrap64 (negsuc n) = let m = n % 2 ^ 64 in if leb m max_int64 then negsuc m else pos (2 ^ 64 - m - 1)

-- Multiplication of a ℤ by a ℕ.
unfoldable pub scale_ℤ : ℤ → ℕ → ℤ
scale_ℤ a k = sub_ℕ (pos_part a * k) (neg_part a * k)

abbrev pub is_digit : ℕ → Bool
is_digit c = leb b'0' c && leb c b'9'

-- A run of digits; `none` at any other byte.
unfoldable pub digits : ℕ → Str → Option ℕ
digits n [] = some n
digits n (c ∷ s) = let rest = digits (n * 10 + (c - b'0')) s in if is_digit c then rest else none

abbrev pub signed : Bool → ℕ → Option ℤ
signed false n = if leb n max_int64 then some (pos n) else none
signed true n = if leb n (max_int64 + 1) then some (sub_ℕ 0 n) else none

unfoldable pub unsigned : Bool → Str → Option ℤ
unfolding digits
unsigned neg [] = none
unsigned neg (c ∷ s) = elim (digits 0 (c ∷ s)) [ none ↦ none | some n ↦ signed neg n ]

-- strconv.Atoi on a 64-bit platform; `none` stands for an error.
unfoldable pub atoi : Str → Option ℤ
unfolding unsigned
atoi [] = none
atoi (c ∷ s) =
    if c == b'-'
    then unsigned true s
    else if c == b'+'
    then unsigned false s
    else unsigned false (c ∷ s)

-- Durations.

abbrev pub second : ℕ
second = 1000000000

abbrev pub minute : ℕ
minute = 60 * second

abbrev pub hour : ℕ
hour = 60 * minute

-- `unitMap`; the byte pairs are the micro sign and the Greek mu in UTF-8.
unit_of : Str → Option ℕ
unfolding str_eq
unit_of u =
    if str_eq u (bytes "ns")
    then some 1
    else if str_eq u (bytes "us")
        || str_eq u (194 ∷ 181 ∷ b's' ∷ [])
        || str_eq u (206 ∷ 188 ∷ b's' ∷ [])
    then some 1000
    else if str_eq u (bytes "ms")
    then some 1000000
    else if str_eq u (bytes "s")
    then some second
    else if str_eq u (bytes "m")
    then some minute
    else if str_eq u (bytes "h")
    then some hour
    else none

-- leadingInt: the value and the rest; `none` on overflow.
leading_int : ℕ → Str → Option (ℕ × Str)
leading_int x [] = some (x, [])
leading_int x (c ∷ s) =
    let rest = leading_int (x * 10 + (c - b'0')) s in
    if is_digit c
    then if ltb (2 ^ 63 / 10) x || ltb (2 ^ 63) (x * 10 + (c - b'0')) then none else rest
    else some (x, c ∷ s)

-- leadingFraction: the value, its scale and the rest; digits past the range are passed over.
leading_fraction : Bool → ℕ → ℕ → Str → ℕ × ℕ × Str
leading_fraction over x scale [] = (x, scale, [])
leading_fraction over x scale (c ∷ s) =
    let y = x * 10 + (c - b'0') in
    let full = over || ltb (max_int64 / 10) x || ltb (2 ^ 63) y in
    let rest =
      leading_fraction full (if full then x else y) (if full then scale else scale * 10) s in
    if is_digit c then rest else (x, scale, c ∷ s)

-- The unit's letters, up to the next digit or point.
split_unit : Str → Str × Str
split_unit [] = ([], [])
split_unit (c ∷ s) =
    let r = split_unit s in if c == b'.' || is_digit c then ([], c ∷ s) else (c ∷ r.0, r.1)

-- The sum of the components, with its sign.
abbrev magnitude : Bool → ℕ → Option ℤ
magnitude true d = some (sub_ℕ 0 d)
magnitude false d = if ltb max_int64 d then none else some (pos d)

module _ (fraction : ℕ → ℕ → ℕ → ℕ) where
  -- One component, such as "1.5h", of a text that is not empty: its value and the rest.
  component_value : ℕ → ℕ → ℕ → Str → Option (ℕ × Str)
  unfolding unit_of split_unit
  component_value v f scale s =
      let (u, rest) = split_unit s in
      elim (unit_of u) [
        | none ↦ none
        | some unit ↦
            let w = v * unit + (if ltb 0 f then fraction f unit scale else 0) in
            if ltb (2 ^ 63 / unit) v || ltb (2 ^ 63) w then none else some (w, rest)
      ]

  component_point : ℕ → Bool → Str → Option (ℕ × Str)
  unfolding component_value leading_fraction
  component_point v pre [] = if pre then component_value v 0 1 [] else none
  component_point v pre (c ∷ s) =
      if c == b'.'
      then (let (f, scale, rest) = leading_fraction false 0 1 s in
          if pre || ltb (length rest) (length s) then component_value v f scale rest else none)
      else if pre
      then component_value v 0 1 (c ∷ s)
      else none

  component : Str → Option (ℕ × Str)
  unfolding component_point leading_int
  component s = elim (leading_int 0 s) [
    | none ↦ none
    | some (v, rest) ↦ component_point v (ltb (length rest) (length s)) rest
  ]

  -- The loop of ParseDuration; each round reads at least one byte, so the length is fuel enough.
  components : ℕ → ℕ → Str → Option ℕ
  unfolding component
  components fuel d [] = some d
  components zero d (c ∷ s) = none
  components (suc fuel) d (c ∷ s) = elim (component (c ∷ s)) [
    | none ↦ none
    | some (v, rest) ↦
        let sum = (d + v) % 2 ^ 64 in
        let more = components fuel sum rest in if ltb (2 ^ 63) sum then none else more
  ]

  unsigned_duration : Bool → Str → Option ℤ
  unfolding components str_eq
  unsigned_duration neg [] = none
  unsigned_duration neg (c ∷ s) =
      if str_eq (c ∷ s) (bytes "0")
      then some (pos 0)
      else elim (components (length (c ∷ s)) 0 (c ∷ s)) [ none ↦ none | some d ↦ magnitude neg d ]

  -- time.ParseDuration; `none` stands for an error.
  unfoldable pub parse_duration : Str → Option ℤ
  unfolding unsigned_duration
  parse_duration [] = none
  parse_duration (c ∷ s) =
      if c == b'-'
      then unsigned_duration true s
      else if c == b'+'
      then unsigned_duration false s
      else unsigned_duration false (c ∷ s)

-- The exact scaling, for runs.
abbrev pub exact : ℕ → ℕ → ℕ → ℕ
exact f unit scale = f * unit / scale

duration_runs :
    (parse_duration exact (bytes "1h30m") ≡ some (pos (90 * minute)))
    × (parse_duration exact (bytes "-1.5s") ≡ some (negsuc 1499999999))
    × (parse_duration exact (bytes "5") ≡ none)
    × (parse_duration exact (bytes ".s") ≡ none)
unfolding parse_duration
duration_runs = (refl, refl, refl, refl)
