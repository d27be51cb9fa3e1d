-- ===== src/Std/Utf8.antt =====
-- What ranging over the runes of a Go string and writing them back gives.
use pullpilot.Prelude.{
  ℕ, zero, suc, ◌+◌, ◌≡◌, refl, ap, Bool, true, false, ◌&&◌, Option, none, some, [], ◌∷◌, ◌++◌, leb,
  ltb, any, arith, ◌==◌, if◌then◌else◌,
}
use pullpilot.Std.Str.{Str}

abbrev between : ℕ → ℕ → ℕ → Bool
between lo hi b = leb lo b && leb b hi

-- The text begins with that many bytes from 0x80 to 0xBF.
unfoldable pub continues : ℕ → Str → Bool
continues zero s = true
continues (suc n) [] = false
continues (suc n) (b ∷ s) = let rest = continues n s in between 128 191 b && rest

-- A second byte of a rune between two bounds, and the bytes behind it.
unfoldable pub follows : ℕ → ℕ → ℕ → Str → Option ℕ
unfolding continues
follows lo hi n [] = none
follows lo hi n (b ∷ s) = if between lo hi b && continues n s then some (n + 1) else none

-- How many bytes a rune has behind its first byte `c`, in front of `s`; `none` where the bytes are no
-- UTF-8: bounds that exclude overlong forms, surrogates and what is beyond U+10FFFF.
unfoldable pub rune_tail : ℕ → Str → Option ℕ
unfolding follows
rune_tail c s =
    if ltb c 128
    then some 0
    else if between 194 223 c
    then follows 128 191 0 s
    else if c == 224
    then follows 160 191 1 s
    else if c == 237
    then follows 128 159 1 s
    else if between 225 239 c
    then follows 128 191 1 s
    else if c == 240
    then follows 144 191 2 s
    else if between 241 243 c
    then follows 128 191 2 s
    else if c == 244
    then follows 128 143 2 s
    else none

-- The first argument counts the bytes that still belong to the rune that was begun; a byte that
-- begins no rune becomes U+FFFD.
unfoldable pub coerce_runes : ℕ → Str → Str
unfolding rune_tail
coerce_runes n [] = []
coerce_runes (suc n) (c ∷ s) = c ∷ coerce_runes n s
coerce_runes zero (c ∷ s) = elim (rune_tail c s) [
  | none ↦ 239 ∷ 191 ∷ 189 ∷ coerce_runes 0 s
  | some n ↦ c ∷ coerce_runes n s
]

unfoldable pub valid_text : Str → Str
unfolding coerce_runes
valid_text = coerce_runes 0

rune_tail_ascii : (c : ℕ) (s : Str) → ltb c 128 ≡ true → rune_tail c s ≡ some 0
unfolding rune_tail
rune_tail_ascii c s h = rw (h, rune_tail)

-- Bytes below 0x80 are their own runes.
pub valid_text-append :
    (v s : Str) → any (λ c. leb 128 c) v ≡ false → valid_text (v ++ s) ≡ v ++ valid_text s
unfolding valid_text coerce_runes
valid_text-append [] s h = refl
valid_text-append (c ∷ v) s h =
    let small : ltb c 128 ≡ true = ground arith in
    rw (rune_tail_ascii c (v ++ s) small, coerce_runes)
      (ap (λ (t : Str). c ∷ t) (valid_text-append v s (ground arith)))

-- é, a byte that begins no rune, an overlong form, and a surrogate.
runes_run :
    (valid_text (195 ∷ 169 ∷ []) ≡ 195 ∷ 169 ∷ [])
    × (valid_text (97 ∷ 255 ∷ 98 ∷ []) ≡ 97 ∷ 239 ∷ 191 ∷ 189 ∷ 98 ∷ [])
    × (valid_text (192 ∷ 128 ∷ []) ≡ 239 ∷ 191 ∷ 189 ∷ 239 ∷ 191 ∷ 189 ∷ [])
    × (valid_text (237 ∷ 160 ∷ 128 ∷ []) ≡ 239 ∷ 191 ∷ 189 ∷ 239 ∷ 191 ∷ 189 ∷ 239 ∷ 191 ∷ 189 ∷ [])
unfolding valid_text coerce_runes rune_tail follows continues
runes_run = (refl, refl, refl, refl)
