-- ===== src/Std/Str.antt =====
-- Go's strings, as lists of bytes, and the functions of package strings that the program calls.
-- `trim_space` and `to_lower` act on ASCII; bytes from 128 on are left as they are.
pub mod Laws
use Prim.Native.Char.{code}
use Prim.Native.String
use Prim.Native.String.{String}
use pullpilot.Prelude.{
  ℕ, ◌+◌, Bool, true, false, ◌&&◌, ◌||◌, Option, none, some, List, [], ◌∷◌, leb, ◌==◌,
  if◌then◌else◌,
}
use mathlib.Core.Option

abbrev pub Str : Type 0
Str = List ℕ

-- The bytes of an ASCII literal.
abbrev pub bytes : String → Str
bytes String.[] = []
bytes (String.◌∷◌ c s) = code c ∷ bytes s

unfoldable pub str_eq : Str → Str → Bool
str_eq [] [] = true
str_eq (a ∷ s) (b ∷ t) = (a == b) && str_eq s t
str_eq _ _ = false

-- s == ""
abbrev pub is_empty : Str → Bool
is_empty [] = true
is_empty (c ∷ s) = false

-- What is left of `s` behind a prefix.
unfoldable pub cut_prefix : Str → Str → Option Str
cut_prefix s [] = some s
cut_prefix [] (p ∷ ps) = none
cut_prefix (c ∷ s) (p ∷ ps) = if c == p then cut_prefix s ps else none

unfoldable pub has_prefix : Str → Str → Bool
unfolding cut_prefix
has_prefix s p = elim (cut_prefix s p) [ none ↦ false | some rest ↦ true ]

unfoldable pub trim_prefix : Str → Str → Str
unfolding cut_prefix
trim_prefix s p = elim (cut_prefix s p) [ none ↦ s | some rest ↦ rest ]

-- strings.CutSuffix; `none` where `ok` is false.
unfoldable pub cut_suffix : Str → Str → Option Str
unfolding str_eq
cut_suffix [] t = if str_eq [] t then some [] else none
cut_suffix (c ∷ s) t =
    let rest = cut_suffix s t in if str_eq (c ∷ s) t then some [] else Option.map (λ r. c ∷ r) rest

-- strings.Cut at a one-byte separator; `none` where `ok` is false.
unfoldable pub cut : Str → ℕ → Option (Str × Str)
cut [] sep = none
cut (c ∷ s) sep =
    let rest = cut s sep in if c == sep then some ([], s) else Option.map (λ p. (c ∷ p.0, p.1)) rest

unfoldable pub trim_left : (ℕ → Bool) → Str → Str
trim_left p [] = []
trim_left p (c ∷ s) = let rest = trim_left p s in if p c then rest else c ∷ s

unfoldable pub trim_right : (ℕ → Bool) → Str → Str
trim_right p [] = []
trim_right p (c ∷ s) = let rest = trim_right p s in if is_empty rest && p c then [] else c ∷ rest

abbrev pub is_space : ℕ → Bool
is_space c = (leb 9 c && leb c 13) || c == 32

unfoldable pub trim_space : Str → Str
unfolding trim_left trim_right
trim_space s = trim_right is_space (trim_left is_space s)

abbrev pub lower : ℕ → ℕ
lower c = if leb b'A' c && leb c b'Z' then c + 32 else c

unfoldable pub to_lower : Str → Str
to_lower [] = []
to_lower (c ∷ s) = lower c ∷ to_lower s

-- Membership in the list of a `case "a", "b":` clause.
unfoldable pub one_of : Str → List Str → Bool
unfolding str_eq
one_of s [] = false
one_of s (t ∷ ts) = str_eq s t || one_of s ts
