-- ===== src/Std/Str/Laws.antt =====
-- Laws of the string functions.
use pullpilot.Prelude.{
  ℕ, Bool, any, ◌≡◌, refl, ap, ◌≢◌, ◌↔◌, ◌⊎◌, inl, inr, true, false, some, [], ◌∷◌, ◌++◌, arith,
  length, length-append, Bool-cases, Option-cases,
}
use pullpilot.Std.Str.{
  is_empty, trim_right, Str, str_eq, cut_prefix, has_prefix, trim_prefix, cut_suffix, cut,
}

pub str_eq_iff : (s t : Str) → (str_eq s t ≡ true) ↔ (s ≡ t)
unfolding str_eq
str_eq_iff [] [] = (λ _. refl, λ _. refl)
str_eq_iff [] (b ∷ t) = (λ h. cc, λ h. cc)
str_eq_iff (a ∷ s) [] = (λ h. cc, λ h. cc)
str_eq_iff (a ∷ s) (b ∷ t) = ground (arith, str_eq_iff s t)

pub str_eq_refl : (s : Str) → str_eq s s ≡ true
str_eq_refl s = (str_eq_iff s s).1 refl

-- Text is told from text, with the equation or its negation at hand.
pub str_eq-cases : (s t : Str) → ((str_eq s t ≡ true) × (s ≡ t)) ⊎ ((str_eq s t ≡ false) × (s ≢ t))
str_eq-cases s t = elim (Bool-cases (str_eq s t)) [
  | inl e ↦ inl (e, (str_eq_iff s t).0 e)
  | inr n ↦ inr (n, λ p. cc (n, (str_eq_iff s t).1 p))
]

pub cut_prefix-append : (p s : Str) → cut_prefix (p ++ s) p ≡ some s
unfolding cut_prefix
cut_prefix-append [] s = refl
cut_prefix-append (c ∷ p) s = ground (arith, cut_prefix-append p s)

pub cut_prefix_sound : (s p : Str) {r : Str} → cut_prefix s p ≡ some r → s ≡ p ++ r
unfolding cut_prefix
cut_prefix_sound s [] h = cc
cut_prefix_sound [] (c ∷ p) h = cc
cut_prefix_sound (c ∷ s) (d ∷ p) {r} h = ground (arith, cut_prefix_sound s p {r = r})

pub has_prefix-append : (p s : Str) → has_prefix (p ++ s) p ≡ true
unfolding has_prefix
has_prefix-append p s = ground (arith, cut_prefix-append p s)

pub trim_prefix-append : (p s : Str) → trim_prefix (p ++ s) p ≡ s
unfolding trim_prefix
trim_prefix-append p s = ground (arith, cut_prefix-append p s)

pub cut_suffix_sound : (s t : Str) {r : Str} → cut_suffix s t ≡ some r → s ≡ r ++ t
unfolding cut_suffix
cut_suffix_sound [] t h = ground (arith, str_eq_iff [] t)
cut_suffix_sound (c ∷ s) t {r} h = elim (Option-cases (cut_suffix s t)) [
  | inl e ↦ ground (arith, str_eq_iff (c ∷ s) t)
  | inr (q, e) ↦ ground (arith, str_eq_iff (c ∷ s) t, cut_suffix_sound s t e)
]

-- A text is no proper suffix of itself.
append-ne_self : (c : ℕ) (r t : Str) → (c ∷ r) ++ t ≢ t
append-ne_self c r t e = omega (arith, ap length e, length-append (c ∷ r) t)

pub cut_suffix-append : (r t : Str) → cut_suffix (r ++ t) t ≡ some r
unfolding cut_suffix
cut_suffix-append [] [] = refl
cut_suffix-append [] (c ∷ t) = ground (arith, str_eq_refl (c ∷ t))
cut_suffix-append (c ∷ r) t =
    ground (arith, str_eq_iff ((c ∷ r) ++ t) t, append-ne_self c r t, cut_suffix-append r t)

pub cut_sound : (s : Str) (sep : ℕ) {a b : Str} → cut s sep ≡ some (a, b) → s ≡ a ++ sep ∷ b
unfolding cut
cut_sound [] sep h = cc
cut_sound (c ∷ s) sep h = elim (Option-cases (cut s sep)) [
  | inl e ↦ ground arith
  | inr ((x, y), e) ↦ ground (arith, cut_sound s sep e)
]

-- A byte at the end that is trimmed does not show; one that is not keeps all before it.
pub trim_right-snoc :
    (p : ℕ → Bool) (s : Str) (c : ℕ) → p c ≡ true → trim_right p (s ++ c ∷ []) ≡ trim_right p s
unfolding trim_right
trim_right-snoc p [] c h = ground arith
trim_right-snoc p (d ∷ s) c h = rw (trim_right-snoc p s c h)

pub is_empty-snoc : (s : Str) (c : ℕ) → is_empty (s ++ c ∷ []) ≡ false
is_empty-snoc [] c = refl
is_empty-snoc (d ∷ s) c = refl

pub trim_right_keeps :
    (p : ℕ → Bool) (s : Str) (c : ℕ) → p c ≡ false → trim_right p (s ++ c ∷ []) ≡ s ++ c ∷ []
unfolding trim_right
trim_right_keeps p [] c h = ground arith
trim_right_keeps p (d ∷ s) c h = rw (trim_right_keeps p s c h, is_empty-snoc s c)

pub trim_right_none : (p : ℕ → Bool) (s : Str) → any p s ≡ false → trim_right p s ≡ s
unfolding trim_right
trim_right_none p [] h = refl
trim_right_none p (c ∷ s) h = ground (arith, trim_right_none p s)
