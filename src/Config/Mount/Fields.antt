-- ===== src/Config/Mount/Fields.antt =====
-- The fields of a line of mountinfo, as DataDirPersistent of internal/config/config.go reads them.
use pullpilot.Prelude.{
  ℕ, ◌≡◌, refl, ap, ◌∙◌, Bool, true, false, some, List, [], ◌∷◌, ◌++◌, All, any, Bool-cases, inl,
  inr, arith, ◌==◌, ◌||◌,
}
use pullpilot.Std.Str.{Str, str_eq, is_empty, is_space, trim_right}
use pullpilot.Std.Str.Laws.{str_eq_iff, trim_right-snoc}
use pullpilot.Config.Mount.{
  lines_from, scanned, fields_from, fields, mounts_at, mounted, clean_dir, data_dir_persistent,
}

-- No byte is white space.
abbrev pub IsSolid : Str → Type 0
IsSolid s = any is_space s ≡ false

any-append : (p : ℕ → Bool) (s t : Str) → any p (s ++ t) ≡ (any p s || any p t)
any-append p [] t = refl
any-append p (c ∷ s) t = ground (arith, any-append p s t)

-- No field has white space.
fields_from-IsSolid : (b s : Str) → IsSolid b → All IsSolid (fields_from b s)
unfolding fields_from
fields_from-IsSolid [] [] h = tt
fields_from-IsSolid (d ∷ b) [] h = (h, tt)
fields_from-IsSolid [] (c ∷ s) h = elim (Bool-cases (is_space c)) [
  | inl space ↦ rw (space, fields_from) (fields_from-IsSolid [] s refl)
  | inr solid ↦ rw (solid, fields_from) (fields_from-IsSolid (c ∷ []) s (rw solid))
]
fields_from-IsSolid (d ∷ b) (c ∷ s) h = elim (Bool-cases (is_space c)) [
  | inl space ↦ rw (space, fields_from) (h, fields_from-IsSolid [] s refl)
  | inr solid ↦
      rw (solid, fields_from)
        (fields_from-IsSolid (d ∷ b ++ c ∷ []) s
          (any-append is_space (d ∷ b) (c ∷ []) ∙ rw (h, solid)))
]

any_empty : (q : ℕ → Bool) (s : Str) → is_empty s ≡ true → any q s ≡ false
any_empty q [] h = refl
any_empty q (c ∷ s) h = cc h

-- Trimming bytes without the property leaves the others.
any-trim_right :
    (p q : ℕ → Bool) (s : Str)
    → ((c : ℕ) → p c ≡ true → q c ≡ false)
    → any q (trim_right p s) ≡ any q s
unfolding trim_right
any-trim_right p q [] h = refl
any-trim_right p q (c ∷ s) h =
    ground (arith, h c, any-trim_right p q s h, any_empty q (trim_right p s))

mounts_at-IsSolid :
    (dir : Str) (fs : List Str)
    → All IsSolid fs
    → any is_space dir ≡ true
    → mounts_at dir fs ≡ false
unfolding mounts_at
mounts_at-IsSolid dir [] h w = refl
mounts_at-IsSolid dir (a ∷ []) h w = refl
mounts_at-IsSolid dir (a ∷ b ∷ []) h w = refl
mounts_at-IsSolid dir (a ∷ b ∷ c ∷ []) h w = refl
mounts_at-IsSolid dir (a ∷ b ∷ c ∷ d ∷ []) h w = refl
mounts_at-IsSolid dir (a ∷ b ∷ c ∷ d ∷ point ∷ more) h w = elim (Bool-cases (str_eq point dir)) [
  | inl same ↦ cc (ap (any is_space) ((str_eq_iff point dir).0 same), h.1.1.1.1.0, w)
  | inr other ↦ other
]

mounted-IsSolid : (dir : Str) (ls : List Str) → any is_space dir ≡ true → mounted dir ls ≡ false
unfolding mounted
mounted-IsSolid dir [] w = refl
mounted-IsSolid dir (l ∷ ls) w =
    rw (mounts_at-IsSolid dir (fields l) (fields_from-IsSolid [] l refl) w)
      (mounted-IsSolid dir ls w)

space-clean_dir : (dir : Str) → any is_space dir ≡ true → any is_space (clean_dir dir) ≡ true
unfolding clean_dir
space-clean_dir dir w =
    let kept = any-trim_right (λ c. c == b'/') is_space dir (λ c h. ground arith) in
    elim (Bool-cases (is_empty (trim_right (λ c. c == b'/') dir))) [
      | inl nothing ↦ cc (any_empty is_space (trim_right (λ c. c == b'/') dir) nothing, kept, w)
      | inr something ↦ rw (something, clean_dir) (kept ∙ w)
    ]

clean_dir-slash : (dir : Str) → clean_dir (dir ++ b'/' ∷ []) ≡ clean_dir dir
unfolding clean_dir
clean_dir-slash dir = rw (trim_right-snoc (λ c. c == b'/') dir b'/' refl)

-- A directory with white space in its name is never found to be a mount, whatever is mounted.
pub data_dir_persistent_space :
    (content dir : Str)
    → any is_space dir ≡ true
    → data_dir_persistent (some content) dir ≡ (false, true)
unfolding data_dir_persistent
data_dir_persistent_space content dir w =
    ap (λ (b : Bool). (b, true))
      (mounted-IsSolid (clean_dir dir) (scanned (lines_from [] content)) (space-clean_dir dir w))
