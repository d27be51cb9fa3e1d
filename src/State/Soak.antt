-- ===== src/State/Soak.antt =====
-- The first-seen times of internal/state/state.go.
use pullpilot.Prelude.{
  ℕ, zero, suc, ◌+◌, ◌≡◌, refl, ap, ◌∙◌, sym, true, false, not, ◌&&◌, none, some, [], ◌∷◌, ◌++◌,
  arith, All, length, length-append, take, drop, ltb, lt→ltb, ◌==◌, if◌then◌else◌, inl, inr,
  Option-cases,
}
use pullpilot.Std.Str.{Str, bytes, str_eq, cut}
use pullpilot.Std.Str.Laws.{str_eq_iff, str_eq_refl, str_eq-cases}
use pullpilot.Std.Dict.{lookup}
use pullpilot.Std.Dict.Laws.{lookup-insert, lookup-insert_self, lookup-delete_if}
use pullpilot.State.{Time, State, Disk, pair_key, stale, seen_at, peek_seen, mark_applied}

-- A container name has no slash.
abbrev pub IsName : Str → Type 0
IsName = All (λ c. (c == b'/') ≡ false)

cut-pair_key : (key digest : Str) → IsName key → cut (pair_key key digest) b'/' ≡ some (key, digest)
unfolding cut
cut-pair_key [] digest h = refl
cut-pair_key (c ∷ key) digest (hc, h) = ground (arith, cut-pair_key key digest h)

-- The keys of the maps tell containers and digests apart.
pub pair_key_inj :
    (key key' digest digest' : Str)
    → IsName key
    → IsName key'
    → pair_key key digest ≡ pair_key key' digest'
    → (key ≡ key') × (digest ≡ digest')
pair_key_inj key key' digest digest' h h' e =
    ground (arith, cut-pair_key key digest h, cut-pair_key key' digest' h', ap (λ s. cut s b'/') e)

module _ {W : Type 0} (disk : Disk W) where
  -- What SeenAt returns is what is recorded afterwards.
  pub peek_seen-seen_at :
      (key digest : Str) (now : Time) (s : State) (w : W)
      → let out = seen_at disk key digest now s w in peek_seen key digest out.1 ≡ some out.0
  unfolding seen_at peek_seen
  peek_seen-seen_at key digest now s w =
      elim (Option-cases (lookup (pair_key key digest) s.content.first_seen)) [
        | inl e ↦ ground (arith, lookup-insert_self (pair_key key digest) now s.content.first_seen)
        | inr (t, e) ↦ ground arith
      ]

  -- A time that is recorded is returned, and nothing is written.
  pub seen_at_recorded :
      (key digest : Str) (now : Time) {t : Time} (s : State) (w : W)
      → peek_seen key digest s ≡ some t
      → seen_at disk key digest now s w ≡ (t, s, w)
  unfolding seen_at peek_seen
  seen_at_recorded key digest now s w h = ground arith

  -- A recorded time is not changed by an observation of any container and digest.
  pub seen_at_keeps :
      (key digest key' digest' : Str) (now : Time) {t : Time} (s : State) (w : W)
      → peek_seen key digest s ≡ some t
      → peek_seen key digest (seen_at disk key' digest' now s w).1 ≡ some t
  unfolding seen_at peek_seen
  seen_at_keeps key digest key' digest' now s w h =
      elim (Option-cases (lookup (pair_key key' digest') s.content.first_seen)) [
        | inl e ↦ ground (
          arith,
          lookup-insert (pair_key key' digest') (pair_key key digest) now s.content.first_seen,
          str_eq_iff (pair_key key' digest') (pair_key key digest),
        )
        | inr (t', e) ↦ ground arith
      ]

take-append : (s t : Str) → take (length s) (s ++ t) ≡ s
take-append [] t = refl
take-append (c ∷ s) t = ap (λ r. c ∷ r) (take-append s t)

take-drop : (n : ℕ) (s : Str) → take n s ++ drop n s ≡ s
take-drop zero s = refl
take-drop (suc n) [] = refl
take-drop (suc n) (c ∷ s) = ap (λ r. c ∷ r) (take-drop n s)

-- A key of another container does not begin with this one's name and a slash.
other_name :
    (key key' digest' : Str)
    → IsName key
    → IsName key'
    → take (length key + 1) (pair_key key' digest') ≡ key ++ bytes "/"
    → key' ≡ key
other_name key key' digest' h h' e =
    let rest = drop (length key + 1) (pair_key key' digest') in
    let whole : pair_key key' digest' ≡ pair_key key rest =
      sym (take-drop (length key + 1) (pair_key key' digest')) ∙ ap (λ s. s ++ rest) e in
    (pair_key_inj key' key digest' rest h' h whole).0

own_name : (key digest' : Str) → take (length key + 1) (pair_key key digest') ≡ key ++ bytes "/"
own_name key digest' =
    ap (λ n. take n (pair_key key digest')) (sym (length-append key (bytes "/")))
    ∙ take-append (key ++ bytes "/") digest'

-- Keys of one container are compared by their digests.
pair_key-eq :
    (key digest digest' : Str)
    → IsName key
    → str_eq (pair_key key digest') (pair_key key digest) ≡ str_eq digest' digest
pair_key-eq key digest digest' h = elim (str_eq-cases digest' digest) [
  | inl (e, p) ↦ rw (p, str_eq_refl digest) (str_eq_refl (pair_key key digest))
  | inr (n, d) ↦ ground (
    arith,
    str_eq_iff (pair_key key digest') (pair_key key digest),
    pair_key_inj key key digest' digest h h,
  )
]

-- MarkApplied's test finds the keys of this container with another digest.
stale-pair_key :
    (key digest key' digest' : Str)
    → IsName key
    → IsName key'
    → stale key digest (pair_key key' digest') ≡ (str_eq key' key && not (str_eq digest' digest))
unfolding stale
stale-pair_key key digest key' digest' h h' = elim (str_eq-cases key' key) [
  | inl (e, p) ↦
      let same : str_eq (take (length key + 1) (pair_key key digest')) (key ++ bytes "/") ≡ true =
        (str_eq_iff (take (length key + 1) (pair_key key digest')) (key ++ bytes "/")).1
          (own_name key digest') in
      let longer : ltb (length key) (length (pair_key key digest')) ≡ true =
        lt→ltb (length key) (length (pair_key key digest')) (
          omega (arith, length-append (key ++ bytes "/") digest', length-append key (bytes "/"))) in
      rw (p, longer, same, str_eq_refl key, pair_key-eq key digest digest' h)
  | inr (n, d) ↦ ground (
    arith,
    str_eq_iff (take (length key + 1) (pair_key key' digest')) (key ++ bytes "/"),
    other_name key key' digest' h h',
  )
]

-- MarkApplied forgets the first-seen times of the other digests of its container, and no others.
pub peek_seen-mark_applied :
    {W : Type 0} (disk : Disk W) (key digest key' digest' : Str) (s : State) (w : W)
    → IsName key
    → IsName key'
    → peek_seen key' digest' (mark_applied disk key digest s w).0
      ≡ (if str_eq key' key && not (str_eq digest' digest) then none else peek_seen key' digest' s)
unfolding peek_seen mark_applied
peek_seen-mark_applied disk key digest key' digest' s w h h' =
    rw (← stale-pair_key key digest key' digest' h h')
      (lookup-delete_if (stale key digest) (pair_key key' digest') s.content.first_seen)
