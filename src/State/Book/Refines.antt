-- ===== src/State/Book/Refines.antt =====
-- internal/state/state.go against the abstract book.
use mathlib.Core.Path.{ap₂}
use pullpilot.Prelude.{
  ◌≡◌, refl, sym, ap, ◌∙◌, Bool, true, false, not, ◌&&◌, Option, none, some, List, [], ◌∷◌, All,
  arith, Bool-cases, Option-cases, inl, inr, if◌then◌else◌,
}
use pullpilot.Std.Str.{Str, str_eq}
use pullpilot.Std.Str.Laws.{str_eq_iff}
use pullpilot.Std.Dict.{lookup, get_or}
use pullpilot.Std.Dict.Laws.{lookup-insert, get_or-insert}
use pullpilot.State.{
  Time, State, Disk, empty_data, pair_key, seen_at, peek_seen, first_notify, mark_bad, mark_applied,
  is_bad,
}
use pullpilot.State.Soak.{IsName, pair_key_inj, peek_seen-mark_applied}
use pullpilot.State.Book.{
  Book, empty_book, Op, see, tell, reject, settle, peek, ask_bad, recorded, flag, Answer, is_pair,
  book_step, book_run, state_step, state_run,
}

-- For names of containers, both hold the same.
pub record Refines (s : State) (b : Book) : Type 0 where
  pub seen : (c d : Str) → IsName c → peek_seen c d s ≡ b.seen c d
  pub told : (c d : Str) → IsName c → get_or (pair_key c d) false s.content.notified ≡ b.told c d
  pub rejected : (d : Str) → is_bad d s ≡ b.rejected d
  pub applied : (c : Str) → lookup c s.content.last_applied ≡ b.applied c

-- The containers of an operation are named as Docker names them.
abbrev pub IsNamed : Op → Type 0
IsNamed (see c d now) = IsName c
IsNamed (tell c d) = IsName c
IsNamed (reject d) = Unit
IsNamed (settle c d) = IsName c
IsNamed (peek c d) = IsName c
IsNamed (ask_bad d) = Unit

-- A key is told from a key by the container and the digest.
pair_key-is_pair :
    (c d c' d' : Str)
    → IsName c
    → IsName c'
    → str_eq (pair_key c d) (pair_key c' d') ≡ is_pair c d c' d'
pair_key-is_pair c d c' d' h h' = ground (
  arith,
  str_eq_iff (pair_key c d) (pair_key c' d'),
  pair_key_inj c c' d d' h h',
  str_eq_iff c c',
  str_eq_iff d d',
)

module _ {W : Type 0} (disk : Disk W) where
  abbrev Agree : Answer × State × W → Answer × Book → Type 0
  Agree x y = (x.0 ≡ y.0) × Refines x.1 y.1

  see-Refines :
      (c d : Str) (now : Time) (s : State) (b : Book) (w : W)
      → IsName c
      → Refines s b
      → Agree (state_step disk (see c d now) s w) (book_step (see c d now) b)
  unfolding state_step seen_at peek_seen is_bad
  see-Refines c d now s b w h f = elim (Option-cases (lookup (pair_key c d) s.content.first_seen)) [
    | inl new ↦
        let absent : b.seen c d ≡ none = sym (f.seen c d h) ∙ new in
        rw (new, seen_at, absent, book_step)
          (
            refl,
            record {
              seen = λ c' d' h'.
                  lookup-insert (pair_key c d) (pair_key c' d') now s.content.first_seen
                  ∙ ap₂ (λ x (y : Option Time). if x then some now else y)
                      (pair_key-is_pair c d c' d' h h') (f.seen c' d' h');
              told = f.told;
              rejected = f.rejected;
              applied = f.applied;
            },
          )
    | inr (t, old) ↦
        let known : b.seen c d ≡ some t = sym (f.seen c d h) ∙ old in
        rw (old, seen_at, known, book_step) (refl, f)
  ]

  tell-Refines :
      (c d : Str) (s : State) (b : Book) (w : W)
      → IsName c
      → Refines s b
      → Agree (state_step disk (tell c d) s w) (book_step (tell c d) b)
  unfolding state_step first_notify peek_seen is_bad
  tell-Refines c d s b w h f = elim (Bool-cases (get_or (pair_key c d) false s.content.notified)) [
    | inl old ↦
        let known : b.told c d ≡ true = sym (f.told c d h) ∙ old in
        rw (old, first_notify, known, book_step) (refl, f)
    | inr new ↦
        let absent : b.told c d ≡ false = sym (f.told c d h) ∙ new in
        rw (new, first_notify, absent, book_step)
          (
            refl,
            record {
              seen = f.seen;
              told = λ c' d' h'.
                  get_or-insert (pair_key c d) (pair_key c' d') false true s.content.notified
                  ∙ ap₂ (λ x (y : Bool). if x then true else y) (pair_key-is_pair c d c' d' h h')
                      (f.told c' d' h');
              rejected = f.rejected;
              applied = f.applied;
            },
          )
  ]

  reject-Refines :
      (d : Str) (s : State) (b : Book) (w : W)
      → Refines s b
      → Agree (state_step disk (reject d) s w) (book_step (reject d) b)
  unfolding state_step mark_bad is_bad peek_seen
  reject-Refines d s b w f = (
    refl,
    record {
      seen = f.seen;
      told = f.told;
      rejected = λ d'.
          get_or-insert d d' false true s.content.bad_digests
          ∙ ap (λ y. if str_eq d d' then true else y) (f.rejected d');
      applied = f.applied;
    },
  )

  settle-Refines :
      (c d : Str) (s : State) (b : Book) (w : W)
      → IsName c
      → Refines s b
      → Agree (state_step disk (settle c d) s w) (book_step (settle c d) b)
  unfolding state_step mark_applied is_bad
  settle-Refines c d s b w h f = (
    refl,
    record {
      seen = λ c' d' h'.
          peek_seen-mark_applied disk c d c' d' s w h h'
          ∙ ap (λ y. if str_eq c' c && not (str_eq d' d) then none else y) (f.seen c' d' h');
      told = f.told;
      rejected = f.rejected;
      applied = λ c'.
          lookup-insert c c' d s.content.last_applied
          ∙ ap (λ y. if str_eq c c' then some d else y) (f.applied c');
    },
  )

  step-Refines :
      (o : Op) (s : State) (b : Book) (w : W)
      → IsNamed o
      → Refines s b
      → Agree (state_step disk o s w) (book_step o b)
  unfolding state_step
  step-Refines (see c d now) s b w h f = see-Refines c d now s b w h f
  step-Refines (tell c d) s b w h f = tell-Refines c d s b w h f
  step-Refines (reject d) s b w h f = reject-Refines d s b w f
  step-Refines (settle c d) s b w h f = settle-Refines c d s b w h f
  step-Refines (peek c d) s b w h f = (ap recorded (f.seen c d h), f)
  step-Refines (ask_bad d) s b w h f = (ap flag (f.rejected d), f)

  run-Refines :
      (os : List Op) (s : State) (b : Book) (w : W)
      → All IsNamed os
      → Refines s b
      → ((state_run disk os s w).0 ≡ (book_run os b).0)
        × Refines (state_run disk os s w).1 (book_run os b).1
  unfolding state_run
  run-Refines [] s b w h f = (refl, f)
  run-Refines (o ∷ os) s b w (h, hs) f =
      let x = state_step disk o s w in
      let y = book_step o b in
      let g = step-Refines o s b w h f in
      let rest = run-Refines os x.1 y.1 x.2 hs g.1 in (ap₂ ◌∷◌ g.0 rest.0, rest.1)

  -- The bookkeeping with nothing in it.
  abbrev pub fresh : Str → State
  fresh path = record { path = path; content = empty_data }

  -- From an empty bookkeeping, every sequence of operations on containers with names gives the
  -- answers that the abstract book gives.
  pub state_run_refines :
      (os : List Op) (path : Str) (w : W)
      → All IsNamed os
      → (state_run disk os (fresh path) w).0 ≡ (book_run os empty_book).0
  unfolding peek_seen is_bad lookup get_or
  state_run_refines os path w h =
      (run-Refines os (fresh path) empty_book w h (record {
        seen = λ c d k. refl;
        told = λ c d k. refl;
        rejected = λ d. refl;
        applied = λ c. refl;
      })).0
