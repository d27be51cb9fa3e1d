-- ===== src/State/Book.antt =====
-- What the bookkeeping promises: an abstract book of what was seen, told, rejected and applied, for
-- each container and digest, without keys, files or failures.
pub mod Refines
use pullpilot.Prelude.{
  Bool, true, false, not, ◌&&◌, Option, none, some, List, [], ◌∷◌, if◌then◌else◌,
}
use pullpilot.Std.Str.{Str, str_eq}
use pullpilot.State.{
  Time, State, Disk, seen_at, first_notify, mark_bad, mark_applied, peek_seen, is_bad,
}

pub record Book : Type 0 where
  pub seen : Str → Str → Option Time
  pub told : Str → Str → Bool
  pub rejected : Str → Bool
  pub applied : Str → Option Str

abbrev pub empty_book : Book
empty_book = record {
  seen = λ c d. none;
  told = λ c d. false;
  rejected = λ d. false;
  applied = λ c. none;
}

-- The operations, on a container and a digest, and their answers.
pub data Op : Type 0 where
  see : Str → Str → Time → Op
  tell : Str → Str → Op
  reject : Str → Op
  settle : Str → Str → Op
  peek : Str → Str → Op
  ask_bad : Str → Op

pub data Answer : Type 0 where
  time : Time → Answer
  flag : Bool → Answer
  recorded : Option Time → Answer
  done : Answer

abbrev pub is_pair : Str → Str → Str → Str → Bool
is_pair c d c' d' = str_eq c c' && str_eq d d'

-- What an operation should answer and change.
abbrev pub book_step : Op → Book → Answer × Book
book_step (see c d now) b = elim (b.seen c d) [
  | some t ↦ (time t, b)
  | none ↦
      (time now, record b { seen = λ c' d'. if is_pair c d c' d' then some now else b.seen c' d' })
]
book_step (tell c d) b =
    if b.told c d
    then (flag false, b)
    else (flag true, record b { told = λ c' d'. if is_pair c d c' d' then true else b.told c' d' })
book_step (reject d) b =
    (done, record b { rejected = λ d'. if str_eq d d' then true else b.rejected d' })
book_step (settle c d) b = (
  done,
  record b {
    applied = λ c'. if str_eq c c' then some d else b.applied c';
    seen = λ c' d'. if str_eq c' c && not (str_eq d' d) then none else b.seen c' d';
  },
)
book_step (peek c d) b = (recorded (b.seen c d), b)
book_step (ask_bad d) b = (flag (b.rejected d), b)

abbrev pub book_run : List Op → Book → List Answer × Book
book_run [] b = ([], b)
book_run (o ∷ os) b = let (x, b') = book_step o b in let (xs, b'') = book_run os b' in (x ∷ xs, b'')

-- What the code does.
module _ {W : Type 0} (disk : Disk W) where
  unfoldable pub state_step : Op → State → W → Answer × State × W
  state_step (see c d now) s w = let (t, s', w') = seen_at disk c d now s w in (time t, s', w')
  state_step (tell c d) s w = let (b, s', w') = first_notify disk c d s w in (flag b, s', w')
  state_step (reject d) s w = let (s', w') = mark_bad disk d s w in (done, s', w')
  state_step (settle c d) s w = let (s', w') = mark_applied disk c d s w in (done, s', w')
  state_step (peek c d) s w = (recorded (peek_seen c d s), s, w)
  state_step (ask_bad d) s w = (flag (is_bad d s), s, w)

  unfoldable pub state_run : List Op → State → W → List Answer × State × W
  unfolding state_step
  state_run [] s w = ([], s, w)
  state_run (o ∷ os) s w =
      let (x, s', w') = state_step o s w in
      let (xs, s'', w'') = state_run os s' w' in (x ∷ xs, s'', w'')
