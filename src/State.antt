-- ===== src/State.antt =====
-- internal/state/state.go: the bookkeeping, in memory and on disk.
-- The file system and encoding/json are parameters: `Disk W` over the states `W` of the world.
pub mod Soak
pub mod Restart
pub mod Looks
pub mod Book
pub mod Alike
use pullpilot.Prelude.{
  ℕ, zero, suc, ◌+◌, ◌<◌, Bool, true, false, not, ◌&&◌, Option, none, some, List, [], ◌∷◌, ◌++◌,
  ltb, length, take, if◌then◌else◌,
}
use pullpilot.Prelude.Exec.{Result, ok, err}
use pullpilot.Std.Str.{Str, bytes, str_eq}
use pullpilot.Std.Dict.{Dict, lookup, insert, delete_if, get_or}

-- time.Time: nanoseconds since Go's zero time.
abbrev pub Time : Type 0
Time = ℕ

-- The fields of State that are written to disk.
pub record Data : Type 0 where
  pub first_seen : Dict Time
  pub bad_digests : Dict Bool
  pub last_applied : Dict Str
  pub notified : Dict Bool

pub record State : Type 0 where
  pub path : Str
  pub content : Data

-- What the code asks of packages os and filepath and of encoding/json. A `Content` is the bytes of a file.
-- `decode` answers `none` where Unmarshal fails; a missing JSON field is an empty map.
pub record Disk (W : Type 0) : Type 1 where
  -- filepath.Join
  pub join : Str → Str → Str
  pub Content : Type 0
  pub read : Str → W → Result Bool Content
  pub write : Str → Content → W → Bool × W
  pub move : Str → Str → W → Bool × W
  -- MarshalIndent; `none` is its error
  pub encode : Data → Option Content
  pub decode : Content → Option Data

abbrev pub empty_data : Data
empty_data = record { first_seen = []; bad_digests = []; last_applied = []; notified = [] }

abbrev pub tmp_path : Str → Str
tmp_path path = path ++ bytes ".tmp"

-- container/digest
abbrev pub pair_key : Str → Str → Str
pair_key key digest = key ++ bytes "/" ++ digest

-- The error values of Load: reading failed (and the file exists), or the file is corrupt.
pub data LoadError : Type 0 where
  unreadable : LoadError
  corrupt : LoadError

-- The test by which MarkApplied prunes a key of FirstSeen.
unfoldable pub stale : Str → Str → Str → Bool
stale key digest k =
    ltb (length key) (length k)
    && str_eq (take (length key + 1) k) (key ++ bytes "/")
    && not (str_eq k (pair_key key digest))

module _ {W : Type 0} (disk : Disk W) where
  open disk use {Content, read, write, move, encode, decode}

  abbrev pub state_path : Str → Str
  state_path dir = disk.join dir (bytes "state.json")

  save_encoded : Str → Option Content → W → Bool × W
  save_encoded path none w = (false, w)
  save_encoded path (some c) w =
      let (written, w₁) = write (tmp_path path) c w in
      if written then move (tmp_path path) path w₁ else (false, w₁)

  -- The result tells whether no error was returned; every caller drops it.
  unfoldable pub save : State → W → Bool × W
  unfolding save_encoded
  save s = save_encoded s.path (encode s.content)

  loaded : Str → Option Data → W → Result LoadError State × W
  loaded path (some d) w = (ok (record { path = path; content = d }), w)
  loaded path none w = (err corrupt, (move path (path ++ bytes ".corrupt") w).1)

  -- A reading error is `true` where os.IsNotExist holds of it.
  unfoldable pub load : Str → W → Result LoadError State × W
  unfolding loaded
  load dir w = elim (read (state_path dir) w) [
    | err missing ↦
        if missing
        then (ok (record { path = state_path dir; content = empty_data }), w)
        else (err unreadable, w)
    | ok content ↦ loaded (state_path dir) (decode content) w
  ]

  -- Each operation returns its result, the new bookkeeping and the world after the save.
  unfoldable pub first_notify : Str → Str → State → W → Bool × State × W
  unfolding save
  first_notify key digest s w =
      let k = pair_key key digest in
      if get_or k false s.content.notified
      then (false, s, w)
      else let s' : State = record s {
        content = record s.content { notified = insert k true s.content.notified };
      } in
        (true, s', (save s' w).1)

  unfoldable pub seen_at : Str → Str → Time → State → W → Time × State × W
  unfolding save
  seen_at key digest now s w =
      let k = pair_key key digest in
      elim (lookup k s.content.first_seen) [
        | some t ↦ (t, s, w)
        | none ↦
            let s' : State = record s {
              content = record s.content { first_seen = insert k now s.content.first_seen };
            } in
            (now, s', (save s' w).1)
      ]

  unfoldable pub mark_bad : Str → State → W → State × W
  unfolding save
  mark_bad digest s w =
      let s' : State = record s {
        content = record s.content { bad_digests = insert digest true s.content.bad_digests };
      } in
      (s', (save s' w).1)

  unfoldable pub mark_applied : Str → Str → State → W → State × W
  unfolding save stale
  mark_applied key digest s w =
      let s' : State = record s {
        content = record s.content {
          last_applied = insert key digest s.content.last_applied;
          first_seen = delete_if (stale key digest) s.content.first_seen;
        };
      } in
      (s', (save s' w).1)

unfoldable pub peek_seen : Str → Str → State → Option Time
peek_seen key digest s = lookup (pair_key key digest) s.content.first_seen

unfoldable pub is_bad : Str → State → Bool
is_bad digest s = get_or digest false s.content.bad_digests
