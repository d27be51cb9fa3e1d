-- ===== src/Tests/Restart.antt =====
-- Saving and loading the bookkeeping on a disk that is a table of files.
use mathlib.Core.Option.{some_inj}
use pullpilot.Prelude.{
  subst, ◌++◌, ◌≡◌, refl, ap, ◌⊎◌, Bool, true, false, Option, none, some, [], ◌∷◌,
}
use pullpilot.Prelude.Exec.{Result, ok, err}
use pullpilot.Std.Str.{Str, bytes, str_eq}
use pullpilot.Std.Dict.{Dict, lookup, insert}
use pullpilot.Std.Dict.Laws.{lookup-insert_other, lookup-insert_self}
use pullpilot.State.{Data, State, Disk, empty_data, save, load}
use pullpilot.State.Restart.{HoldsNew, Agrees, IsDisk, save_whole, load-save}

abbrev Files : Type 0
Files = Dict Data

open_file : Option Data → Result Bool Data
open_file none = err true
open_file (some d) = ok d

-- Renaming a file that is not there fails.
replace : Str → Option Data → Files → Bool × Files
replace q none w = (false, w)
replace q (some d) w = (true, insert q d w)

table : Disk Files
table = record {
  Content = Data;
  read = λ p w. open_file (lookup p w);
  write = λ p d w. (true, insert p d w);
  move = λ p q w. replace q (lookup p w) w;
  join = λ p q. p ++ b'/' ∷ q;
  encode = λ d. some d;
  decode = λ d. some d;
}

replace_done :
    (p q : Str) (x : Option Data) (w : Files)
    → (replace q x w).0 ≡ true
    → open_file (lookup q (replace q x w).1) ≡ open_file x
unfolding replace
replace_done p q none w h = cc h
replace_done p q (some d) w h = ap open_file (lookup-insert_self q d w)

replace_failed :
    (q : Str) (x : Option Data) (w : Files) → (replace q x w).0 ≡ false → (replace q x w).1 ≡ w
unfolding replace
replace_failed q none w h = refl
replace_failed q (some d) w h = cc h

same_data : (d : Data) → Agrees d d
same_data d = record {
  first_seen = λ k. refl;
  bad_digests = λ k. refl;
  last_applied = λ k. refl;
  notified = λ k. refl;
}

table-IsDisk : IsDisk table
unfolding table open_file
table-IsDisk = record {
  read-write = λ p c w h. ap open_file (lookup-insert_self p c w);
  write-other = λ p q c w ne. ap open_file (lookup-insert_other p q c w ne);
  read-move = λ p q w ne h. replace_done p q (lookup p w) w h;
  move_failed = λ p q r w h. ap (λ v. open_file (lookup r v)) (replace_failed q (lookup p w) w h);
  decode-encode = λ d {c} e. (c, refl, subst (Agrees d) (some_inj.0 e) (same_data d));
}

abbrev books : State
books = record {
  path = bytes "/data/state.json";
  content = record empty_data { bad_digests = (bytes "sha256:1", true) ∷ [] };
}

load-save_example :
    (s' : State) × ((load table (bytes "/data") (save table books []).1).0 ≡ ok s')
    × (s'.path ≡ books.path)
    × Agrees books.content s'.content
unfolding save table insert lookup str_eq replace
load-save_example = load-save table-IsDisk (bytes "/data") books [] refl refl

save_whole_example :
    ((d : table.Content)
      → table.read (bytes "/data/state.json") (table.write (bytes "/data/state.json.tmp") d []).1
        ≡ table.read (bytes "/data/state.json") [])
    × ((table.read (bytes "/data/state.json") (save table books []).1
          ≡ table.read (bytes "/data/state.json") [])
        ⊎ HoldsNew table-IsDisk books (save table books []).1)
save_whole_example = save_whole table-IsDisk books []
