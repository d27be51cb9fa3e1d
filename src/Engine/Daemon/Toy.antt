-- ===== src/Engine/Daemon/Toy.antt =====
-- A host: a table of containers and a clock, and fixed answers.
pub mod Laws
use pullpilot.Prelude.Int.{ℤ, pos, sub_ℕ, neg_part}
use pullpilot.Prelude.{
  ◌++◌, false, ◌/◌, ℕ, ◌+◌, ◌*◌, ◌≡◌, refl, subst, ap, ◌≢◌, inl, inr, Bool, true, ◌&&◌, ◌||◌,
  Option, none, some, List, [], ◌∷◌, arith, if◌then◌else◌, Bool-cases, All,
}
use Prim.Native.Nat.{max}
use pullpilot.Prelude.Exec.{Result, ok, err, Exec}
use pullpilot.Std.Str.{Str, bytes, str_eq}
use pullpilot.Std.Str.Laws.{str_eq_iff, str_eq_refl}
use pullpilot.Std.Dict.{Dict, lookup, insert, delete_if}
use pullpilot.Std.Dict.Laws.{lookup-insert, lookup-insert_self, lookup-delete_if}
use pullpilot.Std.Num.{second, hour, exact}
use pullpilot.State.{Data}
use pullpilot.Engine.Host.{CallError, failed, Summary, Inspect, Docker, Host}
use pullpilot.Engine.Gate.Fuel.{IsClock}
use pullpilot.Engine.Cycle.Effects.{LooksKeep}
use pullpilot.Engine.Cycle.Orphans.{IsSeparate}
use pullpilot.Engine.Daemon.{is_hex, IsHex, IsDaemon}

pub record ToyWorld : Type 0 where
  -- id and name
  pub table : Dict Str
  pub clock : ℕ

all_hex : Str → Bool
all_hex [] = true
all_hex (c ∷ s) = is_hex c && all_hex s

all_hex-IsHex : (s : Str) → all_hex s ≡ true → IsHex s
unfolding all_hex
all_hex-IsHex [] h = tt
all_hex-IsHex (c ∷ s) h = (ground arith, all_hex-IsHex s (ground arith))

name_in : Dict Str → Str → Option Str
name_in t id = if all_hex id then lookup id t else none

unfoldable pub toy_name : ToyWorld → Str → Option Str
unfolding name_in all_hex
toy_name w id = name_in w.table id

-- Rename by name, and remove by id or name.
rename_where : Str → Str → Dict Str → Dict Str
rename_where ref n [] = []
rename_where ref n ((i, m) ∷ t) = (i, (if str_eq m ref then n else m)) ∷ rename_where ref n t

remove_where : Str → Dict Str → Dict Str
remove_where ref [] = []
remove_where ref ((i, m) ∷ t) =
    let rest = remove_where ref t in if str_eq i ref || str_eq m ref then rest else (i, m) ∷ rest

-- A reference in hexadecimal is an id, any other a name.
rename_table : Str → Str → Dict Str → Result CallError (Unit {0}) × Dict Str
unfolding rename_where all_hex
rename_table ref n t =
    if all_hex ref
    then elim (lookup ref t) [
      | some m ↦ (ok tt, insert ref n t)
      | none ↦ (err (failed (bytes "no such container")), t)
    ]
    else (ok tt, rename_where ref n t)

lookup-rename_where :
    (ref n id : Str) (t : Dict Str)
    → lookup id t ≡ some ref
    → lookup id (rename_where ref n t) ≡ some n
unfolding lookup rename_where
lookup-rename_where ref n id [] h = cc
lookup-rename_where ref n id ((i, m) ∷ t) h = elim (Bool-cases (str_eq i id)) [
  | inl e ↦ ground (arith, str_eq_iff m ref)
  | inr c ↦ ground (arith, lookup-rename_where ref n id t)
]

lookup-remove_where :
    (ref j m : Str) (t : Dict Str)
    → lookup j t ≡ some m
    → j ≢ ref
    → m ≢ ref
    → lookup j (remove_where ref t) ≡ some m
unfolding lookup remove_where
lookup-remove_where ref j m [] h a b = cc
lookup-remove_where ref j m ((i, k) ∷ t) h a b =
    ground
      (arith, str_eq_iff i j, str_eq_iff i ref, str_eq_iff k ref, lookup-remove_where ref j m t)

remove_table : Str → Dict Str → Dict Str
unfolding remove_where all_hex
remove_table ref t = if all_hex ref then delete_if (λ k. str_eq k ref) t else remove_where ref t

lookup-remove_table :
    (ref j m : Str) (t : Dict Str)
    → lookup j t ≡ some m
    → j ≢ ref
    → m ≢ ref
    → lookup j (remove_table ref t) ≡ some m
unfolding remove_table
lookup-remove_table ref j m t h a b = ground (
  arith,
  lookup-remove_where ref j m t,
  lookup-delete_if (λ k. str_eq k ref) j t,
  str_eq_iff j ref,
)

-- The id of the container that a create makes.
abbrev pub new_id : Str
new_id = bytes "c0ffee"

-- It is an id or a name.
unfoldable pub in_use : Str → Dict Str → Bool
in_use x [] = false
in_use x ((i, m) ∷ t) = let rest = in_use x t in str_eq i x || str_eq m x || rest

create_table : Str → Dict Str → Result CallError Str × Dict Str
create_table n t =
    if in_use new_id t then (err (failed (bytes "no id left")), t) else (ok new_id, (new_id, n) ∷ t)

-- Towards zero.
unfoldable pub truncated : ℤ → ℤ
truncated (pos n) = pos (n / second)
truncated d = sub_ℕ 0 (neg_part d / second)

abbrev done : {A : Type 0} → A → Exec ToyWorld (Result CallError A)
done a w = (ok a, w)

-- Every inspection, image and registry answers as the arguments say.
module _ (listed : List Summary) (seen : Inspect) (digests : List Str) (remote : Str) where
  pub toy_docker : Docker ToyWorld
  unfolding rename_table create_table remove_table
  toy_docker = record {
    list = λ filter. done listed;
    inspect = λ c id. done seen;
    repo_digests = λ image. done digests;
    pull = λ c ref auth. done tt;
    stop = λ c id t. done tt;
    rename = λ c ref n w. let (r, t) = rename_table ref n w.table in (r, record w { table = t });
    create = λ c cfg h nets n w. let (r, t) = create_table n w.table in (r, record w { table = t });
    connect = λ c net id ep. done tt;
    start = λ c id. done tt;
    remove = λ c ref v w. (ok tt, record w { table = remove_table ref w.table });
    remove_image = λ c image. done tt;
  }

  unfoldable pub toy_host : Host ToyWorld
  unfolding toy_docker
  toy_host = record {
    docker = toy_docker;
    http = record {
      head = λ url bearer w.
          (some (record { status = 200; content_digest = remote; www_authenticate = [] }), w);
      token = λ realm service scope basic w. (none, w);
    };
    disk = record {
      Content = Data;
      read = λ path w. err true;
      write = λ path content w. (true, w);
      move = λ path path' w. (true, w);
      join = λ p q. p ++ b'/' ∷ q;
      encode = λ d. some d;
      decode = λ d. some d;
    };
    now = λ w. (w.clock, w);
    wait_tick = λ c t k w. (ok tt, record w { clock = max w.clock (t + k * (2 * second)) });
    parse_named = λ s. some (record {
      domain = bytes "docker.io";
      path = bytes "library/web";
      digest = none;
      tag = none;
    });
    basic = λ h. none;
    encode_auth = λ u p h. none;
    whole_seconds = truncated;
    fraction = exact;
  }
