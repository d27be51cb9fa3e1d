-- ===== src/Engine/Daemon/Toy/Laws.antt =====
-- The toy host meets the assumptions.
use pullpilot.Prelude.{
  false, Bool, Option, if◌then◌else◌, none, ◌≡◌, refl, subst, ap, ◌≢◌, true, none, some, List, [],
  ◌∷◌, arith, All,
}
use pullpilot.Prelude.Exec.{ok, err}
use pullpilot.Std.Str.{Str, str_eq}
use pullpilot.Std.Str.Laws.{str_eq_iff, str_eq_refl}
use pullpilot.Std.Dict.{Dict, lookup}
use pullpilot.Std.Dict.Laws.{lookup-insert, lookup-insert_self, lookup-delete_if}
use pullpilot.Engine.Host.{CallError, failed, Summary, Inspect}
use pullpilot.Engine.Gate.Fuel.{IsClock}
use pullpilot.Engine.Apply.Restore.Bystander.{IsExact}
use pullpilot.Engine.Cycle.Effects.{LooksKeep}
use pullpilot.Engine.Cycle.Orphans.{IsSeparate}
use pullpilot.Engine.Daemon.{IsHex, IsDaemon}
use pullpilot.Engine.Daemon.Toy.{
  ToyWorld, all_hex, all_hex-IsHex, name_in, toy_name, rename_where, rename_table,
  lookup-rename_where, remove_table, lookup-remove_table, new_id, in_use, create_table, toy_host,
}

-- The toy daemon's own errors.
abbrev is_refusal : CallError → Bool
is_refusal (failed s) = true
is_refusal _ = false

module _ (listed : List Summary) (seen : Inspect) (digests : List Str) (remote : Str) where
  rename_err :
      (ref n : Str) (t : Dict Str) {x : CallError}
      → (rename_table ref n t).0 ≡ err x
      → (rename_table ref n t).1 ≡ t
  unfolding rename_table
  rename_err ref n t h = ground arith

  rename_id :
      (id n m : Str) (t : Dict Str)
      → name_in t id ≡ some m
      → name_in (rename_table id n t).1 id ≡ some n
  unfolding rename_table name_in
  rename_id id n m t h = ground (arith, lookup-insert_self id n t)

  rename_name :
      (ref n id : Str) (t : Dict Str)
      → name_in t id ≡ some ref
      → name_in t ref ≡ none
      → (rename_table ref n t).0 ≡ ok tt
      → name_in (rename_table ref n t).1 id ≡ some n
  unfolding rename_table name_in
  rename_name ref n id t h k e = ground (arith, lookup-rename_where ref n id t)

  in_use_id :
      (x j m : Str) (t : Dict Str) → lookup j t ≡ some m → in_use x t ≡ false → (j ≢ x) × (m ≢ x)
  unfolding lookup in_use
  in_use_id x j m [] h k = cc h
  in_use_id x j m ((i, q) ∷ t) h k =
      ground (arith, str_eq_iff i j, str_eq_iff i x, str_eq_iff q x, in_use_id x j m t)

  in_use-none : (x : Str) (t : Dict Str) → in_use x t ≡ false → lookup x t ≡ none
  unfolding lookup in_use
  in_use-none x [] k = refl
  in_use-none x ((i, q) ∷ t) k = ground (arith, in_use-none x t)

  create_unnamed :
      (n id j m : Str) (t : Dict Str) → (create_table n t).0 ≡ ok id → name_in t j ≡ some m → m ≢ id
  unfolding create_table name_in
  create_unnamed n id j m t h g e = ground (arith, in_use_id new_id j m t)

  create_old :
      (n j m : Str) (t : Dict Str) → name_in t j ≡ some m → name_in (create_table n t).1 j ≡ some m
  unfolding create_table name_in lookup
  create_old n j m t h = ground (arith, str_eq_iff new_id j, in_use_id new_id j m t)

  create_new :
      (n id : Str) (t : Dict Str)
      → (create_table n t).0 ≡ ok id
      → (name_in t id ≡ none) × (name_in (create_table n t).1 id ≡ some n)
  unfolding create_table name_in all_hex lookup
  create_new n id t h = ground (arith, str_eq_refl new_id, in_use-none new_id t)

  remove_other :
      (ref j m : Str) (t : Dict Str)
      → name_in t j ≡ some m
      → j ≢ ref
      → m ≢ ref
      → name_in (remove_table ref t) j ≡ some m
  unfolding name_in
  remove_other ref j m t h a b = ground (arith, lookup-remove_table ref j m t)

  pub toy_host-IsDaemon : IsDaemon (toy_host listed seen digests remote) toy_name
  unfolding toy_host toy_name name_in
  toy_host-IsDaemon = record {
    lasting = λ id. true;
    refused = λ x. is_refusal x;
    hex = λ w id h. all_hex-IsHex id (ground arith);
    name-inspect = λ c id w j. refl;
    name-pull = λ c ref auth w j. refl;
    stop_keeps = λ c ref t w j m h ne free. h;
    stop_lasting = λ c id t w l. refl;
    name-connect = λ c net id ep w j. refl;
    name-start = λ c id w j. refl;
    name-remove_image = λ c image w j. refl;
    name-now = λ w j. refl;
    name-wait_tick = λ c t k w j. refl;
    name-write = λ path content w j. refl;
    name-move = λ path path' w j. refl;
    rename_failure = λ c ref n w j answer h. ap (λ t. name_in t j) (rename_err ref n w.table h);
    rename_by_id = λ c id n m w h e. rename_id id n m w.table h;
    rename_by_name = λ c ref n id w h k e. rename_name ref n id w.table h k e;
    create_keeps = λ c cfg h nets n w j m k. create_old n j m w.table k;
    create_fresh = λ c cfg h nets n id w e. create_new n id w.table e;
    remove_keeps = λ c ref v w j m h a b. remove_other ref j m w.table h a b;
  }

  -- No container of the toy daemon is deleted by its stop.
  pub toy_host-lasting : (id : Str) → toy_host-IsDaemon.lasting id ≡ true
  unfolding toy_host-IsDaemon
  toy_host-lasting id = refl

  pub toy_host-IsClock : IsClock (toy_host listed seen digests remote) (λ w. w.clock)
  unfolding toy_host
  toy_host-IsClock = record {
    inspect-le = λ c id w. omega arith;
    now-le = λ w. omega arith;
    tick-le = λ c t k w h. omega arith;
  }

  hex-true : (id : Str) → IsHex id → all_hex id ≡ true
  unfolding all_hex
  hex-true [] h = refl
  hex-true (c ∷ id) (hc, h) = ground (arith, hex-true id h)

  remove_separate :
      (id j : Str) (t : Dict Str) → IsHex id → j ≢ id → lookup j (remove_table id t) ≡ lookup j t
  unfolding remove_table
  remove_separate id j t h ne =
      rw (hex-true id h) (ground (arith, lookup-delete_if (λ k. str_eq k id) j t, str_eq_iff j id))

  rename_separate :
      (id n j : Str) (t : Dict Str)
      → IsHex id
      → j ≢ id
      → lookup j (rename_table id n t).1 ≡ lookup j t
  unfolding rename_table
  rename_separate id n j t h ne =
      rw (hex-true id h) (ground (arith, lookup-insert id j n t, str_eq_iff id j))

  -- Seen here: the name of a container, and whether it is in the table.
  pub toy_host-IsSeparate :
      All (λ c. IsHex c.id) listed
      → IsSeparate (toy_host listed seen digests remote) (λ w id. lookup id w.table)
  unfolding toy_host
  toy_host-IsSeparate hex = record {
    view-list = λ f w j. refl;
    list-hex = λ f w cs e. subst (All (λ c. IsHex c.id)) (cc) hex;
    view-remove = λ c id v w j h ne. remove_separate id j w.table h ne;
    view-rename = λ c id n w j h ne. rename_separate id n j w.table h ne;
    view-start = λ c id w j h ne. refl;
  }

  rename_where_other :
      (ref n j m : Str) (t : Dict Str)
      → lookup j t ≡ some m
      → m ≢ ref
      → lookup j (rename_where ref n t) ≡ some m
  unfolding lookup rename_where
  rename_where_other ref n j m [] h ne = cc h
  rename_where_other ref n j m ((i, q) ∷ t) h ne =
      ground (arith, str_eq_iff i j, str_eq_iff q ref, rename_where_other ref n j m t)

  rename_table_other :
      (ref n j m : Str) (t : Dict Str)
      → name_in t j ≡ some m
      → j ≢ ref
      → m ≢ ref
      → name_in (rename_table ref n t).1 j ≡ some m
  unfolding rename_table name_in
  rename_table_other ref n j m t h a b =
      ground (arith, rename_where_other ref n j m t, lookup-insert ref j n t, str_eq_iff ref j)

  pub toy_host-IsExact : IsExact (toy_host listed seen digests remote) toy_name
  unfolding toy_host toy_name
  toy_host-IsExact = record {
    rename_other = λ c ref n w j m h a b. rename_table_other ref n j m w.table h a b;
    create_unnamed =
        λ c cfg h nets n id w j m good there. create_unnamed n id j m w.table good there;
  }

  -- The same for the names of containers.
  pub toy_name-IsSeparate :
      All (λ c. IsHex c.id) listed → IsSeparate (toy_host listed seen digests remote) toy_name
  unfolding toy_host toy_name name_in
  toy_name-IsSeparate hex =
      let if_hex = λ (j : Str) (x : Option Str). if all_hex j then x else none in
      record {
        view-list = λ f w j. refl;
        list-hex = λ f w cs e. subst (All (λ c. IsHex c.id)) (cc) hex;
        view-remove = λ c id v w j h ne. ap (if_hex j) (remove_separate id j w.table h ne);
        view-rename = λ c id n w j h ne. ap (if_hex j) (rename_separate id n j w.table h ne);
        view-start = λ c id w j h ne. refl;
      }

  -- Looking keeps everything.
  pub toy_host-LooksKeep :
      (P : ToyWorld → Type 0) → LooksKeep (toy_host listed seen digests remote) P
  unfolding toy_host
  toy_host-LooksKeep P = record {
    list-P = λ f w h. h;
    inspect-P = λ c id w h. h;
    repo_digests-P = λ i w h. h;
    head-P = λ u b w h. h;
    token-P = λ r s p b w h. h;
    now-P = λ w h. h;
  }
