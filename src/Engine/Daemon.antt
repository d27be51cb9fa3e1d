-- ===== src/Engine/Daemon.antt =====
-- The documented behaviour of the Docker daemon that the update relies on, for names. `name w id`
-- is the name of the container with that id, if there is one. A reference is a whole id or a whole
-- name, as the program passes them; that Docker also takes the beginning of an id is left aside. No
-- one else acts on the containers while the update runs, and none with AutoRemove ends by itself.
pub mod Toy
use pullpilot.Prelude.{ℕ, ◌≡◌, ◌≢◌, Bool, true, ◌||◌, ◌&&◌, leb, Option, none, some, List, [], All}
use pullpilot.Prelude.Int.{ℤ}
use pullpilot.Prelude.Exec.{Result, ok, err}
use pullpilot.Std.Str.{Str}
use pullpilot.Std.Dict.{Dict}
use pullpilot.State.{Time, Disk}
use pullpilot.Engine.Host.{CallError, Context, Endpoint, ContainerConfig, Payload, Host}

abbrev pub is_hex : ℕ → Bool
is_hex c = (leb b'0' c && leb c b'9') || (leb b'a' c && leb c b'f')

abbrev pub IsHex : Str → Type 0
IsHex = All (λ c. is_hex c ≡ true)

pub record IsDaemon {W : Type 0} (host : Host W) (name : W → Str → Option Str) : Type 0 where
  -- The container with the id was not made with AutoRemove, so it stays when it stops.
  pub lasting : Str → Bool
  -- The error is the daemon's refusal. After any other error (a context that ended, a connection that
  -- broke) the call may have been carried out.
  pub refused : CallError → Bool
  -- Ids are hexadecimal.
  pub hex : (w : W) (id : Str) {n : Str} → name w id ≡ some n → IsHex id
  -- These calls change no name, and neither do the clock, the ticker and the disk.
  pub name-inspect :
      (c : Context) (id : Str) (w : W) (j : Str) → name (host.docker.inspect c id w).1 j ≡ name w j
  pub name-pull :
      (c : Context) (ref auth : Str) (w : W) (j : Str)
      → name (host.docker.pull c ref auth w).1 j ≡ name w j
  pub name-connect :
      (c : Context) (net id : Str) (ep : Endpoint) (w : W) (j : Str)
      → name (host.docker.connect c net id ep w).1 j ≡ name w j
  pub name-start :
      (c : Context) (id : Str) (w : W) (j : Str) → name (host.docker.start c id w).1 j ≡ name w j
  pub name-remove_image :
      (c : Context) (image : Str) (w : W) (j : Str)
      → name (host.docker.remove_image c image w).1 j ≡ name w j
  pub name-now : (w : W) (j : Str) → name (host.now w).1 j ≡ name w j
  pub name-wait_tick :
      (c : Context) (t : Time) (k : ℕ) (w : W) (j : Str)
      → name (host.wait_tick c t k w).1 j ≡ name w j
  pub name-write :
      (path : Str) (content : host.disk.Content) (w : W) (j : Str)
      → name (host.disk.write path content w).1 j ≡ name w j
  pub name-move :
      (path path' : Str) (w : W) (j : Str) → name (host.disk.move path path' w).1 j ≡ name w j
  -- A stop touches only what its reference is the id or the name of, and a container that is lasting
  -- keeps its name.
  pub stop_keeps :
      (c : Context) (ref : Str) (t : Option ℤ) (w : W) (j m : Str)
      → name w j ≡ some m
      → j ≢ ref
      → m ≢ ref
      → name (host.docker.stop c ref t w).1 j ≡ some m
  pub stop_lasting :
      (c : Context) (id : Str) (t : Option ℤ) (w : W)
      → lasting id ≡ true
      → name (host.docker.stop c id t w).1 id ≡ name w id
  -- A refused rename changes nothing. A reference is looked up as an id, and then as a name.
  pub rename_failure :
      (c : Context) (ref n : Str) (w : W) (j : Str) {x : CallError}
      → refused x ≡ true
      → (host.docker.rename c ref n w).0 ≡ err x
      → name (host.docker.rename c ref n w).1 j ≡ name w j
  pub rename_by_id :
      (c : Context) (id n m : Str) (w : W)
      → name w id ≡ some m
      → (host.docker.rename c id n w).0 ≡ ok tt
      → name (host.docker.rename c id n w).1 id ≡ some n
  pub rename_by_name :
      (c : Context) (ref n id : Str) (w : W)
      → name w id ≡ some ref
      → name w ref ≡ none
      → (host.docker.rename c ref n w).0 ≡ ok tt
      → name (host.docker.rename c ref n w).1 id ≡ some n
  -- A create leaves the containers there are, and its container is a new one under the name.
  pub create_keeps :
      (c : Context) (cfg : ContainerConfig) (h : Payload) (nets : Dict Endpoint) (n : Str) (w : W)
      (j m : Str)
      → name w j ≡ some m
      → name (host.docker.create c cfg h nets n w).1 j ≡ some m
  pub create_fresh :
      (c : Context) (cfg : ContainerConfig) (h : Payload) (nets : Dict Endpoint) (n id : Str)
      (w : W)
      → (host.docker.create c cfg h nets n w).0 ≡ ok id
      → (name w id ≡ none) × (name (host.docker.create c cfg h nets n w).1 id ≡ some n)
  -- A remove touches only what its reference is the id or the name of.
  pub remove_keeps :
      (c : Context) (ref : Str) (v : Bool) (w : W) (j m : Str)
      → name w j ≡ some m
      → j ≢ ref
      → m ≢ ref
      → name (host.docker.remove c ref v w).1 j ≡ some m
