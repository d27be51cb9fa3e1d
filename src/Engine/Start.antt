-- ===== src/Engine/Start.antt =====
-- New of internal/engine/engine.go, and the address that Ping's error names. Whether the Docker client
-- can be made is a call of the world.
use pullpilot.Prelude.{Bool, true, false, Option, none, some, [], if◌then◌else◌}
use pullpilot.Prelude.Exec.{Exec}
use pullpilot.Std.Str.{Str, bytes, is_empty}
use pullpilot.Config.{Config}
use pullpilot.Engine.Host.{Host, Engine}
use pullpilot.Engine.Scope.{identify_self}

-- DOCKER_HOST, or the default socket.
unfoldable pub docker_address : Str → Str
docker_address host = if is_empty host then bytes "unix:///var/run/docker.sock" else host

-- The Engine before identifySelf.
abbrev pub unidentified : Config → Engine
unidentified cfg = record { cfg = cfg; self_id = []; project = []; self_identified = false }

module _ {W : Type 0} (host : Host W) (hostname : Str) where
  unfoldable pub after_client : Config → Bool → Exec W (Option Engine)
  unfolding identify_self
  after_client cfg false w = (none, w)
  after_client cfg true w =
      let (r, w₁) = host.docker.list none w in
      (some (identify_self host.fraction hostname r (unidentified cfg)), w₁)

  unfoldable pub new_engine : Exec W Bool → Config → Exec W (Option Engine)
  unfolding after_client
  new_engine make_client cfg w = let (made, w₁) = make_client w in after_client cfg made w₁
