-- ===== src/Engine/Network.antt =====
-- buildNetworking and endpointFrom of internal/engine/engine.go.
pub mod Laws
use pullpilot.Prelude.{
  Bool, true, false, Option, none, some, List, [], ◌∷◌, ltb, if◌then◌else◌, ◌==◌, ℕ, map,
}
use pullpilot.Std.Str.{Str}
use pullpilot.Std.Dict.{Dict}
use pullpilot.Engine.Host.{Endpoint, Networks}

-- The order of Go's strings: bytewise, a proper prefix first.
unfoldable pub str_le : Str → Str → Bool
str_le [] t = true
str_le (a ∷ s) [] = false
str_le (a ∷ s) (b ∷ t) =
    let rest = str_le s t in if ltb a b then true else if a == b then rest else false

-- sort.Strings on the names, each with its endpoint.
unfoldable pub insert_by_name : Str × Option Endpoint → Networks → Networks
insert_by_name x [] = x ∷ []
insert_by_name x (y ∷ ys) =
    let rest = insert_by_name x ys in if str_le x.0 y.0 then x ∷ y ∷ ys else y ∷ rest

unfoldable pub sort_by_name : Networks → Networks
unfolding insert_by_name
sort_by_name [] = []
sort_by_name (x ∷ xs) = insert_by_name x (sort_by_name xs)

-- Runtime fields are not copied.
unfoldable pub endpoint_from : Option Endpoint → Endpoint
endpoint_from none = record {
  aliases = [];
  links = [];
  ipam_config = [];
  driver_opts = [];
  assigned = [];
}
endpoint_from (some ep) = record {
  aliases = ep.aliases;
  links = ep.links;
  ipam_config = ep.ipam_config;
  driver_opts = ep.driver_opts;
  assigned = [];
}

abbrev pub carry : Str × Option Endpoint → Str × Endpoint
carry x = (x.0, endpoint_from x.1)

unfoldable pub split_primary : Networks → Dict Endpoint × Dict Endpoint
split_primary [] = ([], [])
split_primary (x ∷ xs) = (carry x ∷ [], map carry xs)

-- The endpoints for the create call, and those to connect afterwards.
unfoldable pub build_networking : Option Networks → Dict Endpoint × Dict Endpoint
unfolding split_primary sort_by_name
build_networking none = ([], [])
build_networking (some ns) = split_primary (sort_by_name ns)
