-- ===== src/Registry/Creds.antt =====
-- The credential store of internal/registry/registry.go. base64 is a parameter.
pub mod Stored
use pullpilot.Prelude.{Option, none, some, List, [], ◌∷◌, ◌++◌, if◌then◌else◌}
use pullpilot.Std.Str.{Str, bytes, str_eq, is_empty, cut}
use pullpilot.Std.Dict.{Dict, lookup, insert}

unfoldable pub normalize_hub_key : Str → Str
normalize_hub_key host =
    if str_eq host (bytes "registry-1.docker.io") then bytes "https://index.docker.io/v1/" else host

-- The keys that Basic tries, in order.
unfoldable pub host_keys : Str → List Str
unfolding normalize_hub_key
host_keys host =
    host
    ∷ (bytes "https://" ++ host)
    ∷ (bytes "https://" ++ host ++ bytes "/v1/")
    ∷ normalize_hub_key host
    ∷ []

module _ (decode64 : Str → Option Str) where
  -- One round of Basic's loop; `none` goes on with the next key.
  unfoldable pub entry : Dict Str → Str → Option (Str × Str)
  entry auths key = elim (lookup key auths) [
    | none ↦ none
    | some enc ↦
        if is_empty enc then none else elim (decode64 enc) [ none ↦ none | some raw ↦ cut raw b':' ]
  ]

  unfoldable pub first_entry : Dict Str → List Str → Option (Str × Str)
  unfolding entry
  first_entry auths [] = none
  first_entry auths (key ∷ keys) =
      let rest = first_entry auths keys in elim (entry auths key) [ none ↦ rest | some c ↦ some c ]

  -- The store is there always: loadCredStore returns no nil.
  unfoldable pub basic : Dict Str → Str → Option (Str × Str)
  unfolding first_entry host_keys
  basic auths host = first_entry auths (host_keys host)

-- loadCredStore, from what reading config.json and decoding it gives.
fill : Dict Str → Dict Str → Dict Str
fill [] store = store
fill ((host, auth) ∷ auths) store = fill auths (insert host auth store)

unfoldable pub load_cred_store : Option (Option (Dict Str)) → Dict Str
unfolding fill
load_cred_store (some (some auths)) = fill auths []
load_cred_store _ = []
