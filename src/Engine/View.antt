-- ===== src/Engine/View.antt =====
-- short, dash, trimName and stateText of internal/engine/engine.go.
use pullpilot.Prelude.{List, [], ◌∷◌, ◌++◌, ltb, length, take, if◌then◌else◌}
use pullpilot.Prelude.Int.{ℤ}
use pullpilot.Std.Str.{Str, bytes, is_empty, trim_prefix}

-- type Action
pub data Action : Type 0 where
  up_to_date skip monitor soaking update : Action

unfoldable pub dash : Str → Str
dash s = if is_empty s then bytes "-" else s

unfoldable pub short : Str → Str
short digest =
    let d = trim_prefix digest (bytes "sha256:") in if ltb 12 (length d) then take 12 d else d

unfoldable pub trim_name : List Str → Str
trim_name [] = []
trim_name (n ∷ ns) = trim_prefix n (bytes "/")

-- `show_minutes` prints a duration rounded to a minute.
unfoldable pub state_text : (ℤ → Str) → Action → Str → ℤ → Str
state_text show_minutes up_to_date reason left = bytes "up to date"
state_text show_minutes update reason left = bytes "update ready"
state_text show_minutes soaking reason left =
    bytes "soaking (" ++ show_minutes left ++ bytes " left)"
state_text show_minutes monitor reason left = bytes "update available (" ++ reason ++ bytes ")"
state_text show_minutes skip reason left = reason
