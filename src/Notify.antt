-- ===== src/Notify.antt =====
-- internal/notify/notify.go: New and Notify. shoutrrr is a parameter: `create_sender` tells whether it
-- accepts a URL, and the errors of a delivery are its answer.
use pullpilot.Prelude.{Bool, true, false, Option, none, some, List, [], ◌∷◌, ◌++◌, if◌then◌else◌}
use pullpilot.Std.Str.{Str, bytes, is_empty}

-- The URL of the sender; `none` where notifications are disabled.
pub record Notifier : Type 0 where
  pub sender : Option Str

-- A message handed to the sender: its title parameter and its body.
pub record Message : Type 0 where
  pub title : Str
  pub body : Str

-- New: the notifier, and whether it warns of a URL that shoutrrr does not take.
unfoldable pub new_notifier : (Str → Bool) → Str → Notifier × Bool
new_notifier create_sender url =
    if is_empty url
    then (record { sender = none }, false)
    else if create_sender url
    then (record { sender = some url }, false)
    else (record { sender = none }, true)

-- "PullPilot · "
abbrev pub title_prefix : Str
title_prefix = bytes "PullPilot " ++ (194 ∷ 183 ∷ b' ' ∷ [])

-- Notify: what goes to which sender, in the background.
unfoldable pub deliver : Notifier → Str → Str → List (Str × Message)
deliver n title body = elim n.sender [
  | none ↦ []
  | some url ↦ (url, record { title = title_prefix ++ title; body = body }) ∷ []
]
