-- ===== src/State/Alike.antt =====
-- Bookkeepings that differ only by first-seen times that are the time now.
use pullpilot.Prelude.{◌≡◌, sym, ap, ◌∙◌, Option, none, some, Option-cases, inl, inr}
use pullpilot.Std.Str.{Str}
use pullpilot.Std.Str.Laws.{str_eq-cases}
use pullpilot.Std.Dict.{Dict, lookup, insert}
use pullpilot.Std.Dict.Laws.{lookup-insert}
use pullpilot.State.{Time, State, Disk, pair_key, seen_at, peek_seen}

-- The recorded time, or else the time now.
unfoldable pub time_or : Time → Option Time → Time
time_or now none = now
time_or now (some t) = t

-- With the time `now`, both bookkeepings give the same first-seen times and the same rejections.
pub record Alike (now : Time) (s s' : State) : Type 0 where
  pub seen :
      (k : Str)
      → time_or now (lookup k s'.content.first_seen) ≡ time_or now (lookup k s.content.first_seen)
  pub bad : s'.content.bad_digests ≡ s.content.bad_digests

-- Recording the time now does not show.
insert_now :
    (now : Time) (k j : Str) (m : Dict Time)
    → lookup k m ≡ none
    → time_or now (lookup j (insert k now m)) ≡ time_or now (lookup j m)
unfolding time_or
insert_now now k j m new = elim (str_eq-cases k j) [
  | inl (same, p) ↦ rw (lookup-insert k j now m, same, ← p, new)
  | inr (other, n) ↦ rw (lookup-insert k j now m, other)
]

pub seen_at-Alike :
    {W : Type 0} (disk : Disk W) (key digest : Str) (now : Time) (s s' : State) (w : W)
    → Alike now s s'
    → (time_or now (peek_seen key digest s) ≡ (seen_at disk key digest now s' w).0)
      × Alike now s (seen_at disk key digest now s' w).1
unfolding seen_at peek_seen time_or
seen_at-Alike disk key digest now s s' w a =
    let k = pair_key key digest in
    elim (Option-cases (lookup k s'.content.first_seen)) [
      | inl new ↦
          let first : time_or now (lookup k s.content.first_seen) ≡ now =
            sym (a.seen k) ∙ ap (time_or now) new in
          rw (new, seen_at)
            (
              first,
              record {
                seen = λ j. insert_now now k j s'.content.first_seen new ∙ a.seen j;
                bad = a.bad;
              },
            )
      | inr (t, old) ↦ rw (old, seen_at) (sym (a.seen k) ∙ ap (time_or now) old, a)
    ]
