-- ===== src/State/Looks.antt =====
-- What Load keeps of the world.
use pullpilot.Prelude.{Option, none, some, Bool-cases, inl, inr, ◌++◌}
use pullpilot.Prelude.Exec.{Keeps, Result-cases}
use pullpilot.Std.Str.{Str, bytes}
use pullpilot.State.{Data, Disk, loaded, load, state_path}

module _ {W : Type 0} (disk : Disk W) (P : W → Type 0)
    (move-P : (p q : Str) → Keeps P (disk.move p q)) where
  loaded-P : (path : Str) (x : Option Data) → Keeps P (loaded disk path x)
  unfolding loaded
  loaded-P path (some d) w h = h
  loaded-P path none w h = move-P path (path ++ bytes ".corrupt") w h

  -- Load reads, and moves a corrupt file aside.
  pub load-P : (dir : Str) → Keeps P (load disk dir)
  unfolding load
  load-P dir w h = elim (Result-cases (disk.read (state_path disk dir) w)) [
    | inl (c, e) ↦ rw (e, load) (loaded-P (state_path disk dir) (disk.decode c) w h)
    | inr (missing, e) ↦ elim (Bool-cases missing) [
      | inl new ↦ rw (e, load, new) h
      | inr old ↦ rw (e, load, old) h
    ]
  ]
