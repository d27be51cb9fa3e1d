-- ===== src/State/Restart.antt =====
-- save and Load of internal/state/state.go against the file system: what a restart finds.
use pullpilot.Prelude.{
  ◌≡◌, ◌≢◌, sym, ap, subst, ◌∙◌, ◌⊎◌, inl, inr, true, false, some, Option-cases, length,
  length-append, Bool-cases, arith,
}
use pullpilot.Prelude.Exec.{ok}
use pullpilot.Std.Str.{Str, bytes}
use pullpilot.Std.Dict.{lookup}
use pullpilot.State.{Data, State, Disk, state_path, tmp_path, save, loaded, load}

-- The four maps have the same entries.
pub record Agrees (d d' : Data) : Type 0 where
  pub first_seen : (k : Str) → lookup k d'.first_seen ≡ lookup k d.first_seen
  pub bad_digests : (k : Str) → lookup k d'.bad_digests ≡ lookup k d.bad_digests
  pub last_applied : (k : Str) → lookup k d'.last_applied ≡ lookup k d.last_applied
  pub notified : (k : Str) → lookup k d'.notified ≡ lookup k d.notified

-- A written file holds what was written, and no other file changes. A rename that succeeds replaces
-- the target by the source; one that fails changes nothing. JSON keeps the entries of a map.
pub record IsDisk {W : Type 0} (disk : Disk W) : Type 0 where
  pub read-write :
      (p : Str) (c : disk.Content) (w : W)
      → (disk.write p c w).0 ≡ true
      → disk.read p (disk.write p c w).1 ≡ ok c
  pub write-other :
      (p q : Str) (c : disk.Content) (w : W)
      → p ≢ q
      → disk.read q (disk.write p c w).1 ≡ disk.read q w
  pub read-move :
      (p q : Str) (w : W)
      → p ≢ q
      → (disk.move p q w).0 ≡ true
      → disk.read q (disk.move p q w).1 ≡ disk.read p w
  pub move_failed :
      (p q r : Str) (w : W)
      → (disk.move p q w).0 ≡ false
      → disk.read r (disk.move p q w).1 ≡ disk.read r w
  pub decode-encode :
      (d : Data) {c : disk.Content}
      → disk.encode d ≡ some c
      → (d' : Data) × (disk.decode c ≡ some d') × Agrees d d'

tmp_path-ne : (p : Str) → tmp_path p ≢ p
tmp_path-ne p e = absurd (omega (arith, length-append p (bytes ".tmp"), ap length e))

module _ {W : Type 0} {disk : Disk W} (d : IsDisk disk) where
  -- The file holds the encoded bookkeeping.
  abbrev pub HoldsNew : State → W → Type 0
  HoldsNew s w = (c : disk.Content) × (disk.encode s.content ≡ some c) × (disk.read s.path w ≡ ok c)

  saved : (s : State) (w : W) → (save disk s w).0 ≡ true → HoldsNew s (save disk s w).1
  unfolding save
  saved s w h = elim (Option-cases (disk.encode s.content)) [
    | inl no_text ↦ cc (rw (no_text, save) at h)
    | inr (c, encoded) ↦
        let x = disk.write (tmp_path s.path) c w in
        elim (Bool-cases x.0) [
          | inl written ↦ (
            c,
            encoded,
            rw (encoded, written, save)
                (d.read-move (tmp_path s.path) s.path x.1 (tmp_path-ne s.path)
                    (rw (encoded, written, save) at h)
                  ∙ d.read-write (tmp_path s.path) c w written),
          )
          | inr not_written ↦ cc (rw (encoded, not_written, save) at h)
        ]
  ]

  after_save :
      (s : State) (w : W)
      → (disk.read s.path (save disk s w).1 ≡ disk.read s.path w) ⊎ HoldsNew s (save disk s w).1
  unfolding save
  after_save s w = elim (Bool-cases (save disk s w).0) [
    | inl whole ↦ inr (saved s w whole)
    | inr failed ↦ elim (Option-cases (disk.encode s.content)) [
      | inl no_text ↦ inl (rw (no_text, save))
      | inr (c, encoded) ↦
          let x = disk.write (tmp_path s.path) c w in
          let apart = d.write-other (tmp_path s.path) s.path c w (tmp_path-ne s.path) in
          elim (Bool-cases x.0) [
            | inl written ↦ inl (
                rw (encoded, written, save)
                  (d.move_failed (tmp_path s.path) s.path s.path x.1
                      (rw (encoded, written, save) at failed)
                    ∙ apart))
            | inr not_written ↦ inl (rw (encoded, not_written, save) apart)
          ]
    ]
  ]

  load-found :
      (dir : Str) (c : disk.Content) (d' : Data) (w : W)
      → disk.read (state_path disk dir) w ≡ ok c
      → disk.decode c ≡ some d'
      → (load disk dir w).0 ≡ ok (record { path = state_path disk dir; content = d' })
  unfolding load loaded
  load-found dir c d' w found decoded = rw (found, load, decoded, loaded)

  -- At each step of a save and after it, whether its calls succeed or not, the state file is as it
  -- was before or holds the whole new bookkeeping as it is encoded.
  pub save_whole :
      (s : State) (w : W)
      → ((c : disk.Content)
          → disk.read s.path (disk.write (tmp_path s.path) c w).1 ≡ disk.read s.path w)
        × ((disk.read s.path (save disk s w).1 ≡ disk.read s.path w) ⊎ HoldsNew s (save disk s w).1)
  save_whole s w =
      (λ c. d.write-other (tmp_path s.path) s.path c w (tmp_path-ne s.path), after_save s w)

  -- A load after a save that succeeded finds the saved bookkeeping: a state with the same path and the
  -- same entries in its four maps.
  pub load-save :
      (dir : Str) (s : State) (w : W)
      → s.path ≡ state_path disk dir
      → (save disk s w).0 ≡ true
      → (s' : State) × ((load disk dir (save disk s w).1).0 ≡ ok s')
        × (s'.path ≡ s.path)
        × Agrees s.content s'.content
  unfolding load loaded
  load-save dir s w at_dir h =
      let (c, encoded, holds) = saved s w h in
      let (d', decoded, agrees) = d.decode-encode s.content encoded in
      let found : disk.read (state_path disk dir) (save disk s w).1 ≡ ok c =
        subst (λ p. disk.read p (save disk s w).1 ≡ ok c) at_dir holds in
      (
        record { path = state_path disk dir; content = d' },
        load-found dir c d' (save disk s w).1 found decoded,
        sym at_dir,
        agrees,
      )
