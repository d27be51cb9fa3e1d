-- ===== src/Webhook/Identity/Again.antt =====
-- New of internal/webhook/webhook.go after a New that succeeded.
use pullpilot.Prelude.{◌≡◌, refl, sym, ap, subst, ◌∙◌, true, false, some}
use pullpilot.Prelude.Exec.{Result, ok, err}
use pullpilot.Std.Str.{Str, is_empty}
use pullpilot.Webhook.Identity.{
  Registration, Machine, Client, SetupError, key_path, reg_path, clean_base, stored_seed, key_from,
  after_dir, load_or_create_key, stored_registration, registration_from, load_or_provision,
  client_of, after_registration, after_key, new_client,
}
use pullpilot.Webhook.Identity.Kept.{
  IsMachine, load_or_create_key-stored, registration_from-stored, key-registration_from,
}

module _ {W : Type 0} {m : Machine W} (k : IsMachine m) where
  -- The data directory is made, and made private.
  abbrev pub tidy : Str → W → W
  tidy dir w = (m.chmod dir (m.make_dir dir w).1).1

  after_registration-client :
      (base dir seed : Str) (x : Result SetupError Registration) (w : W) (c : Client)
      → (after_registration m base dir seed x w).0 ≡ ok c
      → (r : Registration) × (x ≡ ok r) × (c ≡ client_of m base dir seed r)
  unfolding after_registration
  after_registration-client base dir seed (err x) w c h = cc h
  after_registration-client base dir seed (ok r) w c h = (r, refl, cc h)

  world-after_registration :
      (base dir seed : Str) (x : Result SetupError Registration) (w : W)
      → (after_registration m base dir seed x w).1 ≡ w
  unfolding after_registration
  world-after_registration base dir seed (err x) w = refl
  world-after_registration base dir seed (ok r) w = refl

  -- The same files give the same client, and nothing is written, drawn or posted.
  again :
      (base dir seed : Str) (r : Registration) (v : W)
      → (m.make_dir dir v).0 ≡ true
      → stored_seed (m.read (key_path m dir) v) ≡ some seed
      → stored_registration m (clean_base base) (m.read (reg_path m dir) v) ≡ some r
      → new_client m base dir v ≡ (ok (client_of m (clean_base base) dir seed r), tidy dir v)
  unfolding new_client load_or_create_key key_from after_key load_or_provision registration_from
      after_registration
  again base dir seed r v made key reg =
      let same = λ (p : Str). k.read-chmod p dir (m.make_dir dir v).1 ∙ k.read-make_dir p dir v in
      let key' : stored_seed (m.read (key_path m dir) (tidy dir v)) ≡ some seed =
        ap stored_seed (same (key_path m dir)) ∙ key in
      let reg' : stored_registration m (clean_base base) (m.read (reg_path m dir) (tidy dir v))
          ≡ some r =
        ap (stored_registration m (clean_base base)) (same (reg_path m dir)) ∙ reg in
      rw (made, after_dir, key', reg')

  after_key-again :
      (base dir : Str) (x : Result SetupError Str) (w : W) (c : Client)
      → ((seed : Str) → x ≡ ok seed → stored_seed (m.read (key_path m dir) w) ≡ some seed)
      → (after_key m (clean_base base) dir x w).0 ≡ ok c
      → is_empty c.webhook_id ≡ false
      → let v = (after_key m (clean_base base) dir x w).1 in
        (m.make_dir dir v).0 ≡ true → new_client m base dir v ≡ (ok c, tidy dir v)
  unfolding after_key load_or_provision
  after_key-again base dir (err x) w c key h id made = cc h
  after_key-again base dir (ok seed) w c key h id made =
      let base' = clean_base base in
      let found = stored_registration m base' (m.read (reg_path m dir) w) in
      let x = registration_from m base' dir seed found w in
      let (r, good, same) = after_registration-client base' dir seed x.0 x.1 c h in
      let reg =
        registration_from-stored k dir base' seed found r w refl
          (ap (λ d. is_empty d.webhook_id) (sym same) ∙ id) good in
      let kept = key-registration_from k dir base' seed found w in
      let stays = world-after_registration base' dir seed x.0 x.1 in
      subst (λ v. (m.make_dir dir v).0 ≡ true → new_client m base dir v ≡ (ok c, tidy dir v))
        (sym stays)
        (λ made'.
          again base dir seed r x.1 made' (ap stored_seed kept ∙ key seed refl) reg
          ∙ ap (λ d. (ok d, tidy dir x.1)) (sym same))
        made

  -- A client that was set up and has an id is set up again by a restart: while the data directory can
  -- still be made, New with the same settings returns the same key, id and address, and only makes
  -- the directory and sets its mode.
  pub new_client_again :
      (base dir : Str) (w : W) (c : Client)
      → (new_client m base dir w).0 ≡ ok c
      → is_empty c.webhook_id ≡ false
      → (m.make_dir dir (new_client m base dir w).1).0 ≡ true
      → new_client m base dir (new_client m base dir w).1
        ≡ (ok c, tidy dir (new_client m base dir w).1)
  unfolding new_client
  new_client_again base dir w c h id made =
      let x = load_or_create_key m dir w in
      after_key-again base dir x.0 x.1 c (λ seed e. load_or_create_key-stored k dir w seed e) h id
        made
