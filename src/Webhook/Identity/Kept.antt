-- ===== src/Webhook/Identity/Kept.antt =====
-- The files that New of internal/webhook/webhook.go leaves, and what a restart reads of them.
use pullpilot.Prelude.{
  ◌≡◌, ◌≢◌, refl, ap, ◌∙◌, true, false, ◌||◌, Option, none, some, ◌++◌, length, arith, Bool-cases,
  inl, inr, ==_iff, ◌==◌,
}
use pullpilot.Prelude.Exec.{ok}
use pullpilot.Std.Str.{Str, bytes, is_empty}
use pullpilot.Std.Str.Laws.{str_eq_refl}
use pullpilot.Webhook.Identity.{
  Registration, ProvisionReply, Machine, seed_size, key_path, reg_path, stored_seed, usable,
  after_seed, key_from, after_dir, load_or_create_key, save_registration, after_body, after_post,
  provision, stored_registration, registration_from,
}

-- A file that was written holds what was written, and no other file changes; making a directory,
-- chmod, reading random bytes and posting change no file. JSON reads back what it wrote, and the
-- random source gives as many bytes as it is asked for. The two files of a directory have different
-- paths.
pub record IsMachine {W : Type 0} (m : Machine W) : Type 0 where
  pub join-ne : (dir : Str) → m.join dir (bytes "webhook.json") ≢ m.join dir (bytes "ed25519.key")
  pub read-write :
      (p c : Str) (w : W) → (m.write p c w).0 ≡ true → m.read p (m.write p c w).1 ≡ some c
  pub write-other : (p q c : Str) (w : W) → p ≢ q → m.read q (m.write p c w).1 ≡ m.read q w
  pub read-make_dir : (p dir : Str) (w : W) → m.read p (m.make_dir dir w).1 ≡ m.read p w
  pub read-chmod : (p dir : Str) (w : W) → m.read p (m.chmod dir w).1 ≡ m.read p w
  pub read-random : (p : Str) (w : W) → m.read p (m.random w).1 ≡ m.read p w
  pub read-post : (p url key label : Str) (w : W) → m.read p (m.post url key label w).1 ≡ m.read p w
  pub decode-encode : (r : Registration) → m.decode (m.encode r) ≡ some r
  pub random_size : (w : W) (s : Str) → (m.random w).0 ≡ some s → length s ≡ seed_size

stored_seed-size : (s : Str) → length s ≡ seed_size → stored_seed (some s) ≡ some s
unfolding stored_seed
stored_seed-size s h = ground (arith, ==_iff (length s) seed_size)

usable-own :
    (base : Str) (r : Registration)
    → is_empty r.webhook_id ≡ false
    → usable base (some (record r { base_url = base })) ≡ some (record r { base_url = base })
unfolding usable
usable-own base r id = ground (arith, str_eq_refl base)

module _ {W : Type 0} {m : Machine W} (k : IsMachine m) (dir : Str) where
  after_seed-stored :
      (x : Option Str) (w : W) (seed : Str)
      → ((s : Str) → x ≡ some s → length s ≡ seed_size)
      → (after_seed m dir x w).0 ≡ ok seed
      → stored_seed (m.read (key_path m dir) (after_seed m dir x w).1) ≡ some seed
  unfolding after_seed stored_seed
  after_seed-stored none w seed size h = cc h
  after_seed-stored (some s) w seed size h = elim (Bool-cases (m.write (key_path m dir) s w).0) [
    | inl written ↦
        rw (k.read-write (key_path m dir) s w written)
          (stored_seed-size s (size s refl) ∙ cc (rw (written, after_seed) at h))
    | inr failed ↦ cc (rw (failed, after_seed) at h)
  ]

  key_from-stored :
      (x : Option Str) (w : W) (seed : Str)
      → stored_seed (m.read (key_path m dir) w) ≡ x
      → (key_from m dir x w).0 ≡ ok seed
      → stored_seed (m.read (key_path m dir) (key_from m dir x w).1) ≡ some seed
  unfolding key_from
  key_from-stored (some s) w seed e h = e ∙ cc h
  key_from-stored none w seed e h =
      let x = m.random w in after_seed-stored x.0 x.1 seed (k.random_size w) h

  pub load_or_create_key-stored :
      (w : W) (seed : Str)
      → (load_or_create_key m dir w).0 ≡ ok seed
      → stored_seed (m.read (key_path m dir) (load_or_create_key m dir w).1) ≡ some seed
  unfolding load_or_create_key after_dir
  load_or_create_key-stored w seed h = elim (Bool-cases (m.make_dir dir w).0) [
    | inl made ↦
        let v = (m.chmod dir (m.make_dir dir w).1).1 in
        rw (made, after_dir)
          (key_from-stored (stored_seed (m.read (key_path m dir) v)) v seed refl
            (rw (made, after_dir) at h))
    | inr failed ↦ cc (rw (failed, after_dir) at h)
  ]

  module _ (base : Str) where
    save_registration-stored :
        (r r' : Registration) (w : W)
        → is_empty r'.webhook_id ≡ false
        → (save_registration m base dir r w).0 ≡ ok r'
        → stored_registration m base (m.read (reg_path m dir) (save_registration m base dir r w).1)
          ≡ some r'
    unfolding save_registration stored_registration usable
    save_registration-stored r r' w id h =
        let saved : Registration = record r { base_url = base } in
        elim (Bool-cases (m.write (reg_path m dir) (m.encode saved) w).0) [
          | inl written ↦
              let same : saved ≡ r' = cc (rw (written, save_registration) at h) in
              rw
                (
                  k.read-write (reg_path m dir) (m.encode saved) w written,
                  stored_registration,
                  k.decode-encode saved,
                )
                (usable-own base r (ap (λ x. is_empty x.webhook_id) same ∙ id) ∙ ap some same)
          | inr failed ↦ cc (rw (failed, save_registration) at h)
        ]

    after_body-stored :
        (x : Option Registration) (r : Registration) (w : W)
        → is_empty r.webhook_id ≡ false
        → (after_body m base dir x w).0 ≡ ok r
        → stored_registration m base (m.read (reg_path m dir) (after_body m base dir x w).1)
          ≡ some r
    unfolding after_body
    after_body-stored none r w id h = cc h
    after_body-stored (some s) r w id h = save_registration-stored s r w id h

    after_post-stored :
        (x : Option ProvisionReply) (r : Registration) (w : W)
        → is_empty r.webhook_id ≡ false
        → (after_post m base dir x w).0 ≡ ok r
        → stored_registration m base (m.read (reg_path m dir) (after_post m base dir x w).1)
          ≡ some r
    unfolding after_post
    after_post-stored none r w id h = cc h
    after_post-stored (some reply) r w id h =
        elim (Bool-cases (reply.status == 201 || reply.status == 200)) [
          | inl good ↦
              rw (good, after_post)
                (after_body-stored reply.body r w id (rw (good, after_post) at h))
          | inr bad ↦ cc (rw (bad, after_post) at h)
        ]

    pub registration_from-stored :
        (seed : Str) (x : Option Registration) (r : Registration) (w : W)
        → stored_registration m base (m.read (reg_path m dir) w) ≡ x
        → is_empty r.webhook_id ≡ false
        → (registration_from m base dir seed x w).0 ≡ ok r
        → stored_registration m base
            (m.read (reg_path m dir) (registration_from m base dir seed x w).1)
          ≡ some r
    unfolding registration_from provision
    registration_from-stored seed (some s) r w e id h = e ∙ cc h
    registration_from-stored seed none r w e id h =
        let x =
          m.post (base ++ bytes "/v1/provision") (m.encode64 (m.public seed)) (bytes "pullpilot")
            w in
        after_post-stored x.0 r x.1 id h

    -- Provisioning does not touch the key.
    key-save_registration :
        (r : Registration) (w : W)
        → m.read (key_path m dir) (save_registration m base dir r w).1 ≡ m.read (key_path m dir) w
    unfolding save_registration
    key-save_registration r w =
        k.write-other (reg_path m dir) (key_path m dir) (m.encode (record r { base_url = base })) w
          (k.join-ne dir)

    key-after_body :
        (x : Option Registration) (w : W)
        → m.read (key_path m dir) (after_body m base dir x w).1 ≡ m.read (key_path m dir) w
    unfolding after_body
    key-after_body none w = refl
    key-after_body (some r) w = key-save_registration r w

    key-after_post :
        (x : Option ProvisionReply) (w : W)
        → m.read (key_path m dir) (after_post m base dir x w).1 ≡ m.read (key_path m dir) w
    unfolding after_post
    key-after_post none w = refl
    key-after_post (some reply) w = elim (Bool-cases (reply.status == 201 || reply.status == 200)) [
      | inl good ↦ rw (good, after_post) (key-after_body reply.body w)
      | inr bad ↦ rw (bad, after_post)
    ]

    pub key-registration_from :
        (seed : Str) (x : Option Registration) (w : W)
        → m.read (key_path m dir) (registration_from m base dir seed x w).1
          ≡ m.read (key_path m dir) w
    unfolding registration_from provision
    key-registration_from seed (some r) w = refl
    key-registration_from seed none w =
        let url = base ++ bytes "/v1/provision" in
        let key = m.encode64 (m.public seed) in
        let x = m.post url key (bytes "pullpilot") w in
        key-after_post x.0 x.1 ∙ k.read-post (key_path m dir) url key (bytes "pullpilot") w
