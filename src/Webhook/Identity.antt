-- ===== src/Webhook/Identity.antt =====
-- New, loadOrCreateKey, loadOrProvision and provision of internal/webhook/webhook.go.
-- The file system, the random source, the relay's HTTP endpoint and JSON are the parameter
-- `Machine W` over the states `W` of the world. A key is its seed.
pub mod Kept
pub mod Again
use pullpilot.Prelude.{
  ℕ, Bool, true, false, not, ◌&&◌, ◌||◌, Option, none, some, ◌++◌, ◌==◌, length, if◌then◌else◌,
}
use pullpilot.Prelude.Exec.{Result, ok, err, Exec}
use pullpilot.Std.Str.{Str, bytes, str_eq, is_empty, trim_right}

-- type registration
pub record Registration : Type 0 where
  pub base_url : Str
  pub webhook_id : Str
  pub poke_url : Str
  pub listen_url : Str

-- The relay's answer; `body` is `none` where it does not decode.
pub record ProvisionReply : Type 0 where
  pub status : ℕ
  pub body : Option Registration

pub record Machine (W : Type 0) : Type 0 where
  -- filepath.Join
  pub join : Str → Str → Str
  pub make_dir : Str → Exec W Bool
  pub chmod : Str → Exec W (Unit {0})
  -- `none` is an error.
  pub read : Str → W → Option Str
  pub write : Str → Str → Exec W Bool
  -- 32 random bytes
  pub random : Exec W (Option Str)
  -- The URL, the public key's text and the label.
  pub post : Str → Str → Str → Exec W (Option ProvisionReply)
  pub encode : Registration → Str
  pub decode : Str → Option Registration
  pub public : Str → Str
  pub encode64 : Str → Str

-- What is set of a Client by New.
pub record Client : Type 0 where
  pub base_url : Str
  pub data_dir : Str
  pub seed : Str
  pub webhook_id : Str
  pub listen_url : Str

pub data SetupError : Type 0 where
  no_dir no_random key_not_written post_failed bad_body registration_not_written : SetupError
  bad_status : ℕ → SetupError

abbrev pub seed_size : ℕ
seed_size = 32

abbrev pub poke_url : Client → Str
poke_url c = c.base_url ++ bytes "/v1/poke/" ++ c.webhook_id

-- strings.TrimRight(baseURL, "/")
abbrev pub clean_base : Str → Str
clean_base = trim_right (λ c. c == b'/')

-- A key file counts if it can be read and has the right size.
unfoldable pub stored_seed : Option Str → Option Str
stored_seed none = none
stored_seed (some s) = if length s == seed_size then some s else none

-- A registration file counts if it decodes, has an id and is for this relay.
unfoldable pub usable : Str → Option Registration → Option Registration
usable base none = none
usable base (some r) =
    if not (is_empty r.webhook_id) && str_eq r.base_url base then some r else none

module _ {W : Type 0} (m : Machine W) where
  abbrev pub key_path : Str → Str
  key_path dir = m.join dir (bytes "ed25519.key")

  abbrev pub reg_path : Str → Str
  reg_path dir = m.join dir (bytes "webhook.json")

  unfoldable pub after_seed : Str → Option Str → Exec W (Result SetupError Str)
  after_seed dir none w = (err no_random, w)
  after_seed dir (some seed) w =
      let (written, w₁) = m.write (key_path dir) seed w in
      (elim written [ true ↦ ok seed | false ↦ err key_not_written ], w₁)

  unfoldable pub key_from : Str → Option Str → Exec W (Result SetupError Str)
  unfolding after_seed
  key_from dir (some seed) w = (ok seed, w)
  key_from dir none w = let (seed, w₁) = m.random w in after_seed dir seed w₁

  -- MkdirAll succeeded, Chmod's error is dropped.
  unfoldable pub after_dir : Str → Bool → Exec W (Result SetupError Str)
  unfolding key_from stored_seed
  after_dir dir false w = (err no_dir, w)
  after_dir dir true w =
      let w₁ = (m.chmod dir w).1 in key_from dir (stored_seed (m.read (key_path dir) w₁)) w₁

  unfoldable pub load_or_create_key : Str → Exec W (Result SetupError Str)
  unfolding after_dir
  load_or_create_key dir w = let (made, w₁) = m.make_dir dir w in after_dir dir made w₁

  -- provision, from the decoded answer on.
  unfoldable pub save_registration :
      Str → Str → Registration → Exec W (Result SetupError Registration)
  save_registration base dir r w =
      let r' : Registration = record r { base_url = base } in
      let (written, w₁) = m.write (reg_path dir) (m.encode r') w in
      (elim written [ true ↦ ok r' | false ↦ err registration_not_written ], w₁)

  unfoldable pub after_body :
      Str → Str → Option Registration → Exec W (Result SetupError Registration)
  unfolding save_registration
  after_body base dir none w = (err bad_body, w)
  after_body base dir (some r) w = save_registration base dir r w

  unfoldable pub after_post :
      Str → Str → Option ProvisionReply → Exec W (Result SetupError Registration)
  unfolding after_body
  after_post base dir none w = (err post_failed, w)
  after_post base dir (some reply) w =
      if reply.status == 201 || reply.status == 200
      then after_body base dir reply.body w
      else (err (bad_status reply.status), w)

  unfoldable pub provision : Str → Str → Str → Exec W (Result SetupError Registration)
  unfolding after_post
  provision base dir seed w =
      let (reply, w₁) =
        m.post (base ++ bytes "/v1/provision") (m.encode64 (m.public seed)) (bytes "pullpilot") w in
      after_post base dir reply w₁

  -- A file that cannot be read or decoded counts as none.
  unfoldable pub stored_registration : Str → Option Str → Option Registration
  unfolding usable
  stored_registration base none = none
  stored_registration base (some content) = usable base (m.decode content)

  unfoldable pub registration_from :
      Str → Str → Str → Option Registration → Exec W (Result SetupError Registration)
  unfolding provision
  registration_from base dir seed (some r) w = (ok r, w)
  registration_from base dir seed none w = provision base dir seed w

  unfoldable pub load_or_provision : Str → Str → Str → Exec W (Result SetupError Registration)
  unfolding registration_from stored_registration
  load_or_provision base dir seed w =
      registration_from base dir seed (stored_registration base (m.read (reg_path dir) w)) w

  -- The client that New returns.
  abbrev pub client_of : Str → Str → Str → Registration → Client
  client_of base dir seed r = record {
    base_url = base;
    data_dir = dir;
    seed = seed;
    webhook_id = r.webhook_id;
    listen_url = r.listen_url;
  }

  unfoldable pub after_registration :
      Str → Str → Str → Result SetupError Registration → Exec W (Result SetupError Client)
  after_registration base dir seed (err x) w = (err x, w)
  after_registration base dir seed (ok r) w = (ok (client_of base dir seed r), w)

  unfoldable pub after_key : Str → Str → Result SetupError Str → Exec W (Result SetupError Client)
  unfolding load_or_provision after_registration
  after_key base dir (err x) w = (err x, w)
  after_key base dir (ok seed) w =
      let (r, w₁) = load_or_provision base dir seed w in after_registration base dir seed r w₁

  -- func New
  unfoldable pub new_client : Str → Str → Exec W (Result SetupError Client)
  unfolding load_or_create_key after_key
  new_client base_url dir w =
      let (seed, w₁) = load_or_create_key dir w in after_key (clean_base base_url) dir seed w₁
