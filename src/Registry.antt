-- ===== src/Registry.antt =====
-- internal/registry/registry.go: image references, the manifest HEAD, the bearer-token exchange and
-- the credential store.
pub mod Header
pub mod Creds
pub mod Digest
pub mod Steady
use pullpilot.Prelude.{
  ℕ, Bool, true, false, not, Option, none, some, List, [], ◌∷◌, ◌++◌, ◌||◌, ◌==◌, if◌then◌else◌,
}
use pullpilot.Prelude.Exec.{Result, ok, err, Exec, pure, ◌>>=◌}
use pullpilot.Std.Str.{Str, bytes, str_eq, is_empty}
use pullpilot.Registry.Header.{Challenge, parse_challenge}

-- What reference.ParseNormalizedNamed returns; `digest` and `tag` are there if the value is
-- Canonical or Tagged.
pub record Named : Type 0 where
  pub domain : Str
  pub path : Str
  pub digest : Option Str
  pub tag : Option Str

pub record Ref : Type 0 where
  pub registry : Str
  pub repository : Str
  pub tag : Str
  pub digest : Str

unfoldable pub pinned : Ref → Bool
pinned r = not (is_empty r.digest)

abbrev pub hub_host : Str
hub_host = bytes "registry-1.docker.io"

unfoldable pub registry_host : Str → Str
registry_host domain =
    if str_eq domain (bytes "docker.io") || str_eq domain (bytes "index.docker.io")
    then hub_host
    else domain

ref_of : Named → Ref
ref_of n = record {
  registry = registry_host n.domain;
  repository = n.path;
  tag = elim n.tag [
    | some t ↦ t
    | none ↦ elim n.digest [
      | none ↦ bytes "latest"
      | some d ↦ if is_empty d then bytes "latest" else []
    ]
  ];
  digest = elim n.digest [ none ↦ [] | some d ↦ d ];
}

-- The parser of references is a library's. `none` stands for its error.
unfoldable pub parse_ref : (Str → Option Named) → Str → Option Ref
unfolding ref_of registry_host
parse_ref parse_named image = elim (parse_named image) [ none ↦ none | some n ↦ some (ref_of n) ]

-- The parts of a response that the code reads.
pub record HeadReply : Type 0 where
  pub status : ℕ
  pub content_digest : Str
  pub www_authenticate : Str

pub record TokenReply : Type 0 where
  pub status : ℕ
  -- the fields token and access_token; `none` if the body is not JSON
  pub body : Option (Str × Str)

-- net/http and the network. `none` stands for any error before a response.
pub record Http (W : Type 0) : Type 0 where
  -- url, bearer token
  pub head : Str → Str → Exec W (Option HeadReply)
  -- realm, service, scope, basic auth
  pub token : Str → Str → Str → Option (Str × Str) → Exec W (Option TokenReply)

pub data RegistryError : Type 0 where
  bad_reference : RegistryError
  unreachable : RegistryError
  no_content_digest : RegistryError
  denied : RegistryError
  no_challenge : RegistryError
  auth_required : Challenge → RegistryError
  status_error : ℕ → RegistryError
  bad_token_body : RegistryError

abbrev pub Reply : Type 0
Reply = Result RegistryError Str

-- The switch on the status of a manifest HEAD.
head_reply : Str → HeadReply → Reply
head_reply bearer r =
    if r.status == 200
    then (if is_empty r.content_digest then err no_content_digest else ok r.content_digest)
    else if r.status == 401
    then if not (is_empty bearer) then err denied else elim (parse_challenge r.www_authenticate) [
      | none ↦ err no_challenge
      | some ch ↦ err (auth_required ch)
    ]
    else err (status_error r.status)

token_reply : TokenReply → Reply
token_reply r =
    if r.status == 200
    then elim r.body [
      | none ↦ err bad_token_body
      | some (token, access_token) ↦ ok (if is_empty token then access_token else token)
    ]
    else err (status_error r.status)

manifest_url : Ref → Str
manifest_url r =
    bytes "https://" ++ r.registry ++ bytes "/v2/" ++ r.repository ++ bytes "/manifests/" ++ r.tag

default_scope : Ref → Str
default_scope r = bytes "repository:" ++ r.repository ++ bytes ":pull"

module _ {W : Type 0} (http : Http W) where
  unfoldable pub head : Str → Str → Exec W Reply
  unfolding head_reply
  head url bearer w =
      let (r, w') = http.head url bearer w in
      (elim r [ none ↦ err unreachable | some reply ↦ head_reply bearer reply ], w')

  -- `basic` is the credential store's answer for a host.
  unfoldable pub authenticate : (Str → Option (Str × Str)) → Ref → Challenge → Exec W Reply
  unfolding token_reply default_scope
  authenticate basic ref ch w =
      let scope = if is_empty ch.scope then default_scope ref else ch.scope in
      let (r, w') = http.token ch.realm ch.service scope (basic ref.registry) w in
      (elim r [ none ↦ err unreachable | some reply ↦ token_reply reply ], w')

  -- The second HEAD, with the token.
  retry : Str → Reply → Exec W Reply
  unfolding head
  retry url (err e) w = (err e, w)
  retry url (ok token) w = head url token w

  -- After the first HEAD.
  after_head : (Str → Option (Str × Str)) → Ref → Str → Reply → Exec W Reply
  unfolding retry authenticate
  after_head basic ref url (ok digest) w = (ok digest, w)
  after_head basic ref url (err (auth_required ch)) w =
      let (token, w') = authenticate basic ref ch w in retry url token w'
  after_head basic ref url (err e) w = (err e, w)

  digest_of_ref : (Str → Option (Str × Str)) → Ref → Exec W Reply
  unfolding after_head head manifest_url pinned
  digest_of_ref basic ref w =
      if pinned ref
      then (ok ref.digest, w)
      else let (r, w') = head (manifest_url ref) [] w in
        after_head basic ref (manifest_url ref) r w'

  unfoldable pub remote_digest :
      (Str → Option Named) → (Str → Option (Str × Str)) → Str → Exec W Reply
  unfolding digest_of_ref parse_ref
  remote_digest parse_named basic image w = elim (parse_ref parse_named image) [
    | none ↦ (err bad_reference, w)
    | some ref ↦ digest_of_ref basic ref w
  ]

-- Client.Credentials: user, password and registry host.
unfoldable pub credentials :
    (Str → Option Named) → (Str → Option (Str × Str)) → Str → Option (Str × Str × Str)
unfolding parse_ref
credentials parse_named basic image = elim (parse_ref parse_named image) [
  | none ↦ none
  | some ref ↦ elim (basic ref.registry) [ none ↦ none | some (u, p) ↦ some (u, p, ref.registry) ]
]
