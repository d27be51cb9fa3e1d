-- ===== src/Registry/Creds/Stored.antt =====
-- Which credentials Basic of internal/registry/registry.go gives for a registry.
use mathlib.Core.Option.{some_inj}
use pullpilot.Prelude.{
  ℕ, ◌≡◌, ap, subst, ◌∙◌, false, Option, some, List, [], ◌∷◌, ◌++◌, All, Bool-cases, Option-cases,
  inl, inr, ◌==◌, ◌⊎◌, refl,
}
use pullpilot.Std.Str.{Str, bytes, str_eq, is_empty, cut}
use pullpilot.Std.Str.Laws.{cut_sound, str_eq_iff}
use pullpilot.Std.Dict.{Dict, lookup}
use pullpilot.Registry.Creds.{normalize_hub_key, host_keys, entry, first_entry, basic}

-- The user name and the password stand in the store under the key, joined by the first colon.
pub record Stored (decode64 : Str → Option Str) (auths : Dict Str) (key user pass : Str)
    : Type 0 where
  pub code : Str
  pub raw : Str
  pub kept : lookup key auths ≡ some code
  pub decoded : decode64 code ≡ some raw
  pub joined : raw ≡ user ++ b':' ∷ pass
  pub first_colon : All (λ c. (c == b':') ≡ false) user

cut_first :
    (s : Str) (sep : ℕ) {a b : Str} → cut s sep ≡ some (a, b) → All (λ c. (c == sep) ≡ false) a
unfolding cut
cut_first [] sep h = cc h
cut_first (c ∷ s) sep {a} {b} h = elim (Bool-cases (c == sep)) [
  | inl here ↦
      subst (All (λ d. (d == sep) ≡ false)) (ap (λ p. p.0) (some_inj.0 (rw (here, cut) at h))) tt
  | inr later ↦ elim (Option-cases (cut s sep)) [
    | inl none_left ↦ cc (rw (later, none_left, cut) at h)
    | inr ((x, y), found) ↦
        subst (All (λ d. (d == sep) ≡ false))
          (ap (λ p. p.0) (some_inj.0 (rw (later, found, cut) at h))) (later, cut_first s sep found)
  ]
]

-- The keys of a registry's credentials in Docker's config.json.
abbrev pub KeyOf : Str → Str → Type 0
KeyOf host key =
    (key ≡ host)
    ⊎ (key ≡ bytes "https://" ++ host)
    ⊎ (key ≡ bytes "https://" ++ host ++ bytes "/v1/")
    ⊎ ((host ≡ bytes "registry-1.docker.io") × (key ≡ bytes "https://index.docker.io/v1/"))

normalize_hub_key-KeyOf : (host : Str) → KeyOf host (normalize_hub_key host)
unfolding normalize_hub_key
normalize_hub_key-KeyOf host = elim (Bool-cases (str_eq host (bytes "registry-1.docker.io"))) [
  | inl hub ↦ inr (
      inr
        (inr ((str_eq_iff host (bytes "registry-1.docker.io")).0 hub, rw (hub, normalize_hub_key))))
  | inr other ↦ inl (rw (other, normalize_hub_key))
]

host_keys-KeyOf : (host : Str) → All (KeyOf host) (host_keys host)
unfolding host_keys
host_keys-KeyOf host =
    (inl refl, (inr (inl refl), (inr (inr (inl refl)), (normalize_hub_key-KeyOf host, tt))))

module _ (decode64 : Str → Option Str) (auths : Dict Str) where
  entry-Stored :
      (key : Str) {user pass : Str}
      → entry decode64 auths key ≡ some (user, pass)
      → Stored decode64 auths key user pass
  unfolding entry
  entry-Stored key {user} {pass} h = elim (Option-cases (lookup key auths)) [
    | inl missing ↦ cc (rw (missing, entry) at h)
    | inr (code, kept) ↦ elim (Bool-cases (is_empty code)) [
      | inl empty ↦ cc (rw (kept, empty, entry) at h)
      | inr full ↦ elim (Option-cases (decode64 code)) [
        | inl bad ↦ cc (rw (kept, full, bad, entry) at h)
        | inr (raw, decoded) ↦
            let parts : cut raw b':' ≡ some (user, pass) = rw (kept, full, decoded, entry) at h in
            record {
              code = code;
              raw = raw;
              kept = kept;
              decoded = decoded;
              joined = cut_sound raw b':' parts;
              first_colon = cut_first raw b':' parts;
            }
      ]
    ]
  ]

  -- A key with a property has the credentials.
  abbrev pub Held : (Str → Type 0) → Str → Str → Type 0
  Held IsKey user pass = (key : Str) × IsKey key × Stored decode64 auths key user pass

  first_entry-Held :
      {IsKey : Str → Type 0} (keys : List Str) {user pass : Str}
      → All IsKey keys
      → first_entry decode64 auths keys ≡ some (user, pass)
      → Held IsKey user pass
  unfolding first_entry
  first_entry-Held [] all h = cc h
  first_entry-Held (key ∷ keys) {user} {pass} (is, all) h =
      elim (Option-cases (entry decode64 auths key)) [
        | inl nothing ↦ first_entry-Held keys all (rw (nothing, first_entry) at h)
        | inr (c, found) ↦ (key, is, entry-Stored key (found ∙ rw (found, first_entry) at h))
      ]

  -- The credentials that are given for a registry are those that the store has, decoded and parted
  -- at the first colon, under the registry's host, under the host as an https URL, bare or with the
  -- path /v1/, or, for Docker Hub's host only, under https://index.docker.io/v1/.
  pub basic-Held :
      (host user pass : Str)
      → basic decode64 auths host ≡ some (user, pass)
      → Held (KeyOf host) user pass
  unfolding basic
  basic-Held host user pass h = first_entry-Held (host_keys host) (host_keys-KeyOf host) h
