-- ===== src/Registry/Steady.antt =====
-- RemoteDigest of internal/registry/registry.go where the servers answer the same in every state.
use pullpilot.Prelude.{refl, ap, ◌∙◌, Option, [], Bool-cases, Option-cases, inl, inr}
use pullpilot.Prelude.Exec.{ok, err, Steady}
use pullpilot.Std.Str.{Str}
use pullpilot.Registry.{
  Named, Ref, Http, Reply, Challenge, auth_required, pinned, parse_ref, manifest_url, head,
  authenticate, retry, after_head, digest_of_ref, remote_digest,
}

module _ {W : Type 0} (http : Http W)
    (head-Steady : (url bearer : Str) → Steady (http.head url bearer))
    (token-Steady : (realm service scope : Str) (basic : Option (Str × Str))
      → Steady (http.token realm service scope basic)) where
  first-Steady : (url bearer : Str) → Steady (head http url bearer)
  unfolding head
  first-Steady url bearer w w' = rw (head-Steady url bearer w w')

  retry-Steady : (url : Str) (x : Reply) → Steady (retry http url x)
  unfolding retry
  retry-Steady url (err e) w w' = refl
  retry-Steady url (ok token) w w' = first-Steady url token w w'

  authenticate-Steady :
      (basic : Str → Option (Str × Str)) (ref : Ref) (ch : Challenge)
      → Steady (authenticate http basic ref ch)
  unfolding authenticate
  authenticate-Steady basic ref ch w w' =
      rw (token-Steady ch.realm ch.service _ (basic ref.registry) w w')

  after_head-Steady :
      (basic : Str → Option (Str × Str)) (ref : Ref) (url : Str) (x : Reply)
      → Steady (after_head http basic ref url x)
  unfolding after_head
  after_head-Steady basic ref url (ok digest) w w' = refl
  after_head-Steady basic ref url (err (auth_required ch)) w w' =
      let a = authenticate http basic ref ch w in
      let b = authenticate http basic ref ch w' in
      retry-Steady url a.0 a.1 b.1
      ∙ ap (λ x. (retry http url x b.1).0) (authenticate-Steady basic ref ch w w')
  after_head-Steady basic ref url (err _) w w' = refl

  digest_of_ref-Steady :
      (basic : Str → Option (Str × Str)) (ref : Ref) → Steady (digest_of_ref http basic ref)
  unfolding digest_of_ref
  digest_of_ref-Steady basic ref w w' = elim (Bool-cases (pinned ref)) [
    | inl fixed ↦ rw (fixed, digest_of_ref)
    | inr tagged ↦
        let url = manifest_url ref in
        let a = head http url [] w in
        let b = head http url [] w' in
        rw (tagged, digest_of_ref)
          (after_head-Steady basic ref url a.0 a.1 b.1
            ∙ ap (λ x. (after_head http basic ref url x b.1).0) (first-Steady url [] w w'))
  ]

  pub remote_digest-Steady :
      (parse_named : Str → Option Named) (basic : Str → Option (Str × Str)) (image : Str)
      → Steady (remote_digest http parse_named basic image)
  unfolding remote_digest
  remote_digest-Steady parse_named basic image w w' =
      elim (Option-cases (parse_ref parse_named image)) [
        | inl bad ↦ rw (bad, remote_digest)
        | inr (ref, good) ↦ rw (good, remote_digest) (digest_of_ref-Steady basic ref w w')
      ]
