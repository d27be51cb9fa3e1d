-- ===== src/Registry/Digest.antt =====
-- What RemoteDigest of internal/registry/registry.go returns, and what its requests keep of the world.
use pullpilot.Prelude.{◌≡◌, ◌≢◌, true, Option, [], arith, Bool-cases, Option-cases, inl, inr}
use pullpilot.Prelude.Exec.{ok, err, Keeps}
use pullpilot.Std.Str.{Str}
use pullpilot.Registry.{
  Named, Ref, Http, HeadReply, Reply, auth_required, head_reply, pinned, parse_ref, manifest_url,
  head, authenticate, retry, after_head, digest_of_ref, remote_digest,
}

module _ {W : Type 0} (http : Http W) (P : W → Type 0)
    (head-P : (url bearer : Str) → Keeps P (http.head url bearer))
    (token-P : (realm service scope : Str) (basic : Option (Str × Str))
      → Keeps P (http.token realm service scope basic)) where
  retry-P : (url : Str) (x : Reply) → Keeps P (retry http url x)
  unfolding retry
  retry-P url (err e) w h = h
  retry-P url (ok token) w h = head-P url token w h

  after_head-P :
      (basic : Str → Option (Str × Str)) (ref : Ref) (url : Str) (x : Reply)
      → Keeps P (after_head http basic ref url x)
  unfolding after_head
  after_head-P basic ref url (ok digest) w h = h
  after_head-P basic ref url (err (auth_required ch)) w h =
      let a = authenticate http basic ref ch w in
      retry-P url a.0 a.1
        (unfold authenticate in token-P ch.realm ch.service _ (basic ref.registry) w h)
  after_head-P basic ref url (err _) w h = h

  digest_of_ref-P :
      (basic : Str → Option (Str × Str)) (ref : Ref) → Keeps P (digest_of_ref http basic ref)
  unfolding digest_of_ref head
  digest_of_ref-P basic ref w h = elim (Bool-cases (pinned ref)) [
    | inl fixed ↦ rw (fixed, digest_of_ref) h
    | inr tagged ↦
        let x = head http (manifest_url ref) [] w in
        rw (tagged, digest_of_ref)
          (after_head-P basic ref (manifest_url ref) x.0 x.1 (head-P (manifest_url ref) [] w h))
  ]

  pub remote_digest-P :
      (parse_named : Str → Option Named) (basic : Str → Option (Str × Str)) (image : Str)
      → Keeps P (remote_digest http parse_named basic image)
  unfolding remote_digest
  remote_digest-P parse_named basic image w h = elim (Option-cases (parse_ref parse_named image)) [
    | inl bad ↦ rw (bad, remote_digest) h
    | inr (ref, good) ↦ rw (good, remote_digest) (digest_of_ref-P basic ref w h)
  ]

-- A successful reply to a HEAD is not the empty text.
head_reply-ne : (bearer : Str) (x : HeadReply) (d : Str) → head_reply bearer x ≡ ok d → d ≢ []
unfolding head_reply
head_reply-ne bearer x d h q = ground arith

module _ {W : Type 0} (http : Http W) where
  head-ne : (url bearer : Str) (w : W) (d : Str) → (head http url bearer w).0 ≡ ok d → d ≢ []
  unfolding head
  head-ne url bearer w d h = elim (Option-cases (http.head url bearer w).0) [
    | inl lost ↦ cc (rw (lost, head) at h)
    | inr (x, got) ↦ head_reply-ne bearer x d (rw (got, head) at h)
  ]

  retry-ne : (url : Str) (x : Reply) (w : W) (d : Str) → (retry http url x w).0 ≡ ok d → d ≢ []
  unfolding retry
  retry-ne url (err e) w d h = cc
  retry-ne url (ok token) w d h = head-ne url token w d h

  after_head-ne :
      (basic : Str → Option (Str × Str)) (ref : Ref) (url : Str) (x : Reply) (w : W) (d : Str)
      → ((d' : Str) → x ≡ ok d' → d' ≢ [])
      → (after_head http basic ref url x w).0 ≡ ok d
      → d ≢ []
  unfolding after_head
  after_head-ne basic ref url (ok digest) w d k h = k d h
  after_head-ne basic ref url (err (auth_required ch)) w d k h =
      let a = authenticate http basic ref ch w in retry-ne url a.0 a.1 d h
  after_head-ne basic ref url (err _) w d k h = cc

  pinned_digest : (ref : Ref) → pinned ref ≡ true → ref.digest ≢ []
  unfolding pinned
  pinned_digest ref h q = ground arith

  digest_of_ref-ne :
      (basic : Str → Option (Str × Str)) (ref : Ref) (w : W) (d : Str)
      → (digest_of_ref http basic ref w).0 ≡ ok d
      → d ≢ []
  unfolding digest_of_ref
  digest_of_ref-ne basic ref w d h = elim (Bool-cases (pinned ref)) [
    | inl fixed ↦
        let e : ok ref.digest ≡ ok d = rw (fixed, digest_of_ref) at h in
        λ q. pinned_digest ref fixed (cc (e, q))
    | inr tagged ↦
        let x = head http (manifest_url ref) [] w in
        after_head-ne basic ref (manifest_url ref) x.0 x.1 d (head-ne (manifest_url ref) [] w)
          (rw (tagged, digest_of_ref) at h)
  ]

  -- Whatever the registry and the token endpoint answer, RemoteDigest returns an error or a digest
  -- that is not empty.
  pub remote_digest-ne :
      (parse_named : Str → Option Named) (basic : Str → Option (Str × Str)) (image : Str) (w : W)
      (d : Str)
      → (remote_digest http parse_named basic image w).0 ≡ ok d
      → d ≢ []
  unfolding remote_digest
  remote_digest-ne parse_named basic image w d h =
      elim (Option-cases (parse_ref parse_named image)) [
        | inl bad ↦ cc (rw (bad, remote_digest) at h)
        | inr (ref, good) ↦ digest_of_ref-ne basic ref w d (rw (good, remote_digest) at h)
      ]
