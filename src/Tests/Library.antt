-- ===== src/Tests/Library.antt =====
-- The theorems of the smaller components at concrete data.
use pullpilot.Prelude.{
  ◌≡◌, refl, ◌≢◌, true, not, ◌&&◌, none, [], ◌∷◌, ◌++◌, if◌then◌else◌, arith, some, ◌*◌,
}
use pullpilot.Std.Str.{bytes, str_eq, cut_prefix}
use pullpilot.Prelude.Int.{pos}
use pullpilot.Std.Num.{exact, second}
use pullpilot.Std.Num.Numeral.{numeral}
use pullpilot.Labels.{duration}
use pullpilot.Labels.Seconds.{duration-numeral}
use pullpilot.State.{peek_seen, mark_applied}
use pullpilot.State.Soak.{peek_seen-mark_applied}
use pullpilot.Config.Redact.{redact_url, redact_url_hides, split_at}
use pullpilot.Registry.{remote_digest}
use pullpilot.Registry.Digest.{remote_digest-ne}
use pullpilot.Engine.Daemon.Toy.{toy_host}
use pullpilot.Tests.Data.{host, world, seen_since, new_digest}

-- A health timeout of "0090".
duration-numeral_example : duration exact (numeral (0 ∷ 0 ∷ 9 ∷ 0 ∷ [])) ≡ some (pos (90 * second))
duration-numeral_example =
    duration-numeral exact 0 (0 ∷ 9 ∷ 0 ∷ [])
      (ground arith, (ground arith, (ground arith, (ground arith, tt)))) (ground arith)

redact_url_hides_example :
    redact_url (bytes "https://relay" ++ b'/' ∷ bytes "v1/poke/secret") true
    ≡ redact_url (bytes "https://relay" ++ b'/' ∷ bytes "other") true
unfolding split_at cut_prefix
redact_url_hides_example =
    redact_url_hides (bytes "https://relay") (bytes "v1/poke/secret") (bytes "other") (λ e. cc)

remote_digest-ne_example : new_digest ≢ []
unfolding remote_digest toy_host
remote_digest-ne_example =
    remote_digest-ne (host []).http (host []).parse_named (host []).basic (bytes "web") world
      new_digest refl

peek_seen-mark_applied_example :
    peek_seen
      (bytes "web")
      new_digest
      (mark_applied (host []).disk (bytes "web") (bytes "sha256:other") (seen_since 1).st world).0
    ≡ (if str_eq (bytes "web") (bytes "web") && not (str_eq new_digest (bytes "sha256:other"))
        then none
        else peek_seen (bytes "web") new_digest (seen_since 1).st)
peek_seen-mark_applied_example =
    peek_seen-mark_applied (host []).disk (bytes "web") (bytes "sha256:other") (bytes "web")
      new_digest (seen_since 1).st world (ground arith) (ground arith)
