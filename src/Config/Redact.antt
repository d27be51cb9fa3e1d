-- ===== src/Config/Redact.antt =====
-- redactURL of internal/config/config.go: what the boot summary shows of a URL.
use pullpilot.Prelude.{
  ℕ, ◌≡◌, ◌≢◌, refl, ◌∙◌, Bool, true, false, ◌&&◌, Option, none, some, Bool-cases, inl, inr, [],
  ◌∷◌, ◌++◌, ◌==◌, arith, if◌then◌else◌,
}
use mathlib.Core.Option
use pullpilot.Std.Str.{Str, bytes, cut_prefix, cut}

-- strings.Index with the text taken apart there: before, and behind.
unfoldable pub split_at : Str → Str → Option (Str × Str)
split_at sub [] = elim (cut_prefix [] sub) [ some rest ↦ some ([], rest) | none ↦ none ]
split_at sub (c ∷ s) =
    let later = Option.map (λ (p : Str × Str). (c ∷ p.0, p.1)) (split_at sub s) in
    elim (cut_prefix (c ∷ s) sub) [ some rest ↦ some ([], rest) | none ↦ later ]

-- The UTF-8 bytes of "/…".
abbrev pub slash_ellipsis : Str
slash_ellipsis = b'/' ∷ 226 ∷ 128 ∷ 166 ∷ []

unfoldable pub redact_url : Str → Bool → Str
unfolding split_at
redact_url u false = bytes "(disabled)"
redact_url u true = elim (split_at (bytes "://") u) [
  | none ↦ u
  | some (scheme, rest) ↦ elim (cut rest b'/') [
    | none ↦ u
    | some (host, path) ↦ scheme ++ bytes "://" ++ host ++ slash_ellipsis
  ]
]

abbrev pub mark : Str
mark = bytes "://"

-- The mark at the head of a text of three bytes or more.
at_mark : ℕ → ℕ → ℕ → Bool
at_mark c d e = (c == b':') && ((d == b'/') && (e == b'/'))

cut_prefix-mark :
    (c d e : ℕ) (s : Str)
    → cut_prefix (c ∷ d ∷ e ∷ s) mark ≡ (if at_mark c d e then some s else none)
unfolding cut_prefix at_mark
cut_prefix-mark c d e s = ground arith

split_at-mark :
    (c d e : ℕ) (s : Str)
    → split_at mark (c ∷ d ∷ e ∷ s) ≡ (
        if at_mark c d e
        then some ([], s)
        else Option.map (λ (p : Str × Str). (c ∷ p.0, p.1)) (split_at mark (d ∷ e ∷ s)))
unfolding split_at
split_at-mark c d e s = ground (arith, cut_prefix-mark c d e s)

-- Two URLs of which redact_url shows the same scheme and host.
record SameHost (u u' : Str) : Type 0 where
  scheme : Str
  host : Str
  rest : Str
  rest' : Str
  path : Str
  path' : Str
  split : split_at mark u ≡ some (scheme, rest)
  split' : split_at mark u' ≡ some (scheme, rest')
  found : cut rest b'/' ≡ some (host, path)
  found' : cut rest' b'/' ≡ some (host, path')

-- The text before the first slash does not depend on what stands behind a later one.
record SameCut (u u' : Str) : Type 0 where
  before : Str
  behind : Str
  behind' : Str
  cut_u : cut u b'/' ≡ some (before, behind)
  cut_u' : cut u' b'/' ≡ some (before, behind')

cut_same : (x path path' : Str) → SameCut (x ++ b'/' ∷ path) (x ++ b'/' ∷ path')
unfolding cut
cut_same [] path path' = record {
  before = [];
  behind = path;
  behind' = path';
  cut_u = refl;
  cut_u' = refl;
}
cut_same (c ∷ x) path path' =
    let r = cut_same x path path' in
    elim (Bool-cases (c == b'/')) [
      | inl slash ↦ record {
        before = [];
        behind = x ++ b'/' ∷ path;
        behind' = x ++ b'/' ∷ path';
        cut_u = rw (slash, cut);
        cut_u' = rw (slash, cut);
      }
      | inr other ↦ record {
        before = c ∷ r.before;
        behind = r.behind;
        behind' = r.behind';
        cut_u = rw (other, cut) (rw r.cut_u);
        cut_u' = rw (other, cut) (rw r.cut_u');
      }
    ]

split_same :
    (x path path' : Str) → split_at mark x ≢ none → SameHost (x ++ b'/' ∷ path) (x ++ b'/' ∷ path')
unfolding split_at cut_prefix
split_same [] path path' h = absurd (h refl)
split_same (c ∷ []) path path' h = absurd (h (ground arith))
split_same (c ∷ d ∷ []) path path' h = absurd (h (ground arith))
split_same (c ∷ d ∷ e ∷ x) path path' h = elim (Bool-cases (at_mark c d e)) [
  | inl hit ↦
      let r = cut_same x path path' in
      record {
        scheme = [];
        host = r.before;
        rest = x ++ b'/' ∷ path;
        rest' = x ++ b'/' ∷ path';
        path = r.behind;
        path' = r.behind';
        split = split_at-mark c d e (x ++ b'/' ∷ path) ∙ rw hit;
        split' = split_at-mark c d e (x ++ b'/' ∷ path') ∙ rw hit;
        found = r.cut_u;
        found' = r.cut_u';
      }
  | inr miss ↦
      let r = split_same (d ∷ e ∷ x) path path' (λ q. h (split_at-mark c d e x ∙ rw (miss, q))) in
      record {
        scheme = c ∷ r.scheme;
        host = r.host;
        rest = r.rest;
        rest' = r.rest';
        path = r.path;
        path' = r.path';
        split = split_at-mark c d e (x ++ b'/' ∷ path) ∙ rw (miss, r.split);
        split' = split_at-mark c d e (x ++ b'/' ∷ path') ∙ rw (miss, r.split');
        found = r.found;
        found' = r.found';
      }
]

-- The summary shows nothing of what stands behind the first slash after the scheme: two URLs that
-- agree up to a slash somewhere behind "://" are shown alike.
pub redact_url_hides :
    (x path path' : Str)
    → split_at mark x ≢ none
    → redact_url (x ++ b'/' ∷ path) true ≡ redact_url (x ++ b'/' ∷ path') true
unfolding redact_url
redact_url_hides x path path' h =
    let r = split_same x path path' h in rw (r.split, r.split', r.found, r.found', redact_url)
