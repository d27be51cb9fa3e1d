-- ===== src/Registry/Header/Print.antt =====
-- parseChallenge of internal/registry/registry.go on a challenge that a registry writes.
use pullpilot.Prelude.{
  ◌≡◌, refl, ap, ◌∙◌, true, false, some, List, [], ◌∷◌, ◌++◌, any, arith, Bool-cases, inl, inr,
  ◌==◌, ◌||◌, leb,
}
use mathlib.Core.List.{append_assoc}
use pullpilot.Std.Str.{
  Str, bytes, is_empty, trim_left, trim_right, trim_space, is_space, cut, to_lower, has_prefix,
  str_eq,
}
use pullpilot.Std.Str.Laws.{trim_right-snoc, trim_right_keeps, trim_right_none}
use pullpilot.Std.Utf8.{valid_text, valid_text-append}
use pullpilot.Registry.Header.{
  Challenge, split_loop, split_params, is_quote, unquote, set_param, read_params, no_params,
  parse_challenge,
}

abbrev IsUnquoted : Str → Type 0
IsUnquoted v = any is_quote v ≡ false

-- ASCII without quotes.
abbrev pub IsPlain : Str → Type 0
IsPlain v = any (λ c. is_quote c || leb 128 c) v ≡ false

IsPlain-IsUnquoted : (v : Str) → IsPlain v → IsUnquoted v
IsPlain-IsUnquoted [] h = refl
IsPlain-IsUnquoted (c ∷ v) h = ground (arith, IsPlain-IsUnquoted v)

IsPlain-ascii : (v : Str) → IsPlain v → any (λ c. leb 128 c) v ≡ false
IsPlain-ascii [] h = refl
IsPlain-ascii (c ∷ v) h = ground (arith, IsPlain-ascii v)

-- realm="…",service="…",scope="…"
abbrev quoted : Str → Str → Str
quoted v rest = v ++ b'"' ∷ rest

-- Inside quotes everything up to the closing quote belongs to the part.
split_loop-quoted :
    (v b rest : Str)
    → IsUnquoted v
    → split_loop true b (quoted v rest) ≡ split_loop false (b ++ quoted v []) rest
unfolding split_loop
split_loop-quoted [] b rest h = refl
split_loop-quoted (c ∷ v) b rest h =
    let open_quote : is_quote c ≡ false = ground arith in
    let later : IsUnquoted v = ground arith in
    let step =
      split_loop-quoted v (b ++ c ∷ []) rest later
      ∙ ap (λ (x : Str). split_loop false x rest) (append_assoc b (c ∷ []) (quoted v [])) in
    elim (Bool-cases (c == b',')) [
      | inl comma ↦ rw (open_quote, comma) step
      | inr other ↦ rw (open_quote, other) step
    ]

trim_quotes : (v : Str) → IsUnquoted v → trim_right is_quote (trim_left is_quote (quoted v [])) ≡ v
unfolding trim_left trim_right
trim_quotes [] h = refl
trim_quotes (c ∷ v) h =
    let open_quote : is_quote c ≡ false = ground arith in
    rw open_quote (trim_right-snoc is_quote (c ∷ v) b'"' refl ∙ trim_right_none is_quote (c ∷ v) h)

unquote-quoted : (v : Str) → IsUnquoted v → unquote (b'"' ∷ quoted v []) ≡ v
unfolding unquote trim_space trim_left
unquote-quoted v h =
    ap (λ (x : Str). trim_right is_quote (trim_left is_quote x))
      (trim_right_keeps is_space (b'"' ∷ v) b'"' refl)
    ∙ trim_quotes v h

-- One part of the header, up to its end.
part : Str → Str → Str
part name v = name ++ b'=' ∷ b'"' ∷ quoted v []

-- Ranging over the runes leaves plain text in quotes as it is.
valid_text-quoted :
    (v rest : Str) → IsPlain v → valid_text (quoted v rest) ≡ quoted v (valid_text rest)
unfolding valid_text
valid_text-quoted v rest h = valid_text-append v (b'"' ∷ rest) (IsPlain-ascii v h)

-- The three parameters, as print_challenge writes them.
scope_text : Challenge → Str
scope_text ch = bytes ",scope=\"" ++ quoted ch.scope []

service_text : Challenge → Str
service_text ch = bytes ",service=\"" ++ quoted ch.service (scope_text ch)

realm_text : Challenge → Str
realm_text ch = bytes "realm=\"" ++ quoted ch.realm (service_text ch)

valid_text-scope : (ch : Challenge) → IsPlain ch.scope → valid_text (scope_text ch) ≡ scope_text ch
unfolding scope_text valid_text
valid_text-scope ch c = ap (λ (x : Str). bytes ",scope=\"" ++ x) (valid_text-quoted ch.scope [] c)

valid_text-service :
    (ch : Challenge)
    → IsPlain ch.service
    → IsPlain ch.scope
    → valid_text (service_text ch) ≡ service_text ch
unfolding service_text valid_text
valid_text-service ch s c =
    ap (λ (x : Str). bytes ",service=\"" ++ x) (valid_text-quoted ch.service (scope_text ch) s)
    ∙ ap (λ (x : Str). bytes ",service=\"" ++ quoted ch.service x) (valid_text-scope ch c)

valid_text-realm :
    (ch : Challenge)
    → IsPlain ch.realm
    → IsPlain ch.service
    → IsPlain ch.scope
    → valid_text (realm_text ch) ≡ realm_text ch
unfolding realm_text valid_text
valid_text-realm ch r s c =
    ap (λ (x : Str). bytes "realm=\"" ++ x) (valid_text-quoted ch.realm (service_text ch) r)
    ∙ ap (λ (x : Str). bytes "realm=\"" ++ quoted ch.realm x) (valid_text-service ch s c)

split_loop-print :
    (ch : Challenge)
    → IsUnquoted ch.realm
    → IsUnquoted ch.service
    → IsUnquoted ch.scope
    → split_loop false [] (realm_text ch)
      ≡ part (bytes "realm") ch.realm
        ∷ part (bytes "service") ch.service
        ∷ part (bytes "scope") ch.scope
        ∷ []
unfolding realm_text service_text scope_text part split_loop
split_loop-print ch r s c =
    split_loop-quoted ch.realm (bytes "realm=\"") (service_text ch) r
    ∙ ap (λ (l : List Str). part (bytes "realm") ch.realm ∷ l)
        (split_loop-quoted ch.service (bytes "service=\"") (scope_text ch) s
          ∙ ap (λ (l : List Str). part (bytes "service") ch.service ∷ l)
              (split_loop-quoted ch.scope (bytes "scope=\"") [] c))

split_params-print :
    (ch : Challenge)
    → IsPlain ch.realm
    → IsPlain ch.service
    → IsPlain ch.scope
    → split_params (realm_text ch)
      ≡ part (bytes "realm") ch.realm
        ∷ part (bytes "service") ch.service
        ∷ part (bytes "scope") ch.scope
        ∷ []
unfolding split_params
split_params-print ch r s c =
    ap (λ (x : Str). split_loop false [] x) (valid_text-realm ch r s c)
    ∙ split_loop-print ch (IsPlain-IsUnquoted ch.realm r) (IsPlain-IsUnquoted ch.service s)
        (IsPlain-IsUnquoted ch.scope c)

read_params-print :
    (ch : Challenge)
    → IsUnquoted ch.realm
    → IsUnquoted ch.service
    → IsUnquoted ch.scope
    → read_params no_params (
        part (bytes "realm") ch.realm
        ∷ part (bytes "service") ch.service
        ∷ part (bytes "scope") ch.scope
        ∷ [])
      ≡ ch
unfolding read_params part cut set_param to_lower trim_space trim_left trim_right str_eq
read_params-print ch r s c =
    rw (unquote-quoted ch.realm r, unquote-quoted ch.service s, unquote-quoted ch.scope c)

pub print_challenge : Challenge → Str
unfolding realm_text
print_challenge ch = bytes "Bearer " ++ realm_text ch

-- A challenge that is written with its three values in quotes is read back, whatever ASCII but
-- quotes the values hold (also commas and spaces), if the realm is not empty.
pub parse_challenge-print :
    (ch : Challenge)
    → IsPlain ch.realm
    → IsPlain ch.service
    → IsPlain ch.scope
    → is_empty ch.realm ≡ false
    → parse_challenge (print_challenge ch) ≡ some ch
unfolding parse_challenge print_challenge realm_text service_text scope_text to_lower has_prefix
parse_challenge-print ch r s c realm =
    let unquoted =
      read_params-print ch (IsPlain-IsUnquoted ch.realm r) (IsPlain-IsUnquoted ch.service s)
        (IsPlain-IsUnquoted ch.scope c) in
    rw (split_params-print ch r s c, unquoted, realm)
