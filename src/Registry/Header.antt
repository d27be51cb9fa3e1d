-- ===== src/Registry/Header.antt =====
-- The WWW-Authenticate header of internal/registry/registry.go.
pub mod Print
use pullpilot.Prelude.{
  ◌≡◌, refl, ℕ, Bool, false, not, ◌&&◌, Option, none, some, List, [], ◌∷◌, ◌++◌, length, drop, ◌==◌,
  if◌then◌else◌,
}
use pullpilot.Std.Str.{
  Str, bytes, str_eq, is_empty, has_prefix, to_lower, trim_space, trim_left, trim_right, cut,
}
use pullpilot.Std.Utf8.{valid_text}

pub record Challenge : Type 0 where
  pub realm : Str
  pub service : Str
  pub scope : Str

-- The loop of splitParams: `b` is the part so far. No byte of a longer rune is a `"` or a `,`, so the
-- bytes of valid text go through the loop one by one.
unfoldable pub split_loop : Bool → Str → Str → List Str
split_loop in_quote b [] = if is_empty b then [] else b ∷ []
split_loop in_quote b (r ∷ s) =
    let quote = split_loop (not in_quote) (b ++ r ∷ []) s in
    let comma = b ∷ split_loop in_quote [] s in
    let other = split_loop in_quote (b ++ r ∷ []) s in
    if r == b'"' then quote else if (r == b',') && not in_quote then comma else other

-- The loop ranges over runes and writes them: a byte that is no UTF-8 is written as U+FFFD.
unfoldable pub split_params : Str → List Str
unfolding split_loop
split_params s = split_loop false [] (valid_text s)

abbrev pub is_quote : ℕ → Bool
is_quote c = c == b'"'

-- strings.Trim(strings.TrimSpace(v), `"`)
unfoldable pub unquote : Str → Str
unquote v = trim_right is_quote (trim_left is_quote (trim_space v))

-- The switch on the key of one parameter.
unfoldable pub set_param : Challenge → Str → Str → Challenge
set_param ch k v =
    if str_eq k (bytes "realm")
    then record ch { realm = v }
    else if str_eq k (bytes "service")
    then record ch { service = v }
    else if str_eq k (bytes "scope")
    then record ch { scope = v }
    else ch

unfoldable pub read_params : Challenge → List Str → Challenge
unfolding set_param
read_params ch [] = ch
read_params ch (part ∷ parts) =
    read_params
      (elim (cut part b'=') [
        | none ↦ ch
        | some (k, v) ↦ set_param ch (to_lower (trim_space k)) (unquote v)
      ])
      parts

abbrev pub no_params : Challenge
no_params = record { realm = []; service = []; scope = [] }

abbrev pub bearer_prefix : Str
bearer_prefix = bytes "bearer "

unfoldable pub parse_challenge : Str → Option Challenge
unfolding split_params read_params
parse_challenge h =
    let ch = read_params no_params (split_params (drop (length bearer_prefix) h)) in
    if has_prefix (to_lower h) bearer_prefix
    then (if is_empty ch.realm then none else some ch)
    else none

challenge_run :
    parse_challenge
      (bytes "Bearer realm=\"https://a/token\", service=\"a\",scope=\"r:x:pull,push\"")
    ≡ some (record {
      realm = bytes "https://a/token";
      service = bytes "a";
      scope = bytes "r:x:pull,push";
    })
unfolding parse_challenge unquote trim_space cut to_lower has_prefix str_eq valid_text
challenge_run = refl
