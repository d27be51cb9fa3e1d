-- ===== src/Tests/Hook.antt =====
-- The relay's client on a machine that is a table of files: set-up, sessions, and the theorems at
-- concrete data.
use mathlib.Core.List.{append_cancel_left}
use pullpilot.Prelude.{
  suc, zero, ◌≡◌, refl, sym, ap, true, Option, none, some, List, [], ◌∷◌, ◌++◌, length,
}
use pullpilot.Prelude.Exec.{ok}
use pullpilot.Std.Str.{Str, bytes, str_eq, trim_right}
use pullpilot.Std.Dict.{Dict, lookup, insert}
use pullpilot.Std.Dict.Laws.{lookup-insert_other, lookup-insert_self}
use pullpilot.Webhook.Identity.{Registration, Machine, Client, new_client}
use pullpilot.Webhook.Identity.Kept.{IsMachine}
use pullpilot.Webhook.Identity.Again.{tidy, new_client_again}
use pullpilot.Webhook.Session.{Message, text, empty_frame, Codec, connect_and_listen, read_text}
use pullpilot.Webhook.Session.Auth.{Verdict, connect_and_listen-Verdict}

-- A text that ends in front of a zero, and what stands behind it.
pack : Str → Str → Str
pack [] t = 0 ∷ t
pack (c ∷ s) t = suc c ∷ pack s t

unpack : Str → Str × Str
unpack [] = ([], [])
unpack (zero ∷ t) = ([], t)
unpack (suc c ∷ t) = let r = unpack t in (c ∷ r.0, r.1)

unpack-pack : (s t : Str) → unpack (pack s t) ≡ (s, t)
unfolding pack unpack
unpack-pack [] t = refl
unpack-pack (c ∷ s) t = rw (unpack-pack s t)

abbrev written : Registration → Str
written r = pack r.base_url (pack r.webhook_id (pack r.poke_url (pack r.listen_url [])))

abbrev understood : Str → Option Registration
understood s =
    let a = unpack s in
    let b = unpack a.1 in
    let c = unpack b.1 in
    let d = unpack c.1 in
    some (record { base_url = a.0; webhook_id = b.0; poke_url = c.0; listen_url = d.0 })

understood-written : (r : Registration) → understood (written r) ≡ some r
understood-written r = rw (
  unpack-pack r.base_url (pack r.webhook_id (pack r.poke_url (pack r.listen_url []))),
  unpack-pack r.webhook_id (pack r.poke_url (pack r.listen_url [])),
  unpack-pack r.poke_url (pack r.listen_url []),
  unpack-pack r.listen_url [],
)

abbrev drawn : Str
drawn = bytes "0123456789abcdef0123456789abcdef"

abbrev given : Registration
given = record {
  base_url = [];
  webhook_id = bytes "h00k";
  poke_url = [];
  listen_url = bytes "wss://relay/v1/listen/h00k";
}

abbrev files : Machine (Dict Str)
files = record {
  join = λ dir name. dir ++ b'/' ∷ name;
  make_dir = λ dir w. (true, w);
  chmod = λ dir w. (tt, w);
  read = lookup;
  write = λ p c w. (true, insert p c w);
  random = λ w. (some drawn, w);
  post = λ url key label w. (some (record { status = 201; body = some given }), w);
  encode = written;
  decode = understood;
  public = λ s. s;
  encode64 = λ s. s;
}

files-IsMachine : IsMachine files
files-IsMachine = record {
  join-ne = λ dir h. cc (append_cancel_left dir (bytes "/webhook.json") (bytes "/ed25519.key") h);
  read-write = λ p c w h. lookup-insert_self p c w;
  write-other = lookup-insert_other;
  read-make_dir = λ p dir w. refl;
  read-chmod = λ p dir w. refl;
  read-random = λ p w. refl;
  read-post = λ p url key label w. refl;
  decode-encode = understood-written;
  random_size = λ w s h. ap (λ (x : Option Str). elim x [ none ↦ 0 | some y ↦ length y ]) (sym h);
}

abbrev hook : Client
hook = record {
  base_url = bytes "https://relay";
  data_dir = bytes "/data";
  seed = drawn;
  webhook_id = bytes "h00k";
  listen_url = bytes "wss://relay/v1/listen/h00k";
}

new_client_again_example :
    new_client files
      (bytes "https://relay/")
      (bytes "/data")
      (new_client files (bytes "https://relay/") (bytes "/data") []).1
    ≡ (
      ok hook,
      tidy files-IsMachine
          (bytes "/data")
          (new_client files (bytes "https://relay/") (bytes "/data") []).1,
    )
unfolding new_client lookup insert trim_right str_eq
new_client_again_example =
    new_client_again files-IsMachine (bytes "https://relay/") (bytes "/data") [] hook refl refl refl

-- A frame is its kind, and a hello's challenge is the kind's text.
abbrev plain : Codec
plain = record {
  parse_frame = λ s. some (record empty_frame { kind = s; challenge = s; reason = s });
  decode64 = λ s. some s;
  encode64 = λ s. s;
  sign = λ k m. k ++ m;
}

abbrev incoming : List Message
incoming =
    text (bytes "hello") ∷ text (bytes "ready") ∷ text (bytes "poke") ∷ text (bytes "pong") ∷ []

session_run :
    ((connect_and_listen plain drawn (bytes "h00k") true true incoming).pokes ≡ bytes "poke" ∷ [])
    × ((connect_and_listen plain drawn
          (bytes "h00k")
          true
          true
          (text (bytes "poke") ∷ incoming)).pokes
        ≡ [])
unfolding connect_and_listen read_text str_eq
session_run = (refl, refl)

connect_and_listen-Verdict_example :
    Verdict plain drawn
      (bytes "h00k")
      incoming
      (connect_and_listen plain drawn (bytes "h00k") true true incoming)
connect_and_listen-Verdict_example =
    connect_and_listen-Verdict plain drawn (bytes "h00k") true true incoming
