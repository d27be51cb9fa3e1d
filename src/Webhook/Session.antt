-- ===== src/Webhook/Session.antt =====
-- connectAndListen, read, write and heartbeat of internal/webhook/webhook.go: one session with the
-- relay. A connection is the list of the messages that arrive before reading fails. JSON, base64 and
-- ed25519 are parameters.
pub mod Auth
use pullpilot.Prelude.{Bool, true, false, Option, none, some, List, [], ◌∷◌, ◌++◌, if◌then◌else◌}
use pullpilot.Prelude.Int.{ℤ, pos}
use pullpilot.Prelude.Exec.{Result, ok, err}
use pullpilot.Std.Str.{Str, bytes, str_eq}

-- What conn.Read returns: a text, or a message of another type.
pub data Message : Type 0 where
  text : Str → Message
  binary : Message

-- type frame; a field that is missing in JSON is the zero value.
pub record Frame : Type 0 where
  pub kind : Str
  pub v : ℤ
  pub challenge : Str
  pub exp : ℤ
  pub sig : Str
  pub id : Str
  pub reason : Str

abbrev pub empty_frame : Frame
empty_frame = record {
  kind = [];
  v = pos 0;
  challenge = [];
  exp = pos 0;
  sig = [];
  id = [];
  reason = [];
}

pub data SessionError : Type 0 where
  dial_failed read_failed bad_frame bad_challenge write_failed : SessionError
  not_hello rejected : Str → SessionError

-- What a session did: the frame it sent, whether it was authenticated, the reasons that it passed to
-- `schedule`, and the error it ended with.
pub record Session : Type 0 where
  pub sent : Option Frame
  pub authed : Bool
  pub pokes : List Str
  pub error : SessionError

abbrev pub domain : Str
domain = bytes "pullpilot-webhook-relay/v1"

-- The functions of encoding/json, encoding/base64 and crypto/ed25519 that a session calls.
pub record Codec : Type 0 where
  pub parse_frame : Str → Option Frame
  pub decode64 : Str → Option Str
  pub encode64 : Str → Str
  pub sign : Str → Str → Str

module _ (c : Codec) where
  unfoldable pub read_text : Str → Option Frame
  read_text s =
      if str_eq s (bytes "pong")
      then some (record empty_frame { kind = bytes "pong" })
      else c.parse_frame s

  -- The frame of a message; `none` where it does not parse.
  unfoldable pub read : Message → Option Frame
  unfolding read_text
  read (text s) = read_text s
  read binary = some empty_frame

  -- One call of c.read on the messages to come.
  unfoldable pub next_frame : List Message → Result SessionError (Frame × List Message)
  unfolding read
  next_frame [] = err read_failed
  next_frame (m ∷ ms) = elim (read m) [ none ↦ err bad_frame | some f ↦ ok (f, ms) ]

  -- The receive loop: the reasons of the pokes, and the error that ends it.
  unfoldable pub listen : List Message → List Str × SessionError
  unfolding read
  listen [] = ([], read_failed)
  listen (m ∷ ms) =
      let rest = listen ms in
      elim (read m) [
        | none ↦ ([], bad_frame)
        | some f ↦ if str_eq f.kind (bytes "poke") then (f.reason ∷ rest.0, rest.1) else rest
      ]

  module _ (seed webhook_id : Str) where
    abbrev pub auth_frame : Str → Frame
    auth_frame chal = record empty_frame {
      kind = bytes "auth";
      sig = c.encode64 (c.sign seed (domain ++ webhook_id ++ chal));
    }

    -- A session that failed before it was authenticated.
    abbrev pub refused : Option Frame → SessionError → Session
    refused sent x = record { sent = sent; authed = false; pokes = []; error = x }

    unfoldable pub after_ready : Option Frame → Result SessionError (Frame × List Message) → Session
    unfolding listen
    after_ready sent (err x) = refused sent x
    after_ready sent (ok (f, ms)) =
        if str_eq f.kind (bytes "ready")
        then record { sent = sent; authed = true; pokes = (listen ms).0; error = (listen ms).1 }
        else refused sent (rejected f.kind)

    -- `writable`: whether the write of the answer succeeds.
    unfoldable pub answer : Bool → Option Str → List Message → Session
    unfolding after_ready next_frame
    answer writable none ms = refused none bad_challenge
    answer false (some chal) ms = refused none write_failed
    answer true (some chal) ms = after_ready (some (auth_frame chal)) (next_frame ms)

    unfoldable pub after_hello : Bool → Result SessionError (Frame × List Message) → Session
    unfolding answer
    after_hello writable (err x) = refused none x
    after_hello writable (ok (f, ms)) =
        if str_eq f.kind (bytes "hello")
        then answer writable (c.decode64 f.challenge) ms
        else refused none (not_hello f.kind)

    unfoldable pub connect_and_listen : Bool → Bool → List Message → Session
    unfolding after_hello next_frame
    connect_and_listen false writable ms = refused none dial_failed
    connect_and_listen true writable ms = after_hello writable (next_frame ms)

-- What the heartbeat waits for: the end of its context, or a tick with the result of its write.
pub data Beat : Type 0 where
  stopped : Beat
  tick : Bool → Beat

-- heartbeat: whether it closed the connection. It waits on while neither happens.
unfoldable pub heartbeat : List Beat → Bool
heartbeat [] = false
heartbeat (stopped ∷ bs) = false
heartbeat (tick true ∷ bs) = heartbeat bs
heartbeat (tick false ∷ bs) = true
