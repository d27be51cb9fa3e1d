-- ===== src/Webhook/Session/Auth.antt =====
-- The handshake of a session with the relay (internal/webhook/webhook.go) and its pokes.
use pullpilot.Prelude.{
  ◌≡◌, refl, ap, ◌∙◌, Bool, true, false, Option, none, some, List, [], ◌∷◌, Bool-cases,
  Option-cases, ◌⊎◌, inl, inr,
}
use pullpilot.Prelude.Exec.{Result, ok, err}
use pullpilot.Std.Str.{Str, bytes, str_eq}
use pullpilot.Std.Str.Laws.{str_eq_iff}
use pullpilot.Webhook.Session.{
  Message, Frame, SessionError, Session, Codec, read, next_frame, listen, auth_frame, after_ready,
  answer, after_hello, connect_and_listen,
}

module _ (c : Codec) where
  -- A frame was read off the front of the messages.
  abbrev Next : (ms : List Message) (f : Frame) (rest : List Message) → Type 0
  Next ms f rest = (m : Message) × (ms ≡ m ∷ rest) × (read c m ≡ some f)

  next_frame-Next :
      (ms : List Message) (f : Frame) (rest : List Message)
      → next_frame c ms ≡ ok (f, rest)
      → Next ms f rest
  unfolding next_frame
  next_frame-Next [] f rest h = cc h
  next_frame-Next (m ∷ ms) f rest h = elim (Option-cases (read c m)) [
    | inl bad ↦ cc (rw (bad, next_frame) at h)
    | inr (g, good) ↦
        let same = rw (good, next_frame) at h in
        (m, ap (λ (l : List Message). m ∷ l) (cc same), good ∙ ap some (cc same))
  ]

  module _ (seed webhook_id : Str) where
    -- The messages begin with a `hello` and a `ready`; between them the session sent the signature of
    -- the hello's challenge, bound to this protocol and webhook; the pokes come after the `ready`.
    pub record Authenticated (ms : List Message) (s : Session) : Type 0 where
      pub first : Message
      pub second : Message
      pub rest : List Message
      pub hello : Frame
      pub ready : Frame
      pub chal : Str
      pub order : ms ≡ first ∷ second ∷ rest
      pub read_hello : read c first ≡ some hello
      pub is_hello : hello.kind ≡ bytes "hello"
      pub challenged : c.decode64 hello.challenge ≡ some chal
      pub was_authed : s.authed ≡ true
      pub signed : s.sent ≡ some (auth_frame c seed webhook_id chal)
      pub read_ready : read c second ≡ some ready
      pub is_ready : ready.kind ≡ bytes "ready"
      pub heard : s.pokes ≡ (listen c rest).0

    -- It was not authenticated and heard no poke, or it was authenticated.
    abbrev pub Verdict : List Message → Session → Type 0
    Verdict ms s = ((s.authed ≡ false) × (s.pokes ≡ [])) ⊎ Authenticated ms s

    -- What is known once a hello was read.
    record Greeted (ms rest : List Message) (hello : Frame) : Type 0 where
      first : Message
      order : ms ≡ first ∷ rest
      read_hello : read c first ≡ some hello
      is_hello : hello.kind ≡ bytes "hello"

    after_ready-Verdict :
        (ms rest : List Message) (hello : Frame) (chal : Str)
        → Greeted ms rest hello
        → c.decode64 hello.challenge ≡ some chal
        → (x : Result SessionError (Frame × List Message)) → next_frame c rest ≡ x
        → Verdict ms (after_ready c seed webhook_id (some (auth_frame c seed webhook_id chal)) x)
    unfolding after_ready
    after_ready-Verdict ms rest hello chal g e (err y) n = inl (refl, refl)
    after_ready-Verdict ms rest hello chal g e (ok (f, rest')) n =
        let (second, order, got) = next_frame-Next rest f rest' n in
        elim (Bool-cases (str_eq f.kind (bytes "ready"))) [
          | inl good ↦ inr (
              rw (good, after_ready)
                (record {
                  first = g.first;
                  second = second;
                  rest = rest';
                  hello = hello;
                  ready = f;
                  chal = chal;
                  order = g.order ∙ ap (λ (l : List Message). g.first ∷ l) order;
                  read_hello = g.read_hello;
                  is_hello = g.is_hello;
                  challenged = e;
                  was_authed = refl;
                  signed = refl;
                  read_ready = got;
                  is_ready = (str_eq_iff f.kind (bytes "ready")).0 good;
                  heard = refl;
                }))
          | inr bad ↦ inl (rw (bad, after_ready) (refl, refl))
        ]

    answer-Verdict :
        (ms rest : List Message) (hello : Frame)
        → Greeted ms rest hello
        → (writable : Bool) (x : Option Str) → c.decode64 hello.challenge ≡ x
        → Verdict ms (answer c seed webhook_id writable x rest)
    unfolding answer
    answer-Verdict ms rest hello g writable none e = inl (refl, refl)
    answer-Verdict ms rest hello g false (some chal) e = inl (refl, refl)
    answer-Verdict ms rest hello g true (some chal) e =
        after_ready-Verdict ms rest hello chal g e (next_frame c rest) refl

    after_hello-Verdict :
        (ms : List Message) (writable : Bool) (x : Result SessionError (Frame × List Message))
        → next_frame c ms ≡ x
        → Verdict ms (after_hello c seed webhook_id writable x)
    unfolding after_hello
    after_hello-Verdict ms writable (err y) n = inl (refl, refl)
    after_hello-Verdict ms writable (ok (f, rest)) n =
        let (first, order, got) = next_frame-Next ms f rest n in
        elim (Bool-cases (str_eq f.kind (bytes "hello"))) [
          | inl good ↦
              rw (good, after_hello)
                (answer-Verdict ms rest f
                  (record {
                    first = first;
                    order = order;
                    read_hello = got;
                    is_hello = (str_eq_iff f.kind (bytes "hello")).0 good;
                  })
                  writable (c.decode64 f.challenge) refl)
          | inr bad ↦ inl (rw (bad, after_hello) (refl, refl))
        ]

    -- Every session either was not authenticated and passed no poke on; or the relay said hello, got
    -- the signature of its challenge and said ready, and the pokes are those that came after that.
    pub connect_and_listen-Verdict :
        (dialed writable : Bool) (ms : List Message)
        → Verdict ms (connect_and_listen c seed webhook_id dialed writable ms)
    unfolding connect_and_listen
    connect_and_listen-Verdict false writable ms = inl (refl, refl)
    connect_and_listen-Verdict true writable ms =
        after_hello-Verdict ms writable (next_frame c ms) refl
