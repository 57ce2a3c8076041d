-- ===== src/Rpc/Server/Serves.antt =====
-- What `onMessage` has to do with each message that arrives, told without the code.
use mini_rpc.Base.{
  ℕ, ◌<◌, ◌≤◌, ◌≡◌, ◌≢◌, refl, ap, ◌∙◌, List, [], ◌∷◌, ◌++◌, Option, none, some, length, map, All,
  Bool-cases, Option-cases, inl, inr, ◌==◌, arith, ◌^◌, sym, append-nil, ==_iff,
}
use mini_rpc.Base.Text.{Text}
use mini_rpc.Net.Buffer.{Buffer}
use mini_rpc.Net.Buffer.Invariant.{IsValid}
use mini_rpc.Net.Buffer.Contents.{contents}
use mini_rpc.Codec.{
  ProtocolMessage, incomplete, frame, message_type, request, response, max_body_size,
}
use mini_rpc.Codec.Decode.{IsFrame, sent, parse-wire}
use mini_rpc.Codec.Parse.{parse}
use mini_rpc.Codec.Stream.Frames.{wires}
use mini_rpc.Common.ErrorCode
use mini_rpc.Rpc.Envelope.{Protobuf, RpcResponse}
use mini_rpc.Rpc.Server.{Action, submits, sends, message, on_frame, on_message, send_error}
use mini_rpc.Rpc.Server.Reply.{send_envelope-wire, IsFrame-message}
use mini_rpc.Rpc.Server.Loop.{on_frames, on_message_frames}

module _ (pb : Protobuf) (submit : ProtocolMessage → Option Text) where
  -- An answer that refuses a request: one frame, a response with the request's sequence number, whose body
  -- opens to the system error with the pool's text and no payload.
  pub record Refuses (msg : ProtocolMessage) (what : Text) (bytes : List ℕ) : Type 0 where
    pub answer : ProtocolMessage
    pub framed : parse bytes ≡ (frame answer, [])
    pub type : answer.header.type ≡ message_type response
    pub seq : answer.header.seq ≡ msg.header.seq
    pub envelope : RpcResponse
    pub opened : pb.parse_response answer.body ≡ some envelope
    pub code : envelope.error_code ≡ ErrorCode.system
    pub reason : envelope.error_message ≡ what
    pub payload : envelope.response ≡ []

  -- The actions that messages ask for, one message after the other.
  pub data Serves : List ProtocolMessage → List Action → Type 0 where
    finished : Serves [] []
    taken :
        {ms : List ProtocolMessage} {actions : List Action} (m : ProtocolMessage)
        → m.header.type ≡ message_type request
        → submit m ≡ none
        → Serves ms actions
        → Serves (m ∷ ms) (submits m ∷ actions)
    refused :
        {ms : List ProtocolMessage} {actions : List Action} (m : ProtocolMessage) (what : Text)
        (bytes : List ℕ)
        → m.header.type ≡ message_type request
        → submit m ≡ some what
        → Refuses m what bytes
        → Serves ms actions
        → Serves (m ∷ ms) (sends bytes ∷ actions)
    skipped :
        {ms : List ProtocolMessage} {actions : List Action} (m : ProtocolMessage)
        → m.header.type ≢ message_type request
        → Serves ms actions
        → Serves (m ∷ ms) actions

  -- The pool's texts fit in a response.
  abbrev pub HasShortTexts : Type 0
  HasShortTexts =
      (m : ProtocolMessage) (what : Text)
      → submit m ≡ some what
      → length (
          pb.serialize_response
            (record { error_code = ErrorCode.system; error_message = what; response = [] }))
        ≤ max_body_size

  send_error-Refuses :
      (m : ProtocolMessage) (what : Text)
      → m.header.seq < 2 ^ 64
      → length (
          pb.serialize_response
            (record { error_code = ErrorCode.system; error_message = what; response = [] }))
        ≤ max_body_size
      → Refuses m what (send_error pb m.header.seq ErrorCode.system what)
  unfolding send_error
  send_error-Refuses m what h small =
      let envelope : RpcResponse = record {
        error_code = ErrorCode.system;
        error_message = what;
        response = [];
      } in
      let body = pb.serialize_response envelope in
      record {
        answer = sent (message response m.header.seq body);
        framed =
            ap parse (send_envelope-wire pb m.header.seq envelope small ∙ sym (append-nil _))
            ∙ parse-wire (message response m.header.seq body) []
                (IsFrame-message pb response m.header.seq body h small);
        type = refl;
        seq = refl;
        envelope = envelope;
        opened = pb.parse-serialize_response envelope;
        code = refl;
        reason = refl;
        payload = refl;
      }

  on_frame-Serves :
      (m : ProtocolMessage) {ms : List ProtocolMessage} {actions : List Action}
      → HasShortTexts
      → m.header.seq < 2 ^ 64
      → Serves ms actions
      → Serves (m ∷ ms) (on_frame pb submit m ++ actions)
  unfolding on_frame
  on_frame-Serves m {ms} {actions} short h more =
      elim (Bool-cases (m.header.type == message_type request)) [
        | inl e ↦ elim (Option-cases (submit m)) [
          | inl q ↦ rw (e, q) (taken m ((==_iff _ _).0 e) q more)
          | inr (what, q) ↦
              rw (e, q)
                (refused m what (send_error pb m.header.seq ErrorCode.system what)
                  ((==_iff _ _).0 e) q (send_error-Refuses m what h (short m what q)) more)
        ]
        | inr e ↦ rw e (skipped m (λ q. ground (arith, q, e)) more)
      ]

  on_frames-Serves :
      (ms : List ProtocolMessage)
      → HasShortTexts
      → All IsFrame ms
      → Serves (map sent ms) (on_frames pb submit (map sent ms))
  on_frames-Serves [] short good = finished
  on_frames-Serves (m ∷ ms) short good =
      on_frame-Serves (sent m) short (good.0.seq) (on_frames-Serves ms short good.1)

  -- For a valid buffer that holds frames and then an unfinished part, more fuel than bytes, and a pool
  -- whose texts fit in a response, the server's loop ends, and serves the messages in order: a request
  -- that the pool takes is given to it; one that it refuses is answered with one frame, a response
  -- with the request's sequence number whose body opens to kSystem with the pool's text and no
  -- payload; other messages are skipped. The part stays in the buffer, which stays valid.
  pub on_message-wires :
      (fuel : ℕ) (ms : List ProtocolMessage) (part : List ℕ) (b : Buffer)
      → HasShortTexts
      → IsValid b
      → contents b ≡ wires ms ++ part
      → All IsFrame ms
      → parse part ≡ (incomplete, part)
      → length (contents b) < fuel
      → (rest : Buffer) × (actions : List Action) × (on_message pb fuel submit b
          ≡ some (actions, rest))
        × Serves (map sent ms) actions
        × (contents rest ≡ part)
        × IsValid rest
  on_message-wires fuel ms part b short v e good waits h =
      let (rest, run, left, rv) = on_message_frames pb submit fuel ms part b v e good waits h in
      (rest, on_frames pb submit (map sent ms), run, on_frames-Serves ms short good, left, rv)
