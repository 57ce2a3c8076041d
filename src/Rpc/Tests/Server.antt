-- ===== src/Rpc/Tests/Server.antt =====
-- A server with one service, `Echo`, whose method `Ping` gives its request back.
use mini_rpc.Base.{
  ℕ, ◌≡◌, ◌≢◌, refl, ap, List, [], ◌∷◌, ◌++◌, Option, none, some, length, arith, All, map,
  replicate, if◌then◌else◌, if-cases, ◌==◌, ◌≤◌, subst,
}
use mini_rpc.Base.Text.{Text, text}
use mini_rpc.Base.Dict.{lookup}
use mini_rpc.Net.Buffer.{Buffer}
use mini_rpc.Net.Buffer.Invariant.{IsValid}
use mini_rpc.Net.Buffer.Refine.{filled, filled_lem}
use mini_rpc.Net.Buffer.Contents.{contents}
use mini_rpc.Codec.{
  ProtocolMessage, message_type, request, response, incomplete, frame, throws, invalid_magic,
  be_bytes, max_body_size, read_header, read_u16, read_u32, read_u64, be_value,
}
use mini_rpc.Codec.Wire.{header_bytes}
use mini_rpc.Codec.Decode.{sent}
use mini_rpc.Codec.Parse.{parse}
use mini_rpc.Codec.Stream.Frames.{wires}
use mini_rpc.Codec.Tests.{ping, pong, ping-IsFrame, pong-IsFrame}
use mini_rpc.Common.ErrorCode
use mini_rpc.Rpc.Controller.{fresh}
use mini_rpc.Rpc.ServiceRegistry.{Services, find_service}
use mini_rpc.Rpc.Envelope.{RpcRequest}
use mini_rpc.Rpc.Server.{
  Backend, message, handle_request, respond, response_of, on_message, shuts_down, Action,
}
use mini_rpc.Rpc.Server.Reply.{IsSmall, handle_request_replies, respond_calls}
use mini_rpc.Rpc.Server.Loop.{on_frames, on_message-violation}
use mini_rpc.Rpc.Server.Serves.{HasShortTexts, Serves, on_message-wires}
use mini_rpc.Rpc.Tests.{pb}

abbrev pub backend : Backend
backend = record {
  find_method = λ service name. some 1;
  parse_payload = λ service method payload. some payload;
  call_method = λ service method payload. (fresh, payload);
}

abbrev pub services : Services
services = (text "Echo", 3) ∷ []

abbrev envelope : RpcRequest
envelope = record { method = text "Echo" ++ (b'.' ∷ text "Ping"); request = text "hi" }

abbrev call : ProtocolMessage
call = message request 7 (pb.serialize_request envelope)

pub found : find_service (text "Echo") services ≡ some 3
unfolding find_service lookup
found = ground arith

pub no_dot : All (λ c. c ≢ b'.') (text "Ping")
no_dot = (
  (λ e. omega (arith, e)),
  ((λ e. omega (arith, e)), ((λ e. omega (arith, e)), ((λ e. omega (arith, e)), tt))),
)

ping_reply :
    respond pb backend services (pb.serialize_request envelope)
    ≡ response_of pb backend (backend.call_method 3 1 (text "hi"))
ping_reply =
    respond_calls pb backend services 3 1 (text "Echo") (text "Ping") (text "hi") (text "hi")
      (λ e. grind (arith, e)) (λ e. grind (arith, e)) no_dot found refl refl

reply-IsSmall : IsSmall pb (respond pb backend services call.body)
unfolding response_of fresh pb
reply-IsSmall = omega (arith, ap (λ r. length (pb.serialize_response r)) ping_reply)

handle_request_replies_example :
    (m : ProtocolMessage) × (parse (handle_request pb backend services call ++ (1 ∷ 2 ∷ []))
      ≡ (frame m, 1 ∷ 2 ∷ []))
    × (m.header.type ≡ message_type response)
    × (m.header.seq ≡ call.header.seq)
    × (pb.parse_response m.body ≡ some (respond pb backend services call.body))
handle_request_replies_example =
    handle_request_replies pb backend services call (1 ∷ 2 ∷ []) (omega arith) reply-IsSmall

-- A pool that takes everything.
abbrev pub accept_all : ProtocolMessage → Option Text
accept_all m = none

-- Two frames and five bytes of a third.
abbrev part : List ℕ
part = 0x4D ∷ 0x49 ∷ 0x4E ∷ 0x52 ∷ 1 ∷ []

abbrev arrived : List ℕ
arrived = wires (ping ∷ pong ∷ []) ++ part

arrived_lem : (contents (filled arrived) ≡ arrived) × IsValid (filled arrived)
unfolding header_bytes be_bytes
arrived_lem = filled_lem arrived (omega arith)

part-incomplete : parse part ≡ (incomplete, part)
unfolding parse read_header read_u16 read_u32 read_u64 be_value
part-incomplete = refl

-- A pool that is full for request 7.
abbrev nearly_full : ProtocolMessage → Option Text
nearly_full m = if m.header.seq == 7 then some (text "full") else none

nearly_full-HasShortTexts : HasShortTexts pb nearly_full
unfolding pb
nearly_full-HasShortTexts m what e =
    if-cases
      (λ o. o ≡ some what → length (ErrorCode.system ∷ length what ∷ (what ++ [])) ≤ max_body_size)
      (m.header.seq == 7)
      (λ h q.
        let w : text "full" ≡ what = cc in
        subst (λ k. length (ErrorCode.system ∷ length k ∷ (k ++ [])) ≤ max_body_size) w
          (omega arith))
      (λ h q. absurd (cc)) e

on_message-wires_example :
    (rest : Buffer) × (actions : List Action) × (on_message pb 100 nearly_full (filled arrived)
      ≡ some (actions, rest))
    × Serves pb nearly_full (map sent (ping ∷ pong ∷ [])) actions
    × (contents rest ≡ part)
    × IsValid rest
unfolding header_bytes be_bytes
on_message-wires_example =
    on_message-wires pb nearly_full 100 (ping ∷ pong ∷ []) part (filled arrived)
      nearly_full-HasShortTexts arrived_lem.1 arrived_lem.0 (ping-IsFrame, (pong-IsFrame, tt))
      part-incomplete (omega (arith, ap length arrived_lem.0))

-- 24 bytes that are no header.
abbrev bad : List ℕ
bad = replicate 24 255

abbrev attack : List ℕ
attack = wires (ping ∷ []) ++ bad

attack_lem : (contents (filled attack) ≡ attack) × IsValid (filled attack)
unfolding header_bytes be_bytes
attack_lem = filled_lem attack (omega arith)

bad-throws : parse bad ≡ (throws invalid_magic, bad)
unfolding parse read_header read_u16 read_u32 read_u64 be_value
bad-throws = refl

on_message-violation_example :
    (rest : Buffer) × (on_message pb 100 accept_all (filled attack)
      ≡ some (on_frames pb accept_all (map sent (ping ∷ [])) ++ (shuts_down ∷ []), rest))
    × (contents rest ≡ bad)
unfolding header_bytes be_bytes
on_message-violation_example =
    on_message-violation pb accept_all 100 (ping ∷ []) bad invalid_magic (filled attack)
      attack_lem.1 attack_lem.0 (ping-IsFrame, tt) bad-throws
      (omega (arith, ap length attack_lem.0))
