-- ===== src/Rpc/Server/Reply.antt =====
-- A reply is one frame: it answers its request's sequence number with the response that was computed.
use mini_rpc.Base.{
  ℕ, ◌^◌, ◌≤◌, ◌<◌, ◌≡◌, ◌≢◌, refl, ap, ◌∙◌, List, [], ◌∷◌, ◌++◌, some, arith, length, All,
}
use mini_rpc.Base.Text.{Text}
use mini_rpc.Base.Decimal.{split_last-append}
use mini_rpc.Net.Buffer.{create, initial_size}
use mini_rpc.Net.Buffer.Invariant.{create-IsValid}
use mini_rpc.Net.Buffer.Refine.{contents-create, retrieve_all_as_string_lem}
use mini_rpc.Codec.{
  ProtocolMessage, MessageType, message_type, response, encode, frame, max_body_size,
}
use mini_rpc.Codec.Wire.{wire, contents-encode}
use mini_rpc.Codec.Decode.{parse-wire, IsFrame, sent}
use mini_rpc.Codec.Parse.{parse}
use mini_rpc.Rpc.ServiceRegistry.{Services, find_service}
use mini_rpc.Rpc.Envelope.{RpcRequest, RpcResponse, Protobuf}
use mini_rpc.Rpc.Server.{
  Backend, message, send_envelope, response_of, invoke, dispatch, route, respond, handle_request,
}

module _ (pb : Protobuf) where
  -- The body of a reply within the protocol's limit.
  abbrev pub IsSmall : RpcResponse → Type 0
  IsSmall envelope = length (pb.serialize_response envelope) ≤ max_body_size

  pub send_envelope-wire :
      (seq : ℕ) (envelope : RpcResponse)
      → IsSmall envelope
      → send_envelope pb seq envelope ≡ wire (message response seq (pb.serialize_response envelope))
  unfolding send_envelope
  send_envelope-wire seq envelope small =
      let msg = message response seq (pb.serialize_response envelope) in
      let fresh = create initial_size in
      let v = create-IsValid initial_size (omega arith) in
      let e =
        contents-encode msg fresh v (omega (arith, ap length (contents-create initial_size))) in
      (retrieve_all_as_string_lem (encode msg fresh) e.1).0
      ∙ e.0
      ∙ ap (λ xs. xs ++ wire msg) (contents-create initial_size)

  pub IsFrame-message :
      (type : MessageType) (seq : ℕ) (body : Text)
      → seq < 2 ^ 64
      → length body ≤ max_body_size
      → IsFrame (message type seq body)
  IsFrame-message type seq body h k = record {
    magic = refl;
    version = refl;
    flags = omega arith;
    seq = h;
    reserved = omega arith;
    body = k;
  }

  -- The bytes that a request is answered with are one frame, whatever follows it on the wire: it has
  -- type response and the sequence number of the request, and its body parses to the response that was
  -- computed, for a sequence number of 64 bits and a response within the body limit.
  pub handle_request_replies :
      (backend : Backend) (services : Services) (msg : ProtocolMessage) (rest : List ℕ)
      → msg.header.seq < 2 ^ 64
      → IsSmall (respond pb backend services msg.body)
      → (m : ProtocolMessage) × (parse (handle_request pb backend services msg ++ rest)
          ≡ (frame m, rest))
        × (m.header.type ≡ message_type response)
        × (m.header.seq ≡ msg.header.seq)
        × (pb.parse_response m.body ≡ some (respond pb backend services msg.body))
  unfolding handle_request
  handle_request_replies backend services msg rest h small =
      let answer = respond pb backend services msg.body in
      let body = pb.serialize_response answer in
      (
        sent (message response msg.header.seq body),
        ap (λ xs. parse (xs ++ rest)) (send_envelope-wire msg.header.seq answer small)
            ∙ parse-wire (message response msg.header.seq body) rest
                (IsFrame-message response msg.header.seq body h small),
        refl,
        refl,
        pb.parse-serialize_response answer,
      )

  pub respond_calls :
      (backend : Backend) (services : Services) (service method : ℕ)
      (service_name method_name payload msg : Text)
      → service_name ≢ []
      → method_name ≢ []
      → All (λ c. c ≢ b'.') method_name
      → find_service service_name services ≡ some service
      → backend.find_method service method_name ≡ some method
      → backend.parse_payload service method payload ≡ some msg
      → respond pb backend services (
          pb.serialize_request
            (record { method = service_name ++ (b'.' ∷ method_name); request = payload }))
        ≡ response_of pb backend (backend.call_method service method msg)
  unfolding respond route dispatch invoke
  respond_calls backend services service method [] method_name payload msg ne ne' plain h k p =
      absurd (ne refl)
  respond_calls backend services service method (c ∷ cs) [] payload msg ne ne' plain h k p =
      absurd (ne' refl)
  respond_calls backend services service method (c ∷ cs) (d ∷ ds) payload msg ne ne' plain h k p =
      let envelope : RpcRequest = record {
        method = (c ∷ cs) ++ (b'.' ∷ d ∷ ds);
        request = payload;
      } in
      ground
        (arith, pb.parse-serialize_request envelope, split_last-append b'.' (c ∷ cs) (d ∷ ds) plain)
