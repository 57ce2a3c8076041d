-- ===== src/Rpc/Server.antt =====
-- include/minirpc/rpc/RpcServer.h and src/rpc/RpcServer.cpp: frames in, requests to the thread pool,
-- one reply for each. Protobuf and the services' code are parameters, and so is the answer of
-- `ThreadPool::submit` (`none`, or the text of its exception). Threads and logging are left out:
-- `handle_request` is the task's body, and what it sends is its value.
pub mod Reply
pub mod Loop
pub mod Serves
pub mod Pool
use mini_rpc.Base.{
  ℕ, zero, suc, ◌≡◌, List, [], ◌∷◌, ◌++◌, ◌==◌, if◌then◌else◌, Bool, true, false, Option, none,
  some,
}
use mathlib.Core.Option
use mini_rpc.Base.Text.{Text, text}
use mini_rpc.Base.Decimal.{split_last}
use mini_rpc.Net.Buffer.{Buffer, create, initial_size, retrieve_all_as_string}
use mini_rpc.Codec.{
  ProtocolMessage, MessageType, message_type, request, response, magic_number, protocol_version,
  encode, try_decode, CodecError, invalid_magic, unsupported_version, body_too_long, Decoded,
  incomplete, frame, throws,
}
use mini_rpc.Common.ErrorCode
use mini_rpc.Rpc.Controller
use mini_rpc.Rpc.Controller.{Controller}
use mini_rpc.Rpc.ServiceRegistry.{Services, add_service, find_service}
use mini_rpc.Rpc.Envelope.{RpcRequest, RpcResponse, Protobuf}

-- The reflection and the code of the registered services: a service and a method are numbers.
pub record Backend : Type 0 where
  -- `GetDescriptor()->FindMethodByName`
  pub find_method : ℕ → Text → Option ℕ
  -- `GetRequestPrototype(method).New()` and `ParseFromString`, with the message that it builds
  pub parse_payload : ℕ → ℕ → Text → Option Text
  -- `CallMethod` on a fresh controller: the controller after it, and the response serialised
  pub call_method : ℕ → ℕ → Text → Controller × Text

-- The header that both sides put before a body.
abbrev pub message : MessageType → ℕ → Text → ProtocolMessage
message type seq body = record {
  header = record {
    magic = magic_number;
    version = protocol_version;
    type = message_type type;
    flags = 0;
    seq = seq;
    body_len = 0;
    reserved = 0;
  };
  body = body;
}

-- What `onMessage` does: a message given to the pool, bytes sent, the connection shut down.
pub data Action : Type 0 where
  submits : ProtocolMessage → Action
  sends : List ℕ → Action
  shuts_down : Action

-- `registerService` of a service with its full name, `none` where the pointer is null: the text of the
-- exception that it throws, or `none`.
unfoldable pub register_service : Option (Text × ℕ) → Services → Option Text × Services
register_service none services = (some (text "RpcServer: null service"), services)
register_service (some (name, service)) services =
    let (added, services') = add_service name service services in
    if added
    then (none, services')
    else (some (text "RpcServer: duplicate service: " ++ name), services')

module _ (pb : Protobuf) where
  -- The bytes that `sendEnvelope` gives to `conn->send`.
  unfoldable pub send_envelope : ℕ → RpcResponse → List ℕ
  send_envelope seq envelope =
      let out =
        encode (message response seq (pb.serialize_response envelope)) (create initial_size) in
      (retrieve_all_as_string out).0

  abbrev pub error_response : ErrorCode.ErrorCode → Text → RpcResponse
  error_response code msg = record { error_code = code; error_message = msg; response = [] }

  unfoldable pub send_error : ℕ → ErrorCode.ErrorCode → Text → List ℕ
  unfolding send_envelope
  send_error seq code msg = send_envelope seq (error_response code msg)

  module _ (backend : Backend) where
    -- The response to a call that was made.
    unfoldable pub response_of : Controller × Text → RpcResponse
    response_of (controller, payload) =
        if controller.failed
        then error_response controller.error_code controller.error_text
        else record { error_code = ErrorCode.ok; error_message = []; response = payload }

    -- From the service's method on.
    unfoldable pub invoke : ℕ → ℕ → Text → RpcResponse
    invoke service method payload = elim (backend.parse_payload service method payload) [
      | none ↦ error_response ErrorCode.invalid_argument (text "bad request payload")
      | some msg ↦ response_of (backend.call_method service method msg)
    ]

    -- From the service's name and the method's name on.
    unfoldable pub dispatch : Services → Text → Text → Text → RpcResponse
    dispatch services service_name method_name payload = elim (find_service service_name services) [
      | none ↦ error_response ErrorCode.no_service (text "no such service: " ++ service_name)
      | some service ↦ elim (backend.find_method service method_name) [
        | none ↦ error_response ErrorCode.no_method (text "no such method: " ++ method_name)
        | some method ↦ invoke service method payload
      ]
    ]

    abbrev pub invalid_name : Text → RpcResponse
    invalid_name name =
        error_response ErrorCode.invalid_argument (text "invalid method name: " ++ name)

    -- The two names: no dot, nothing before the last dot, or nothing behind it is refused.
    unfoldable pub route : Services → RpcRequest → RpcResponse
    route services envelope = elim (split_last b'.' envelope.method) [
      | none ↦ invalid_name envelope.method
      | some ([], method_name) ↦ invalid_name envelope.method
      | some (c ∷ cs, []) ↦ invalid_name envelope.method
      | some (c ∷ cs, d ∷ ds) ↦ dispatch services (c ∷ cs) (d ∷ ds) envelope.request
    ]

    -- The envelope that answers a request body.
    unfoldable pub respond : Services → Text → RpcResponse
    respond services body = elim (pb.parse_request body) [
      | none ↦ error_response ErrorCode.invalid_argument (text "bad RpcRequest envelope")
      | some envelope ↦ route services envelope
    ]

    -- `handleRequest`: what it sends.
    unfoldable pub handle_request : Services → ProtocolMessage → List ℕ
    handle_request services msg = send_envelope msg.header.seq (respond services msg.body)

  -- One message of the loop's body: other types than requests are skipped.
  unfoldable pub on_frame : (ProtocolMessage → Option Text) → ProtocolMessage → List Action
  on_frame submit msg =
      if msg.header.type == message_type request
      then elim (submit msg) [
        | none ↦ submits msg ∷ []
        | some what ↦ sends (send_error msg.header.seq ErrorCode.system what) ∷ []
      ]
      else []

  on_decoded :
      (ProtocolMessage → Option Text)
      → (Buffer → Option (List Action × Buffer))
      → Decoded
      → Buffer
      → Option (List Action × Buffer)
  on_decoded submit again incomplete b = some ([], b)
  on_decoded submit again (throws err) b = some (shuts_down ∷ [], b)
  on_decoded submit again (frame msg) b =
      Option.map (λ (actions, rest). (on_frame submit msg ++ actions, rest)) (again b)

  -- `onMessage` with fuel; `none` is fuel that ran out.
  unfoldable pub on_message :
      ℕ → (ProtocolMessage → Option Text) → Buffer → Option (List Action × Buffer)
  unfolding on_decoded
  on_message zero submit b = none
  on_message (suc fuel) submit b =
      let (d, rest) = try_decode b in on_decoded submit (on_message fuel submit) d rest
