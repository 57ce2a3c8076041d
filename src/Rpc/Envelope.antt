-- ===== src/Rpc/Envelope.antt =====
-- The messages of proto/rpc.proto, and protobuf's serialisation of them as a parameter: generated code
-- and the protobuf runtime are not part of the repository.
use mini_rpc.Base.{ℕ, ◌≡◌, Option, some}
use mini_rpc.Base.Text.{Text}

pub record RpcRequest : Type 0 where
  pub method : Text
  pub request : Text

pub record RpcResponse : Type 0 where
  pub error_code : ℕ
  pub error_message : Text
  pub response : Text

-- `SerializeToString` and `ParseFromString` of the two envelopes: what was serialised parses back.
pub record Protobuf : Type 0 where
  pub serialize_request : RpcRequest → Text
  pub parse_request : Text → Option RpcRequest
  pub serialize_response : RpcResponse → Text
  pub parse_response : Text → Option RpcResponse
  pub parse-serialize_request : (r : RpcRequest) → parse_request (serialize_request r) ≡ some r
  pub parse-serialize_response : (r : RpcResponse) → parse_response (serialize_response r) ≡ some r
