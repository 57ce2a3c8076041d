-- ===== src/Rpc/Tests.antt =====
-- A wire form for the envelopes, with which the parameters of the RPC modules can be met.
pub mod Server
mod Client
mod Balance
mod Parts
mod Node
mod RoundTrip
mod Pool
use mini_rpc.Base.{
  ℕ, ◌+◌, ◌≡◌, refl, ap, ◌∙◌, List, [], ◌∷◌, ◌++◌, Option, none, some, length, take, drop,
  take-append_self, drop-append_self,
}
use mathlib.Core.Path.{ap₂}
use mini_rpc.Base.Text.{Text}
use mini_rpc.Rpc.Envelope.{RpcRequest, RpcResponse, Protobuf}

-- Fields with the length of the first before them.
serialize_request : RpcRequest → Text
serialize_request r = length r.method ∷ (r.method ++ r.request)

parse_request : Text → Option RpcRequest
parse_request [] = none
parse_request (n ∷ xs) = some (record { method = take n xs; request = drop n xs })

serialize_response : RpcResponse → Text
serialize_response r = r.error_code ∷ length r.error_message ∷ (r.error_message ++ r.response)

parse_response : Text → Option RpcResponse
parse_response [] = none
parse_response (c ∷ []) = none
parse_response (c ∷ n ∷ xs) =
    some (record { error_code = c; error_message = take n xs; response = drop n xs })

unfoldable pub pb : Protobuf
unfolding serialize_request parse_request serialize_response parse_response
pb = record {
  serialize_request = serialize_request;
  parse_request = parse_request;
  serialize_response = serialize_response;
  parse_response = parse_response;
  parse-serialize_request = λ r.
      ap₂ (λ m q. some (record { method = m; request = q }))
        (take-append_self (length r.method) r.method r.request refl)
        (drop-append_self (length r.method) r.method r.request refl);
  parse-serialize_response = λ r.
      ap₂ (λ m q. some (record { error_code = r.error_code; error_message = m; response = q }))
        (take-append_self (length r.error_message) r.error_message r.response refl)
        (drop-append_self (length r.error_message) r.error_message r.response refl);
}
