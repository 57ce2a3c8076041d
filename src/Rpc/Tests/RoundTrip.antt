-- ===== src/Rpc/Tests/RoundTrip.antt =====
-- A client that calls `Echo.Ping` and the server that answers.
use mini_rpc.Base.{
  ℕ, ◌≡◌, refl, ap, List, [], ◌∷◌, ◌++◌, Bool, true, false, none, some, length, arith,
}
use mini_rpc.Base.Text.{Text, text, Text-discrete}
use mini_rpc.Net.Buffer.{append, ensure_writable_bytes, Buffer, create, initial_size, got}
use mini_rpc.Net.Buffer.Invariant.{IsValid, create-IsValid}
use mini_rpc.Net.Buffer.Refine.{contents-create, filled, filled_lem}
use mini_rpc.Net.Buffer.Contents.{contents}
use mini_rpc.Codec.{be_bytes, encode}
use mini_rpc.Common.ErrorCode
use mini_rpc.Base.Dict.{lookup}
use mini_rpc.Base.Decimal.{split_last}
use mini_rpc.Rpc.ServiceRegistry.{find_service}
use mini_rpc.Rpc.Controller.{fresh, reset, set_failed_code}
use mini_rpc.Rpc.Server.{
  handle_request, respond, route, dispatch, response_of, error_response, on_message, submits,
}
use mini_rpc.Rpc.Server.Reply.{respond_calls}
use mini_rpc.Rpc.Channel.{
  Channel, Caller, wrote, send_all, Round, ready, succeeded, system, reason_of,
}
use mini_rpc.Rpc.Channel.Call.{Attempt, Outcome, request_bytes, call_method}
use mini_rpc.Rpc.RoundTrip.{call_method-replies, call_method-fails}
use mini_rpc.Rpc.Exchange.{received, ok_response, request_body}
use mini_rpc.Rpc.Tests.{pb}
use mini_rpc.Rpc.Tests.Server.{backend, services, found, no_dot, accept_all}

abbrev parses : Text → Bool
parses t = true

abbrev name : Text
name = text "Echo" ++ (b'.' ∷ text "Ping")

abbrev caller : Caller
caller = record { controller = none; reply = none }

abbrev channel : Channel
channel = record {
  connected = true;
  timeout = 40;
  max_retries = 2;
  next_seq = 9;
  input = create initial_size;
}

abbrev out_bytes : List ℕ
out_bytes = request_bytes pb parses 9 (request_body pb name (text "hi"))

abbrev round : Round
round = record {
  now = 20;
  answer =
      ready false true
        (got (handle_request pb backend services (received pb name (text "hi") channel)));
}

abbrev env : Attempt
env = record { sends = wrote 10 ∷ wrote 100 ∷ []; errno = []; start = 10; rounds = round ∷ [] }

computed : respond pb backend services (request_body pb name (text "hi")) ≡ ok_response (text "hi")
unfolding response_of fresh
computed =
    respond_calls pb backend services 3 1 (text "Echo") (text "Ping") (text "hi") (text "hi")
      (λ e. grind (arith, e)) (λ e. grind (arith, e)) no_dot found refl refl

sent_all : send_all env.sends out_bytes ≡ some (true, out_bytes)
unfolding send_all be_bytes request_bytes encode append ensure_writable_bytes pb create
sent_all = refl

body_size : length (request_body pb name (text "hi")) ≡ 12
unfolding pb
body_size = refl

reply_size : length (pb.serialize_response (ok_response (text "hi"))) ≡ 4
unfolding pb
reply_size = refl

out_size : length out_bytes ≡ 36
unfolding be_bytes request_bytes encode append ensure_writable_bytes pb create
out_size = refl

stored : (contents (filled out_bytes) ≡ out_bytes) × IsValid (filled out_bytes)
stored = filled_lem out_bytes (omega (arith, out_size))

call_method-replies_example :
    ((left : Buffer) × (on_message pb 100 accept_all (filled out_bytes)
        ≡ some (submits (received pb name (text "hi") channel) ∷ [], left)))
    × ((o : Outcome) × (call_method pb parses name (text "hi") none (env ∷ []) channel caller
          ≡ some o)
        × (o.result ≡ succeeded)
        × (o.caller.reply ≡ some (text "hi"))
        × (o.seqs ≡ 9 ∷ [])
        × (contents o.channel.input ≡ []))
call_method-replies_example =
    call_method-replies pb parses backend services accept_all name (text "hi") (text "hi") none
      channel caller env [] out_bytes round [] (filled out_bytes) 100 computed refl
      (omega (arith, body_size)) (omega (arith, reply_size)) refl
      (create-IsValid initial_size (omega arith)) (contents-create initial_size) (omega arith)
      sent_all stored.1 stored.0 (omega (arith, ap length stored.0, out_size)) refl refl
      (omega arith) refl

-- The same client asks for a service that the server does not have.
abbrev unknown : Text
unknown = text "Gone" ++ (b'.' ∷ text "Ping")

abbrev reason : Text
reason = text "no such service: Gone"

abbrev held : Caller
held = record { controller = some fresh; reply = none }

no_service_computed :
    respond pb backend services (request_body pb unknown (text "hi"))
    ≡ error_response pb ErrorCode.no_service reason
unfolding respond route dispatch find_service lookup split_last Text-discrete pb
no_service_computed = refl

abbrev unknown_bytes : List ℕ
unknown_bytes = request_bytes pb parses 9 (request_body pb unknown (text "hi"))

abbrev unknown_round : Round
unknown_round = record {
  now = 20;
  answer =
      ready false true
        (got (handle_request pb backend services (received pb unknown (text "hi") channel)));
}

abbrev unknown_env : Attempt
unknown_env = record { sends = wrote 36 ∷ []; errno = []; start = 10; rounds = unknown_round ∷ [] }

unknown_sent : send_all unknown_env.sends unknown_bytes ≡ some (true, unknown_bytes)
unfolding send_all be_bytes request_bytes encode append ensure_writable_bytes pb create
unknown_sent = refl

unknown_body_size : length (request_body pb unknown (text "hi")) ≡ 12
unfolding pb
unknown_body_size = refl

error_size : length (pb.serialize_response (error_response pb ErrorCode.no_service reason)) ≡ 23
unfolding pb
error_size = refl

unknown_size : length unknown_bytes ≡ 36
unfolding be_bytes request_bytes encode append ensure_writable_bytes pb create
unknown_size = refl

unknown_stored : (contents (filled unknown_bytes) ≡ unknown_bytes) × IsValid (filled unknown_bytes)
unknown_stored = filled_lem unknown_bytes (omega (arith, unknown_size))

call_method-fails_example :
    ((left : Buffer) × (on_message pb 100 accept_all (filled unknown_bytes)
        ≡ some (submits (received pb unknown (text "hi") channel) ∷ [], left)))
    × ((o : Outcome) × (call_method pb parses unknown
            (text "hi")
            none
            (unknown_env ∷ [])
            channel
            held
          ≡ some o)
        × (o.result ≡ system)
        × (o.caller.controller
            ≡ some (set_failed_code ErrorCode.no_service (reason_of reason) (reset fresh)))
        × (o.caller.reply ≡ none)
        × (o.seqs ≡ 9 ∷ [])
        × (contents o.channel.input ≡ []))
call_method-fails_example =
    call_method-fails pb parses backend services accept_all unknown (text "hi") ErrorCode.no_service
      reason fresh none channel held unknown_env [] unknown_bytes unknown_round []
      (filled unknown_bytes) 100 no_service_computed refl refl (omega (arith, unknown_body_size))
      (omega (arith, error_size)) refl (create-IsValid initial_size (omega arith))
      (contents-create initial_size) (omega arith) unknown_sent unknown_stored.1 unknown_stored.0
      (omega (arith, ap length unknown_stored.0, unknown_size)) refl refl (omega arith) refl
