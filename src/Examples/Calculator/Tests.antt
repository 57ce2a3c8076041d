-- ===== src/Examples/Calculator/Tests.antt =====
-- A node `n1` that is asked for 9 / 3 and for 1 / 0, with whole numbers for doubles.
use mathlib.Core.Path.{ap₂}
use mini_rpc.Base.{
  ℕ, ◌+◌, ◌-◌, ◌*◌, ◌/◌, ◌≡◌, refl, ap, List, [], ◌∷◌, ◌++◌, true, false, Option, none, some,
  length, take, drop, take-append_self, drop-append_self, ◌==◌, arith,
}
use mini_rpc.Base.Text.{Text, text, Text-discrete}
use mini_rpc.Base.Dict.{lookup}
use mini_rpc.Net.Buffer.{append, ensure_writable_bytes, Buffer, create, initial_size, got}
use mini_rpc.Net.Buffer.Invariant.{IsValid, create-IsValid}
use mini_rpc.Net.Buffer.Refine.{contents-create, filled, filled_lem}
use mini_rpc.Net.Buffer.Contents.{contents}
use mini_rpc.Codec.{ProtocolMessage, be_bytes, encode}
use mini_rpc.Common.ErrorCode
use mini_rpc.Rpc.Controller.{fresh, set_failed_code}
use mini_rpc.Rpc.Server.{handle_request, on_message, submits}
use mini_rpc.Rpc.Channel.{Channel, wrote, send_all, Round, ready}
use mini_rpc.Rpc.Channel.Call.{Attempt, Outcome, request_bytes}
use mini_rpc.Rpc.Tests.{pb}
use mini_rpc.Rpc.Tests.Server.{accept_all}
use mini_rpc.Examples.Calculator.{
  Double, CalcRequest, CalcResponse, Messages, registered, calc, backend,
}
use mini_rpc.Examples.Calculator.Answers.{value, failure, expected, envelope_of}
use mini_rpc.Examples.Calculator.Reports.{
  parses, report, body_of, asked, run_calc, run_calc_reports,
}

abbrev double : Double ℕ
double = record {
  nought = 0;
  equal = λ a b. a == b;
  add = λ a b. a + b;
  sub = λ a b. a - b;
  mul = λ a b. a * b;
  div = λ a b. a / b;
}

serialize_calc_request : CalcRequest ℕ → Text
serialize_calc_request r = r.a ∷ r.b ∷ r.op

parse_calc_request : Text → Option (CalcRequest ℕ)
parse_calc_request [] = none
parse_calc_request (a ∷ []) = none
parse_calc_request (a ∷ b ∷ op) = some (record { a = a; b = b; op = op })

serialize_calc_response : CalcResponse ℕ → Text
serialize_calc_response r = r.result ∷ length r.error ∷ (r.error ++ r.server_id)

parse_calc_response : Text → Option (CalcResponse ℕ)
parse_calc_response [] = none
parse_calc_response (w ∷ []) = none
parse_calc_response (w ∷ n ∷ xs) =
    some (record { result = w; error = take n xs; server_id = drop n xs })

abbrev messages : Messages ℕ
unfolding serialize_calc_request parse_calc_request serialize_calc_response parse_calc_response
messages = record {
  serialize_calc_request = serialize_calc_request;
  parse_calc_request = parse_calc_request;
  serialize_calc_response = serialize_calc_response;
  parse_calc_response = parse_calc_response;
  serialize_echo = λ t. t;
  parse_echo = λ t. some t;
  parse-serialize_calc_request = λ r. refl;
  parse-serialize_calc_response = λ r.
      ap₂ (λ e i. some (record { result = r.result; error = e; server_id = i }))
        (take-append_self (length r.error) r.error r.server_id refl)
        (drop-append_self (length r.error) r.error r.server_id refl);
  parse-serialize_echo = λ t. refl;
}

abbrev id : Option Text
id = some (text "n1")

abbrev nine_thirds : CalcRequest ℕ
nine_thirds = record { a = 9; b = 3; op = text "/" }

by_zero_test :
    expected double (record { a = 1; b = 0; op = text "/" })
    ≡ failure ErrorCode.invalid_argument (text "division by zero")
unfolding expected lookup Text-discrete
by_zero_test = refl

unknown_test :
    (calc double (record { a = 1; b = 2; op = text "%" }) fresh).0.error_text
    ≡ text "unknown operator: %"
unfolding calc Text-discrete set_failed_code
unknown_test = refl

value_test : expected double nine_thirds ≡ value 3
unfolding expected lookup Text-discrete
value_test = refl

abbrev channel : Channel
channel = record {
  connected = true;
  timeout = 2000;
  max_retries = 2;
  next_seq = 4;
  input = create initial_size;
}

abbrev request : ProtocolMessage
request = asked messages pb id double accept_all nine_thirds channel

abbrev out_bytes : List ℕ
out_bytes =
    request_bytes pb (parses messages) 4 (body_of messages pb id double accept_all nine_thirds)

abbrev round : Round
round = record {
  now = 20;
  answer =
      ready false true (got (handle_request pb (backend double messages id) registered request));
}

abbrev env : Attempt
env = record { sends = wrote 7 ∷ wrote 500 ∷ []; errno = []; start = 10; rounds = round ∷ [] }

sent_all : send_all env.sends out_bytes ≡ some (true, out_bytes)
unfolding send_all be_bytes request_bytes encode append ensure_writable_bytes pb create
    serialize_calc_request messages
sent_all = refl

body_size : length (body_of messages pb id double accept_all nine_thirds) ≡ 42
unfolding pb serialize_calc_request messages
body_size = refl

reply_size : length (pb.serialize_response (envelope_of messages pb id (value 3))) ≡ 6
unfolding pb serialize_calc_response messages
reply_size = refl

out_size : length out_bytes ≡ 66
unfolding be_bytes request_bytes encode append ensure_writable_bytes pb create
    serialize_calc_request messages
out_size = refl

stored : (contents (filled out_bytes) ≡ out_bytes) × IsValid (filled out_bytes)
stored = filled_lem out_bytes (omega (arith, out_size))

run_calc_reports_example :
    ((left : Buffer) × (on_message pb 100 accept_all (filled out_bytes)
        ≡ some (submits request ∷ [], left)))
    × ((o : Outcome) × (run_calc messages pb nine_thirds none (env ∷ []) channel ≡ some o)
        × (report messages o.caller ≡ some (expected double nine_thirds))
        × (o.seqs ≡ 4 ∷ []))
run_calc_reports_example =
    run_calc_reports messages pb id double accept_all nine_thirds none channel env [] out_bytes
      round [] (filled out_bytes) 100 (omega (arith, body_size))
      (rw value_test (omega (arith, reply_size))) refl (create-IsValid initial_size (omega arith))
      (contents-create initial_size) (omega arith) sent_all stored.1 stored.0
      (omega (arith, ap length stored.0, out_size)) refl refl (omega arith) refl
