-- ===== src/Examples/Calculator.antt =====
-- proto/calculator.proto, proto/echo.proto, examples/rpc/calculator_server.cpp and the same services in
-- examples/rpc/rpc_node.cpp. `double` and protobuf's code for the messages are parameters. A message
-- that the server holds is the bytes that it was parsed from. The services' two `done` calls are left
-- out: the server calls the method and reads the response after it.
pub mod Answers
pub mod Reports
mod Tests
use mathlib.Core.Option
use mini_rpc.Base.{
  ℕ, ◌≡◌, List, [], ◌∷◌, ◌++◌, Bool, true, false, if◌then◌else◌, Option, none, some, ite, ◌==◌,
}
use mini_rpc.Base.Text.{Text, text, Text-discrete}
use mini_rpc.Common.ErrorCode
use mini_rpc.Rpc.Controller.{Controller, fresh, set_failed_code}
use mini_rpc.Rpc.ServiceRegistry.{Services}
use mini_rpc.Rpc.Server.{Backend, register_service}

-- All that the services do with a `double`. `equal` is `==`.
pub record Double (W : Type 0) : Type 0 where
  pub nought : W
  pub equal : W → W → Bool
  pub add : W → W → W
  pub sub : W → W → W
  pub mul : W → W → W
  pub div : W → W → W

pub record CalcRequest (W : Type 0) : Type 0 where
  pub a : W
  pub b : W
  pub op : Text

pub record CalcResponse (W : Type 0) : Type 0 where
  pub result : W
  pub error : Text
  pub server_id : Text

-- `SerializeToString` and `ParseFromString` of the four messages, of which the echo's have one text each:
-- what was serialised parses back.
pub record Messages (W : Type 0) : Type 0 where
  pub serialize_calc_request : CalcRequest W → Text
  pub parse_calc_request : Text → Option (CalcRequest W)
  pub serialize_calc_response : CalcResponse W → Text
  pub parse_calc_response : Text → Option (CalcResponse W)
  pub serialize_echo : Text → Text
  pub parse_echo : Text → Option Text
  pub parse-serialize_calc_request :
      (r : CalcRequest W) → parse_calc_request (serialize_calc_request r) ≡ some r
  pub parse-serialize_calc_response :
      (r : CalcResponse W) → parse_calc_response (serialize_calc_response r) ≡ some r
  pub parse-serialize_echo : (t : Text) → parse_echo (serialize_echo t) ≡ some t

-- The two services, by their numbers, and the number of the one method of each.
abbrev pub echo_service : ℕ
echo_service = 0

abbrev pub calculator_service : ℕ
calculator_service = 1

abbrev pub only_method : ℕ
only_method = 0

abbrev pub echo_name : Text
echo_name = text "minirpc.example.EchoService"

abbrev pub calculator_name : Text
calculator_name = text "minirpc.example.CalculatorService"

-- What `main` registers.
unfoldable pub registered : Services
unfolding register_service
registered =
    let (_, services) = register_service (some (echo_name, echo_service)) [] in
    (register_service (some (calculator_name, calculator_service)) services).1

-- `EchoServiceImpl::Echo`: the response's message.
unfoldable pub echo : Text → Text
echo message = message

module _ {W : Type 0} (double : Double W) where
  -- The response before the method runs.
  abbrev pub empty_response : CalcResponse W
  empty_response = record { result = double.nought; error = []; server_id = [] }

  abbrev pub answered : W → Controller → Controller × CalcResponse W
  answered w c = (c, record empty_response { result = w })

  -- The lambda `fail`, with the response as it is.
  abbrev pub fail : Text → Controller → Controller × CalcResponse W
  fail msg c = (set_failed_code ErrorCode.invalid_argument msg c, empty_response)

  -- `CalculatorServiceImpl::Calc`: the controller and the response after it.
  unfoldable pub calc : CalcRequest W → Controller → Controller × CalcResponse W
  calc req c = ite (Text-discrete req.op (text "+")) (answered (double.add req.a req.b) c) (
      ite (Text-discrete req.op (text "-")) (answered (double.sub req.a req.b) c) (
        ite (Text-discrete req.op (text "*")) (answered (double.mul req.a req.b) c) (
          ite (Text-discrete req.op (text "/"))
            (if double.equal req.b double.nought
              then fail (text "division by zero") c
              else answered (double.div req.a req.b) c)
            (fail (text "unknown operator: " ++ req.op) c))))

  -- The same on a node of examples/rpc/rpc_node.cpp, which puts its name into the response.
  unfoldable pub calc_on_node : Text → CalcRequest W → Controller → Controller × CalcResponse W
  calc_on_node node req c =
      let (c', response) = calc req c in (c', record response { server_id = node })

  -- `none` is the calculator server, `some` a node with its name.
  abbrev pub run_calc_on : Option Text → CalcRequest W → Controller → Controller × CalcResponse W
  run_calc_on none = calc
  run_calc_on (some node) = calc_on_node node

  module _ (messages : Messages W) where
    -- Which methods the generated code has.
    unfoldable pub find_method : ℕ → Text → Option ℕ
    find_method service name =
        if service == echo_service
        then ite (Text-discrete name (text "Echo")) (some only_method) none
        else ite (Text-discrete name (text "Calc")) (some only_method) none

    unfoldable pub parse_payload : ℕ → ℕ → Text → Option Text
    parse_payload service method payload =
        if service == echo_service
        then Option.map (λ _. payload) (messages.parse_echo payload)
        else Option.map (λ _. payload) (messages.parse_calc_request payload)

    unfoldable pub echo_on : Option Text → Controller × Text
    echo_on none = (fresh, [])
    echo_on (some message) = (fresh, messages.serialize_echo (echo message))

    unfoldable pub calc_on : Option Text → Option (CalcRequest W) → Controller × Text
    calc_on id none = (fresh, [])
    calc_on id (some req) =
        let (c, response) = run_calc_on id req fresh in
        (c, messages.serialize_calc_response response)

    -- A method's call on a payload that parses.
    unfoldable pub call_service : Option Text → ℕ → ℕ → Text → Controller × Text
    call_service id service method payload =
        if service == echo_service
        then echo_on (messages.parse_echo payload)
        else calc_on id (messages.parse_calc_request payload)

    abbrev pub backend : Option Text → Backend
    backend id = record {
      find_method = find_method;
      parse_payload = parse_payload;
      call_method = call_service id;
    }
