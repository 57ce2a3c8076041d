-- ===== src/Examples/Calculator/Answers.antt =====
-- What the calculator of examples/rpc/calculator_server.cpp answers, described by a table of operators.
use mini_rpc.Base.{
  ◌≡◌, ◌≢◌, refl, ap, ◌∙◌, List, [], ◌∷◌, ◌++◌, if◌then◌else◌, Option, none, some, All, arith,
}
use mini_rpc.Base.Text.{Text, text, Text-discrete}
use mini_rpc.Base.Dict.{lookup, insert}
use mini_rpc.Common.ErrorCode
use mini_rpc.Common.ErrorCode.{ErrorCode}
use mini_rpc.Rpc.Controller.{Controller, fresh, set_failed_code}
use mini_rpc.Rpc.Envelope.{RpcResponse, Protobuf}
use mini_rpc.Rpc.ServiceRegistry.{find_service, add_service}
use mini_rpc.Rpc.Server.{respond, response_of, error_response}
use mini_rpc.Rpc.Server.Reply.{respond_calls}
use mini_rpc.Rpc.Exchange.{ok_response, request_body}
use mini_rpc.Examples.Calculator.{
  Double, CalcRequest, CalcResponse, Messages, answered, empty_response, calculator_name,
  calculator_service, only_method, registered, calc, calc_on_node, calc_on, find_method,
  parse_payload, call_service, backend,
}

-- How a calculation ends for who asked for it.
pub data Report (W : Type 0) : Type 0 where
  value : W → Report W
  failure : ErrorCode → Text → Report W

abbrev pub full_name : Text
full_name = calculator_name ++ (b'.' ∷ text "Calc")

module _ {W : Type 0} where
  -- The response of a node, or of the server where there is no name.
  abbrev pub response_with : Option Text → W → CalcResponse W
  response_with none w = record { result = w; error = []; server_id = [] }
  response_with (some id) w = record { result = w; error = []; server_id = id }

  module _ (messages : Messages W) (pb : Protobuf) where
    -- The envelope that carries a report.
    abbrev pub envelope_of : Option Text → Report W → RpcResponse
    envelope_of id (value w) = ok_response (messages.serialize_calc_response (response_with id w))
    envelope_of id (failure code msg) = error_response pb code msg

module _ {W : Type 0} (double : Double W) where
  -- The four operators; `none` is a division by zero.
  abbrev pub operators : List (Text × (W → W → Option W))
  operators =
      (text "+", λ a b. some (double.add a b))
      ∷ (text "-", λ a b. some (double.sub a b))
      ∷ (text "*", λ a b. some (double.mul a b))
      ∷ (text "/", λ a b. if double.equal b double.nought then none else some (double.div a b))
      ∷ []

  abbrev pub report_of : Option W → Report W
  report_of none = failure ErrorCode.invalid_argument (text "division by zero")
  report_of (some w) = value w

  abbrev pub apply_operator : CalcRequest W → Option (W → W → Option W) → Report W
  apply_operator req none = failure ErrorCode.invalid_argument (text "unknown operator: " ++ req.op)
  apply_operator req (some f) = report_of (f req.a req.b)

  unfoldable pub expected : CalcRequest W → Report W
  expected req = apply_operator req (lookup Text-discrete req.op operators)

  -- What the method leaves for a report.
  abbrev pub left_by : Controller → Report W → Controller × CalcResponse W
  left_by c (value w) = answered double w c
  left_by c (failure code msg) = (set_failed_code code msg c, empty_response double)

  pub calc-expected :
      (req : CalcRequest W) (c : Controller) → calc double req c ≡ left_by c (expected req)
  unfolding calc expected lookup
  calc-expected req c = ground arith

  module _ (messages : Messages W) (pb : Protobuf) where
    find_registered : find_service calculator_name registered ≡ some calculator_service
    unfolding find_service lookup insert add_service registered Text-discrete
    find_registered = refl

    no_dot : All (λ c. c ≢ b'.') (text "Calc")
    no_dot = (
      (λ e. omega (arith, e)),
      ((λ e. omega (arith, e)), ((λ e. omega (arith, e)), ((λ e. omega (arith, e)), tt))),
    )

    -- What the server serialises of what the method left.
    abbrev shown : Option Text → Controller × CalcResponse W → Controller × Text
    shown none (c, response) = (c, messages.serialize_calc_response response)
    shown (some id) (c, response) =
        (c, messages.serialize_calc_response (record response { server_id = id }))

    calc_on-shown :
        (id : Option Text) (req : CalcRequest W)
        → calc_on double messages id (some req) ≡ shown id (calc double req fresh)
    unfolding calc_on calc_on_node
    calc_on-shown none req = refl
    calc_on-shown (some id) req = refl

    shown_report :
        (id : Option Text) (r : Report W)
        → response_of pb (backend double messages id) (shown id (left_by fresh r))
          ≡ envelope_of messages pb id r
    unfolding response_of fresh set_failed_code
    shown_report none (value w) = refl
    shown_report none (failure code msg) = refl
    shown_report (some id) (value w) = refl
    shown_report (some id) (failure code msg) = refl

    -- A request that was serialised is answered with its report.
    pub respond_calc :
        (id : Option Text) (req : CalcRequest W)
        → respond pb
            (backend double messages id)
            registered
            (request_body pb full_name (messages.serialize_calc_request req))
          ≡ envelope_of messages pb id (expected req)
    unfolding find_method parse_payload call_service Text-discrete
    respond_calc id req =
        let payload = messages.serialize_calc_request req in
        let parsed = messages.parse-serialize_calc_request req in
        respond_calls pb (backend double messages id) registered calculator_service only_method
          calculator_name (text "Calc") payload payload (λ e. cc (e)) (λ e. cc (e)) no_dot
          find_registered refl (rw parsed refl)
        ∙ ap (λ r. response_of pb (backend double messages id) (calc_on double messages id r))
            parsed
        ∙ ap (response_of pb (backend double messages id))
            (calc_on-shown id req ∙ ap (shown id) (calc-expected req fresh))
        ∙ shown_report id (expected req)
