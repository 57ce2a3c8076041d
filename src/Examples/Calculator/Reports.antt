-- ===== src/Examples/Calculator/Reports.antt =====
-- `runCalc` of examples/rpc/calculator_client.cpp: one call of the calculator, and what the client prints.
use mathlib.Core.Option
use mini_rpc.Base.{
  ℕ, ◌+◌, ◌^◌, ◌≤◌, ◌<◌, ◌≡◌, refl, ap, ◌∙◌, List, [], ◌∷◌, Bool, true, false, if◌then◌else◌,
  Option, none, some, ◌==◌, length,
}
use mini_rpc.Base.Text.{Text, Text-discrete}
use mini_rpc.Base.Dict.{lookup}
use mini_rpc.Net.Buffer.{Buffer, got}
use mini_rpc.Net.Buffer.Invariant.{IsValid}
use mini_rpc.Net.Buffer.Contents.{contents}
use mini_rpc.Codec.{ProtocolMessage, max_body_size}
use mini_rpc.Common.ErrorCode
use mini_rpc.Common.ErrorCode.{ErrorCode}
use mini_rpc.Rpc.Controller.{Controller, fresh, reset, set_failed_code}
use mini_rpc.Rpc.Envelope.{Protobuf}
use mini_rpc.Rpc.Server.{submits, handle_request, on_message}
use mini_rpc.Rpc.Server.Reply.{IsSmall}
use mini_rpc.Rpc.Channel.{
  CallResult, succeeded, system, finish, fail_controller, reset_controller, reason_of, accept,
  Channel, Caller, send_all, Round, ready,
}
use mini_rpc.Rpc.Channel.Call.{request_bytes, Attempt, Outcome, is_timeout, call_method}
use mini_rpc.Rpc.Exchange.{request_body, received}
use mini_rpc.Rpc.Answered.{accept-ok, accept-error, call_method-answered}
use mini_rpc.Examples.Calculator.{Double, CalcRequest, CalcResponse, Messages, registered, backend}
use mini_rpc.Examples.Calculator.Answers.{
  Report, value, failure, full_name, operators, report_of, apply_operator, expected, response_with,
  envelope_of, respond_calc,
}

module _ {W : Type 0} where
  abbrev pub is_there : Option (CalcResponse W) → Bool
  is_there none = false
  is_there (some r) = true

  -- A failure with a code that is not kOk and a text that the client does not replace.
  abbrev Proper : Report W → Type 0
  Proper (value w) = Unit {0}
  Proper (failure code msg) = ((code == ErrorCode.ok) ≡ false) × (reason_of msg ≡ msg)

  apply_operator-Proper :
      (double : Double W) (req : CalcRequest W) (f : Option (W → W → Option W))
      → Proper (apply_operator double req f)
  apply_operator-Proper double req none = (refl, refl)
  apply_operator-Proper double req (some f) = report_of-Proper (f req.a req.b)
    where
      report_of-Proper : (w : Option W) → Proper (report_of double w)
      report_of-Proper none = (refl, refl)
      report_of-Proper (some w) = tt

  expected-Proper : (double : Double W) (req : CalcRequest W) → Proper (expected double req)
  unfolding expected
  expected-Proper double req =
      apply_operator-Proper double req (lookup Text-discrete req.op (operators double))

  module _ (messages : Messages W) where
    abbrev pub parses : Text → Bool
    parses t = is_there (messages.parse_calc_response t)

    abbrev result_of : Option Text → Option (Report W)
    result_of none = none
    result_of (some t) = Option.map (λ r. value r.result) (messages.parse_calc_response t)

    abbrev shown : Option Text → Controller → Option (Report W)
    shown reply c = if c.failed then some (failure c.error_code c.error_text) else result_of reply

    abbrev report_with : Option Text → Option Controller → Option (Report W)
    report_with reply none = none
    report_with reply (some c) = shown reply c

    -- What `runCalc` prints of the controller and the response.
    unfoldable pub report : Caller → Option (Report W)
    report caller = report_with caller.reply caller.controller

    -- The caller's objects of `runCalc`.
    abbrev pub caller : Caller
    caller = record { controller = some fresh; reply = none }

    -- `runCalc`: the call's outcome.
    unfoldable pub run_calc :
        Protobuf → CalcRequest W → Option Text → List Attempt → Channel → Option Outcome
    run_calc pb req answer envs ch =
        call_method pb parses full_name (messages.serialize_calc_request req) answer envs ch caller

    module _ (pb : Protobuf) (id : Option Text) where
      result_for : Report W → CallResult
      result_for (value w) = succeeded
      result_for (failure code msg) = system

      -- What the channel makes of a report's envelope.
      change_by : Report W → Caller → Caller
      change_by (value w) c = record c {
        reply = some (messages.serialize_calc_response (response_with id w));
      }
      change_by (failure code msg) c = fail_controller code (reason_of msg) c

      accepts :
          (r : Report W)
          → Proper r
          → (rest : Buffer) (c : Caller)
          → accept pb parses (envelope_of messages pb id r) c rest
            ≡ finish (result_for r) (change_by r c) rest
      unfolding result_for change_by
      accepts (value w) p rest c =
          accept-ok pb parses (messages.serialize_calc_response (response_with id w)) c rest
            (ap is_there (messages.parse-serialize_calc_response (response_with id w)))
      accepts (failure code msg) p rest c = accept-error pb parses code msg c rest p.0

      final : (r : Report W) → is_timeout (result_for r) ≡ false
      unfolding result_for
      final (value w) = refl
      final (failure code msg) = refl

      result_response_with : (id : Option Text) (w : W) → (response_with id w).result ≡ w
      result_response_with none w = refl
      result_response_with (some name) w = refl

      reports :
          (r : Report W)
          → Proper r
          → report (change_by r (reset_controller (reset_controller caller))) ≡ some r
      unfolding report change_by reset_controller fail_controller reset fresh set_failed_code
      reports (value w) p =
          ap (Option.map (λ (r : CalcResponse W). value r.result))
            (messages.parse-serialize_calc_response (response_with id w))
          ∙ ap (λ v. some (value v)) (result_response_with id w)
      reports (failure code msg) p = ap (λ t. some (failure code t)) p.1

      module _ (double : Double W) (submit : ProtocolMessage → Option Text) where
        abbrev pub body_of : CalcRequest W → Text
        body_of req = request_body pb full_name (messages.serialize_calc_request req)

        abbrev pub asked : CalcRequest W → Channel → ProtocolMessage
        asked req ch = received pb full_name (messages.serialize_calc_request req) ch

        -- What the calculator client prints for a request is what the table of operators says: the
        -- operator's value, or INVALID_ARGUMENT with the text for a division by zero or an unknown
        -- operator; on the server and on a node with a name. The call is made once, on a connected
        -- channel with nothing unread, its request goes out whole, the server reads it into a valid
        -- buffer with more fuel than bytes, its pool accepts it, the first round reads the reply
        -- before the deadline, and request and response are within the body limit.
        pub run_calc_reports :
            (req : CalcRequest W) (answer : Option Text) (ch : Channel) (env : Attempt)
            (envs : List Attempt) (taken : List ℕ) (round : Round) (rounds : List Round)
            (b : Buffer) (fuel : ℕ)
            → length (body_of req) ≤ max_body_size
            → IsSmall pb (envelope_of messages pb id (expected double req))
            → ch.connected ≡ true
            → IsValid ch.input
            → contents ch.input ≡ []
            → ch.next_seq < 2 ^ 64
            → send_all env.sends (request_bytes pb parses ch.next_seq (body_of req))
              ≡ some (true, taken)
            → IsValid b
            → contents b ≡ taken
            → length (contents b) < fuel
            → submit (asked req ch) ≡ none
            → env.rounds ≡ round ∷ rounds
            → round.now < env.start + ch.timeout
            → round.answer
              ≡ ready false true
                  (got (handle_request pb (backend double messages id) registered (asked req ch)))
            → ((left : Buffer) × (on_message pb fuel submit b
                  ≡ some (submits (asked req ch) ∷ [], left)))
              × ((o : Outcome) × (run_calc pb req answer (env ∷ envs) ch ≡ some o)
                  × (report o.caller ≡ some (expected double req))
                  × (o.seqs ≡ ch.next_seq ∷ []))
        unfolding run_calc
        run_calc_reports req answer ch env envs taken round rounds b fuel small fits open_ v empty
              seq sends bv bytes h yes_ first early reads =
            let r = expected double req in
            let p = expected-Proper double req in
            let (served, (o, run, result, kept, seqs, none_)) =
              call_method-answered pb parses (backend double messages id) registered submit
                full_name (messages.serialize_calc_request req) (envelope_of messages pb id r)
                (result_for r) answer ch caller env envs taken round rounds b fuel (change_by r)
                (respond_calc double messages pb id req) (accepts r p) (final r) small fits open_ v
                empty seq sends bv bytes h yes_ first early reads in
            (served, (o, run, ap report kept ∙ reports r p, seqs))
