-- ===== src/Rpc/RoundTrip.antt =====
-- A call from end to end: src/rpc/RpcChannel.cpp sends a request, src/rpc/RpcServer.cpp gives it to the pool and
-- replies, and the channel reads the reply, a result or an error.
use mathlib.Core.Option
use mini_rpc.Base.{
  ℕ, ◌+◌, ◌^◌, ◌≤◌, ◌<◌, ◌≡◌, refl, ap, ◌∙◌, List, [], ◌∷◌, Bool, true, false, Option, none, some,
  length, ◌==◌,
}
use mini_rpc.Base.Text.{Text}
use mini_rpc.Net.Buffer.{Buffer, got}
use mini_rpc.Net.Buffer.Invariant.{IsValid}
use mini_rpc.Net.Buffer.Contents.{contents}
use mini_rpc.Codec.{ProtocolMessage, max_body_size}
use mini_rpc.Common.ErrorCode
use mini_rpc.Common.ErrorCode.{ErrorCode}
use mini_rpc.Rpc.Controller
use mini_rpc.Rpc.Controller.{Controller}
use mini_rpc.Rpc.Envelope.{Protobuf}
use mini_rpc.Rpc.ServiceRegistry.{Services}
use mini_rpc.Rpc.Server.{Backend, submits, error_response, respond, handle_request, on_message}
use mini_rpc.Rpc.Server.Reply.{IsSmall}
use mini_rpc.Rpc.Channel.{
  succeeded, system, fail_controller, reason_of, reset_controller, Channel, Caller, send_all, Round,
  ready,
}
use mini_rpc.Rpc.Channel.Call.{request_bytes, Attempt, Outcome, call_method}
use mini_rpc.Rpc.Answered.{accept-ok, accept-error, call_method-answered}
use mini_rpc.Rpc.Exchange.{ok_response, request_body, received}

module _ (pb : Protobuf) (parses : Text → Bool) where
  module _ (backend : Backend) (services : Services) (submit : ProtocolMessage → Option Text) where
    -- A call on a connected channel with nothing unread, whose request goes out whole and whose first
    -- round reads the server's reply before the deadline, gives the service's answer to the caller:
    -- the server, with a valid buffer that holds what was sent and more fuel than bytes, gives that
    -- request to its pool, which accepts it; the reply is what the pool's task sends for it; and the
    -- call succeeds at its first attempt with the payload that the server computed, where that parses,
    -- the sequence number has 64 bits, and request and response are within the body limit.
    pub call_method-replies :
        (full_name payload out : Text) (answer : Option Text) (ch : Channel) (caller : Caller)
        (env : Attempt) (envs : List Attempt) (taken : List ℕ) (round : Round) (rounds : List Round)
        (b : Buffer) (fuel : ℕ)
        → respond pb backend services (request_body pb full_name payload) ≡ ok_response out
        → parses out ≡ true
        → length (request_body pb full_name payload) ≤ max_body_size
        → IsSmall pb (ok_response out)
        → ch.connected ≡ true
        → IsValid ch.input
        → contents ch.input ≡ []
        → ch.next_seq < 2 ^ 64
        → send_all env.sends
            (request_bytes pb parses ch.next_seq (request_body pb full_name payload))
          ≡ some (true, taken)
        → IsValid b
        → contents b ≡ taken
        → length (contents b) < fuel
        → submit (received pb full_name payload ch) ≡ none
        → env.rounds ≡ round ∷ rounds
        → round.now < env.start + ch.timeout
        → round.answer
          ≡ ready false true
              (got (handle_request pb backend services (received pb full_name payload ch)))
        → ((left : Buffer) × (on_message pb fuel submit b
              ≡ some (submits (received pb full_name payload ch) ∷ [], left)))
          × ((o : Outcome) × (call_method pb parses full_name payload answer (env ∷ envs) ch caller
                ≡ some o)
              × (o.result ≡ succeeded)
              × (o.caller.reply ≡ some out)
              × (o.seqs ≡ ch.next_seq ∷ [])
              × (contents o.channel.input ≡ []))
    call_method-replies full_name payload out answer ch caller env envs taken round rounds b fuel
          computed good small fits open_ v empty seq sends bv bytes h yes_ first early reads =
        let (served, (o, run, result, kept, seqs, none_)) =
          call_method-answered pb parses backend services submit full_name payload (ok_response out)
            succeeded answer ch caller env envs taken round rounds b fuel
            (λ c. record c { reply = some out }) computed
            (λ rest c. accept-ok pb parses out c rest good) refl small fits open_ v empty seq sends
            bv bytes h yes_ first early reads in
        (served, (o, run, result, ap (λ (c : Caller). c.reply) kept, seqs, none_))

    -- An error that the server answers with, from its own checks or from a service's method, reaches
    -- the caller: under the conditions of an exchange as for a reply (connected channel with nothing
    -- unread, request sent whole into a valid buffer with more fuel than bytes, pool accepts it, first
    -- round reads the reply in time, sizes within the body limit, sequence number of 64 bits) the call
    -- ends at its first attempt with the caller's controller failed with that code and text, or the
    -- client's own text where that is empty, and the response untouched; for any code but kOk.
    pub call_method-fails :
        (full_name payload : Text) (code : ErrorCode) (msg : Text) (ctrl : Controller)
        (answer : Option Text) (ch : Channel) (caller : Caller) (env : Attempt)
        (envs : List Attempt) (taken : List ℕ) (round : Round) (rounds : List Round) (b : Buffer)
        (fuel : ℕ)
        → respond pb backend services (request_body pb full_name payload)
          ≡ error_response pb code msg
        → (code == ErrorCode.ok) ≡ false
        → caller.controller ≡ some ctrl
        → length (request_body pb full_name payload) ≤ max_body_size
        → IsSmall pb (error_response pb code msg)
        → ch.connected ≡ true
        → IsValid ch.input
        → contents ch.input ≡ []
        → ch.next_seq < 2 ^ 64
        → send_all env.sends
            (request_bytes pb parses ch.next_seq (request_body pb full_name payload))
          ≡ some (true, taken)
        → IsValid b
        → contents b ≡ taken
        → length (contents b) < fuel
        → submit (received pb full_name payload ch) ≡ none
        → env.rounds ≡ round ∷ rounds
        → round.now < env.start + ch.timeout
        → round.answer
          ≡ ready false true
              (got (handle_request pb backend services (received pb full_name payload ch)))
        → ((left : Buffer) × (on_message pb fuel submit b
              ≡ some (submits (received pb full_name payload ch) ∷ [], left)))
          × ((o : Outcome) × (call_method pb parses full_name payload answer (env ∷ envs) ch caller
                ≡ some o)
              × (o.result ≡ system)
              × (o.caller.controller
                  ≡ some (Controller.set_failed_code code (reason_of msg) (Controller.reset ctrl)))
              × (o.caller.reply ≡ caller.reply)
              × (o.seqs ≡ ch.next_seq ∷ [])
              × (contents o.channel.input ≡ []))
    unfolding fail_controller reset_controller Controller.reset
    call_method-fails full_name payload code msg ctrl answer ch caller env envs taken round rounds b
          fuel computed bad held small fits open_ v empty seq sends bv bytes h yes_ first early
          reads =
        let (served, (o, run, result, kept, seqs, none_)) =
          call_method-answered pb parses backend services submit full_name payload
            (error_response pb code msg) system answer ch caller env envs taken round rounds b fuel
            (fail_controller code (reason_of msg)) computed
            (λ rest c. accept-error pb parses code msg c rest bad) refl small fits open_ v empty seq
            sends bv bytes h yes_ first early reads in
        (
          served,
          (
            o,
            run,
            result,
            ap (λ (c : Caller). c.controller) kept
                ∙ ap
                    (λ (c : Option Controller).
                      Option.map (Controller.set_failed_code code (reason_of msg))
                        (Option.map Controller.reset (Option.map Controller.reset c)))
                    held,
            ap (λ (c : Caller). c.reply) kept,
            seqs,
            none_,
          ),
        )
