-- ===== src/Rpc/Answered.antt =====
-- The mechanics of an exchange: what src/rpc/RpcChannel.cpp makes of any response that src/rpc/RpcServer.cpp computes.
use mini_rpc.Base.{
  ℕ, zero, suc, ◌+◌, ◌^◌, ◌≤◌, ◌<◌, ◌≡◌, refl, ap, ◌∙◌, List, [], ◌∷◌, Bool, true, false, Option,
  none, some, length, add_size, ◌==◌,
}
use mini_rpc.Base.Text.{Text}
use mini_rpc.Net.Buffer.{Buffer, got}
use mini_rpc.Net.Buffer.Invariant.{IsValid}
use mini_rpc.Net.Buffer.Contents.{contents}
use mini_rpc.Codec.{ProtocolMessage, response, max_body_size}
use mini_rpc.Codec.Wire.{wire}
use mini_rpc.Common.ErrorCode
use mini_rpc.Common.ErrorCode.{ErrorCode}
use mini_rpc.Rpc.Envelope.{RpcResponse, Protobuf}
use mini_rpc.Rpc.ServiceRegistry.{Services}
use mini_rpc.Rpc.Server.{
  Backend, submits, message, error_response, respond, send_envelope, handle_request, on_message,
}
use mini_rpc.Rpc.Server.Reply.{IsSmall, send_envelope-wire}
use mini_rpc.Rpc.Channel.{
  CallResult, succeeded, system, finish, fail_controller, reason_of, reset_controller, connect,
  Channel, Caller, send_all, Round, ready, accept, wait_round, wait_response, resume,
}
use mini_rpc.Rpc.Channel.Call.{
  request_bytes, Attempt, Outcome, is_timeout, attempt, after_send, attempts, retry, retry_all,
  after_connect, call_method,
}
use mini_rpc.Rpc.Exchange.{
  send_all-taken, ok_response, request_body, received, request_submits, reply_decides,
}

module _ (pb : Protobuf) (parses : Text → Bool) where
  pub accept-ok :
      (out : Text) (caller : Caller) (b : Buffer)
      → parses out ≡ true
      → accept pb parses (ok_response out) caller b
        ≡ finish succeeded (record caller { reply = some out }) b
  unfolding accept
  accept-ok out caller b good = rw good refl

  pub accept-error :
      (code : ErrorCode) (msg : Text) (caller : Caller) (b : Buffer)
      → (code == ErrorCode.ok) ≡ false
      → accept pb parses (error_response pb code msg) caller b
        ≡ finish system (fail_controller code (reason_of msg) caller) b
  unfolding accept
  accept-error code msg caller b bad = rw bad refl

  -- What a wait makes of a round with a result.
  wait_response-finish :
      (r : CallResult) (seq deadline : ℕ) (round : Round) (rounds more : List Round)
      (caller caller' : Caller) (b b' : Buffer)
      → rounds ≡ round ∷ more
      → wait_round pb parses seq deadline caller b round ≡ some (finish r caller' b')
      → wait_response pb parses seq deadline rounds caller b ≡ some (finish r caller' b')
  unfolding wait_response resume
  wait_response-finish r seq deadline round rounds more caller caller' b b' first e =
      rw first (rw e refl)

  -- An attempt whose request goes out and whose wait has a result.
  attempt-ends :
      (r : CallResult) (body : Text) (ch : Channel) (caller caller' : Caller) (env : Attempt)
      (taken : List ℕ) (b : Buffer)
      → send_all env.sends (request_bytes pb parses ch.next_seq body) ≡ some (true, taken)
      → wait_response pb parses ch.next_seq
          (env.start + ch.timeout)
          env.rounds
          (reset_controller caller)
          ch.input
        ≡ some (finish r caller' b)
      → attempt pb parses body ch caller env
        ≡ some (record {
          result = r;
          channel = record ch { next_seq = add_size ch.next_seq 1; input = b };
          caller = caller';
          seqs = ch.next_seq ∷ [];
        })
  unfolding attempt after_send
  attempt-ends r body ch caller caller' env taken b sends waits = rw sends (rw waits refl)

  -- Only a timeout is tried again.
  attempts-ends :
      (n : ℕ) (body : Text) (ch : Channel) (caller : Caller) (env : Attempt) (envs : List Attempt)
      (o : Outcome)
      → attempt pb parses body ch caller env ≡ some o
      → is_timeout o.result ≡ false
      → attempts pb parses n body (env ∷ envs) ch caller ≡ some o
  unfolding attempts retry_all retry
  attempts-ends zero body ch caller env envs o e good = e
  attempts-ends (suc n) body ch caller env envs o e good = rw e (rw good refl)

  connect-connected :
      (answer : Option Text) (ch : Channel) → ch.connected ≡ true → connect answer ch ≡ (none, ch)
  unfolding connect
  connect-connected answer ch open_ = simp (open_)

  -- On a connected channel the call is its attempts.
  call_method-ends :
      (full_name payload : Text) (answer : Option Text) (ch : Channel) (caller : Caller)
      (env : Attempt) (envs : List Attempt) (o : Outcome)
      → ch.connected ≡ true
      → attempt pb parses (request_body pb full_name payload) ch (reset_controller caller) env
        ≡ some o
      → is_timeout o.result ≡ false
      → call_method pb parses full_name payload answer (env ∷ envs) ch caller ≡ some o
  unfolding call_method after_connect
  call_method-ends full_name payload answer ch caller env envs o open_ e good =
      rw (connect-connected answer ch open_) (
        attempts-ends ch.max_retries (request_body pb full_name payload) ch
          (reset_controller caller) env envs o e good)

  module _ (backend : Backend) (services : Services) (submit : ProtocolMessage → Option Text) where
    handle_request-wire :
        (m : ProtocolMessage) (resp : RpcResponse)
        → respond pb backend services m.body ≡ resp
        → IsSmall pb resp
        → handle_request pb backend services m
          ≡ wire (message response m.header.seq (pb.serialize_response resp))
    unfolding handle_request
    handle_request-wire m resp computed fits =
        ap (send_envelope pb m.header.seq) computed ∙ send_envelope-wire pb m.header.seq resp fits

    pub call_method-answered :
        (full_name payload : Text) (resp : RpcResponse) (r : CallResult) (answer : Option Text)
        (ch : Channel) (caller : Caller) (env : Attempt) (envs : List Attempt) (taken : List ℕ)
        (round : Round) (rounds : List Round) (b : Buffer) (fuel : ℕ) (change : Caller → Caller)
        → respond pb backend services (request_body pb full_name payload) ≡ resp
        → ((rest : Buffer) (c : Caller) → accept pb parses resp c rest ≡ finish r (change c) rest)
        → is_timeout r ≡ false
        → length (request_body pb full_name payload) ≤ max_body_size
        → IsSmall pb resp
        → ch.connected ≡ true
        → IsValid ch.input
        → contents ch.input ≡ []
        → ch.next_seq < 2 ^ 64
        → send_all env.sends
            (request_bytes pb parses ch.next_seq (request_body pb full_name payload))
          ≡ some (true, taken)
        → IsValid b
        → contents b ≡ taken
        → length (contents b) < fuel
        → submit (received pb full_name payload ch) ≡ none
        → env.rounds ≡ round ∷ rounds
        → round.now < env.start + ch.timeout
        → round.answer
          ≡ ready false true
              (got (handle_request pb backend services (received pb full_name payload ch)))
        → ((left : Buffer) × (on_message pb fuel submit b
              ≡ some (submits (received pb full_name payload ch) ∷ [], left)))
          × ((o : Outcome) × (call_method pb parses full_name payload answer (env ∷ envs) ch caller
                ≡ some o)
              × (o.result ≡ r)
              × (o.caller ≡ change (reset_controller (reset_controller caller)))
              × (o.seqs ≡ ch.next_seq ∷ [])
              × (contents o.channel.input ≡ []))
    call_method-answered full_name payload resp r answer ch caller env envs taken round rounds b
          fuel change computed ends final small fits open_ v empty seq sends bv bytes h yes_ first
          early reads =
        let body = request_body pb full_name payload in
        let (left, run, _, _) =
          request_submits pb parses submit ch.next_seq body b fuel bv
            (bytes
              ∙ send_all-taken env.sends (request_bytes pb parses ch.next_seq body) taken sends)
            seq small yes_ h in
        let (rest, decided, none_, _) =
          reply_decides pb parses ch.next_seq (env.start + ch.timeout) round
            (reset_controller (reset_controller caller)) ch.input resp
            (handle_request pb backend services (received pb full_name payload ch)) v empty
            (handle_request-wire (received pb full_name payload ch) resp computed fits) seq fits
            early reads in
        let wait =
          wait_response-finish r ch.next_seq (env.start + ch.timeout) round env.rounds rounds
            (reset_controller (reset_controller caller)) _ ch.input rest first
            (decided ∙ ap some (ends rest _)) in
        (
          (left, run),
          (
            _,
            call_method-ends full_name payload answer ch caller env envs _ open_
                (attempt-ends r body ch (reset_controller caller) _ env taken rest sends wait)
                final,
            refl,
            refl,
            refl,
            none_,
          ),
        )
