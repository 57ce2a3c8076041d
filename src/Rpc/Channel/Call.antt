-- ===== src/Rpc/Channel/Call.antt =====
-- `RpcChannel::CallMethod`: connect, then attempts until one does not time out.
use mathlib.Core.Option
use mini_rpc.Base.{
  ℕ, zero, suc, ◌+◌, List, [], ◌∷◌, ◌++◌, Bool, true, false, Option, none, some, add_size,
  if◌then◌else◌,
}
use mini_rpc.Base.Text.{Text}
use mini_rpc.Net.Buffer.{create, initial_size}
use mini_rpc.Net.Buffer.Contents.{contents}
use mini_rpc.Codec.{request, encode}
use mini_rpc.Common.ErrorCode
use mini_rpc.Rpc.Envelope.{RpcRequest, Protobuf}
use mini_rpc.Rpc.Server.{message}
use mini_rpc.Rpc.Channel.{
  CallResult, timed_out, system, Channel, Caller, fail_controller, reset_controller, close, connect,
  SendOutcome, send_all, Round, Progress, wait_response,
}

-- The environment of one attempt: the answers of `::send` and the errno of one that fails, the clock
-- where the wait begins, and the rounds of the wait.
pub record Attempt : Type 0 where
  pub sends : List SendOutcome
  pub errno : Text
  pub start : ℕ
  pub rounds : List Round

-- How a call ends: its result, the channel and the caller's objects, and the sequence number of each
-- attempt that was made.
pub record Outcome : Type 0 where
  pub result : CallResult
  pub channel : Channel
  pub caller : Caller
  pub seqs : List ℕ

abbrev pub is_timeout : CallResult → Bool
is_timeout timed_out = true
is_timeout r = false

abbrev pub with_seqs : List ℕ → Outcome → Outcome
with_seqs seqs o = record o { seqs = seqs ++ o.seqs }

module _ (pb : Protobuf) (parses : Text → Bool) where
  -- The bytes that an attempt sends.
  unfoldable pub request_bytes : ℕ → Text → List ℕ
  request_bytes seq body = contents (encode (message request seq body) (create initial_size))

  -- After the wait.
  abbrev pub waited : Channel → ℕ → Progress → Option Outcome
  waited ch seq p = elim (p.result) [
    | none ↦ none
    | some r ↦ some (record {
      result = r;
      channel = record ch { input = p.input };
      caller = p.caller;
      seqs = seq ∷ [];
    })
  ]

  abbrev pub after_wait : Channel → ℕ → Option Progress → Option Outcome
  after_wait ch seq none = none
  after_wait ch seq (some p) = waited ch seq p

  unfoldable pub after_send :
      Channel → Caller → ℕ → Attempt → Option (Bool × List ℕ) → Option Outcome
  after_send ch caller seq env none = none
  after_send ch caller seq env (some (false, taken)) = some (record {
    result = system;
    channel = close ch;
    caller = fail_controller ErrorCode.system env.errno caller;
    seqs = seq ∷ [];
  })
  after_send ch caller seq env (some (true, taken)) =
      after_wait ch seq
        (wait_response pb parses seq (env.start + ch.timeout) env.rounds caller ch.input)

  -- One round of the loop of attempts.
  unfoldable pub attempt : Text → Channel → Caller → Attempt → Option Outcome
  unfolding after_send
  attempt body ch caller env =
      let seq = ch.next_seq in
      let ch' = record ch { next_seq = add_size seq 1 } in
      after_send ch' (reset_controller caller) seq env (send_all env.sends (request_bytes seq body))

  -- Only a timeout is tried again.
  unfoldable pub retry : (Channel → Caller → Option Outcome) → Outcome → Option Outcome
  retry again o =
      let rest = again o.channel o.caller in
      if is_timeout o.result then Option.map (with_seqs o.seqs) rest else some o

  unfoldable pub retry_all : (Channel → Caller → Option Outcome) → Option Outcome → Option Outcome
  unfolding retry
  retry_all again none = none
  retry_all again (some o) = retry again o

  -- The loop, with `n` attempts left after this one.
  unfoldable pub attempts : ℕ → Text → List Attempt → Channel → Caller → Option Outcome
  unfolding retry_all
  attempts n body [] ch caller = none
  attempts zero body (env ∷ envs) ch caller = attempt body ch caller env
  attempts (suc n) body (env ∷ envs) ch caller =
      retry_all (attempts n body envs) (attempt body ch caller env)

  unfoldable pub after_connect :
      Text → List Attempt → Caller → Option Text × Channel → Option Outcome
  after_connect body envs caller (some what, ch) = some (record {
    result = system;
    channel = ch;
    caller = fail_controller ErrorCode.system what caller;
    seqs = [];
  })
  after_connect body envs caller (none, ch) = attempts ch.max_retries body envs ch caller

  -- `CallMethod` for a method's full name and a serialised request.
  unfoldable pub call_method :
      Text → Text → Option Text → List Attempt → Channel → Caller → Option Outcome
  unfolding after_connect
  call_method full_name payload answer envs ch caller =
      let envelope : RpcRequest = record { method = full_name; request = payload } in
      after_connect (pb.serialize_request envelope) envs (reset_controller caller)
        (connect answer ch)
