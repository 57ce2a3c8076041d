-- ===== src/Rpc/Channel.antt =====
-- include/minirpc/rpc/RpcChannel.h and src/rpc/RpcChannel.cpp: the synchronous client. The lock makes
-- a call one step. What the kernel answers (`connect`, `send`, `poll`, `readv`, the clock) is an
-- argument, one entry for each system call in turn; a call that is still blocked where the entries
-- end has no result. A controller is null (`none`) or an RpcController; `done` is run last on every
-- path and is left out. Sequence numbers are `uint64_t`.
pub mod Wait
pub mod Call
pub mod Scan
pub mod Provenance
pub mod Retry
use mini_rpc.Base.{
  ℕ, zero, suc, ◌+◌, ◌-◌, ◌≡◌, List, [], ◌∷◌, ◌++◌, ◌==◌, leb, ltb, if◌then◌else◌, Bool, true,
  false, not, ◌&&◌, Option, none, some, length, drop, take, add_size, sub_size,
}
use mathlib.Core.Option
use mini_rpc.Base.Text.{Text, text}
use mini_rpc.Net.Buffer.{
  Buffer, create, initial_size, read_fd, ReadOutcome, got, failed, peek, readable_bytes,
}
use mini_rpc.Codec.{
  ProtocolMessage, MessageType, message_type, request, response, encode, try_decode, CodecError,
  invalid_magic, unsupported_version, body_too_long, Decoded, incomplete, frame, throws,
}
use mini_rpc.Common.ErrorCode
use mini_rpc.Common.ErrorCode.{ErrorCode}
use mini_rpc.Rpc.Controller
use mini_rpc.Rpc.Controller.{Controller}
use mini_rpc.Rpc.Envelope.{RpcRequest, RpcResponse, Protobuf}
use mini_rpc.Rpc.Server.{message}

pub data CallResult : Type 0 where
  succeeded timed_out closed system : CallResult

pub record Channel : Type 0 where
  -- `fd_ >= 0`
  pub connected : Bool
  pub timeout : ℕ
  pub max_retries : ℕ
  pub next_seq : ℕ
  pub input : Buffer

-- The caller's objects: the controller, and the response message, as the bytes it was parsed from.
pub record Caller : Type 0 where
  pub controller : Option Controller
  pub reply : Option Text

-- `failController`
unfoldable pub fail_controller : ErrorCode → Text → Caller → Caller
fail_controller code reason caller = record caller {
  controller = Option.map (Controller.set_failed_code code reason) (caller.controller);
}

unfoldable pub reset_controller : Caller → Caller
reset_controller caller = record caller {
  controller = Option.map Controller.reset (caller.controller);
}

unfoldable pub close : Channel → Channel
close ch = record ch { connected = false }

-- What `socket` and `::connect` answer: `none`, or the text of errno.
unfoldable pub connect : Option Text → Channel → Option Text × Channel
connect answer ch =
    if ch.connected
    then (none, ch)
    else elim answer [ none ↦ (none, record ch { connected = true }) | some what ↦ (some what, ch) ]

-- What one `::send` answers: bytes taken (at most those offered), or an errno.
pub data SendOutcome : Type 0 where
  wrote : ℕ → SendOutcome
  interrupted : SendOutcome
  refused : SendOutcome

-- `sendAll`, with the bytes still to send: whether it succeeded, and what the kernel took.
unfoldable pub send_all : List SendOutcome → List ℕ → Option (Bool × List ℕ)
send_all answers [] = some (true, [])
send_all [] (x ∷ xs) = none
send_all (interrupted ∷ answers) (x ∷ xs) = send_all answers (x ∷ xs)
send_all (refused ∷ answers) (x ∷ xs) = some (false, [])
send_all (wrote zero ∷ answers) (x ∷ xs) = some (false, [])
send_all (wrote (suc n) ∷ answers) (x ∷ xs) =
    Option.map (λ (ok, taken). (ok, x ∷ (take n xs ++ taken))) (send_all answers (drop n xs))

-- What one `::poll` answers, `ready` with the error bits (POLLERR, POLLHUP, POLLNVAL), POLLIN and, for
-- the read that follows, what `readv` gives.
pub data PollOutcome : Type 0 where
  expired : PollOutcome
  eintr : PollOutcome
  poll_failed : Text → PollOutcome
  ready : Bool → Bool → ReadOutcome → PollOutcome

-- A round of the loop: the clock at its start, and the answer of `::poll`.
pub record Round : Type 0 where
  pub now : ℕ
  pub answer : PollOutcome

abbrev pub what_of : CodecError → Text
what_of invalid_magic = text "Codec: invalid magic number"
what_of unsupported_version = text "Codec: unsupported protocol version"
what_of body_too_long = text "Codec: body length exceeds limit"

-- Where a wait stands after a read: a result, or none yet.
pub record Progress : Type 0 where
  pub result : Option CallResult
  pub caller : Caller
  pub input : Buffer

abbrev pub finish : CallResult → Caller → Buffer → Progress
finish result caller input = record { result = some result; caller = caller; input = input }

abbrev pub fail_with : CallResult → ErrorCode → Text → Caller → Buffer → Progress
fail_with result code reason caller input = finish result (fail_controller code reason caller) input

abbrev pub carry_on : Caller → Buffer → Option Progress
carry_on caller b = some (record { result = none; caller = caller; input = b })

abbrev pub is_ours : ℕ → ProtocolMessage → Bool
is_ours seq m = (m.header.type == message_type response) && (m.header.seq == seq)

abbrev pub reason_of : Text → Text
reason_of [] = text "rpc call failed"
reason_of (c ∷ cs) = c ∷ cs

-- `response->ParseFromString`: whether the payload is a message of the response's type.
module _ (pb : Protobuf) (parses : Text → Bool) where
  -- A response envelope for this call.
  unfoldable pub accept : RpcResponse → Caller → Buffer → Progress
  accept resp caller input =
      if resp.error_code == ErrorCode.ok
      then (if parses resp.response
          then finish succeeded (record caller { reply = some resp.response }) input
          else fail_with system ErrorCode.unknown (text "bad response payload") caller input)
      else fail_with system resp.error_code (reason_of resp.error_message) caller input

  -- A frame with this call's sequence number.
  unfoldable pub on_response : Text → Caller → Buffer → Progress
  on_response body caller input = elim (pb.parse_response body) [
    | none ↦ fail_with system ErrorCode.unknown (text "bad response envelope") caller input
    | some resp ↦ accept resp caller input
  ]

  on_decoded : ℕ → Caller → (Buffer → Option Progress) → Decoded → Buffer → Option Progress
  on_decoded seq caller again incomplete b = carry_on caller b
  on_decoded seq caller again (throws err) b =
      some (fail_with system ErrorCode.unknown (what_of err) caller b)
  on_decoded seq caller again (frame m) b =
      let rest = again b in if is_ours seq m then some (on_response m.body caller b) else rest

  -- The inner loop, with fuel: other frames are dropped.
  unfoldable pub scan : ℕ → ℕ → Caller → Buffer → Option Progress
  unfolding on_decoded
  scan zero seq caller b = none
  scan (suc fuel) seq caller b =
      let (d, rest) = try_decode b in on_decoded seq caller (scan fuel seq caller) d rest

  -- A read that gave `bytes`. The fuel is more than the buffer holds then.
  unfoldable pub on_bytes : ℕ → Caller → Buffer → List ℕ → Option Progress
  on_bytes seq caller b [] =
      some (fail_with closed ErrorCode.closed (text "connection closed") caller b)
  on_bytes seq caller b (x ∷ xs) =
      let filled = read_fd (got (x ∷ xs)) b in scan (suc (readable_bytes filled)) seq caller filled

  on_read : ℕ → Caller → Buffer → ReadOutcome → Option Progress
  on_read seq caller b (failed errno) =
      some (fail_with closed ErrorCode.closed (text "connection closed") caller b)
  on_read seq caller b (got bytes) = on_bytes seq caller b bytes

  unfoldable pub on_poll : ℕ → Caller → Buffer → PollOutcome → Option Progress
  unfolding on_read
  on_poll seq caller b expired =
      some (fail_with timed_out ErrorCode.timeout (text "rpc call timeout") caller b)
  on_poll seq caller b eintr = carry_on caller b
  on_poll seq caller b (poll_failed what) = some (fail_with system ErrorCode.system what caller b)
  on_poll seq caller b (ready broken readable outcome) =
      if broken
      then some (fail_with closed ErrorCode.closed (text "connection closed") caller b)
      else if readable
      then on_read seq caller b outcome
      else carry_on caller b

  -- One round of `waitResponse`.
  unfoldable pub wait_round : ℕ → ℕ → Caller → Buffer → Round → Option Progress
  wait_round seq deadline caller b round =
      if leb deadline round.now
      then some (fail_with timed_out ErrorCode.timeout (text "rpc call timeout") caller b)
      else on_poll seq caller b round.answer

  unfoldable pub resume : (Caller → Buffer → Option Progress) → Option Progress → Option Progress
  resume again none = none
  resume again (some p) = elim (p.result) [ some r ↦ some p | none ↦ again p.caller p.input ]

  -- `waitResponse` from the second clock reading on; `none` where it is still waiting.
  unfoldable pub wait_response : ℕ → ℕ → List Round → Caller → Buffer → Option Progress
  unfolding resume
  wait_response seq deadline [] caller b = none
  wait_response seq deadline (round ∷ rounds) caller b =
      resume (wait_response seq deadline rounds) (wait_round seq deadline caller b round)
