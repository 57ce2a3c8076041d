-- ===== src/Rpc/Exchange.antt =====
-- The bytes of one exchange: a request from src/rpc/RpcChannel.cpp read by src/rpc/RpcServer.cpp, and the reply read by
-- the channel's wait.
use mini_rpc.Base.{
  ℕ, zero, suc, ◌^◌, ◌≤◌, ◌<◌, ◌≡◌, refl, ap, sym, ◌∙◌, List, [], ◌∷◌, ◌++◌, Bool, true, false,
  Option, none, some, arith, length, drop, take, take-append-drop, append-nil, leb, length-append,
  ==_refl,
}
use mathlib.Core.Option
use mini_rpc.Base.Text.{Text}
use mini_rpc.Net.Buffer.{Buffer, create, initial_size, read_fd, got, readable_bytes}
use mini_rpc.Net.Buffer.Invariant.{IsValid, create-IsValid}
use mini_rpc.Net.Buffer.Refine.{contents-create, contents-read_fd}
use mini_rpc.Net.Buffer.Contents.{contents, length-contents, length-contents_readable}
use mini_rpc.Codec.{ProtocolMessage, message_type, request, response, max_body_size, be_bytes}
use mini_rpc.Codec.Wire.{wire, header_bytes, length-header_bytes, contents-encode}
use mini_rpc.Codec.Decode.{sent}
use mini_rpc.Codec.Parse.{parse}
use mini_rpc.Codec.Stream.Frames.{wires}
use mini_rpc.Common.ErrorCode
use mini_rpc.Rpc.Envelope.{RpcResponse, Protobuf}
use mini_rpc.Rpc.Server.{submits, message, on_frame, on_message}
use mini_rpc.Rpc.Server.Reply.{IsSmall, IsFrame-message}
use mini_rpc.Rpc.Server.Loop.{on_message_frames}
use mini_rpc.Rpc.Channel.{
  Channel, Caller, SendOutcome, wrote, interrupted, refused, send_all, Round, ready, accept,
  on_response, on_bytes, on_poll, scan, wait_round,
}
use mini_rpc.Rpc.Channel.Scan.{scan_takes}
use mini_rpc.Rpc.Channel.Call.{request_bytes}

-- A send of some bytes, and what the rest of the loop gives.
wrote_some :
    (n x : ℕ) (xs taken : List ℕ) (o : Option (Bool × List ℕ))
    → Option.map {B = Bool × List ℕ} (λ (ok, more). (ok, x ∷ (take n xs ++ more))) o
      ≡ some (true, taken)
    → ((more : List ℕ) → o ≡ some (true, more) → more ≡ drop n xs)
    → taken ≡ x ∷ xs
wrote_some n x xs taken none e h = absurd (cc)
wrote_some n x xs taken (some (false, more)) e h = absurd (grind arith)
wrote_some n x xs taken (some (true, more)) e h =
    let same : taken ≡ x ∷ (take n xs ++ more) = grind arith in
    same ∙ ap (λ ys. x ∷ (take n xs ++ ys)) (h more refl) ∙ ap (◌∷◌ x) (take-append-drop n xs)

-- What the kernel took, where a send succeeded, is what was to be sent.
pub send_all-taken :
    (answers : List SendOutcome) (xs taken : List ℕ)
    → send_all answers xs ≡ some (true, taken)
    → taken ≡ xs
unfolding send_all
send_all-taken answers [] taken e = grind arith
send_all-taken [] (x ∷ xs) taken e = absurd (cc)
send_all-taken (interrupted ∷ answers) (x ∷ xs) taken e = send_all-taken answers (x ∷ xs) taken e
send_all-taken (refused ∷ answers) (x ∷ xs) taken e = absurd (grind arith)
send_all-taken (wrote zero ∷ answers) (x ∷ xs) taken e = absurd (grind arith)
send_all-taken (wrote (suc n) ∷ answers) (x ∷ xs) taken e =
    wrote_some n x xs taken (send_all answers (drop n xs)) e
      (λ more f. send_all-taken answers (drop n xs) more f)

-- A response without an error.
abbrev pub ok_response : Text → RpcResponse
ok_response out = record { error_code = ErrorCode.ok; error_message = []; response = out }

abbrev pub request_body : Protobuf → Text → Text → Text
request_body pb full_name payload =
    pb.serialize_request (record { method = full_name; request = payload })

-- The message that the server reads for a call's first attempt.
abbrev pub received : Protobuf → Text → Text → Channel → ProtocolMessage
received pb full_name payload ch =
    sent (message request ch.next_seq (request_body pb full_name payload))

-- The frame of a request.
pub request_bytes-wire :
    (pb : Protobuf) (parses : Text → Bool) (seq : ℕ) (body : Text)
    → length body ≤ max_body_size
    → request_bytes pb parses seq body ≡ wire (message request seq body)
unfolding request_bytes
request_bytes-wire pb parses seq body small =
    let e =
      contents-encode (message request seq body) (create initial_size)
        (create-IsValid initial_size (omega arith))
        (omega (arith, ap length (contents-create initial_size))) in
    e.0 ∙ ap (λ xs. xs ++ wire (message request seq body)) (contents-create initial_size)

lt→leb : (a b : ℕ) → a < b → leb b a ≡ false
lt→leb a b h = ground arith

module _ (pb : Protobuf) (parses : Text → Bool) where
  on_frame-submits :
      (submit : ProtocolMessage → Option Text) (m : ProtocolMessage)
      → m.header.type ≡ message_type request
      → submit m ≡ none
      → on_frame pb submit m ≡ submits m ∷ []
  unfolding on_frame
  on_frame-submits submit m is yes_ = ground (arith, yes_, is)

  -- The server gives the request that the client sent to the pool, and keeps nothing of it.
  pub request_submits :
      (submit : ProtocolMessage → Option Text) (seq : ℕ) (body : Text) (b : Buffer) (fuel : ℕ)
      → IsValid b
      → contents b ≡ request_bytes pb parses seq body
      → seq < 2 ^ 64
      → length body ≤ max_body_size
      → submit (sent (message request seq body)) ≡ none
      → length (contents b) < fuel
      → (rest : Buffer) × (on_message pb fuel submit b
          ≡ some (submits (sent (message request seq body)) ∷ [], rest))
        × (contents rest ≡ [])
        × IsValid rest
  request_submits submit seq body b fuel v e small fits yes_ h =
      let msg = message request seq body in
      let (rest, run, left, rv) =
        on_message_frames pb submit fuel (msg ∷ []) [] b v
          (e
            ∙ request_bytes-wire pb parses seq body fits
            ∙ sym (append-nil (wire msg))
            ∙ sym (append-nil (wire msg ++ [])))
          (IsFrame-message pb request seq body small fits, tt) (unfold parse in refl) h in
      (
        rest,
        run ∙ ap (λ acts. some (acts ++ [], rest)) (on_frame-submits submit (sent msg) refl yes_),
        left,
        rv,
      )

  -- A read that brings a frame goes to the inner loop.
  on_bytes-wire :
      (seq : ℕ) (caller : Caller) (b : Buffer) (m : ProtocolMessage)
      → on_bytes pb parses seq caller b (wire m)
        ≡ scan pb parses
            (suc (readable_bytes (read_fd (got (wire m)) b)))
            seq
            caller
            (read_fd (got (wire m)) b)
  unfolding on_bytes header_bytes be_bytes
  on_bytes-wire seq caller b m = refl

  on_response-accept :
      (resp : RpcResponse) (caller : Caller) (b : Buffer)
      → on_response pb parses (pb.serialize_response resp) caller b ≡ accept pb parses resp caller b
  unfolding on_response
  on_response-accept resp caller b = rw (pb.parse-serialize_response resp, on_response) refl

  -- The wait's round that reads.
  wait_round-read :
      (seq deadline : ℕ) (round : Round) (caller : Caller) (b : Buffer) (bytes : List ℕ)
      → round.now < deadline
      → round.answer ≡ ready false true (got bytes)
      → wait_round pb parses seq deadline caller b round ≡ on_bytes pb parses seq caller b bytes
  unfolding wait_round on_poll
  wait_round-read seq deadline round caller b bytes early answer =
      rw (lt→leb round.now deadline early) (rw answer refl)

  -- One read that brings the whole reply to an empty buffer decides the wait.
  pub reply_decides :
      (seq deadline : ℕ) (round : Round) (caller : Caller) (b : Buffer) (resp : RpcResponse)
      (bytes : List ℕ)
      → IsValid b
      → contents b ≡ []
      → bytes ≡ wire (message response seq (pb.serialize_response resp))
      → seq < 2 ^ 64
      → IsSmall pb resp
      → round.now < deadline
      → round.answer ≡ ready false true (got bytes)
      → (rest : Buffer) × (wait_round pb parses seq deadline caller b round
          ≡ some (accept pb parses resp caller rest))
        × (contents rest ≡ [])
        × IsValid rest
  reply_decides seq deadline round caller b resp bytes v empty is small fits early answer =
      let m = message response seq (pb.serialize_response resp) in
      let (all, v') = contents-read_fd (wire m) b v (
        omega (
          arith,
          length-contents b v,
          ap length empty,
          length-append (header_bytes m) m.body,
          length-header_bytes m,
          small,
        )) in
      let e : contents (read_fd (got (wire m)) b) ≡ wires [] ++ (wire m ++ []) =
        all ∙ ap (λ xs. xs ++ wire m) empty ∙ sym (append-nil (wire m)) in
      let (rest, run, left, rv) =
        scan_takes pb parses seq caller (suc (readable_bytes (read_fd (got (wire m)) b))) [] m []
          (read_fd (got (wire m)) b) v' e tt tt
          (IsFrame-message pb response seq (pb.serialize_response resp) small fits)
          (ground (arith, ==_refl seq))
          (omega (arith, length-contents_readable (read_fd (got (wire m)) b) v')) in
      (
        rest,
        wait_round-read seq deadline round caller b bytes early answer
            ∙ ap (on_bytes pb parses seq caller b) is
            ∙ on_bytes-wire seq caller b m
            ∙ run
            ∙ ap some (on_response-accept resp caller rest),
        left,
        rv,
      )
