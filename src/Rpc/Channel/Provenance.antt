-- ===== src/Rpc/Channel/Provenance.antt =====
-- Where the reply of a call that succeeds came from: the frames that `waitResponse` of src/rpc/RpcChannel.cpp read.
pub mod Scan
pub mod Rounds
use mini_rpc.Base.{
  ℕ, zero, suc, ◌+◌, ◌≤◌, ◌<◌, ◌≡◌, ◌≢◌, refl, ap, sym, ◌∙◌, subst, inl, inr, List, [], ◌∷◌, ◌++◌,
  append-nil, append_assoc, Bool, true, false, Option, none, some, arith, length, All, Bool-cases,
  Option-cases, ◌==◌, leb, length-append, size_mod,
}
use mini_rpc.Base.Text.{Text, text}
use mini_rpc.Net.Buffer.{Buffer, got, failed, read_fd, readable_bytes, cheap_prepend}
use mini_rpc.Net.Buffer.Invariant.{IsValid}
use mini_rpc.Net.Buffer.Refine.{contents-read_fd}
use mini_rpc.Net.Buffer.Contents.{contents, length-contents, length-contents_readable}
use mini_rpc.Codec.{ProtocolMessage, frame}
use mini_rpc.Codec.Parse.{parse}
use mini_rpc.Codec.Decode.{parse_cases, parse_frame_lem, parse-append_frame}
use mini_rpc.Common.ErrorCode
use mini_rpc.Common.ErrorCode.{ErrorCode}
use mini_rpc.Rpc.Envelope.{Protobuf, RpcResponse}
use mini_rpc.Rpc.Channel.{
  CallResult, succeeded, Caller, Progress, is_ours, accept, on_response, scan, on_bytes,
  PollOutcome, expired, eintr, system, poll_failed, ready, Round, on_poll, wait_round, resume,
  wait_response, fail_with, carry_on, what_of,
}
use mini_rpc.Rpc.Channel.Scan.{scan_waits, scan_frame, scan_breaks, accept-input}

-- `Reads xs ms rest`: the bytes `xs` begin with the frames `ms`, and `rest` follows them.
pub data Reads : List ℕ → List ProtocolMessage → List ℕ → Type 0 where
  stops : {xs rest : List ℕ} {ms : List ProtocolMessage} → rest ≡ xs → ms ≡ [] → Reads xs ms rest
  reads :
      {xs rest : List ℕ} {ms : List ProtocolMessage} (m : ProtocolMessage) (ys : List ℕ)
      (ns : List ProtocolMessage)
      → parse xs ≡ (frame m, ys)
      → ms ≡ m ∷ ns
      → Reads ys ns rest
      → Reads xs ms rest

pub Reads-append :
    {xs r : List ℕ} {ms : List ProtocolMessage} (ys : List ℕ)
    → Reads xs ms r
    → Reads (xs ++ ys) ms (r ++ ys)
Reads-append ys (stops e n) = stops (ap (λ k. k ++ ys) e) n
Reads-append {xs} ys (reads m zs ns p e t) =
    reads m (zs ++ ys) ns (parse-append_frame xs ys m zs p) e (Reads-append ys t)

Reads-more :
    {xs r s : List ℕ} {ms ns : List ProtocolMessage}
    → Reads xs ms r
    → Reads r ns s
    → Reads xs (ms ++ ns) s
Reads-more {xs} {r} {s} {ms} {ns} (stops e n) t =
    subst (λ k. Reads k (ms ++ ns) s) e (subst (λ k. Reads r k s) (ap (λ k. k ++ ns) (sym n)) t)
Reads-more {ns} (reads m ys ks p e u) t =
    reads m ys (ks ++ ns) p (ap (λ k. k ++ ns) e) (Reads-more u t)

Reads-length : {xs r : List ℕ} {ms : List ProtocolMessage} → Reads xs ms r → length r ≤ length xs
Reads-length (stops e n) = omega (arith, ap length e)
Reads-length {xs} (reads m ys ns p e t) = omega (arith, parse_frame_lem xs m ys p, Reads-length t)

All-append :
    (P : ProtocolMessage → Type 0) (xs ys : List ProtocolMessage)
    → All P xs
    → All P ys
    → All P (xs ++ ys)
All-append P [] ys h k = k
All-append P (x ∷ xs) ys (a, h) k = (a, All-append P xs ys h k)

module _ (pb : Protobuf) (parses : Text → Bool) (seq : ℕ) where
  abbrev pub IsOther : ProtocolMessage → Type 0
  IsOther m = is_ours seq m ≡ false

  -- The bytes begin with frames that are not this call's, and `rest` follows them.
  abbrev pub Drops : List ℕ → List ℕ → Type 0
  Drops xs rest = (ms : List ProtocolMessage) × Reads xs ms rest × All IsOther ms

  -- Behind frames that are not this call's stands one that is: a response with its sequence number, whose
  -- envelope has no error and whose payload is the reply and parses.
  pub record Answered (xs : List ℕ) (reply : Option Text) : Type 0 where
    pub before : List ℕ
    pub dropped : Drops xs before
    pub answer : ProtocolMessage
    pub after : List ℕ
    pub framed : parse before ≡ (frame answer, after)
    pub ours : is_ours seq answer ≡ true
    pub envelope : RpcResponse
    pub opened : pb.parse_response answer.body ≡ some envelope
    pub no_error : (envelope.error_code == ErrorCode.ok) ≡ true
    pub readable : parses envelope.response ≡ true
    pub replied : reply ≡ some envelope.response

  pub Answered-append :
      (xs ys : List ℕ) (reply : Option Text) → Answered xs reply → Answered (xs ++ ys) reply
  Answered-append xs ys reply a = record {
    before = a.before ++ ys;
    dropped = (a.dropped.0, Reads-append ys a.dropped.1, a.dropped.2);
    answer = a.answer;
    after = a.after ++ ys;
    framed = parse-append_frame a.before ys a.answer a.after a.framed;
    ours = a.ours;
    envelope = a.envelope;
    opened = a.opened;
    no_error = a.no_error;
    readable = a.readable;
    replied = a.replied;
  }

  pub Answered-behind :
      (xs rest : List ℕ) (reply : Option Text)
      → Drops xs rest
      → Answered rest reply
      → Answered xs reply
  Answered-behind xs rest reply (ms, r, o) a = record {
    before = a.before;
    dropped = (
      ms ++ a.dropped.0,
      Reads-more r a.dropped.1,
      All-append IsOther ms a.dropped.0 o a.dropped.2,
    );
    answer = a.answer;
    after = a.after;
    framed = a.framed;
    ours = a.ours;
    envelope = a.envelope;
    opened = a.opened;
    no_error = a.no_error;
    readable = a.readable;
    replied = a.replied;
  }

  -- A run over the bytes `xs` that ended: without a result it has dropped frames, and a success is answered.
  pub record Traced (xs : List ℕ) (run : Option Progress) : Type 0 where
    pub progress : Progress
    pub ran : run ≡ some progress
    pub valid : IsValid progress.input
    pub dropped : progress.result ≡ none → Drops xs (contents progress.input)
    pub answered : progress.result ≡ some succeeded → Answered xs progress.caller.reply

  pub Traced-stays :
      (xs : List ℕ) (caller : Caller) (b : Buffer)
      → IsValid b
      → Drops xs (contents b)
      → Traced xs (carry_on caller b)
  Traced-stays xs caller b v d = record {
    progress = record { result = none; caller = caller; input = b };
    ran = refl;
    valid = v;
    dropped = λ k. d;
    answered = λ k. ground arith;
  }

  pub Traced-fails :
      (xs : List ℕ) (result : CallResult) (code : ErrorCode) (reason : Text) (caller : Caller)
      (b : Buffer)
      → IsValid b
      → result ≢ succeeded
      → Traced xs (some (fail_with result code reason caller b))
  Traced-fails xs result code reason caller b v other = record {
    progress = fail_with result code reason caller b;
    ran = refl;
    valid = v;
    dropped = λ k. ground arith;
    answered = λ k. absurd (other (cc));
  }

  pub Traced-behind :
      (xs rest : List ℕ) (run : Option Progress) → Drops xs rest → Traced rest run → Traced xs run
  Traced-behind xs rest run d t = record {
    progress = t.progress;
    ran = t.ran;
    valid = t.valid;
    dropped = λ k.
        let (ns, r, o) = t.dropped k in
        (d.0 ++ ns, Reads-more d.1 r, All-append IsOther d.0 ns d.2 o);
    answered = λ k. Answered-behind xs rest t.progress.caller.reply d (t.answered k);
  }
