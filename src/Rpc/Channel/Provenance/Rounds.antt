-- ===== src/Rpc/Channel/Provenance/Rounds.antt =====
-- The reply of a call that succeeds, round by round of `waitResponse` in src/rpc/RpcChannel.cpp.
use mini_rpc.Base.{
  ℕ, suc, ◌+◌, ◌<◌, ◌≡◌, refl, ap, sym, ◌∙◌, subst, inl, inr, List, [], ◌∷◌, ◌++◌, append-nil,
  append_assoc, Bool, true, false, Option, none, some, arith, length, Bool-cases, Option-cases, leb,
  length-append, size_mod,
}
use mini_rpc.Base.Text.{Text, text}
use mini_rpc.Net.Buffer.{Buffer, got, failed, read_fd, readable_bytes, cheap_prepend}
use mini_rpc.Net.Buffer.Invariant.{IsValid}
use mini_rpc.Net.Buffer.Refine.{contents-read_fd}
use mini_rpc.Net.Buffer.Contents.{contents, length-contents, length-contents_readable}
use mini_rpc.Common.ErrorCode
use mini_rpc.Common.ErrorCode.{ErrorCode}
use mini_rpc.Rpc.Envelope.{Protobuf}
use mini_rpc.Rpc.Channel.{
  succeeded, timed_out, closed, Caller, Progress, scan, on_bytes, PollOutcome, expired, eintr,
  poll_failed, ready, Round, on_poll, wait_round, resume, wait_response, system, carry_on,
}
use mini_rpc.Rpc.Channel.Provenance.{
  stops, Reads-append, Reads-length, Answered, Answered-append, Answered-behind, Traced,
  Traced-stays, Traced-fails,
}
use mini_rpc.Rpc.Channel.Provenance.Scan.{scan-Traced}

-- The bytes that a round read.
abbrev pub bytes_of : PollOutcome → List ℕ
bytes_of (ready false true (got bytes)) = bytes
bytes_of answer = []

abbrev pub all_bytes : List Round → List ℕ
all_bytes [] = []
all_bytes (r ∷ rs) = bytes_of r.answer ++ all_bytes rs

module _ (pb : Protobuf) (parses : Text → Bool) (seq : ℕ) where
  abbrev Run : List ℕ → Option Progress → Type 0
  Run xs run = Traced pb parses seq xs run

  quiet : (caller : Caller) (b : Buffer) → IsValid b → Run (contents b ++ []) (carry_on caller b)
  quiet caller b v =
      Traced-stays pb parses seq (contents b ++ []) caller b v
        ([], stops (sym (append-nil (contents b))) refl, tt)

  on_bytes-Traced :
      (caller : Caller) (b : Buffer) (bytes : List ℕ)
      → IsValid b
      → cheap_prepend + length (contents b) + length bytes < size_mod
      → Run (contents b ++ bytes) (on_bytes pb parses seq caller b bytes)
  unfolding on_bytes
  on_bytes-Traced caller b [] v h =
      Traced-fails pb parses seq (contents b ++ []) closed ErrorCode.closed
        (text "connection closed") caller b v (λ k. ground arith)
  on_bytes-Traced caller b (x ∷ xs) v h =
      let r = contents-read_fd (x ∷ xs) b v (omega (arith, length-contents b v)) in
      let filled = read_fd (got (x ∷ xs)) b in
      subst (λ k. Run k (scan pb parses (suc (readable_bytes filled)) seq caller filled)) r.0
        (scan-Traced pb parses seq (suc (readable_bytes filled)) caller filled r.1
          (omega (arith, length-contents_readable filled r.1)))

  on_poll-Traced :
      (caller : Caller) (b : Buffer) (answer : PollOutcome)
      → IsValid b
      → cheap_prepend + length (contents b) + length (bytes_of answer) < size_mod
      → Run (contents b ++ bytes_of answer) (on_poll pb parses seq caller b answer)
  unfolding on_poll
  on_poll-Traced caller b expired v h =
      Traced-fails pb parses seq (contents b ++ []) timed_out ErrorCode.timeout
        (text "rpc call timeout") caller b v (λ k. ground arith)
  on_poll-Traced caller b eintr v h = quiet caller b v
  on_poll-Traced caller b (poll_failed what) v h =
      Traced-fails pb parses seq (contents b ++ []) system ErrorCode.system what caller b v
        (λ k. ground arith)
  on_poll-Traced caller b (ready true readable outcome) v h =
      Traced-fails pb parses seq (contents b ++ []) closed ErrorCode.closed
        (text "connection closed") caller b v (λ k. ground arith)
  on_poll-Traced caller b (ready false false outcome) v h = quiet caller b v
  on_poll-Traced caller b (ready false true (failed errno)) v h =
      Traced-fails pb parses seq (contents b ++ []) closed ErrorCode.closed
        (text "connection closed") caller b v (λ k. ground arith)
  on_poll-Traced caller b (ready false true (got bytes)) v h = on_bytes-Traced caller b bytes v h

  wait_round-Traced :
      (deadline : ℕ) (caller : Caller) (b : Buffer) (r : Round)
      → IsValid b
      → cheap_prepend + length (contents b) + length (bytes_of r.answer) < size_mod
      → Run (contents b ++ bytes_of r.answer) (wait_round pb parses seq deadline caller b r)
  unfolding wait_round
  wait_round-Traced deadline caller b r v h = elim (Bool-cases (leb deadline r.now)) [
    | inl e ↦ rw e (
        Traced-fails pb parses seq (contents b ++ bytes_of r.answer) timed_out ErrorCode.timeout
          (text "rpc call timeout") caller b v (λ k. ground arith))
    | inr e ↦ rw e (on_poll-Traced caller b r.answer v h)
  ]

  -- What a wait that has a result says of the bytes.
  abbrev Replied : List ℕ → Option Progress → Type 0
  Replied xs run =
      (p : Progress)
      → run ≡ some p
      → p.result ≡ some succeeded
      → Answered pb parses seq xs p.caller.reply

  resumed :
      (xs : List ℕ) (again : Caller → Buffer → Option Progress) (p : Progress)
      → (p.result ≡ none → Replied xs (again p.caller p.input))
      → (p.result ≡ some succeeded → Answered pb parses seq xs p.caller.reply)
      → Replied xs (resume pb parses again (some p))
  unfolding resume
  resumed xs again p more done q run ok = elim (Option-cases p.result) [
    | inl e ↦ more e q (rw e at run) ok
    | inr (res, e) ↦
        let run' = rw e at run in
        let same : p ≡ q = cc in
        subst (λ k. Answered pb parses seq xs k.caller.reply) same
          (done (ap (λ k. k.result) same ∙ ok))
  ]

  -- A wait on a valid buffer, whose reads fit the address space, that ends with success has its reply
  -- from the bytes: those in the buffer at the start and those that the rounds read begin with frames
  -- that are not this call's, and behind them stands a response with its sequence number, whose
  -- envelope opens without an error and whose payload parses and is the reply.
  pub wait_response-Answered :
      (deadline : ℕ) (rounds : List Round) (caller : Caller) (b : Buffer)
      → IsValid b
      → cheap_prepend + length (contents b) + length (all_bytes rounds) < size_mod
      → (p : Progress) → wait_response pb parses seq deadline rounds caller b ≡ some p
      → p.result ≡ some succeeded
      → Answered pb parses seq (contents b ++ all_bytes rounds) p.caller.reply
  unfolding wait_response
  wait_response-Answered deadline [] caller b v h p run ok = ground arith
  wait_response-Answered deadline (r ∷ rs) caller b v h p run ok =
      let size = length-append (bytes_of r.answer) (all_bytes rs) in
      let t = wait_round-Traced deadline caller b r v (omega arith) in
      let bytes = contents b ++ bytes_of r.answer in
      let now = t.progress in
      let regroup = append_assoc (contents b) (bytes_of r.answer) (all_bytes rs) in
      subst (λ k. Answered pb parses seq k p.caller.reply) regroup
        (resumed (bytes ++ all_bytes rs) (wait_response pb parses seq deadline rs) now
          (λ e q runs good.
            let (ms, begun, others) = t.dropped e in
            let less = Reads-length begun in
            let size' = length-append (contents b) (bytes_of r.answer) in
            Answered-behind pb parses seq (bytes ++ all_bytes rs)
              (contents now.input ++ all_bytes rs) q.caller.reply
              (ms, Reads-append (all_bytes rs) begun, others)
              (wait_response-Answered deadline rs now.caller now.input t.valid (omega arith) q runs
                good))
          (λ e. Answered-append pb parses seq bytes (all_bytes rs) now.caller.reply (t.answered e))
          p (rw t.ran at run) ok)
