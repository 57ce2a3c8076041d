-- ===== src/Rpc/Channel/Wait.antt =====
-- `waitResponse` ends by its deadline, whatever the kernel and the peer do.
use mini_rpc.Base.{
  ℕ, suc, ◌+◌, ◌≤◌, ◌<◌, ◌≡◌, refl, ap, sym, ◌∙◌, subst, inl, inr, ◌⊎◌, List, [], ◌∷◌, Bool, true,
  false, Option, none, some, arith, length, Bool-cases, leb, le→leb, length-append, size_mod,
  Option-cases,
}
use mini_rpc.Base.Text.{Text, text}
use mini_rpc.Net.Buffer.{Buffer, got, failed, read_fd, readable_bytes, cheap_prepend}
use mini_rpc.Net.Buffer.Invariant.{IsValid}
use mini_rpc.Net.Buffer.Refine.{contents-read_fd}
use mini_rpc.Net.Buffer.Contents.{contents, length-contents, length-contents_readable}
use mini_rpc.Rpc.Envelope.{Protobuf}
use mini_rpc.Rpc.Channel.{
  CallResult, timed_out, Caller, Progress, PollOutcome, expired, eintr, poll_failed, ready, Round,
  on_bytes, on_poll, wait_round, resume, wait_response, fail_with,
}
use mini_rpc.Rpc.Channel.Scan.{scan_total}
use mini_rpc.Common.ErrorCode

-- The bytes that a round can bring.
abbrev pub read_size : PollOutcome → ℕ
read_size (ready broken readable (got bytes)) = length bytes
read_size answer = 0

abbrev pub total_size : List Round → ℕ
total_size [] = 0
total_size (r ∷ rs) = read_size r.answer + total_size rs

-- A round that begins at the deadline or after it.
abbrev pub Late : ℕ → List Round → Type 0
Late deadline [] = ⊥
Late deadline (r ∷ rs) = (deadline ≤ r.now) ⊎ Late deadline rs

-- A run of the wait that ended with a result.
abbrev pub Result : Option Progress → Type 0
Result run = (p : Progress) × (r : CallResult) × (run ≡ some p) × (p.result ≡ some r)

module _ (pb : Protobuf) (parses : Text → Bool) (seq : ℕ) where
  -- A round that has a result, or leaves a valid buffer with at most `n` bytes more.
  record Steps (n : ℕ) (b : Buffer) (run : Option Progress) : Type 0 where
    progress : Progress
    ran : run ≡ some progress
    valid : IsValid progress.input
    less : length (contents progress.input) ≤ length (contents b) + n

  Steps-done : (n : ℕ) (b : Buffer) (p : Progress) → IsValid b → p.input ≡ b → Steps n b (some p)
  Steps-done n b p v e = record {
    progress = p;
    ran = refl;
    valid = subst IsValid (sym e) v;
    less = rw e (omega arith);
  }

  on_bytes-Steps :
      (caller : Caller) (b : Buffer) (bytes : List ℕ)
      → IsValid b
      → cheap_prepend + length (contents b) + length bytes < size_mod
      → Steps (length bytes) b (on_bytes pb parses seq caller b bytes)
  unfolding on_bytes
  on_bytes-Steps caller b [] v h = Steps-done _ b _ v refl
  on_bytes-Steps caller b (x ∷ xs) v h =
      let r = contents-read_fd (x ∷ xs) b v (omega (arith, length-contents b v)) in
      let filled = read_fd (got (x ∷ xs)) b in
      let size = ap length r.0 ∙ length-append (contents b) (x ∷ xs) in
      let e =
        scan_total pb parses seq caller (suc (readable_bytes filled)) filled r.1
          (omega (arith, length-contents_readable filled r.1)) in
      record { progress = e.progress; ran = e.ran; valid = e.valid; less = omega (arith, e.less) }

  on_poll-Steps :
      (caller : Caller) (b : Buffer) (answer : PollOutcome)
      → IsValid b
      → cheap_prepend + length (contents b) + read_size answer < size_mod
      → Steps (read_size answer) b (on_poll pb parses seq caller b answer)
  unfolding on_poll
  on_poll-Steps caller b expired v h = Steps-done _ b _ v refl
  on_poll-Steps caller b eintr v h = Steps-done _ b _ v refl
  on_poll-Steps caller b (poll_failed what) v h = Steps-done _ b _ v refl
  on_poll-Steps caller b (ready true readable outcome) v h = Steps-done _ b _ v refl
  on_poll-Steps caller b (ready false false outcome) v h = Steps-done _ b _ v refl
  on_poll-Steps caller b (ready false true (failed errno)) v h = Steps-done _ b _ v refl
  on_poll-Steps caller b (ready false true (got bytes)) v h = on_bytes-Steps caller b bytes v h

  wait_round-Steps :
      (deadline : ℕ) (caller : Caller) (b : Buffer) (r : Round)
      → IsValid b
      → cheap_prepend + length (contents b) + read_size r.answer < size_mod
      → Steps (read_size r.answer) b (wait_round pb parses seq deadline caller b r)
  unfolding wait_round
  wait_round-Steps deadline caller b r v h = elim (Bool-cases (leb deadline r.now)) [
    | inl e ↦ rw e (Steps-done _ b _ v refl)
    | inr e ↦ rw e (on_poll-Steps caller b r.answer v h)
  ]

  wait_round_late :
      (deadline : ℕ) (caller : Caller) (b : Buffer) (r : Round)
      → deadline ≤ r.now
      → wait_round pb parses seq deadline caller b r
        ≡ some (fail_with timed_out ErrorCode.timeout (text "rpc call timeout") caller b)
  unfolding wait_round
  wait_round_late deadline caller b r h = rw (le→leb deadline r.now h) refl

  -- What resumes ends, where a wait without a result goes on to an end.
  resumed :
      (again : Caller → Buffer → Option Progress) (p : Progress)
      → (p.result ≡ none → Result (again p.caller p.input))
      → Result (resume pb parses again (some p))
  unfolding resume
  resumed again p more = elim (Option-cases p.result) [
    | inl e ↦ rw e (more e)
    | inr (res, e) ↦ (p, res, ground arith, e)
  ]

  -- A wait on a valid buffer, whose reads fit the address space, has a result if some round begins at
  -- the deadline or later, however the rounds went: interrupted polls, spurious wake-ups, partial
  -- frames and frames for other requests included.
  pub wait_response_ends :
      (deadline : ℕ) (rounds : List Round) (caller : Caller) (b : Buffer)
      → IsValid b
      → cheap_prepend + length (contents b) + total_size rounds < size_mod
      → Late deadline rounds
      → Result (wait_response pb parses seq deadline rounds caller b)
  unfolding wait_response
  wait_response_ends deadline [] caller b v h late = absurd late
  wait_response_ends deadline (r ∷ rs) caller b v h (inl now) = (
    fail_with timed_out ErrorCode.timeout (text "rpc call timeout") caller b,
    timed_out,
    rw (wait_round_late deadline caller b r now) refl,
    refl,
  )
  wait_response_ends deadline (r ∷ rs) caller b v h (inr late) =
      let s = wait_round-Steps deadline caller b r v (omega arith) in
      let p = s.progress in
      let (end, res, run, q) = resumed (wait_response pb parses seq deadline rs) p (λ k.
        wait_response_ends deadline rs p.caller p.input s.valid (omega (arith, s.less)) late) in
      (end, res, rw s.ran run, q)
