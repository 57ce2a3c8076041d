-- ===== src/Codec/Stream/Receive.antt =====
-- The receiving loop over a buffer, and what it delivers whatever way the stream is cut into reads.
use mathlib.Core.Option
use mini_rpc.Base.{
  ℕ, ◌+◌, ◌<◌, ◌≡◌, refl, ap, sym, ◌∙◌, List, [], ◌∷◌, ◌++◌, arith, length, map, append_assoc,
  append-nil, append-eq_nil, Option, none, some, All, length-append, subst, inl, inr, Option-cases,
  size_mod,
}
use mini_rpc.Net.Buffer.{Buffer, got, read_fd, cheap_prepend}
use mini_rpc.Net.Buffer.Invariant.{IsValid}
use mini_rpc.Net.Buffer.Refine.{contents-read_fd}
use mini_rpc.Net.Buffer.Contents.{contents, length-contents}
use mini_rpc.Codec.{ProtocolMessage, incomplete, CodecError}
use mini_rpc.Codec.Decode.{parse-nil, IsFrame, sent}
use mini_rpc.Codec.Parse.{parse}
use mini_rpc.Codec.Stream.Frames.{
  Frames, waits, Frames-unique, Frames-length, Frames-rest, Frames-append, Frames-append_error,
  wires, Frames-wires,
}
use mini_rpc.Codec.Stream.Batches.{
  Batch, put_before, decode_all, receive_next, receive_all, Covers, decode_all-Covers,
}

abbrev pub joined : List (List ℕ) → List ℕ
joined [] = []
joined (c ∷ cs) = c ++ joined cs

-- A run over chunks reads their concatenation: `tail` is what was not read after a violation.
pub record Delivers (xs : List ℕ) (batch : Batch) : Type 0 where
  pub valid : IsValid batch.buffer
  pub tail : List ℕ
  pub reading : Frames xs batch.messages batch.error (contents batch.buffer ++ tail)
  pub complete : batch.error ≡ none → tail ≡ []

-- The first chunk's run, and the rest of the run after it.
receive_more :
    (xs ys : List ℕ) (first rest : Batch)
    → Covers xs first
    → first.error ≡ none
    → Delivers (contents first.buffer ++ ys) rest
    → Delivers (xs ++ ys) (put_before first.messages rest)
receive_more xs ys first rest c e d = record {
  valid = d.valid;
  tail = d.tail;
  reading = Frames-append ys c.reading e d.reading;
  complete = d.complete;
}

receive_stop :
    (xs ys : List ℕ) (first : Batch) (err : CodecError)
    → Covers xs first
    → first.error ≡ some err
    → Delivers (xs ++ ys) first
receive_stop xs ys first err c e = record {
  valid = c.valid;
  tail = ys;
  reading = Frames-append_error err ys c.reading e;
  complete = λ h. absurd (cc);
}

-- A buffer from which every complete frame has been taken.
abbrev pub IsDrained : Buffer → Type 0
IsDrained b = parse (contents b) ≡ (incomplete, contents b)

-- One read and the loop after it, from a drained buffer.
receive_chunk :
    (fuel : ℕ) (c : List ℕ) (b : Buffer)
    → IsValid b
    → cheap_prepend + length (contents b) + length c < size_mod
    → length (contents b) + length c < fuel
    → (first : Batch) × (decode_all fuel (read_fd (got c) b) ≡ some first)
      × Covers (contents b ++ c) first
receive_chunk fuel c b v room h =
    let r = contents-read_fd c b v (omega (arith, length-contents b v)) in
    let size = ap length r.0 ∙ length-append (contents b) c in
    let (first, run, cover) =
      decode_all-Covers fuel (read_fd (got c) b) r.1 (omega (arith, size)) in
    (first, run, subst (λ xs. Covers xs first) r.0 cover)

-- What follows the first chunk, on either outcome of its run.
receive_rest :
    (again : Buffer → Option Batch) (xs ys : List ℕ) (first : Batch)
    → Covers xs first
    → (first.error ≡ none
        → (rest : Batch) × (again first.buffer ≡ some rest)
          × Delivers (contents first.buffer ++ ys) rest)
    → (batch : Batch) × (receive_next again (some first) ≡ some batch) × Delivers (xs ++ ys) batch
unfolding receive_next
receive_rest again xs ys first cover ih = elim (Option-cases first.error) [
  | inl e ↦
      let (rest, run, del) = ih e in
      (
        put_before first.messages rest,
        rw (e, receive_next) (ap (Option.map (put_before first.messages)) run),
        receive_more xs ys first rest cover e del,
      )
  | inr (err, e) ↦ (first, ground arith, receive_stop xs ys first err cover e)
]

-- Any bytes that fit the address space, cut into reads in any way and received into a valid buffer
-- without a complete frame, are handed out as the frame by frame reading of the whole stream up to its
-- first violation, and more fuel than bytes is enough.
pub receive_all-Delivers :
    (fuel : ℕ) (chunks : List (List ℕ)) (b : Buffer)
    → IsValid b
    → IsDrained b
    → cheap_prepend + length (contents b) + length (joined chunks) < size_mod
    → length (contents b) + length (joined chunks) < fuel
    → (batch : Batch) × (receive_all fuel chunks b ≡ some batch)
      × Delivers (contents b ++ joined chunks) batch
unfolding receive_all
receive_all-Delivers fuel [] b v d room h = (
  record { messages = []; error = none; buffer = b },
  refl,
  record {
    valid = v;
    tail = [];
    reading = waits (simp append-nil d) refl refl refl;
    complete = λ _. refl;
  },
)
receive_all-Delivers fuel (c ∷ cs) b v d room h =
    let size = length-append c (joined cs) in
    let (first, run, cover) = receive_chunk fuel c b v (omega arith) (omega arith) in
    let left = Frames-length cover.reading in
    let size' = length-append (contents b) c in
    let (batch, whole, del) =
      receive_rest (receive_all fuel cs) (contents b ++ c) (joined cs) first cover λ e.
        receive_all-Delivers fuel cs first.buffer cover.valid (Frames-rest cover.reading e)
          (omega arith) (omega arith) in
    (
      batch,
      rw run whole,
      subst (λ xs. Delivers xs batch) (append_assoc (contents b) c (joined cs)) del,
    )

-- Well-formed messages, written as frames and cut into reads in any way, are received as exactly those
-- messages, in order, with no violation and nothing left over: for a valid empty buffer, a stream that
-- fits the address space, and more fuel than bytes, which the receiver then does not exhaust.
pub receive_all-wires :
    (fuel : ℕ) (ms : List ProtocolMessage) (chunks : List (List ℕ)) (b : Buffer)
    → IsValid b
    → contents b ≡ []
    → All IsFrame ms
    → joined chunks ≡ wires ms
    → cheap_prepend + length (wires ms) < size_mod
    → length (wires ms) < fuel
    → (batch : Batch) × (receive_all fuel chunks b ≡ some batch)
      × (batch.messages ≡ map sent ms)
      × (batch.error ≡ none)
      × (contents batch.buffer ≡ [])
receive_all-wires fuel ms chunks b v empty good whole room h =
    let d : IsDrained b = subst (λ xs. parse xs ≡ (incomplete, xs)) (sym empty) parse-nil in
    let n = ap length empty in
    let m = ap length whole in
    let (batch, run, del) = receive_all-Delivers fuel chunks b v d (omega arith) (omega arith) in
    let all : contents b ++ joined chunks ≡ wires ms = rw empty whole in
    let u =
      Frames-unique
        (subst (λ xs. Frames xs batch.messages batch.error (contents batch.buffer ++ del.tail)) all
          del.reading)
        (subst (λ xs. Frames xs (map sent ms) none []) (append-nil (wires ms))
          (Frames-wires ms [] good parse-nil)) in
    (batch, run, u.0, u.1, append-eq_nil (contents batch.buffer) del.tail u.2)
