-- ===== src/Codec/Stream/Batches.antt =====
-- Loops over `tryDecode`: all the frames of a buffer, and a receiver that reads and decodes by turns.
use mathlib.Core.Option
use mini_rpc.Base.{
  ℕ, zero, suc, ◌<◌, ◌≡◌, refl, ap, sym, ◌∙◌, List, [], ◌∷◌, ◌++◌, arith, length, Option, none,
  some,
}
use mini_rpc.Net.Buffer.{Buffer, got, read_fd}
use mini_rpc.Net.Buffer.Invariant.{IsValid}
use mini_rpc.Net.Buffer.Contents.{contents}
use mini_rpc.Codec.{ProtocolMessage, Decoded, incomplete, frame, throws, CodecError, try_decode}
use mini_rpc.Codec.Decode.{parse_frame_lem, parse_incomplete_lem, parse_throws_lem}
use mini_rpc.Codec.Parse.{parse, try_decode-parse}
use mini_rpc.Codec.Stream.Frames.{Frames, waits, breaks, reads}

-- What a run of the decoding loop hands out, and what it leaves in the buffer.
pub record Batch : Type 0 where
  pub messages : List ProtocolMessage
  pub error : Option CodecError
  pub buffer : Buffer

abbrev pub put_before : List ProtocolMessage → Batch → Batch
put_before ms batch = record batch { messages = ms ++ batch.messages }

unfoldable pub decode_next : (Buffer → Option Batch) → Decoded → Buffer → Option Batch
decode_next again incomplete b = some (record { messages = []; error = none; buffer = b })
decode_next again (throws err) b = some (record { messages = []; error = some err; buffer = b })
decode_next again (frame m) b = Option.map (put_before (m ∷ [])) (again b)

-- `while (auto msgOpt = Codec::tryDecode(buffer))`; `none` is fuel that ran out.
unfoldable pub decode_all : ℕ → Buffer → Option Batch
unfolding decode_next
decode_all zero b = none
decode_all (suc fuel) b = let (d, rest) = try_decode b in decode_next (decode_all fuel) d rest

unfoldable pub receive_next : (Buffer → Option Batch) → Option Batch → Option Batch
receive_next again none = none
receive_next again (some batch) = elim (batch.error) [
  | some err ↦ some batch
  | none ↦ Option.map (put_before (batch.messages)) (again batch.buffer)
]

-- One `readFd` for each chunk, and the decoding loop after it.
unfoldable pub receive_all : ℕ → List (List ℕ) → Buffer → Option Batch
unfolding receive_next
receive_all fuel [] b = some (record { messages = []; error = none; buffer = b })
receive_all fuel (c ∷ cs) b =
    receive_next (receive_all fuel cs) (decode_all fuel (read_fd (got c) b))

-- The result of a run over the bytes `xs`.
pub record Covers (xs : List ℕ) (batch : Batch) : Type 0 where
  pub valid : IsValid batch.buffer
  pub reading : Frames xs batch.messages batch.error (contents batch.buffer)

-- With more fuel than bytes the loop ends, and it has read the bytes as `Frames` says.
pub decode_all-Covers :
    (fuel : ℕ) (b : Buffer)
    → IsValid b
    → length (contents b) < fuel
    → (batch : Batch) × (decode_all fuel b ≡ some batch) × Covers (contents b) batch
unfolding decode_all
decode_all-Covers zero b v h = absurd (omega arith)
decode_all-Covers (suc fuel) b v h =
    let a = try_decode-parse b v in
    go (try_decode b).0 (try_decode b).1 a.0 a.1 a.2
      (λ k. decode_all-Covers fuel (try_decode b).1 a.2 k)
  where
    go :
        (d : Decoded) (rest : Buffer)
        → d ≡ (parse (contents b)).0
        → contents rest ≡ (parse (contents b)).1
        → IsValid rest
        → (length (contents rest) < fuel
            → (batch : Batch) × (decode_all fuel rest ≡ some batch) × Covers (contents rest) batch)
        → (batch : Batch) × (decode_next (decode_all fuel) d rest ≡ some batch)
          × Covers (contents b) batch
    go incomplete rest p q w ih =
        let e : parse (contents b) ≡ (incomplete, contents rest) = λ i. (sym p i, sym q i) in
        let same = parse_incomplete_lem (contents b) (contents rest) e in
        (
          record { messages = []; error = none; buffer = rest },
          refl,
          record { valid = w; reading = waits (e ∙ ap (λ r. (incomplete, r)) same) refl refl same },
        )
    go (throws err) rest p q w ih =
        let e : parse (contents b) ≡ (throws err, contents rest) = λ i. (sym p i, sym q i) in
        let same = parse_throws_lem (contents b) err (contents rest) e in
        (
          record { messages = []; error = some err; buffer = rest },
          refl,
          record {
            valid = w;
            reading = breaks err (e ∙ ap (λ r. (throws err, r)) same) refl refl same;
          },
        )
    go (frame m) rest p q w ih =
        let e : parse (contents b) ≡ (frame m, contents rest) = λ i. (sym p i, sym q i) in
        let (batch, run, c) =
          ih (omega (arith, parse_frame_lem (contents b) m (contents rest) e)) in
        (
          put_before (m ∷ []) batch,
          ap (Option.map (put_before (m ∷ []))) run,
          record {
            valid = c.valid;
            reading = reads m (contents rest) batch.messages e refl c.reading;
          },
        )
