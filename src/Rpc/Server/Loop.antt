-- ===== src/Rpc/Server/Loop.antt =====
-- `onMessage` over a buffer: every complete request is given to the pool once, in order.
use mathlib.Core.Option
use mathlib.Core.Path.{ap₂}
use mini_rpc.Base.{
  ℕ, zero, suc, ◌<◌, ◌≡◌, refl, ap, sym, ◌∙◌, subst, List, [], ◌∷◌, ◌++◌, Option, none, some,
  length, map, All, append_assoc, append-nil,
}
use mini_rpc.Base.Text.{Text}
use mini_rpc.Net.Buffer.{Buffer}
use mini_rpc.Net.Buffer.Invariant.{IsValid}
use mini_rpc.Net.Buffer.Contents.{contents}
use mini_rpc.Codec.{ProtocolMessage, Decoded, incomplete, frame, throws, CodecError, try_decode}
use mini_rpc.Codec.Decode.{IsFrame, sent}
use mini_rpc.Codec.Parse.{parse}
use mini_rpc.Codec.Stream.Frames.{Frames, Frames-unique, Frames-wires, Frames-wires_error, wires}
use mini_rpc.Codec.Stream.Batches.{Batch, put_before, decode_all, decode_next, decode_all-Covers}
use mini_rpc.Rpc.Envelope.{Protobuf}
use mini_rpc.Rpc.Server.{Action, shuts_down, on_frame, on_decoded, on_message}

module _ (pb : Protobuf) (submit : ProtocolMessage → Option Text) where
  -- The actions for a list of messages, in their order.
  abbrev pub on_frames : List ProtocolMessage → List Action
  on_frames [] = []
  on_frames (m ∷ ms) = on_frame pb submit m ++ on_frames ms

  -- A violation of the protocol shuts the connection down.
  abbrev pub on_error : Option CodecError → List Action
  on_error none = []
  on_error (some err) = shuts_down ∷ []

  abbrev actions_of : Batch → List Action × Buffer
  actions_of batch = (on_frames batch.messages ++ on_error batch.error, batch.buffer)

  on_decoded-decode_next :
      (again : Buffer → Option (List Action × Buffer)) (again' : Buffer → Option Batch)
      (d : Decoded) (b : Buffer)
      → again b ≡ Option.map actions_of (again' b)
      → on_decoded pb submit again d b ≡ Option.map actions_of (decode_next again' d b)
  unfolding on_decoded decode_next
  on_decoded-decode_next again again' incomplete b e = refl
  on_decoded-decode_next again again' (throws err) b e = refl
  on_decoded-decode_next again again' (frame m) b e = rw e (go (again' b))
    where
      go :
          (o : Option Batch)
          → Option.map
              (λ (actions, rest). (on_frame pb submit m ++ actions, rest))
              (Option.map actions_of o)
            ≡ Option.map actions_of (Option.map (put_before (m ∷ [])) o)
      go none = refl
      go (some batch) =
          ap (λ xs. some (xs, batch.buffer))
            (sym (
              append_assoc (on_frame pb submit m) (on_frames batch.messages)
                (on_error batch.error)))

  -- The loop's actions are those of the messages and of the error that the decoding loop hands out.
  on_message-decode_all :
      (fuel : ℕ) (b : Buffer)
      → on_message pb fuel submit b ≡ Option.map actions_of (decode_all fuel b)
  unfolding on_message decode_all
  on_message-decode_all zero b = refl
  on_message-decode_all (suc fuel) b =
      on_decoded-decode_next (on_message pb fuel submit) (decode_all fuel) (try_decode b).0
        (try_decode b).1 (on_message-decode_all fuel (try_decode b).1)

  -- The loop on frames and then an unfinished part, with the actions as the code makes them.
  pub on_message_frames :
      (fuel : ℕ) (ms : List ProtocolMessage) (part : List ℕ) (b : Buffer)
      → IsValid b
      → contents b ≡ wires ms ++ part
      → All IsFrame ms
      → parse part ≡ (incomplete, part)
      → length (contents b) < fuel
      → (rest : Buffer) × (on_message pb fuel submit b ≡ some (on_frames (map sent ms), rest))
        × (contents rest ≡ part)
        × IsValid rest
  on_message_frames fuel ms part b v e good waits h =
      let (batch, run, cover) = decode_all-Covers fuel b v h in
      let u =
        Frames-unique
          (subst (λ xs. Frames xs batch.messages batch.error (contents batch.buffer)) e
            cover.reading)
          (Frames-wires ms part good waits) in
      (
        batch.buffer,
        on_message-decode_all fuel b
            ∙ ap (Option.map actions_of) run
            ∙ ap (λ xs. some (xs, batch.buffer))
                (ap₂ (λ xs err. on_frames xs ++ on_error err) u.0 u.1
                  ∙ append-nil (on_frames (map sent ms))),
        u.2,
        cover.valid,
      )

  -- For a valid buffer that holds frames and then bytes at which the codec throws, and more fuel than
  -- bytes, the server serves the requests before them as on a valid stream, shuts the connection down
  -- once, and leaves those bytes.
  pub on_message-violation :
      (fuel : ℕ) (ms : List ProtocolMessage) (bad : List ℕ) (err : CodecError) (b : Buffer)
      → IsValid b
      → contents b ≡ wires ms ++ bad
      → All IsFrame ms
      → parse bad ≡ (throws err, bad)
      → length (contents b) < fuel
      → (rest : Buffer) × (on_message pb fuel submit b
          ≡ some (on_frames (map sent ms) ++ (shuts_down ∷ []), rest))
        × (contents rest ≡ bad)
  on_message-violation fuel ms bad err b v e good breaks h =
      let (batch, run, cover) = decode_all-Covers fuel b v h in
      let u =
        Frames-unique
          (subst (λ xs. Frames xs batch.messages batch.error (contents batch.buffer)) e
            cover.reading)
          (Frames-wires_error ms bad err good breaks) in
      (
        batch.buffer,
        on_message-decode_all fuel b
            ∙ ap (Option.map actions_of) run
            ∙ ap (λ xs. some (xs, batch.buffer))
                (ap₂ (λ xs er. on_frames xs ++ on_error er) u.0 u.1),
        u.2,
      )
