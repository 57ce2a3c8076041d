-- ===== src/Codec/Tests.antt =====
-- Sample frames, and runs of the codec on them.
use mini_rpc.Base.{
  ℕ, ◌≡◌, refl, ap, subst, ◌∙◌, append-nil, sym, take, drop, List, [], ◌∷◌, ◌++◌, length, arith,
  map, none, some,
}
use mini_rpc.Net.Buffer.{create, initial_size}
use mini_rpc.Net.Buffer.Invariant.{IsValid, create-IsValid}
use mini_rpc.Net.Buffer.Refine.{contents-create, filled, filled_lem}
use mini_rpc.Net.Buffer.Contents.{contents}
use mini_rpc.Codec.{
  ProtocolMessage, magic_number, protocol_version, be_bytes, incomplete, try_decode,
}
use mini_rpc.Codec.Wire.{wire, header_bytes}
use mini_rpc.Codec.Types.{AreBytes, IsTyped, try_decode-IsTyped}
use mini_rpc.Codec.Decode.{parse-wire, parse-nil, IsFrame, sent}
use mini_rpc.Codec.Parse.{parse, try_decode-parse, Agrees}
use mini_rpc.Codec.Stream.Frames.{wires}
use mini_rpc.Codec.Stream.Receive.{receive_all-wires, receive_all-Delivers, Delivers, joined}
use mini_rpc.Codec.Stream.Batches.{Batch, receive_all}

-- A request with number 7, and a response with number 9 and no body.
abbrev pub ping : ProtocolMessage
ping = record {
  header = record {
    magic = magic_number;
    version = protocol_version;
    type = 1;
    flags = 0;
    seq = 7;
    body_len = 0;
    reserved = 0;
  };
  body = 1 ∷ 2 ∷ 3 ∷ [];
}

abbrev pub pong : ProtocolMessage
pong = record {
  header = record {
    magic = magic_number;
    version = protocol_version;
    type = 2;
    flags = 0;
    seq = 9;
    body_len = 0;
    reserved = 0;
  };
  body = [];
}

pub ping-IsFrame : IsFrame ping
ping-IsFrame = record {
  magic = refl;
  version = refl;
  flags = omega arith;
  seq = omega arith;
  reserved = omega arith;
  body = omega arith;
}

pub pong-IsFrame : IsFrame pong
pong-IsFrame = record {
  magic = refl;
  version = refl;
  flags = omega arith;
  seq = omega arith;
  reserved = omega arith;
  body = omega arith;
}

-- Two frames in three reads, cut inside both headers.
abbrev cut : List (List ℕ)
cut =
    take 5 (wires (ping ∷ pong ∷ []))
    ∷ take 30 (drop 5 (wires (ping ∷ pong ∷ [])))
    ∷ drop 35 (wires (ping ∷ pong ∷ []))
    ∷ []

try_decode-parse_example :
    Agrees (try_decode (filled (wire ping))) (parse (contents (filled (wire ping))))
unfolding header_bytes be_bytes
try_decode-parse_example =
    try_decode-parse (filled (wire ping)) (filled_lem (wire ping) (omega arith)).1

receive_all-wires_example :
    (batch : Batch) × (receive_all 100 cut (create initial_size) ≡ some batch)
    × (batch.messages ≡ map sent (ping ∷ pong ∷ []))
    × (batch.error ≡ none)
    × (contents batch.buffer ≡ [])
unfolding header_bytes be_bytes
receive_all-wires_example =
    receive_all-wires 100 (ping ∷ pong ∷ []) cut (create initial_size)
      (create-IsValid initial_size (omega arith)) (contents-create initial_size)
      (ping-IsFrame, (pong-IsFrame, tt)) refl (omega arith) (omega arith)

receive_all-Delivers_example :
    (batch : Batch) × (receive_all 100 cut (create initial_size) ≡ some batch)
    × Delivers (contents (create initial_size) ++ joined cut) batch
unfolding header_bytes be_bytes
receive_all-Delivers_example =
    receive_all-Delivers 100 cut (create initial_size) (create-IsValid initial_size (omega arith))
      (subst (λ xs. parse xs ≡ (incomplete, xs)) (sym (contents-create initial_size)) parse-nil)
      (omega (arith, ap length (contents-create initial_size)))
      (omega (arith, ap length (contents-create initial_size)))

ping-AreBytes : AreBytes (wire ping)
unfolding header_bytes be_bytes
ping-AreBytes = ground arith

ping_read : (contents (filled (wire ping)) ≡ wire ping) × IsValid (filled (wire ping))
unfolding header_bytes be_bytes
ping_read = filled_lem (wire ping) (omega arith)

try_decode-IsTyped_example : IsTyped (sent ping)
try_decode-IsTyped_example =
    try_decode-IsTyped (filled (wire ping)) (sent ping) ping_read.1
      (subst AreBytes (sym ping_read.0) ping-AreBytes)
      ((try_decode-parse (filled (wire ping)) ping_read.1).0
        ∙ ap (λ xs. (parse xs).0) (ping_read.0 ∙ sym (append-nil (wire ping)))
        ∙ ap (λ r. r.0) (parse-wire ping [] ping-IsFrame))
