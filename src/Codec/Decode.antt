-- ===== src/Codec/Decode.antt =====
-- The parser of src/codec/Codec.cpp's frames, on the bytes of a frame and on more bytes behind it.
use mini_rpc.Base.{
  ℕ, ◌+◌, ◌%◌, ◌^◌, ◌≤◌, ◌<◌, ◌≡◌, refl, ap, sym, ◌∙◌, List, [], ◌++◌, arith, length, drop,
  append-nil, append_assoc, length-append, length-take, length-drop, ltb, inl, inr, Bool-cases, ◌⊎◌,
  ltb→le, drop-append_le, take-append_le, take-append_self, drop-append_self,
}
use mini_rpc.Codec.{
  ProtocolMessage, be_bytes, magic_number, protocol_version, max_body_size, header_size, Decoded,
  incomplete, frame, throws, CodecError, read_header, read_u32,
}
use mini_rpc.Codec.Wire.{header_bytes, wire, be_value-be_bytes, length-header_bytes}
use mini_rpc.Codec.Parse.{parse, read_header-append, read_u32-append}

-- A frame takes its header and its body off the front.
pub parse_frame_lem :
    (xs : List ℕ) (m : ProtocolMessage) (rest : List ℕ)
    → parse xs ≡ (frame m, rest)
    → (length rest + header_size ≤ length xs) × (length m.body ≡ m.header.body_len)
unfolding parse
parse_frame_lem xs m rest e = elim (Bool-cases (ltb (length xs) header_size)) [
  | inl short ↦ ground arith
  | inr long ↦ ground (
    arith,
    length-drop header_size xs,
    length-drop (read_header xs).body_len (drop header_size xs),
    length-take (read_header xs).body_len (drop header_size xs),
  )
]

-- Until a frame is complete, or after a violation, no byte is taken.
pub parse_incomplete_lem : (xs rest : List ℕ) → parse xs ≡ (incomplete, rest) → rest ≡ xs
unfolding parse
parse_incomplete_lem xs rest e = ground arith

pub parse_throws_lem :
    (xs : List ℕ) (err : CodecError) (rest : List ℕ) → parse xs ≡ (throws err, rest) → rest ≡ xs
unfolding parse
parse_throws_lem xs err rest e = ground arith

pub parse-nil : parse [] ≡ (incomplete, [])
unfolding parse
parse-nil = refl

-- Bytes that arrive behind a complete frame join the rest.
pub parse-append_frame :
    (xs ys : List ℕ) (m : ProtocolMessage) (rest : List ℕ)
    → parse xs ≡ (frame m, rest)
    → parse (xs ++ ys) ≡ (frame m, rest ++ ys)
unfolding parse
parse-append_frame xs ys m rest e = elim (Bool-cases (ltb (length xs) header_size)) [
  | inl short ↦ ground arith
  | inr long ↦
      let l : header_size ≤ length xs = ltb→le _ _ long in
      let n = (read_header xs).body_len in
      ground (
        arith,
        read_header-append xs ys l,
        read_u32-append xs ys l,
        length-append xs ys,
        length-drop header_size xs,
        drop-append_le header_size xs ys l,
        drop-append_le n (drop header_size xs) ys,
        take-append_le n (drop header_size xs) ys,
      )
]

-- Nor does more input mend a violation.
pub parse-append_throws :
    (xs ys : List ℕ) (err : CodecError)
    → parse xs ≡ (throws err, xs)
    → parse (xs ++ ys) ≡ (throws err, xs ++ ys)
unfolding parse
parse-append_throws xs ys err e = elim (Bool-cases (ltb (length xs) header_size)) [
  | inl short ↦ ground arith
  | inr long ↦
      let l : header_size ≤ length xs = ltb→le _ _ long in
      ground (arith, read_header-append xs ys l, read_u32-append xs ys l, length-append xs ys)
]

-- A message that a peer may send: the protocol's constants, and values that fit their fields.
pub record IsFrame (msg : ProtocolMessage) : Type 0 where
  pub magic : msg.header.magic ≡ magic_number
  pub version : msg.header.version ≡ protocol_version
  pub flags : msg.header.flags < 2 ^ 16
  pub seq : msg.header.seq < 2 ^ 64
  pub reserved : msg.header.reserved < 2 ^ 32
  pub body : length msg.body ≤ max_body_size

-- The message as the receiver sees it: the header holds the length of the body.
abbrev pub sent : ProtocolMessage → ProtocolMessage
sent msg = record msg {
  header = record (msg.header) { magic = magic_number; body_len = length msg.body };
}

read_header-wire :
    (msg : ProtocolMessage) (rest : List ℕ)
    → IsFrame msg
    → read_header (header_bytes msg ++ rest) ≡ (sent msg).header
unfolding read_header header_bytes be_bytes
read_header-wire msg rest f = λ i. record {
  magic = magic_number;
  version = msg.header.version;
  type = msg.header.type;
  flags = be_value-be_bytes 2 msg.header.flags (omega arith) i;
  seq = be_value-be_bytes 8 msg.header.seq (omega arith) i;
  body_len = (be_value-be_bytes 4 (length msg.body % 2 ^ 32) (omega arith) ∙ small) i;
  reserved = be_value-be_bytes 4 msg.header.reserved (omega arith) i;
}
  where
    small : length msg.body % 2 ^ 32 ≡ length msg.body
    small = omega arith

read_u32-wire :
    (msg : ProtocolMessage) (rest : List ℕ)
    → IsFrame msg
    → read_u32 (header_bytes msg ++ rest) ≡ magic_number
unfolding read_u32 header_bytes be_bytes
read_u32-wire msg rest f = be_value-be_bytes 4 msg.header.magic (omega arith) ∙ f.magic

parse-header_bytes :
    (msg : ProtocolMessage) (rest : List ℕ)
    → IsFrame msg
    → parse (header_bytes msg ++ (msg.body ++ rest)) ≡ (frame (sent msg), rest)
unfolding parse
parse-header_bytes msg rest f =
    let n = length-header_bytes msg in
    ground (
      arith,
      read_header-wire msg (msg.body ++ rest) f,
      read_u32-wire msg (msg.body ++ rest) f,
      length-append (header_bytes msg) (msg.body ++ rest),
      length-append msg.body rest,
      drop-append_self header_size (header_bytes msg) (msg.body ++ rest) (sym n),
      take-append_self (length msg.body) msg.body rest refl,
      drop-append_self (length msg.body) msg.body rest refl,
      n,
    )

-- A frame followed by any bytes reads back as its message, with those bytes left.
pub parse-wire :
    (msg : ProtocolMessage) (rest : List ℕ)
    → IsFrame msg
    → parse (wire msg ++ rest) ≡ (frame (sent msg), rest)
parse-wire msg rest f =
    ap parse (append_assoc (header_bytes msg) msg.body rest) ∙ parse-header_bytes msg rest f

-- The three kinds of result, with the equation.
pub parse_cases :
    (xs : List ℕ)
    → (parse xs ≡ (incomplete, xs))
      ⊎ (((m : ProtocolMessage) × (rest : List ℕ) × (parse xs ≡ (frame m, rest)))
          ⊎ ((err : CodecError) × (parse xs ≡ (throws err, xs))))
parse_cases xs = go (parse xs).0 (parse xs).1 refl
  where
    go :
        (d : Decoded) (rest : List ℕ)
        → parse xs ≡ (d, rest)
        → (parse xs ≡ (incomplete, xs))
          ⊎ (((m : ProtocolMessage) × (rest : List ℕ) × (parse xs ≡ (frame m, rest)))
              ⊎ ((err : CodecError) × (parse xs ≡ (throws err, xs))))
    go incomplete rest e = inl (e ∙ ap (λ r. (incomplete, r)) (parse_incomplete_lem xs rest e))
    go (frame m) rest e = inr (inl (m, rest, e))
    go (throws err) rest e =
        inr (inr (err, e ∙ ap (λ r. (throws err, r)) (parse_throws_lem xs err rest e)))

-- A strict prefix of a frame is waited on, and nothing of it is taken.
pub parse-prefix :
    (msg : ProtocolMessage) (xs ys : List ℕ)
    → IsFrame msg
    → xs ++ ys ≡ wire msg
    → 0 < length ys
    → parse xs ≡ (incomplete, xs)
parse-prefix msg xs ys f e more = elim (parse_cases xs) [
  | inl waits ↦ waits
  | inr (inl (m, rest, took)) ↦
      let left : rest ++ ys ≡ [] =
        ap (λ p. p.1) (sym (parse-append_frame xs ys m rest took) ∙ ap parse e ∙ whole) in
      absurd (omega (arith, ap length left, length-append rest ys))
  | inr (inr (err, bad)) ↦ cc (parse-append_throws xs ys err bad, ap parse e, whole)
]
  where
    whole : parse (wire msg) ≡ (frame (sent msg), [])
    whole = ap parse (sym (append-nil (wire msg))) ∙ parse-wire msg [] f
