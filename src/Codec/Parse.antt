-- ===== src/Codec/Parse.antt =====
-- src/codec/Codec.cpp: `tryDecode` against a reading of the bytes alone.
use mini_rpc.Base.{
  ℕ, ◌+◌, ◌≤◌, ◌≡◌, ap, sym, ◌∙◌, List, ◌++◌, arith, length, take, drop, ltb, ◌==◌, if◌then◌else◌,
  inl, inr, Bool-cases, ltb→le, slice-append, get_or-append, take-append-drop,
}
use mini_rpc.Net.Buffer.{Buffer, readable_bytes, peek, retrieve}
use mini_rpc.Net.Buffer.Invariant.{IsValid, retrieve-IsValid}
use mini_rpc.Net.Buffer.Refine.{contents-retrieve, retrieve_as_string_lem}
use mini_rpc.Net.Buffer.Contents.{contents, length-contents_readable}
use mini_rpc.Codec.{
  ProtocolHeader, be_value, magic_number, protocol_version, max_body_size, header_size, Decoded,
  incomplete, frame, throws, invalid_magic, unsupported_version, body_too_long, read_header,
  read_u32, try_decode, take_frame,
}

-- What a byte string begins with, and the bytes behind it.
unfoldable pub parse : List ℕ → Decoded × List ℕ
parse xs =
    let h = read_header xs in
    if ltb (length xs) header_size
    then (incomplete, xs)
    else (if read_u32 xs == magic_number
        then (if h.version == protocol_version
            then (if ltb max_body_size h.body_len
                then (throws body_too_long, xs)
                else (if ltb (length xs) (header_size + h.body_len) then (incomplete, xs) else (
                  frame (record { header = h; body = take h.body_len (drop header_size xs) }),
                  drop h.body_len (drop header_size xs),
                )))
            else (throws unsupported_version, xs))
        else (throws invalid_magic, xs))

-- Bytes behind the first 24 do not change the header.
pub read_header-append :
    (xs ys : List ℕ) → header_size ≤ length xs → read_header (xs ++ ys) ≡ read_header xs
unfolding read_header
read_header-append xs ys h = λ i. record {
  magic = magic_number;
  version = get_or-append 4 xs ys 0 (omega arith) i;
  type = get_or-append 5 xs ys 0 (omega arith) i;
  flags = be_value 0 (slice-append 6 2 xs ys (omega arith) i);
  seq = be_value 0 (slice-append 8 8 xs ys (omega arith) i);
  body_len = be_value 0 (slice-append 16 4 xs ys (omega arith) i);
  reserved = be_value 0 (slice-append 20 4 xs ys (omega arith) i);
}

pub read_u32-append : (xs ys : List ℕ) → header_size ≤ length xs → read_u32 (xs ++ ys) ≡ read_u32 xs
unfolding read_u32
read_u32-append xs ys h = ap (be_value 0) (slice-append 0 4 xs ys (omega arith))

-- The pointer that `tryDecode` reads through shows the unread bytes first.
pub peek-contents : (b : Buffer) → peek b ≡ contents b ++ drop (readable_bytes b) (peek b)
peek-contents b = sym (take-append-drop (readable_bytes b) (peek b))

pub read_header-peek :
    (b : Buffer)
    → header_size ≤ length (contents b)
    → read_header (peek b) ≡ read_header (contents b)
read_header-peek b h =
    ap read_header (peek-contents b)
    ∙ read_header-append (contents b) (drop (readable_bytes b) (peek b)) h

pub read_u32-peek :
    (b : Buffer) → header_size ≤ length (contents b) → read_u32 (peek b) ≡ read_u32 (contents b)
read_u32-peek b h =
    ap read_u32 (peek-contents b)
    ∙ read_u32-append (contents b) (drop (readable_bytes b) (peek b)) h

-- A decoding step on a buffer agrees with one on bytes.
abbrev pub Agrees : Decoded × Buffer → Decoded × List ℕ → Type 0
Agrees s r = (s.0 ≡ r.0) × (contents s.1 ≡ r.1) × IsValid s.1

pub take_frame-Agrees :
    (h : ProtocolHeader) (b : Buffer)
    → IsValid b
    → Agrees (take_frame h b) (
      frame (record { header = h; body = take h.body_len (drop header_size (contents b)) }),
      drop h.body_len (drop header_size (contents b)),
    )
unfolding take_frame
take_frame-Agrees h b v =
    let rest = contents-retrieve header_size b v in
    let r =
      retrieve_as_string_lem h.body_len (retrieve header_size b)
        (retrieve-IsValid header_size b v) in
    (
      ap (λ body. frame (record { header = h; body = body })) (r.0 ∙ ap (take h.body_len) rest),
      r.1 ∙ ap (drop h.body_len) rest,
      r.2,
    )

-- On a valid buffer tryDecode gives the result of the reference parser on the unread bytes, leaves the
-- bytes that the parser leaves, and keeps the buffer valid, on every branch.
pub try_decode-parse : (b : Buffer) → IsValid b → Agrees (try_decode b) (parse (contents b))
unfolding try_decode parse
try_decode-parse b v = elim (Bool-cases (ltb (length (contents b)) header_size)) [
  | inl short ↦ ground (arith, length-contents_readable b v)
  | inr long ↦ ground (
    arith,
    length-contents_readable b v,
    read_header-peek b (ltb→le _ _ long),
    read_u32-peek b (ltb→le _ _ long),
    take_frame-Agrees (read_header (peek b)) b v,
  )
]
