-- ===== src/Codec.antt =====
-- include/minirpc/codec/Protocol.h, include/minirpc/codec/Codec.h and src/codec/Codec.cpp: the frame
-- of 24 header bytes and a body. What `tryDecode` throws is a constructor of its result.
pub mod Wire
pub mod Parse
pub mod Decode
pub mod Types
pub mod Stream
pub mod Tests
use mini_rpc.Base.{
  ℕ, zero, suc, ◌+◌, ◌*◌, ◌/◌, ◌%◌, ◌^◌, ◌≡◌, List, [], ◌∷◌, ◌++◌, ltb, leb, ◌==◌, if◌then◌else◌,
  Bool, true, false, length, take, drop, get_or, add_size,
}
use mini_rpc.Base.Text.{Text}
use mini_rpc.Net.Buffer.{Buffer, readable_bytes, peek, retrieve, retrieve_as_string, append}

pub record ProtocolHeader : Type 0 where
  pub magic : ℕ
  pub version : ℕ
  pub type : ℕ
  pub flags : ℕ
  pub seq : ℕ
  pub body_len : ℕ
  pub reserved : ℕ

pub record ProtocolMessage : Type 0 where
  pub header : ProtocolHeader
  pub body : Text

pub data MessageType : Type 0 where
  request response : MessageType

abbrev pub message_type : MessageType → ℕ
message_type request = 1
message_type response = 2

abbrev pub magic_number : ℕ
magic_number = 0x4D494E52

abbrev pub protocol_version : ℕ
protocol_version = 1

abbrev pub header_size : ℕ
header_size = 24

abbrev pub max_body_size : ℕ
max_body_size = 64 * 1024 * 1024

-- The low `n` bytes of a value, most significant first: `htons`, `htonl`, `htobe64` and the copy.
unfoldable pub be_bytes : ℕ → ℕ → List ℕ
be_bytes zero v = []
be_bytes (suc n) v = be_bytes n (v / 256) ++ (v % 256 ∷ [])

-- The value of bytes, most significant first: `memcpy`, then `ntohs`, `ntohl`, `be64toh`.
unfoldable pub be_value : ℕ → List ℕ → ℕ
be_value acc [] = acc
be_value acc (b ∷ bs) = be_value (acc * 256 + b) bs

unfoldable pub append_u16 : ℕ → Buffer → Buffer
append_u16 v out = append (be_bytes 2 v) out

unfoldable pub append_u32 : ℕ → Buffer → Buffer
append_u32 v out = append (be_bytes 4 v) out

unfoldable pub append_u64 : ℕ → Buffer → Buffer
append_u64 v out = append (be_bytes 8 v) out

unfoldable pub read_u16 : List ℕ → ℕ
read_u16 p = be_value 0 (take 2 p)

unfoldable pub read_u32 : List ℕ → ℕ
read_u32 p = be_value 0 (take 4 p)

unfoldable pub read_u64 : List ℕ → ℕ
read_u64 p = be_value 0 (take 8 p)

-- A body longer than `uint32_t` loses the high part of its length in the header.
unfoldable pub encode : ProtocolMessage → Buffer → Buffer
unfolding append_u16 append_u32 append_u64
encode msg out =
    let h = msg.header in
    let out1 = append_u32 h.magic out in
    let out2 = append (h.version ∷ []) out1 in
    let out3 = append (h.type ∷ []) out2 in
    let out4 = append_u16 h.flags out3 in
    let out5 = append_u64 h.seq out4 in
    let out6 = append_u32 (length msg.body % 2 ^ 32) out5 in
    let out7 = append_u32 h.reserved out6 in append msg.body out7

pub data CodecError : Type 0 where
  invalid_magic unsupported_version body_too_long : CodecError

pub data Decoded : Type 0 where
  incomplete : Decoded
  frame : ProtocolMessage → Decoded
  throws : CodecError → Decoded

-- The header at a pointer to at least 24 bytes; its magic number has been compared.
unfoldable pub read_header : List ℕ → ProtocolHeader
unfolding read_u16 read_u32 read_u64
read_header p = record {
  magic = magic_number;
  version = get_or p 4 0;
  type = get_or p 5 0;
  flags = read_u16 (drop 6 p);
  seq = read_u64 (drop 8 p);
  body_len = read_u32 (drop 16 p);
  reserved = read_u32 (drop 20 p);
}

-- The header is consumed, then the body is taken.
unfoldable pub take_frame : ProtocolHeader → Buffer → Decoded × Buffer
take_frame h b =
    let (body, rest) = retrieve_as_string h.body_len (retrieve header_size b) in
    (frame (record { header = h; body = body }), rest)

unfoldable pub try_decode : Buffer → Decoded × Buffer
unfolding read_u32
try_decode b =
    let p = peek b in
    let h = read_header p in
    if ltb (readable_bytes b) header_size
    then (incomplete, b)
    else (if read_u32 p == magic_number
        then (if h.version == protocol_version
            then (if ltb max_body_size h.body_len
                then (throws body_too_long, b)
                else (if ltb (readable_bytes b) (add_size header_size h.body_len)
                    then (incomplete, b)
                    else take_frame h b))
            else (throws unsupported_version, b))
        else (throws invalid_magic, b))
