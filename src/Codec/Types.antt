-- ===== src/Codec/Types.antt =====
-- src/codec/Codec.cpp: the fields of a decoded header fit the integer types of `ProtocolHeader`.
use native.Mathlib.Nat.{pow-suc}
use mini_rpc.Base.{
  ℕ, zero, suc, ◌+◌, ◌*◌, ◌^◌, ◌≤◌, ◌<◌, ◌≡◌, ap, sym, ◌∙◌, subst, List, [], ◌∷◌, arith, length,
  take, drop, get_or, All, length-take, length-drop,
}
use mini_rpc.Net.Buffer.{Buffer}
use mini_rpc.Net.Buffer.Invariant.{IsValid}
use mini_rpc.Net.Buffer.Contents.{contents}
use mini_rpc.Codec.{
  ProtocolMessage, frame, be_value, header_size, max_body_size, protocol_version, read_header,
  try_decode,
}
use mini_rpc.Codec.Decode.{parse_frame_lem}
use mini_rpc.Codec.Parse.{parse, try_decode-parse}

abbrev pub AreBytes : List ℕ → Type 0
AreBytes xs = All (λ x. x < 256) xs

AreBytes-take : (n : ℕ) (xs : List ℕ) → AreBytes xs → AreBytes (take n xs)
AreBytes-take zero xs h = tt
AreBytes-take (suc n) [] h = tt
AreBytes-take (suc n) (x ∷ xs) h = (h.0, AreBytes-take n xs h.1)

AreBytes-drop : (n : ℕ) (xs : List ℕ) → AreBytes xs → AreBytes (drop n xs)
AreBytes-drop zero xs h = h
AreBytes-drop (suc n) [] h = tt
AreBytes-drop (suc n) (x ∷ xs) h = AreBytes-drop n xs h.1

get_or-lt : (xs : List ℕ) (i : ℕ) → AreBytes xs → get_or xs i 0 < 256
get_or-lt [] i h = omega arith
get_or-lt (x ∷ xs) zero h = h.0
get_or-lt (x ∷ xs) (suc i) h = get_or-lt xs i h.1

be_value-lt :
    (k n acc : ℕ) (xs : List ℕ)
    → AreBytes xs
    → acc < 256 ^ k
    → k + length xs ≡ n
    → be_value acc xs < 256 ^ n
unfolding be_value
be_value-lt k n acc [] h lt e = subst (λ m. acc < 256 ^ m) e' lt
  where
    e' : k ≡ n
    e' = omega (arith, e)
be_value-lt k n acc (x ∷ xs) h lt e =
    be_value-lt (suc k) n (acc * 256 + x) xs h.1 (omega (arith, pow-suc 256 k, h.0, lt))
      (omega (arith, e))

-- A field of `n` bytes from place `i` on.
field-lt :
    (i n : ℕ) (xs : List ℕ)
    → AreBytes xs
    → i + n ≤ length xs
    → be_value 0 (take n (drop i xs)) < 256 ^ n
field-lt i n xs h fits =
    be_value-lt 0 n 0 (take n (drop i xs)) (AreBytes-take n (drop i xs) (AreBytes-drop i xs h))
      (omega arith) (omega (arith, length-take n (drop i xs), length-drop i xs))

-- The types of the fields, and what the codec checked.
pub record IsTyped (m : ProtocolMessage) : Type 0 where
  pub version : m.header.version ≡ protocol_version
  pub type : m.header.type < 2 ^ 8
  pub flags : m.header.flags < 2 ^ 16
  pub seq : m.header.seq < 2 ^ 64
  pub body_len : m.header.body_len ≤ max_body_size
  pub reserved : m.header.reserved < 2 ^ 32
  pub body : AreBytes m.body × (length m.body ≡ m.header.body_len)

parse_frame_is :
    (xs : List ℕ) (m : ProtocolMessage) (rest : List ℕ)
    → parse xs ≡ (frame m, rest)
    → (header_size ≤ length xs)
      × (read_header xs ≡ m.header)
      × (m.header.version ≡ protocol_version)
      × (m.header.body_len ≤ max_body_size)
      × (m.body ≡ take m.header.body_len (drop header_size xs))
unfolding parse
parse_frame_is xs m rest e = ground arith

parse-IsTyped :
    (xs : List ℕ) (m : ProtocolMessage) (rest : List ℕ)
    → AreBytes xs
    → parse xs ≡ (frame m, rest)
    → IsTyped m
unfolding read_header
parse-IsTyped xs m rest h e =
    let (long, same, version, small, body) = parse_frame_is xs m rest e in
    record {
      version = version;
      type = subst (λ k. k.type < 2 ^ 8) same (get_or-lt xs 5 h);
      flags = subst (λ k. k.flags < 2 ^ 16) same (field-lt 6 2 xs h (omega (arith, long)));
      seq = subst (λ k. k.seq < 2 ^ 64) same (field-lt 8 8 xs h (omega (arith, long)));
      body_len = small;
      reserved = subst (λ k. k.reserved < 2 ^ 32) same (field-lt 20 4 xs h (omega (arith, long)));
      body = (
        subst AreBytes (sym body) (
            AreBytes-take m.header.body_len (drop header_size xs) (AreBytes-drop header_size xs h)),
        (parse_frame_lem xs m rest e).1,
      );
    }

-- A message that tryDecode hands out from a valid buffer of bytes has header fields that fit their C++
-- types, the protocol's version, and a body of bytes, as many as the header says and no more than the
-- limit.
pub try_decode-IsTyped :
    (b : Buffer) (m : ProtocolMessage)
    → IsValid b
    → AreBytes (contents b)
    → (try_decode b).0 ≡ frame m
    → IsTyped m
try_decode-IsTyped b m v h e =
    parse-IsTyped (contents b) m (parse (contents b)).1 h
      (ap (λ d. (d, (parse (contents b)).1)) (sym ((try_decode-parse b v).0) ∙ e))
