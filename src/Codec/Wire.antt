-- ===== src/Codec/Wire.antt =====
-- The byte layout of a frame, and `encode` against it.
use native.Mathlib.Nat.{pow-suc}
use mini_rpc.Base.{
  ℕ, zero, suc, ◌+◌, ◌*◌, ◌/◌, ◌%◌, ◌^◌, ◌<◌, ◌≡◌, refl, ap, sym, ◌∙◌, List, [], ◌∷◌, ◌++◌, arith,
  length, append-nil, append_assoc, length-append, size_mod,
}
use mini_rpc.Net.Buffer.{Buffer, append, cheap_prepend}
use mini_rpc.Net.Buffer.Invariant.{IsValid, Fits, append-IsValid}
use mini_rpc.Net.Buffer.Refine.{contents-append}
use mini_rpc.Net.Buffer.Contents.{contents, length-contents}
use mini_rpc.Codec.{ProtocolMessage, be_bytes, be_value, encode}

pub length-be_bytes : (n v : ℕ) → length (be_bytes n v) ≡ n
unfolding be_bytes
length-be_bytes zero v = refl
length-be_bytes (suc n) v =
    omega (arith, length-append (be_bytes n (v / 256)) (v % 256 ∷ []), length-be_bytes n (v / 256))

pub be_value-append :
    (acc : ℕ) (xs ys : List ℕ) → be_value acc (xs ++ ys) ≡ be_value (be_value acc xs) ys
unfolding be_value
be_value-append acc [] ys = refl
be_value-append acc (x ∷ xs) ys = be_value-append (acc * 256 + x) xs ys

-- A value that fits in `n` bytes comes back from them.
pub be_value-be_bytes : (n v : ℕ) → v < 256 ^ n → be_value 0 (be_bytes n v) ≡ v
unfolding be_bytes be_value
be_value-be_bytes zero v h = omega arith
be_value-be_bytes (suc n) v h =
    be_value-append 0 (be_bytes n (v / 256)) (v % 256 ∷ [])
    ∙ ap (λ k. k * 256 + v % 256) (be_value-be_bytes n (v / 256) (omega (arith, pow-suc 256 n)))
    ∙ omega arith

-- The 24 header bytes of a message.
unfoldable pub header_bytes : ProtocolMessage → List ℕ
header_bytes msg =
    be_bytes 4 msg.header.magic
    ++ ((msg.header.version ∷ msg.header.type ∷ [])
        ++ (be_bytes 2 msg.header.flags
            ++ (be_bytes 8 msg.header.seq
                ++ (be_bytes 4 (length msg.body % 2 ^ 32) ++ be_bytes 4 msg.header.reserved))))

pub length-header_bytes : (msg : ProtocolMessage) → length (header_bytes msg) ≡ 24
unfolding header_bytes be_bytes
length-header_bytes msg = refl

abbrev pub wire : ProtocolMessage → List ℕ
wire msg = header_bytes msg ++ msg.body

-- `b` is `out` with the bytes `xs` put behind its contents.
record Holds (out b : Buffer) (xs : List ℕ) : Type 0 where
  valid : IsValid b
  added : contents b ≡ contents out ++ xs

Holds-append :
    (out b : Buffer) (xs src : List ℕ)
    → Holds out b xs
    → cheap_prepend + length (contents out) + length xs + length src < size_mod
    → Holds out (append src b) (xs ++ src)
Holds-append out b xs src h room =
    let fits : Fits (length src) b =
      omega
        (arith, length-contents b h.valid, ap length h.added, length-append (contents out) xs) in
    record {
      valid = append-IsValid src b h.valid fits;
      added =
          contents-append src b h.valid fits
          ∙ ap (λ ys. ys ++ src) h.added
          ∙ append_assoc (contents out) xs src;
    }

Holds-encode :
    (msg : ProtocolMessage) (out : Buffer)
    → IsValid out
    → cheap_prepend + length (contents out) + 24 + length msg.body < size_mod
    → Holds out (encode msg out) (wire msg)
unfolding encode header_bytes be_bytes
Holds-encode msg out v room =
    let h = msg.header in
    let h0 : Holds out out [] = record { valid = v; added = sym (append-nil (contents out)) } in
    let h1 = Holds-append out _ [] (be_bytes 4 h.magic) h0 (omega arith) in
    let h2 = Holds-append out _ _ (h.version ∷ []) h1 (omega arith) in
    let h3 = Holds-append out _ _ (h.type ∷ []) h2 (omega arith) in
    let h4 = Holds-append out _ _ (be_bytes 2 h.flags) h3 (omega arith) in
    let h5 = Holds-append out _ _ (be_bytes 8 h.seq) h4 (omega arith) in
    let h6 = Holds-append out _ _ (be_bytes 4 (length msg.body % 2 ^ 32)) h5 (omega arith) in
    let h7 = Holds-append out _ _ (be_bytes 4 h.reserved) h6 (omega arith) in
    Holds-append out _ _ msg.body h7 (omega arith)

-- On a valid buffer with room in the address space, encode appends the 24 header bytes, each field
-- most significant byte first, and then the body, and keeps the buffer valid.
pub contents-encode :
    (msg : ProtocolMessage) (out : Buffer)
    → IsValid out
    → cheap_prepend + length (contents out) + 24 + length msg.body < size_mod
    → (contents (encode msg out) ≡ contents out ++ wire msg) × IsValid (encode msg out)
contents-encode msg out v room = let h = Holds-encode msg out v room in (h.added, h.valid)
