-- ===== src/Codec/Stream/Frames.antt =====
-- How a byte string falls into messages, an error or an unfinished rest, as a relation.
use mini_rpc.Base.{
  ℕ, ◌≤◌, ◌≡◌, refl, ap, sym, ◌∙◌, List, [], ◌∷◌, ◌++◌, arith, length, map, append_assoc, Option,
  none, some, All, subst,
}
use mini_rpc.Codec.{ProtocolMessage, incomplete, frame, throws, CodecError}
use mini_rpc.Codec.Wire.{wire}
use mini_rpc.Codec.Decode.{
  parse_frame_lem, parse-append_frame, parse-append_throws, parse-wire, IsFrame, sent,
}
use mini_rpc.Codec.Parse.{parse}

-- `Frames xs ms e rest`: reading `xs` gives the messages `ms`, and stops before `rest`, for want of
-- bytes (`e` is `none`) or at a violation.
pub data Frames : List ℕ → List ProtocolMessage → Option CodecError → List ℕ → Type 0 where
  waits :
      {xs rest : List ℕ} {ms : List ProtocolMessage} {e : Option CodecError}
      → parse xs ≡ (incomplete, xs)
      → ms ≡ []
      → e ≡ none
      → rest ≡ xs
      → Frames xs ms e rest
  breaks :
      {xs rest : List ℕ} {ms : List ProtocolMessage} {e : Option CodecError} (err : CodecError)
      → parse xs ≡ (throws err, xs)
      → ms ≡ []
      → e ≡ some err
      → rest ≡ xs
      → Frames xs ms e rest
  reads :
      {xs rest : List ℕ} {ms : List ProtocolMessage} {e : Option CodecError} (m : ProtocolMessage)
      (ys : List ℕ) (ns : List ProtocolMessage)
      → parse xs ≡ (frame m, ys)
      → ms ≡ m ∷ ns
      → Frames ys ns e rest
      → Frames xs ms e rest

-- The reading is determined by the bytes.
pub Frames-unique :
    {xs r s : List ℕ} {ms ns : List ProtocolMessage} {e f : Option CodecError}
    → Frames xs ms e r
    → Frames xs ns f s
    → (ms ≡ ns) × (e ≡ f) × (r ≡ s)
Frames-unique (waits p a b c) (waits q a' b' c') = (cc, cc, cc)
Frames-unique (waits p a b c) (breaks err q a' b' c') = (cc, cc, cc)
Frames-unique (waits p a b c) (reads m ys ns q a' t) = (cc, cc, cc)
Frames-unique (breaks err p a b c) (waits q a' b' c') = (cc, cc, cc)
Frames-unique (breaks err p a b c) (breaks err' q a' b' c') = (cc, cc, cc)
Frames-unique (breaks err p a b c) (reads m ys ns q a' t) = (cc, cc, cc)
Frames-unique (reads m ys ns p a t) (waits q a' b' c') = (cc, cc, cc)
Frames-unique (reads m ys ns p a t) (breaks err q a' b' c') = (cc, cc, cc)
Frames-unique {r} {e} (reads m ys ns p a t) (reads m' ys' ns' q a' t') =
    let same : ys ≡ ys' = cc in
    let ih = Frames-unique (subst (λ k. Frames k ns e r) same t) t' in (cc (ih.0), ih.1, ih.2)

-- What is left is no longer than what was there.
pub Frames-length :
    {xs r : List ℕ} {ms : List ProtocolMessage} {e : Option CodecError}
    → Frames xs ms e r
    → length r ≤ length xs
Frames-length (waits p a b c) = omega (arith, ap length c)
Frames-length (breaks err p a b c) = omega (arith, ap length c)
Frames-length {xs} (reads m ys ns p a t) = omega (arith, parse_frame_lem xs m ys p, Frames-length t)

-- Reading goes on where it waited, when more bytes arrive.
pub Frames-append :
    {xs r s : List ℕ} {ms ns : List ProtocolMessage} {e f : Option CodecError} (ys : List ℕ)
    → Frames xs ms e r
    → e ≡ none
    → Frames (r ++ ys) ns f s
    → Frames (xs ++ ys) (ms ++ ns) f s
Frames-append {xs} {r} {s} {ms} {ns} {e} {f} ys (waits p a b c) h u =
    subst (λ k. Frames k (ms ++ ns) f s) (ap (λ k. k ++ ys) c)
      (subst (λ k. Frames (r ++ ys) k f s) (ap (λ k. k ++ ns) (sym a)) u)
Frames-append ys (breaks err p a b c) h u = absurd (cc)
Frames-append {xs} {r} {s} {ms} {ns} {e} {f} ys (reads m zs ks p a t) h u =
    reads m (zs ++ ys) (ks ++ ns) (parse-append_frame xs ys m zs p) (ap (λ k. k ++ ns) a)
      (Frames-append ys t h u)

-- What is left where the reading waits is unfinished.
pub Frames-rest :
    {xs r : List ℕ} {ms : List ProtocolMessage} {e : Option CodecError}
    → Frames xs ms e r
    → e ≡ none
    → parse r ≡ (incomplete, r)
Frames-rest (waits p a b c) h = rw c p
Frames-rest (breaks err p a b c) h = absurd (cc)
Frames-rest (reads m ys ns p a t) h = Frames-rest t h

-- After a violation more bytes change nothing.
pub Frames-append_error :
    {xs r : List ℕ} {ms : List ProtocolMessage} {e : Option CodecError} (err : CodecError)
    (ys : List ℕ)
    → Frames xs ms e r
    → e ≡ some err
    → Frames (xs ++ ys) ms e (r ++ ys)
Frames-append_error err ys (waits p a b c) h = absurd (cc)
Frames-append_error {xs} err ys (breaks err' p a b c) h =
    breaks err' (parse-append_throws xs ys err' p) a b (ap (λ k. k ++ ys) c)
Frames-append_error {xs} err ys (reads m zs ns p a t) h =
    reads m (zs ++ ys) ns (parse-append_frame xs ys m zs p) a (Frames-append_error err ys t h)

abbrev pub wires : List ProtocolMessage → List ℕ
wires [] = []
wires (m ∷ ms) = wire m ++ wires ms

-- The frames of messages, one behind the other, read back as those messages, up to a rest that is no
-- whole frame.
pub Frames-wires :
    (ms : List ProtocolMessage) (part : List ℕ)
    → All IsFrame ms
    → parse part ≡ (incomplete, part)
    → Frames (wires ms ++ part) (map sent ms) none part
Frames-wires [] part h e = waits e refl refl refl
Frames-wires (m ∷ ms) part h e =
    reads (sent m) (wires ms ++ part) (map sent ms)
      (ap parse (append_assoc (wire m) (wires ms) part) ∙ parse-wire m (wires ms ++ part) h.0) refl
      (Frames-wires ms part h.1 e)

-- Or up to a violation.
pub Frames-wires_error :
    (ms : List ProtocolMessage) (bad : List ℕ) (err : CodecError)
    → All IsFrame ms
    → parse bad ≡ (throws err, bad)
    → Frames (wires ms ++ bad) (map sent ms) (some err) bad
Frames-wires_error [] bad err h e = breaks err e refl refl refl
Frames-wires_error (m ∷ ms) bad err h e =
    reads (sent m) (wires ms ++ bad) (map sent ms)
      (ap parse (append_assoc (wire m) (wires ms) bad) ∙ parse-wire m (wires ms ++ bad) h.0) refl
      (Frames-wires_error ms bad err h.1 e)
