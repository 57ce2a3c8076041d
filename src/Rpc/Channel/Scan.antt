-- ===== src/Rpc/Channel/Scan.antt =====
-- The inner loop of `waitResponse`: it drops frames that answer other requests, and takes the first
-- one that answers this request.
use mini_rpc.Base.{
  ℕ, zero, suc, ◌<◌, ◌≡◌, refl, ap, ◌∙◌, inl, inr, List, [], ◌∷◌, ◌++◌, Bool, true, false, Option,
  none, some, arith, length, All, ◌≤◌, Option-cases, if◌then◌else◌, Bool-cases, append_assoc,
}
use mini_rpc.Base.Text.{Text}
use mini_rpc.Net.Buffer.{Buffer}
use mini_rpc.Net.Buffer.Invariant.{IsValid}
use mini_rpc.Net.Buffer.Contents.{contents}
use mini_rpc.Codec.{ProtocolMessage, incomplete, frame, throws, CodecError, try_decode}
use mini_rpc.Codec.Decode.{parse_cases, parse_frame_lem, parse-wire, IsFrame, sent}
use mini_rpc.Codec.Parse.{parse, try_decode-parse}
use mini_rpc.Codec.Stream.Frames.{wires}
use mini_rpc.Codec.Wire.{wire}
use mini_rpc.Rpc.Envelope.{Protobuf, RpcResponse}
use mini_rpc.Rpc.Channel.{
  Caller, Progress, is_ours, accept, on_response, scan, fail_with, what_of, system, carry_on,
}
use mini_rpc.Common.ErrorCode

module _ (pb : Protobuf) (parses : Text → Bool) (seq : ℕ) (caller : Caller) where
  -- One step of the loop on each kind of input.
  pub scan_waits :
      (fuel : ℕ) (b : Buffer)
      → IsValid b
      → parse (contents b) ≡ (incomplete, contents b)
      → (rest : Buffer) × (scan pb parses (suc fuel) seq caller b ≡ carry_on caller rest)
        × (contents rest ≡ contents b)
        × IsValid rest
  unfolding scan
  scan_waits fuel b v e =
      let a = try_decode-parse b v in
      ((try_decode b).1, rw (a.0 ∙ ap (λ r. r.0) e) refl, a.1 ∙ ap (λ r. r.1) e, a.2)

  pub scan_frame :
      (fuel : ℕ) (b : Buffer) (m : ProtocolMessage) (left : List ℕ)
      → IsValid b
      → parse (contents b) ≡ (frame m, left)
      → (rest : Buffer) × (scan pb parses (suc fuel) seq caller b ≡ (
          if is_ours seq m
          then some (on_response pb parses m.body caller rest)
          else scan pb parses fuel seq caller rest))
        × (contents rest ≡ left)
        × IsValid rest
  unfolding scan
  scan_frame fuel b m left v e =
      let a = try_decode-parse b v in
      ((try_decode b).1, rw (a.0 ∙ ap (λ r. r.0) e) refl, a.1 ∙ ap (λ r. r.1) e, a.2)

  -- For a valid buffer that holds frames that are not this call's, then one that is, then anything,
  -- and more fuel than bytes: the others are dropped, this call's response decides the call, and what
  -- follows it stays in the buffer, which stays valid.
  pub scan_takes :
      (fuel : ℕ) (ms : List ProtocolMessage) (m : ProtocolMessage) (tail : List ℕ) (b : Buffer)
      → IsValid b
      → contents b ≡ wires ms ++ (wire m ++ tail)
      → All IsFrame ms
      → All (λ o. is_ours seq o ≡ false) ms
      → IsFrame m
      → is_ours seq m ≡ true
      → length (contents b) < fuel
      → (rest : Buffer) × (scan pb parses fuel seq caller b
          ≡ some (on_response pb parses m.body caller rest))
        × (contents rest ≡ tail)
        × IsValid rest
  scan_takes zero ms m tail b v e good others f ours h = absurd (omega arith)
  scan_takes (suc fuel) [] m tail b v e good others f ours h =
      let (rest, run, left, rv) =
        scan_frame fuel b (sent m) tail v (ap parse e ∙ parse-wire m tail f) in
      (rest, run ∙ rw ours refl, left, rv)
  scan_takes (suc fuel) (o ∷ ms) m tail b v e good others f ours h =
      let more = wires ms ++ (wire m ++ tail) in
      let p =
        ap parse (e ∙ append_assoc (wire o) (wires ms) (wire m ++ tail))
        ∙ parse-wire o more good.0 in
      let (rest, run, left, rv) = scan_frame fuel b (sent o) more v p in
      let size = parse_frame_lem (contents b) (sent o) more p in
      let (end, run', left', rv') =
        scan_takes fuel ms m tail rest rv left good.1 others.1 f ours
          (omega (arith, ap length left)) in
      (end, run ∙ rw (others.0) run', left', rv')

  -- For a valid buffer that holds frames that are not this call's and then an unfinished part, and
  -- more fuel than bytes: all the frames are dropped, the part stays in the buffer, which stays valid,
  -- and the wait goes on.
  pub scan_drops :
      (fuel : ℕ) (ms : List ProtocolMessage) (part : List ℕ) (b : Buffer)
      → IsValid b
      → contents b ≡ wires ms ++ part
      → All IsFrame ms
      → All (λ o. is_ours seq o ≡ false) ms
      → parse part ≡ (incomplete, part)
      → length (contents b) < fuel
      → (rest : Buffer) × (scan pb parses fuel seq caller b ≡ carry_on caller rest)
        × (contents rest ≡ part)
        × IsValid rest
  scan_drops zero ms part b v e good others w h = absurd (omega arith)
  scan_drops (suc fuel) [] part b v e good others w h =
      let (rest, run, left, rv) = scan_waits fuel b v (rw e w) in (rest, run, left ∙ e, rv)
  scan_drops (suc fuel) (o ∷ ms) part b v e good others w h =
      let more = wires ms ++ part in
      let p = ap parse (e ∙ append_assoc (wire o) (wires ms) part) ∙ parse-wire o more good.0 in
      let (rest, run, left, rv) = scan_frame fuel b (sent o) more v p in
      let size = parse_frame_lem (contents b) (sent o) more p in
      let (end, run', left', rv') =
        scan_drops fuel ms part rest rv left good.1 others.1 w (omega (arith, ap length left)) in
      (end, run ∙ rw (others.0) run', left', rv')

  pub scan_breaks :
      (fuel : ℕ) (b : Buffer) (err : CodecError)
      → IsValid b
      → parse (contents b) ≡ (throws err, contents b)
      → (rest : Buffer) × (scan pb parses (suc fuel) seq caller b
          ≡ some (fail_with system ErrorCode.unknown (what_of err) caller rest))
        × (contents rest ≡ contents b)
        × IsValid rest
  unfolding scan
  scan_breaks fuel b err v e =
      let a = try_decode-parse b v in
      ((try_decode b).1, rw (a.0 ∙ ap (λ r. r.0) e) refl, a.1 ∙ ap (λ r. r.1) e, a.2)

  pub accept-input : (resp : RpcResponse) (b : Buffer) → (accept pb parses resp caller b).input ≡ b
  unfolding accept
  accept-input resp b = ground arith

  pub on_response-input :
      (body : Text) (b : Buffer) → (on_response pb parses body caller b).input ≡ b
  unfolding on_response
  on_response-input body b = elim (Option-cases (pb.parse_response body)) [
    | inl e ↦ rw (e, on_response) refl
    | inr (resp, e) ↦ rw (e, on_response) (accept-input resp b)
  ]

  -- A run of the loop that ended, and what it left of the bytes.
  pub record Ended (b : Buffer) (run : Option Progress) : Type 0 where
    pub progress : Progress
    pub ran : run ≡ some progress
    pub valid : IsValid progress.input
    pub less : length (contents progress.input) ≤ length (contents b)

  -- On a valid buffer with any bytes, more fuel than bytes is enough for the client's inner loop, and
  -- the buffer is valid after it and holds no more bytes than before.
  pub scan_total :
      (fuel : ℕ) (b : Buffer)
      → IsValid b
      → length (contents b) < fuel
      → Ended b (scan pb parses fuel seq caller b)
  scan_total zero b v h = absurd (omega arith)
  scan_total (suc fuel) b v h = elim (parse_cases (contents b)) [
    | inl e ↦
        let (rest, run, left, rv) = scan_waits fuel b v e in
        record {
          progress = record { result = none; caller = caller; input = rest };
          ran = run;
          valid = rv;
          less = omega (arith, ap length left);
        }
    | inr (inl (m, left, e)) ↦
        let (rest, run, same, rv) = scan_frame fuel b m left v e in
        let size = parse_frame_lem (contents b) m left e in
        let same' = ap length same in
        elim (Bool-cases (is_ours seq m)) [
          | inl ours ↦
              let at = on_response-input m.body rest in
              record {
                progress = on_response pb parses m.body caller rest;
                ran = run ∙ rw ours refl;
                valid = rw at rv;
                less = rw at (omega arith);
              }
          | inr other ↦
              let ih = scan_total fuel rest rv (omega arith) in
              record {
                progress = ih.progress;
                ran = run ∙ rw other ih.ran;
                valid = ih.valid;
                less = omega (arith, ih.less);
              }
        ]
    | inr (inr (err, e)) ↦
        let (rest, run, left, rv) = scan_breaks fuel b err v e in
        record {
          progress = fail_with system ErrorCode.unknown (what_of err) caller rest;
          ran = run;
          valid = rv;
          less = omega (arith, ap length left);
        }
  ]
