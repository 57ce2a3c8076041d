-- ===== src/Rpc/Channel/Provenance/Scan.antt =====
-- The inner loop of `waitResponse` of src/rpc/RpcChannel.cpp: the frame whose answer it accepts.
use mini_rpc.Base.{
  ℕ, zero, suc, ◌<◌, ◌≡◌, ◌≢◌, refl, ap, sym, subst, inl, inr, List, [], ◌∷◌, Bool, true, Option,
  none, some, arith, length, Bool-cases, Option-cases, ◌==◌,
}
use mini_rpc.Base.Text.{Text, text}
use mini_rpc.Net.Buffer.{Buffer}
use mini_rpc.Net.Buffer.Invariant.{IsValid}
use mini_rpc.Net.Buffer.Contents.{contents}
use mini_rpc.Codec.{ProtocolMessage, frame}
use mini_rpc.Codec.Parse.{parse}
use mini_rpc.Codec.Decode.{parse_cases, parse_frame_lem}
use mini_rpc.Common.ErrorCode
use mini_rpc.Common.ErrorCode.{ErrorCode}
use mini_rpc.Rpc.Envelope.{Protobuf, RpcResponse}
use mini_rpc.Rpc.Channel.{
  succeeded, Caller, Progress, is_ours, accept, on_response, scan, fail_with, system, what_of,
}
use mini_rpc.Rpc.Channel.Scan.{scan_waits, scan_frame, scan_breaks, accept-input}
use mini_rpc.Rpc.Channel.Provenance.{
  stops, reads, Traced, Traced-stays, Traced-fails, Traced-behind,
}

module _ (pb : Protobuf) (parses : Text → Bool) (seq : ℕ) where
  abbrev pub Run : List ℕ → Option Progress → Type 0
  Run xs run = Traced pb parses seq xs run

  accept-succeeded :
      (resp : RpcResponse) (caller : Caller) (b : Buffer)
      → (accept pb parses resp caller b).result ≡ some succeeded
      → ((resp.error_code == ErrorCode.ok) ≡ true)
        × (parses resp.response ≡ true)
        × ((accept pb parses resp caller b).caller.reply ≡ some resp.response)
  unfolding accept
  accept-succeeded resp caller b h = ground arith

  accept-result :
      (resp : RpcResponse) (caller : Caller) (b : Buffer)
      → (accept pb parses resp caller b).result ≢ none
  unfolding accept
  accept-result resp caller b h = ground arith

  -- A frame of this call's behind the bytes, and what it decides.
  on_response-Traced :
      (m : ProtocolMessage) (left : List ℕ) (xs : List ℕ) (caller : Caller) (b : Buffer)
      → IsValid b
      → parse xs ≡ (frame m, left)
      → is_ours seq m ≡ true
      → Run xs (some (on_response pb parses m.body caller b))
  unfolding on_response
  on_response-Traced m left xs caller b v p ours = elim (Option-cases (pb.parse_response m.body)) [
    | inl e ↦
        rw (e, on_response)
          (record {
            progress = fail_with system ErrorCode.unknown (text "bad response envelope") caller b;
            ran = refl;
            valid = v;
            dropped = λ k. ground arith;
            answered = λ k. ground arith;
          })
    | inr (resp, e) ↦
        rw (e, on_response)
          (record {
            progress = accept pb parses resp caller b;
            ran = refl;
            valid = subst IsValid (sym (accept-input pb parses seq caller resp b)) v;
            dropped = λ k. absurd (accept-result resp caller b k);
            answered = λ k.
                let (ok, good, reply) = accept-succeeded resp caller b k in
                record {
                  before = xs;
                  dropped = ([], stops refl refl, tt);
                  answer = m;
                  after = left;
                  framed = p;
                  ours = ours;
                  envelope = resp;
                  opened = e;
                  no_error = ok;
                  readable = good;
                  replied = reply;
                };
          })
  ]

  pub scan-Traced :
      (fuel : ℕ) (caller : Caller) (b : Buffer)
      → IsValid b
      → length (contents b) < fuel
      → Run (contents b) (scan pb parses fuel seq caller b)
  scan-Traced zero caller b v h = absurd (omega arith)
  scan-Traced (suc fuel) caller b v h = elim (parse_cases (contents b)) [
    | inl e ↦
        let (rest, run, left, rv) = scan_waits pb parses seq caller fuel b v e in
        rw run (Traced-stays pb parses seq (contents b) caller rest rv ([], stops left refl, tt))
    | inr (inl (m, left, e)) ↦
        let (rest, run, same, rv) = scan_frame pb parses seq caller fuel b m left v e in
        let size = parse_frame_lem (contents b) m left e in
        elim (Bool-cases (is_ours seq m)) [
          | inl ours ↦ rw (run, ours) (on_response-Traced m left (contents b) caller rest rv e ours)
          | inr other ↦
              rw (run, other)
                (Traced-behind pb parses seq (contents b) (contents rest) _
                  (m ∷ [], reads m left [] e refl (stops same refl), (other, tt))
                  (scan-Traced fuel caller rest rv (omega (arith, ap length same))))
        ]
    | inr (inr (err, e)) ↦
        let (rest, run, left, rv) = scan_breaks pb parses seq caller fuel b err v e in
        rw run (
          Traced-fails pb parses seq (contents b) system ErrorCode.unknown (what_of err) caller rest
            rv (λ k. ground arith))
  ]
