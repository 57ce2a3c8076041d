-- ===== src/Net/Buffer/Contents.antt =====
-- src/net/Buffer.cpp: the unread bytes of a buffer, and what moves them without changing them.
use mini_rpc.Base.{
  ℕ, ◌+◌, ◌-◌, ◌≤◌, ◌≡◌, refl, ap, sym, ◌∙◌, List, ◌++◌, arith, length, take, drop, append_assoc,
  sub_size, length-append, length-take, length-drop, copy_at, take_all, take-append_le,
  drop-append_le, take-append_self, drop-take, replicate,
}
use mini_rpc.Net.Buffer.{Buffer, readable_bytes, peek, compact, grow, ensure_writable_bytes}
use mini_rpc.Net.Buffer.Invariant.{
  IsValid, Fits, ensure_cases, length-unread, compact-IsValid, grown-le,
}

-- The unread bytes: what the buffer holds for its client.
abbrev pub contents : Buffer → List ℕ
contents b = take (readable_bytes b) (peek b)

-- The bytes from `r` up to `w`.
abbrev pub window : List ℕ → ℕ → ℕ → List ℕ
window st r w = take (w - r) (drop r st)

pub contents-window : (b : Buffer) → IsValid b → contents b ≡ window b.storage b.reader b.writer
contents-window b v =
    let e : readable_bytes b ≡ b.writer - b.reader = omega arith in ap (λ k. take k (peek b)) e

-- Bytes copied in at the end of the window extend it.
pub window-copy_at :
    (st src : List ℕ) (r w w' : ℕ)
    → r ≤ w
    → w ≤ length st
    → w' ≡ w + length src
    → window (copy_at st w src) r w' ≡ window st r w ++ src
window-copy_at st src r w w' h k e =
    let rest = drop (w + length src) st in
    let n : w' - r ≡ length (window st r w ++ src) = omega (
      arith,
      length-append (window st r w) src,
      length-take (w - r) (drop r st),
      length-drop r st,
    ) in
    ap (take (w' - r)) (
      drop-append_le r (take w st) (src ++ rest) (omega (arith, length-take w st))
      ∙ ap (λ xs. xs ++ (src ++ rest)) (drop-take r w (w - r) st refl)
      ∙ sym (append_assoc (window st r w) src rest))
    ∙ take-append_self (w' - r) (window st r w ++ src) rest n

-- The window does not see what stands behind its end.
pub window-append :
    (st more : List ℕ) (r w : ℕ) → r ≤ w → w ≤ length st → window (st ++ more) r w ≡ window st r w
window-append st more r w h k =
    ap (take (w - r)) (drop-append_le r st more (omega arith))
    ∙ take-append_le (w - r) (drop r st) more (omega (arith, length-drop r st))

pub length-contents : (b : Buffer) → IsValid b → length (contents b) ≡ b.writer - b.reader
length-contents b v = length-unread b v

pub length-contents_readable : (b : Buffer) → IsValid b → length (contents b) ≡ readable_bytes b
length-contents_readable b v = omega (arith, length-unread b v)

pub contents-compact : (b : Buffer) → IsValid b → contents (compact b) ≡ contents b
unfolding compact
contents-compact b v =
    let src = contents b in
    let e : readable_bytes (compact b) ≡ length src = omega (arith, length-unread b v) in
    ap (λ k. take k (drop 8 (copy_at b.storage 8 src))) e
    ∙ ap (λ k. take k (drop 8 (copy_at b.storage 8 src))) (omega arith)
    ∙ window-copy_at b.storage src 8 8 (8 + length src) (omega arith) (omega arith) refl

pub contents-grow :
    (n : ℕ) (b : Buffer) → IsValid b → length b.storage ≤ n → contents (grow n b) ≡ contents b
unfolding grow
contents-grow n b v h =
    let pad : List ℕ = replicate (sub_size n (length b.storage)) 0 in
    let e : readable_bytes b ≡ b.writer - b.reader = omega arith in
    ap (λ xs. take (readable_bytes b) (drop b.reader (xs ++ pad))) (take_all n b.storage h)
    ∙ ap (λ k. take k (drop b.reader (b.storage ++ pad))) e
    ∙ window-append b.storage pad b.reader b.writer v.ordered v.inside
    ∙ sym (contents-window b v)

pub contents-ensure_writable_bytes :
    (n : ℕ) (b : Buffer) → IsValid b → Fits n b → contents (ensure_writable_bytes n b) ≡ contents b
contents-ensure_writable_bytes n b v f =
    ensure_cases (λ r. contents r ≡ contents b) n b (λ _. refl) (λ _. contents-compact b v)
      λ e.
        contents-grow _ (compact b) (compact-IsValid b v) (grown-le n b v f e)
        ∙ contents-compact b v
