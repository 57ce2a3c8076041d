-- ===== src/Net/Buffer/Refine.antt =====
-- A valid buffer is the queue of its unread bytes: each operation against that queue.
use mini_rpc.Base.{
  size_mod, ℕ, ◌+◌, ◌-◌, ◌≤◌, ◌<◌, ◌≡◌, refl, ap, sym, ◌∙◌, inl, inr, true, false, List, [], ◌++◌,
  arith, length, take, drop, append_assoc, add_size, sub_size, leb, ltb, leb→le, leb→lt, ltb→lt,
  ltb→le, Bool-cases, length-take, length-drop, take_all, drop_all, drop-drop, drop-take,
  take-append-drop, min, take-take-min, drop-min,
}
use mini_rpc.Net.Buffer.{
  initial_size, Buffer, create, readable_bytes, writable_bytes, peek, retrieve, retrieve_as_string,
  retrieve_all_as_string, ensure_writable_bytes, append, got, scatter, read_fd,
}
use mini_rpc.Net.Buffer.Invariant.{
  create-IsValid, IsValid, Fits, ensure_writable_bytes-Roomy, scatter-IsValid, retrieve-IsValid,
  append-IsValid,
}
use mini_rpc.Net.Buffer.Contents.{
  contents, contents-window, window-copy_at, length-contents, length-contents_readable,
  contents-ensure_writable_bytes,
}

-- On a valid buffer whose unread bytes and the new ones fit the address space, append puts the new
-- bytes behind the unread ones, whether or not it moves bytes or grows the storage.
pub contents-append :
    (src : List ℕ) (b : Buffer)
    → IsValid b
    → Fits (length src) b
    → contents (append src b) ≡ contents b ++ src
unfolding append
contents-append src b v f =
    let n = length src in
    let room = ensure_writable_bytes n b in
    let r = ensure_writable_bytes-Roomy n b v f in
    let rv = r.valid in
    contents-window (append src b) (append-IsValid src b v f)
    ∙ window-copy_at room.storage src room.reader room.writer (add_size room.writer n) rv.ordered
        rv.inside (omega (arith, rv, r.room))
    ∙ ap (λ xs. xs ++ src) (sym (contents-window room rv) ∙ contents-ensure_writable_bytes n b v f)

-- On a valid buffer retrieve drops as many unread bytes as it is told to, or all of them if there are
-- fewer.
pub contents-retrieve :
    (n : ℕ) (b : Buffer) → IsValid b → contents (retrieve n b) ≡ drop n (contents b)
unfolding retrieve
contents-retrieve n b v = elim (Bool-cases (ltb n (readable_bytes b))) [
  | inl e ↦ rw e (
      ap (λ k. take k (drop (add_size b.reader n) b.storage)) (less e)
      ∙ ap (take (b.writer - b.reader - n)) (sym (drop-drop n b.reader _ b.storage (moved e)))
      ∙ sym (drop-take n (b.writer - b.reader) _ (peek b) refl)
      ∙ ap (drop n) (sym (contents-window b v)))
  | inr e ↦ rw e (sym (drop_all n (contents b) (omega (arith, length-contents b v, ltb→le _ _ e))))
]
  where
    less :
        ltb n (readable_bytes b) ≡ true
        → sub_size b.writer (add_size b.reader n) ≡ b.writer - b.reader - n
    less e = omega (arith, ltb→lt _ _ e)

    moved : ltb n (readable_bytes b) ≡ true → add_size b.reader n ≡ b.reader + n
    moved e = omega (arith, ltb→lt _ _ e)

-- On a valid buffer retrieveAsString gives the first unread bytes, at most as many as there are, drops
-- them, and keeps the buffer valid.
pub retrieve_as_string_lem :
    (n : ℕ) (b : Buffer)
    → IsValid b
    → ((retrieve_as_string n b).0 ≡ take n (contents b))
      × (contents (retrieve_as_string n b).1 ≡ drop n (contents b))
      × IsValid (retrieve_as_string n b).1
unfolding retrieve_as_string
retrieve_as_string_lem n b v =
    let len = min n (readable_bytes b) in
    (
      take-take-min n (readable_bytes b) len (peek b) refl,
      contents-retrieve len b v
          ∙ drop-min n len (contents b) (omega (arith, length-contents_readable b v)),
      retrieve-IsValid len b v,
    )

-- `readv` stayed within the storage.
read_fd_inside :
    (bytes : List ℕ) (b : Buffer)
    → leb (length bytes) (writable_bytes b) ≡ true
    → read_fd (got bytes) b ≡ record (scatter bytes b) { writer = add_size b.writer (length bytes) }
unfolding read_fd
read_fd_inside bytes b e = ground arith

-- It went on into the block on the stack.
read_fd_beyond :
    (bytes : List ℕ) (b : Buffer)
    → leb (length bytes) (writable_bytes b) ≡ false
    → read_fd (got bytes) b
      ≡ append
          (drop (writable_bytes b) bytes)
          (record (scatter bytes b) { writer = length b.storage })
unfolding read_fd
read_fd_beyond bytes b e = ground arith

contents-scatter :
    (bytes : List ℕ) (b : Buffer) (w : ℕ)
    → IsValid b
    → w ≡ b.writer + length (take (writable_bytes b) bytes)
    → w ≤ length b.storage
    → contents (record (scatter bytes b) { writer = w })
      ≡ contents b ++ take (writable_bytes b) bytes
contents-scatter bytes b w v e h =
    contents-window (record (scatter bytes b) { writer = w })
      (scatter-IsValid bytes b w v (omega arith) h)
    ∙ unfold scatter in
      window-copy_at b.storage (take (writable_bytes b) bytes) b.reader b.writer w v.ordered
        v.inside e
      ∙ ap (λ xs. xs ++ take (writable_bytes b) bytes) (sym (contents-window b v))

-- On a valid buffer with room in the address space, the bytes that readv delivered are appended to the
-- unread ones, whether or not they exceed the writable space, and the buffer stays valid.
pub contents-read_fd :
    (bytes : List ℕ) (b : Buffer)
    → IsValid b
    → Fits (length bytes) b
    → (contents (read_fd (got bytes) b) ≡ contents b ++ bytes) × IsValid (read_fd (got bytes) b)
contents-read_fd bytes b v f = elim (Bool-cases (leb (length bytes) (writable_bytes b))) [
  | inl e ↦ rw (read_fd_inside bytes b e) (inside (leb→le _ _ e))
  | inr e ↦ rw (read_fd_beyond bytes b e) (beyond (leb→lt _ _ e))
]
  where
    inside :
        length bytes ≤ writable_bytes b
        → (contents (record (scatter bytes b) { writer = add_size b.writer (length bytes) })
            ≡ contents b ++ bytes)
          × IsValid (record (scatter bytes b) { writer = add_size b.writer (length bytes) })
    inside h =
        let all = take_all (writable_bytes b) bytes h in
        (
          contents-scatter bytes b (add_size b.writer (length bytes)) v
                (omega (arith, ap length all)) (omega arith)
              ∙ ap (◌++◌ (contents b)) all,
          scatter-IsValid bytes b (add_size b.writer (length bytes)) v (omega arith) (omega arith),
        )

    beyond :
        writable_bytes b < length bytes
        → (contents (
              append
                (drop (writable_bytes b) bytes)
                (record (scatter bytes b) { writer = length b.storage }))
            ≡ contents b ++ bytes)
          × IsValid (
              append
                (drop (writable_bytes b) bytes)
                (record (scatter bytes b) { writer = length b.storage }))
    beyond h =
        let full = record (scatter bytes b) { writer = length b.storage } in
        let fv = scatter-IsValid bytes b (length b.storage) v v.inside (omega arith) in
        let taken = length-take (writable_bytes b) bytes in
        let fits : Fits (length (drop (writable_bytes b) bytes)) full =
          unfold scatter in omega (arith, length-drop (writable_bytes b) bytes) in
        (
          contents-append (drop (writable_bytes b) bytes) full fv fits
              ∙ ap (λ xs. xs ++ drop (writable_bytes b) bytes)
                  (contents-scatter bytes b (length b.storage) v (omega arith) (omega arith))
              ∙ append_assoc (contents b) (take (writable_bytes b) bytes)
                  (drop (writable_bytes b) bytes)
              ∙ ap (◌++◌ (contents b)) (take-append-drop (writable_bytes b) bytes),
          append-IsValid (drop (writable_bytes b) bytes) full fv fits,
        )

-- A new buffer is empty.
pub contents-create : (n : ℕ) → contents (create n) ≡ []
unfolding create
contents-create n = refl

-- `retrieveAllAsString` hands out everything.
pub retrieve_all_as_string_lem :
    (b : Buffer)
    → IsValid b
    → ((retrieve_all_as_string b).0 ≡ contents b) × (contents (retrieve_all_as_string b).1 ≡ [])
unfolding retrieve_all_as_string
retrieve_all_as_string_lem b v =
    let n = readable_bytes b in
    let r = retrieve_as_string_lem n b v in
    let all : length (contents b) ≤ n = omega (arith, length-contents_readable b v) in
    (r.0 ∙ take_all n (contents b) all, r.1 ∙ drop_all n (contents b) all)

-- A new buffer with one read.
abbrev pub filled : List ℕ → Buffer
filled bytes = read_fd (got bytes) (create initial_size)

pub filled_lem :
    (bytes : List ℕ)
    → 8 + length bytes < size_mod
    → (contents (filled bytes) ≡ bytes) × IsValid (filled bytes)
filled_lem bytes h =
    let v = create-IsValid initial_size (omega arith) in
    let e = contents-create initial_size in
    let n = ap length e in
    let (c, w) =
      contents-read_fd bytes (create initial_size) v
        (omega (arith, length-contents (create initial_size) v, n)) in
    (c ∙ ap (◌++ bytes) e, w)
