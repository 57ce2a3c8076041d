-- ===== src/Net/Buffer/Invariant.antt =====
-- The cursors of a buffer stay ordered inside its storage, and no `size_t` operation on them wraps.
use mini_rpc.Base.{
  ℕ, ◌+◌, ◌-◌, true, false, ◌≤◌, ◌<◌, ◌≡◌, refl, inl, inr, List, arith, length, take, replicate,
  size_mod, add_size, sub_size, leb, ltb, ltb→le, ltb→lt, Bool-cases, length-append, length-take,
  length-drop, length-replicate, length-copy_at,
}
use mini_rpc.Net.Buffer.{
  Buffer, cheap_prepend, create, readable_bytes, writable_bytes, peek, retrieve, compact, grow,
  ensure_writable_bytes, append, scatter,
}

pub record IsValid (b : Buffer) : Type 0 where
  pub prepend : cheap_prepend ≤ b.reader
  pub ordered : b.reader ≤ b.writer
  pub inside : b.writer ≤ length b.storage
  pub small : length b.storage < size_mod

-- Room for `n` more bytes within the address space, once the unread bytes stand at the head.
abbrev pub Fits : ℕ → Buffer → Type 0
Fits n b = cheap_prepend + (b.writer - b.reader) + n < size_mod

pub create-IsValid : (n : ℕ) → cheap_prepend + n < size_mod → IsValid (create n)
unfolding create
create-IsValid n h =
    let size : length (replicate {A = ℕ} (add_size cheap_prepend n) 0) ≡ cheap_prepend + n =
      omega (arith, length-replicate {0} {A = ℕ} (add_size cheap_prepend n) 0) in
    record {
      prepend = omega arith;
      ordered = omega arith;
      inside = omega arith;
      small = omega arith;
    }

pub retrieve-IsValid : (n : ℕ) (b : Buffer) → IsValid b → IsValid (retrieve n b)
unfolding retrieve
retrieve-IsValid n b v = ground arith

pub length-unread :
    (b : Buffer) → IsValid b → length (take (readable_bytes b) (peek b)) ≡ b.writer - b.reader
length-unread b v =
    omega (arith, length-take (readable_bytes b) (peek b), length-drop b.reader b.storage)

pub length-compact : (b : Buffer) → IsValid b → length (compact b).storage ≡ length b.storage
unfolding compact
length-compact b v =
    length-copy_at b.storage cheap_prepend (take (readable_bytes b) (peek b))
      (omega (arith, length-unread b v))

pub compact-IsValid : (b : Buffer) → IsValid b → IsValid (compact b)
unfolding compact
compact-IsValid b v = omega (arith, length-compact b v)

pub length-grow :
    (n : ℕ) (b : Buffer) → length b.storage ≤ n → n < size_mod → length (grow n b).storage ≡ n
unfolding grow
length-grow n b h k =
    let pad = sub_size n (length b.storage) in
    omega (
      arith,
      length-append (take n b.storage) (replicate pad 0),
      length-take n b.storage,
      length-replicate {0} {A = ℕ} pad 0,
    )

pub grow-IsValid :
    (n : ℕ) (b : Buffer) → length b.storage ≤ n → n < size_mod → IsValid b → IsValid (grow n b)
unfolding grow
grow-IsValid n b h k v = omega (arith, length-grow n b h k)

-- The three ways through `ensure_writable_bytes`.
pub ensure_cases {ℓ} :
    (P : Buffer → Type ℓ) (n : ℕ) (b : Buffer)
    → (leb n (writable_bytes b) ≡ true → P b)
    → (ltb (writable_bytes (compact b)) n ≡ false → P (compact b))
    → (ltb (writable_bytes (compact b)) n ≡ true
        → P (grow (add_size (compact b).writer n) (compact b)))
    → P (ensure_writable_bytes n b)
unfolding ensure_writable_bytes
ensure_cases P n b enough moved grown = elim (Bool-cases (leb n (writable_bytes b))) [
  | inl e ↦ rw e (enough e)
  | inr e ↦ rw e (elim (Bool-cases (ltb (writable_bytes (compact b)) n)) [
    | inl f ↦ rw f (grown f)
    | inr f ↦ rw f (moved f)
  ])
]

-- What `ensure_writable_bytes` is for: a valid buffer with the space that was asked for.
pub record Roomy (n : ℕ) (b r : Buffer) : Type 0 where
  pub valid : IsValid r
  pub room : r.writer + n ≤ length r.storage
  pub unread : r.writer - r.reader ≡ b.writer - b.reader

compact-Roomy :
    (n : ℕ) (b : Buffer)
    → IsValid b
    → ltb (writable_bytes (compact b)) n ≡ false
    → Roomy n b (compact b)
unfolding compact
compact-Roomy n b v e =
    let same = length-compact b v in
    record {
      valid = compact-IsValid b v;
      room = omega (arith, same, ltb→le _ _ e);
      unread = omega arith;
    }

-- Growing to `n` places, `k` of them behind the write cursor.
grow-Roomy :
    (k n : ℕ) (b : Buffer)
    → IsValid b
    → length b.storage ≤ n
    → n < size_mod
    → b.writer + k ≡ n
    → Roomy k b (grow n b)
grow-Roomy k n b v le small e = record {
  valid = grow-IsValid n b le small v;
  room = unfold grow in omega (arith, length-grow n b le small);
  unread = unfold grow in refl;
}

-- Where `resize` is called, it grows the storage.
pub grown-le :
    (n : ℕ) (b : Buffer)
    → IsValid b
    → Fits n b
    → ltb (writable_bytes (compact b)) n ≡ true
    → length (compact b).storage ≤ add_size (compact b).writer n
unfolding compact
grown-le n b v f e = omega (arith, length-compact b v, ltb→lt _ _ e)

grown-Roomy :
    (n : ℕ) (b : Buffer)
    → IsValid b
    → Fits n b
    → ltb (writable_bytes (compact b)) n ≡ true
    → Roomy n b (grow (add_size (compact b).writer n) (compact b))
unfolding compact
grown-Roomy n b v f e =
    let same = length-compact b v in
    let more = ltb→lt _ _ e in
    let r =
      grow-Roomy n (add_size (compact b).writer n) (compact b) (compact-IsValid b v) (omega arith)
        (omega arith) (omega arith) in
    record { valid = r.valid; room = r.room; unread = omega arith }

pub ensure_writable_bytes-Roomy :
    (n : ℕ) (b : Buffer) → IsValid b → Fits n b → Roomy n b (ensure_writable_bytes n b)
ensure_writable_bytes-Roomy n b v f =
    ensure_cases (Roomy n b) n b (λ e. record { valid = v; room = ground arith; unread = refl })
      (λ e. compact-Roomy n b v e) (λ e. grown-Roomy n b v f e)

pub append-IsValid :
    (src : List ℕ) (b : Buffer) → IsValid b → Fits (length src) b → IsValid (append src b)
unfolding append
append-IsValid src b v f =
    let r = ensure_writable_bytes-Roomy (length src) b v f in
    let room = ensure_writable_bytes (length src) b in
    omega (arith, r.valid, r.room, length-copy_at room.storage room.writer src r.room)

-- The space that `readv` was given has place for what it read.
pub scatter-IsValid :
    (bytes : List ℕ) (b : Buffer) (w : ℕ)
    → IsValid b
    → b.writer ≤ w
    → w ≤ length b.storage
    → IsValid (record (scatter bytes b) { writer = w })
unfolding scatter
scatter-IsValid bytes b w v lo hi = omega (
  arith,
  length-copy_at b.storage b.writer (take (writable_bytes b) bytes)
      (omega (arith, length-take (writable_bytes b) bytes)),
)
