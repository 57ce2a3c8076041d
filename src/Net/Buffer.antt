-- ===== src/Net/Buffer.antt =====
-- include/minirpc/net/Buffer.h and src/net/Buffer.cpp: the growing byte buffer with two cursors.
-- A byte is a number; the answer of `readv` is an argument, the bytes that it delivered or its errno,
-- so the bound on one read (the free storage, and 64 KiB more where that is less) is the kernel's.
pub mod Invariant
pub mod Contents
pub mod Refine
pub mod Runs
mod Tests
use mini_rpc.Base.{
  ℕ, ◌+◌, ◌^◌, ◌*◌, ◌≡◌, List, [], ◌∷◌, ◌++◌, Bool, ltb, leb, if◌then◌else◌, length, take, drop,
  replicate, copy_at, add_size, sub_size, min,
}
use mini_rpc.Base.Text.{Text}

pub record Buffer : Type 0 where
  pub storage : List ℕ
  pub reader : ℕ
  pub writer : ℕ

abbrev pub cheap_prepend : ℕ
cheap_prepend = 8

abbrev pub initial_size : ℕ
initial_size = 1024

unfoldable pub create : ℕ → Buffer
create n = record {
  storage = replicate (add_size cheap_prepend n) 0;
  reader = cheap_prepend;
  writer = cheap_prepend;
}

abbrev pub readable_bytes : Buffer → ℕ
readable_bytes b = sub_size b.writer b.reader

abbrev pub writable_bytes : Buffer → ℕ
writable_bytes b = sub_size (length b.storage) b.writer

-- The pointer to the first unread byte: the storage from there on.
abbrev pub peek : Buffer → List ℕ
peek b = drop b.reader b.storage

unfoldable pub retrieve_all : Buffer → Buffer
retrieve_all b = record b { reader = cheap_prepend; writer = cheap_prepend }

unfoldable pub retrieve : ℕ → Buffer → Buffer
unfolding retrieve_all
retrieve len b =
    if ltb len (readable_bytes b)
    then record b { reader = add_size b.reader len }
    else retrieve_all b

unfoldable pub retrieve_as_string : ℕ → Buffer → Text × Buffer
retrieve_as_string n b =
    let len = min n (readable_bytes b) in let result = take len (peek b) in (result, retrieve len b)

unfoldable pub retrieve_all_as_string : Buffer → Text × Buffer
retrieve_all_as_string b = retrieve_as_string (readable_bytes b) b

-- The unread bytes go back to the head of the storage.
unfoldable pub compact : Buffer → Buffer
compact b =
    let readable = readable_bytes b in
    record {
      storage = copy_at b.storage cheap_prepend (take readable (peek b));
      reader = cheap_prepend;
      writer = add_size cheap_prepend readable;
    }

-- `resize` pads with zero bytes.
unfoldable pub grow : ℕ → Buffer → Buffer
grow n b = record b { storage = take n b.storage ++ replicate (sub_size n (length b.storage)) 0 }

unfoldable pub ensure_writable_bytes : ℕ → Buffer → Buffer
ensure_writable_bytes len b =
    if leb len (writable_bytes b)
    then b
    else (let moved = compact b in
        if ltb (writable_bytes moved) len then grow (add_size moved.writer len) moved else moved)

unfoldable pub append : List ℕ → Buffer → Buffer
append src b =
    let room = ensure_writable_bytes (length src) b in
    record room {
      storage = copy_at room.storage room.writer src;
      writer = add_size room.writer (length src);
    }

-- What `readv` answers with: `got []` is the end of the stream.
pub data ReadOutcome : Type 0 where
  got : List ℕ → ReadOutcome
  failed : ℕ → ReadOutcome

-- `readv` fills the writable space first, then the block on the stack.
unfoldable pub scatter : List ℕ → Buffer → Buffer
scatter bytes b = record b { storage = copy_at b.storage b.writer (take (writable_bytes b) bytes) }

unfoldable pub read_fd : ReadOutcome → Buffer → Buffer
read_fd (failed errno) b = b
read_fd (got bytes) b =
    let n = length bytes in
    let writable = writable_bytes b in
    let filled = scatter bytes b in
    if leb n writable
    then record filled { writer = add_size b.writer n }
    else append (drop writable bytes) (record filled { writer = length b.storage })
