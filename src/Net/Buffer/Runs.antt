-- ===== src/Net/Buffer/Runs.antt =====
-- Any sequence of operations on a buffer, against the same operations on the list of the unread bytes.
use mathlib.Core.Path.{ap₂}
use mini_rpc.Base.{
  ℕ, ◌+◌, ◌≤◌, ◌<◌, ◌≡◌, refl, ap, sym, ◌∙◌, List, [], ◌∷◌, ◌++◌, arith, length, take, drop,
  size_mod, length-append, length-drop, append-nil,
}
use mini_rpc.Base.Indexed.{total}
use mini_rpc.Base.Text.{Text}
use mini_rpc.Net.Buffer.{
  Buffer, readable_bytes, cheap_prepend, append, retrieve, retrieve_all, retrieve_as_string,
  retrieve_all_as_string, ensure_writable_bytes, ReadOutcome, got, failed, read_fd,
}
use mini_rpc.Net.Buffer.Invariant.{
  IsValid, Fits, append-IsValid, retrieve-IsValid, ensure_writable_bytes-Roomy,
}
use mini_rpc.Net.Buffer.Refine.{
  contents-append, contents-read_fd, contents-retrieve, retrieve_as_string_lem,
  retrieve_all_as_string_lem,
}
use mini_rpc.Net.Buffer.Contents.{contents, length-contents, contents-ensure_writable_bytes}

pub data Op : Type 0 where
  appends : List ℕ → Op
  reads : ReadOutcome → Op
  takes : ℕ → Op
  takes_all : Op
  skips : ℕ → Op
  skips_all : Op
  reserves : ℕ → Op

-- What an operation hands out, and the buffer after it.
abbrev pub perform : Op → Buffer → Text × Buffer
perform (appends src) b = ([], append src b)
perform (reads outcome) b = ([], read_fd outcome b)
perform (takes n) b = retrieve_as_string n b
perform takes_all b = retrieve_all_as_string b
perform (skips n) b = ([], retrieve n b)
perform skips_all b = ([], retrieve_all b)
perform (reserves n) b = ([], ensure_writable_bytes n b)

abbrev pub received : ReadOutcome → List ℕ
received (got bytes) = bytes
received (failed errno) = []

-- The same on a queue of bytes.
abbrev pub on_queue : Op → List ℕ → Text × List ℕ
on_queue (appends src) q = ([], q ++ src)
on_queue (reads outcome) q = ([], q ++ received outcome)
on_queue (takes n) q = (take n q, drop n q)
on_queue takes_all q = (q, [])
on_queue (skips n) q = ([], drop n q)
on_queue skips_all q = ([], [])
on_queue (reserves n) q = ([], q)

abbrev pub run : List Op → Buffer → List Text × Buffer
run [] b = ([], b)
run (op ∷ ops) b = let (out, b') = perform op b in let (outs, b'') = run ops b' in (out ∷ outs, b'')

abbrev pub run_queue : List Op → List ℕ → List Text × List ℕ
run_queue [] q = ([], q)
run_queue (op ∷ ops) q =
    let (out, q') = on_queue op q in let (outs, q'') = run_queue ops q' in (out ∷ outs, q'')

-- The room that an operation asks for.
abbrev pub asked : Op → ℕ
asked (appends src) = length src
asked (reads outcome) = length (received outcome)
asked (reserves n) = n
asked op = 0

record Same (op : Op) (b : Buffer) : Type 0 where
  out : (perform op b).0 ≡ (on_queue op (contents b)).0
  left : contents (perform op b).1 ≡ (on_queue op (contents b)).1
  valid : IsValid (perform op b).1
  size : length (contents (perform op b).1) ≤ length (contents b) + asked op

perform-Same :
    (op : Op) (b : Buffer)
    → IsValid b
    → cheap_prepend + length (contents b) + asked op < size_mod
    → Same op b
unfolding read_fd
perform-Same (appends src) b v room =
    let fits : Fits (length src) b = omega (arith, length-contents b v, room) in
    let e = contents-append src b v fits in
    record {
      out = refl;
      left = e;
      valid = append-IsValid src b v fits;
      size = omega (arith, ap length e, length-append (contents b) src);
    }
perform-Same (reads (got bytes)) b v room =
    let (e, w) = contents-read_fd bytes b v (omega (arith, length-contents b v, room)) in
    record {
      out = refl;
      left = e;
      valid = w;
      size = omega (arith, ap length e, length-append (contents b) bytes);
    }
perform-Same (reads (failed errno)) b v room = record {
  out = refl;
  left = sym (append-nil (contents b));
  valid = v;
  size = omega arith;
}
perform-Same (takes n) b v room =
    let (out, left, w) = retrieve_as_string_lem n b v in
    record {
      out = out;
      left = left;
      valid = w;
      size = omega (arith, ap length left, length-drop n (contents b));
    }
perform-Same takes_all b v room =
    let (out, left) = retrieve_all_as_string_lem b v in
    record {
      out = out;
      left = left;
      valid = unfold retrieve_all_as_string in (retrieve_as_string_lem (readable_bytes b) b v).2;
      size = omega (arith, ap length left);
    }
perform-Same (skips n) b v room =
    let e = contents-retrieve n b v in
    record {
      out = refl;
      left = e;
      valid = retrieve-IsValid n b v;
      size = omega (arith, ap length e, length-drop n (contents b));
    }
perform-Same skips_all b v room =
    let e : contents (retrieve_all b) ≡ [] = unfold retrieve_all in refl in
    record {
      out = refl;
      left = e;
      valid = unfold retrieve_all in omega (arith, v);
      size = omega (arith, ap length e);
    }
perform-Same (reserves n) b v room =
    let fits : Fits n b = omega (arith, length-contents b v, room) in
    let e = contents-ensure_writable_bytes n b v fits in
    record {
      out = refl;
      left = e;
      valid = (ensure_writable_bytes-Roomy n b v fits).valid;
      size = omega (arith, ap length e);
    }

-- From a valid buffer, any sequence of operations hands out what the same operations on the queue of
-- its unread bytes hand out, ends with the bytes that the queue ends with, and keeps the buffer valid,
-- whether or not it moves bytes or grows the storage, where the unread bytes and all that the
-- operations ask room for fit the address space.
pub run-refines :
    (ops : List Op) (b : Buffer)
    → IsValid b
    → cheap_prepend + length (contents b) + total asked ops < size_mod
    → ((run ops b).0 ≡ (run_queue ops (contents b)).0)
      × (contents (run ops b).1 ≡ (run_queue ops (contents b)).1)
      × IsValid (run ops b).1
run-refines [] b v room = (refl, refl, v)
run-refines (op ∷ ops) b v room =
    let s = perform-Same op b v (omega (arith, room)) in
    let (outs, left, w) = run-refines ops (perform op b).1 s.valid (omega (arith, room, s.size)) in
    let same = ap (run_queue ops) s.left in
    (ap₂ ◌∷◌ s.out (outs ∙ ap (λ r. r.0) same), left ∙ ap (λ r. r.1) same, w)
