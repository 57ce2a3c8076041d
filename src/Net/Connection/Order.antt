-- ===== src/Net/Connection/Order.antt =====
-- What a connection is given to send leaves it in order, and none of it is left behind.
use mini_rpc.Base.{
  ℕ, zero, suc, ◌≡◌, refl, if-cases, take-append-drop, ap, sym, ◌∙◌, List, [], ◌∷◌, ◌++◌,
  append-nil, append_assoc, true, false, ◌==◌, take, arith,
}
use mini_rpc.Net.Buffer.{ReadOutcome, got, failed, initial_size, readable_bytes, retrieve}
use mini_rpc.Net.Buffer.Invariant.{create-IsValid, retrieve-IsValid}
use mini_rpc.Net.Buffer.Refine.{contents-create, contents-retrieve}
use mini_rpc.Net.Buffer.Contents.{contents}
use mini_rpc.Net.Connection.{
  Task, State, connecting, connected, disconnecting, disconnected, new, eagain, Connection, Op,
  WriteAnswer, wrote, again, broken, establish, destroy, close_call, shutdown_call, consume,
  run_send, run_shutdown, readable, writable, is_disconnected, is_connected, idle,
  connect_established, connect_destroyed, shutdown, shutdown_in_loop, handle_close, read_some,
  handle_read, wrote_some, flush, handle_write, step,
}
use mini_rpc.Net.Connection.Keeps.{
  offered, Allowed, IsSound, Keeps, idle-Keeps, send_in_loop-Keeps, empty,
}

wrote_some-Keeps :
    (n : ℕ) (c : Connection) → IsSound c → c.writing ≡ true → Keeps [] c (wrote_some n c)
unfolding wrote_some
wrote_some-Keeps n c s w =
    let rest = retrieve (suc n) c.output in
    let left = contents-retrieve (suc n) c.output s.output in
    let v = retrieve-IsValid (suc n) c.output s.output in
    let e =
      ap (take (suc n) (contents c.output) ++◌) left
      ∙ take-append-drop (suc n) (contents c.output)
      ∙ sym (append-nil (contents c.output)) in
    if-cases (Keeps [] c) (readable_bytes rest == 0)
      (λ h. record {
        order = e;
        sound = record { output = v; flushed = λ a b. empty rest v (ground (arith, h)) };
      })
      (λ h. record {
        order = e;
        sound = record { output = v; flushed = λ a b. grind (arith, b, w) };
      })

flush-Keeps :
    (answer : WriteAnswer) (c : Connection)
    → IsSound c
    → c.writing ≡ true
    → Keeps [] c (flush answer c)
unfolding flush
flush-Keeps (wrote (suc n)) c s w = wrote_some-Keeps n c s w
flush-Keeps (wrote zero) c s w = idle-Keeps c c s refl (λ a b. (a, b))
flush-Keeps again c s w = idle-Keeps c c s refl (λ a b. (a, b))
flush-Keeps broken c s w = idle-Keeps c c s refl (λ a b. (a, b))

handle_write-Keeps :
    (answer : WriteAnswer) (c : Connection) → IsSound c → Keeps [] c (handle_write answer c)
unfolding handle_write
handle_write-Keeps answer c s =
    if-cases (Keeps [] c) c.writing (flush-Keeps answer c s)
      (λ e. idle-Keeps c c s refl (λ a b. (a, b)))

-- After a close nothing is open any more.
handle_close-Keeps : (c : Connection) → IsSound c → Keeps [] c (handle_close c)
unfolding handle_close
handle_close-Keeps c s = record {
  order = sym (append-nil (contents c.output));
  sound = record { output = s.output; flushed = λ a b. grind (arith, a) };
}

handle_read-Keeps :
    (outcome : ReadOutcome) (c : Connection) → IsSound c → Keeps [] c (handle_read outcome c)
unfolding handle_read read_some
handle_read-Keeps (got []) c s = handle_close-Keeps c s
handle_read-Keeps (got (x ∷ xs)) c s = record {
  order = sym (append-nil (contents c.output));
  sound = record { output = s.output; flushed = s.flushed };
}
handle_read-Keeps (failed errno) c s =
    if-cases (Keeps [] c) (errno == eagain) (λ h. idle-Keeps c c s refl (λ a b. (a, b)))
      (λ h. handle_close-Keeps c s)

connect_destroyed-Keeps : (c : Connection) → IsSound c → Keeps [] c (idle (connect_destroyed c))
unfolding connect_destroyed
connect_destroyed-Keeps c s =
    if-cases (λ d. Keeps [] c (idle d)) (is_connected c.state)
      (λ h. idle-Keeps c _ s refl (λ a b. grind (arith, a)))
      (λ h. idle-Keeps c c s refl (λ a b. (a, b)))

shutdown-Keeps : (c : Connection) → IsSound c → Keeps [] c (idle (shutdown c).0)
unfolding shutdown
shutdown-Keeps c s =
    if-cases (λ (d : Connection × List Task). Keeps [] c (idle d.0)) (is_connected c.state)
      (λ h. idle-Keeps c _ s refl (λ a b. (connected_open c.state h, b)))
      (λ h. idle-Keeps c c s refl (λ a b. (a, b)))
  where
    connected_open : (s : State) → is_connected s ≡ true → is_disconnected s ≡ false
    connected_open connecting h = refl
    connected_open connected h = refl
    connected_open disconnecting h = refl
    connected_open disconnected h = sym h

shutdown_in_loop-Keeps : (c : Connection) → IsSound c → Keeps [] c (idle (shutdown_in_loop c))
unfolding shutdown_in_loop
shutdown_in_loop-Keeps c s =
    if-cases (λ d. Keeps [] c (idle d)) c.writing (λ h. idle-Keeps c c s refl (λ a b. (a, b)))
      (λ h. idle-Keeps c _ s refl (λ a b. (a, b)))

step-Keeps :
    (op : Op) (c : Connection) → IsSound c → Allowed op c → Keeps (offered op c) c (step op c)
unfolding step connect_established
step-Keeps establish c s w = idle-Keeps c _ s refl (λ a b. (w, b))
step-Keeps destroy c s w = connect_destroyed-Keeps c s
step-Keeps close_call c s w = handle_close-Keeps c s
step-Keeps shutdown_call c s w = shutdown-Keeps c s
step-Keeps (consume n) c s w = idle-Keeps c _ s refl (λ a b. (a, b))
step-Keeps (run_send answer message) c s w = send_in_loop-Keeps answer message c s w.0 w.1
step-Keeps run_shutdown c s w = shutdown_in_loop-Keeps c s
step-Keeps (readable outcome) c s w = handle_read-Keeps outcome c s
step-Keeps (writable answer) c s w = handle_write-Keeps answer c s

-- A run of operations: the connection after it and the bytes that the kernel took.
abbrev pub run : List Op → Connection → List ℕ × Connection
run [] c = ([], c)
run (op ∷ ops) c =
    let t = step op c in let (written, d) = run ops t.conn in (t.written ++ written, d)

abbrev pub all_offered : List Op → Connection → List ℕ
all_offered [] c = []
all_offered (op ∷ ops) c = offered op c ++ all_offered ops (step op c).conn

abbrev pub Permitted : List Op → Connection → Type 0
Permitted [] c = Unit
Permitted (op ∷ ops) c = Allowed op c × Permitted ops (step op c).conn

-- In every run of permitted operations from a sound connection, the bytes that the kernel took,
-- followed by those in the output buffer, are the output buffer at the start followed by all messages
-- that were sent while the connection was not closed, in order; and the connection stays sound: an
-- open one that does not wait to write has nothing to write.
pub run_in_order :
    (ops : List Op) (c : Connection)
    → IsSound c
    → Permitted ops c
    → ((run ops c).0 ++ contents (run ops c).1.output ≡ contents c.output ++ all_offered ops c)
      × IsSound (run ops c).1
run_in_order [] c s p = (sym (append-nil (contents c.output)), s)
run_in_order (op ∷ ops) c s (now, later) =
    let k = step-Keeps op c s now in
    let t = step op c in
    let (order, sound) = run_in_order ops t.conn k.sound later in
    (
      append_assoc t.written (run ops t.conn).0 (contents (run ops t.conn).1.output)
          ∙ ap (t.written ++◌) order
          ∙ sym (append_assoc t.written (contents t.conn.output) (all_offered ops t.conn))
          ∙ ap (◌++ all_offered ops t.conn) k.order
          ∙ append_assoc (contents c.output) (offered op c) (all_offered ops t.conn),
      sound,
    )

pub new-IsSound : IsSound new
unfolding new
new-IsSound = record {
  output = create-IsValid initial_size (omega arith);
  flushed = λ a b. contents-create initial_size;
}

-- Where a run of permitted operations on a new connection ends not closed and with no wait to write,
-- the kernel has taken exactly the messages that were sent, in order.
pub run-drained :
    (ops : List Op)
    → Permitted ops new
    → is_disconnected (run ops new).1.state ≡ false
    → (run ops new).1.writing ≡ false
    → (run ops new).0 ≡ all_offered ops new
unfolding new
run-drained ops p open_still quiet =
    let (order, sound) = run_in_order ops new new-IsSound p in
    sym (append-nil (run ops new).0)
    ∙ ap ((run ops new).0 ++◌) (sym (sound.flushed open_still quiet))
    ∙ order
    ∙ ap (◌++ all_offered ops new) (contents-create initial_size)
