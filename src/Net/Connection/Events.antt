-- ===== src/Net/Connection/Events.antt =====
-- A connection under its channel's events: the callbacks that src/net/TcpConnection.cpp sets are called as
-- src/net/Channel.cpp dispatches them.
use mini_rpc.Base.{
  ℕ, zero, suc, ◌+◌, ◌≤◌, ◌≡◌, refl, ap, sym, ◌∙◌, List, [], ◌∷◌, ◌++◌, true, false, ◌||◌, ◌==◌,
  if-cases, arith, All, sub_size, length, Bool-cases, inl, inr, not, ◌&&◌,
}
use mini_rpc.Net.Buffer.{ReadOutcome, got, failed, readable_bytes}
use mini_rpc.Net.Poller.{Callback, on_read, on_write, on_close, on_error, Revents, handle_event}
use mini_rpc.Net.Connection.{
  State, connecting, connected, disconnecting, disconnected, Connection, Notice, message_arrived,
  write_complete, connection_closed, Turn, WriteAnswer, wrote, again, broken, eagain, Op, establish,
  close_call, readable, writable, is_connected, is_disconnected, idle, connect_destroyed, shutdown,
  shutdown_call, consume, run_send, run_shutdown, Task, queue_rest, write_now, send_in_loop,
  handle_close, read_some, handle_read, wrote_some, flush, handle_write, step,
}

-- What the kernel answers to the calls of one dispatch, and what the message callback does to the
-- connection where it is called: `runInLoop` runs its sends at once.
pub record Answers : Type 0 where
  pub read : ReadOutcome
  pub callback : List Op
  pub write : WriteAnswer

-- What a callback can do to the connection.
abbrev pub IsCallback : Op → Type 0
IsCallback shutdown_call = Unit
IsCallback (consume n) = Unit
IsCallback (run_send answer message) = Unit
IsCallback run_shutdown = Unit
IsCallback op = ⊥

-- The message callback is called where bytes arrived.
abbrev pub called : ReadOutcome → List Op → List Op
called (got (x ∷ xs)) ops = ops
called outcome ops = []

-- The handler behind a callback; the error handler only logs.
unfoldable pub handler : Answers → Callback → List Op
handler a on_read = readable a.read ∷ called a.read a.callback
handler a on_write = writable a.write ∷ []
handler a on_close = close_call ∷ []
handler a on_error = []

unfoldable pub handlers : Answers → List Callback → List Op
handlers a [] = []
handlers a (cb ∷ cbs) = handler a cb ++ handlers a cbs

-- One event of the connection's descriptor, with all four callbacks set.
unfoldable pub dispatch : Revents → Answers → List Op
dispatch r a = handlers a (handle_event (λ cb. true) r)

-- What happens to a connection in its loop: an event, or a task that the loop runs or a call of its owner.
pub data Occurrence : Type 0 where
  event : Revents → Answers → Occurrence
  does : Op → Occurrence

-- Events are reported while the channel is registered, that is, has some interest. The handlers run in
-- events only, and a connection is established before it is closed.
abbrev pub Happens : Occurrence → Connection → Type 0
Happens (event r a) c = ((c.reading || c.writing) ≡ true) × All IsCallback a.callback
Happens (does establish) c = is_disconnected c.state ≡ false
Happens (does close_call) c = ⊥
Happens (does (readable outcome)) c = ⊥
Happens (does (writable answer)) c = ⊥
Happens (does op) c = Unit {0}

abbrev pub ops_of : Occurrence → List Op
ops_of (event r a) = dispatch r a
ops_of (does op) = op ∷ []

-- The callbacks of the owner that some operations call, and the connection after them.
unfoldable pub run_ops : List Op → Connection → List Notice × Connection
run_ops [] c = ([], c)
run_ops (op ∷ ops) c =
    let t = step op c in let (more, d) = run_ops ops t.conn in (t.notices ++ more, d)

unfoldable pub run_all : List Occurrence → Connection → List Notice × Connection
unfolding run_ops
run_all [] c = ([], c)
run_all (o ∷ os) c =
    let (now, d) = run_ops (ops_of o) c in let (more, e) = run_all os d in (now ++ more, e)

abbrev pub Happening : List Occurrence → Connection → Type 0
Happening [] c = Unit
Happening (o ∷ os) c = Happens o c × Happening os (run_ops (ops_of o) c).1

-- How often the owner is told that the connection is closed.
abbrev pub closed_times : List Notice → ℕ
closed_times [] = 0
closed_times (connection_closed ∷ ns) = suc (closed_times ns)
closed_times (message_arrived ∷ ns) = closed_times ns
closed_times (write_complete ∷ ns) = closed_times ns

pub closed_times-append :
    (xs ys : List Notice) → closed_times (xs ++ ys) ≡ closed_times xs + closed_times ys
closed_times-append [] ys = omega arith
closed_times-append (connection_closed ∷ xs) ys = omega (arith, closed_times-append xs ys)
closed_times-append (message_arrived ∷ xs) ys = omega (arith, closed_times-append xs ys)
closed_times-append (write_complete ∷ xs) ys = omega (arith, closed_times-append xs ys)

-- 1 while the connection can still be closed.
abbrev pub open_once : State → ℕ
open_once disconnected = 0
open_once s = 1

-- A closed connection has no interest.
abbrev pub IsQuiet : Connection → Type 0
IsQuiet c = is_disconnected c.state ≡ true → (c.reading ≡ false) × (c.writing ≡ false)

-- What an operation may do: close an open connection once, and no more after it.
pub record Closes (c : Connection) (t : Turn) : Type 0 where
  pub once : closed_times t.notices + open_once t.conn.state ≤ open_once c.state
  pub quiet : IsQuiet t.conn

-- An operation that leaves the state of an open connection, and a closed one as it is.
pub keeps_state :
    (c : Connection) (t : Turn)
    → IsQuiet c
    → t.conn.state ≡ c.state
    → closed_times t.notices ≡ 0
    → (is_disconnected c.state ≡ true → (t.conn.reading ≡ false) × (t.conn.writing ≡ false))
    → Closes c t
keeps_state c t q e none_ same = record {
  once = omega (arith, ap open_once e);
  quiet = λ h. same (sym (ap is_disconnected e) ∙ h);
}

queue_rest-keeps :
    (written rest : List ℕ) (c : Connection)
    → ((queue_rest written rest c).conn.state ≡ c.state)
      × (closed_times (queue_rest written rest c).notices ≡ 0)
unfolding queue_rest
queue_rest-keeps written rest c = ground arith

write_now-keeps :
    (answer : WriteAnswer) (message : List ℕ) (c : Connection)
    → ((write_now answer message c).conn.state ≡ c.state)
      × (closed_times (write_now answer message c).notices ≡ 0)
unfolding write_now
write_now-keeps (wrote n) message c =
    if-cases (λ (t : Turn). (t.conn.state ≡ c.state) × (closed_times t.notices ≡ 0))
      (sub_size (length message) n == 0) (λ e. (refl, refl)) (λ e. queue_rest-keeps _ _ c)
write_now-keeps again message c = queue_rest-keeps [] message c
write_now-keeps broken message c = queue_rest-keeps [] message c

pub send_in_loop-Closes :
    (answer : WriteAnswer) (message : List ℕ) (c : Connection)
    → IsQuiet c
    → Closes c (send_in_loop answer message c)
unfolding send_in_loop
send_in_loop-Closes answer message c q = elim (Bool-cases (is_disconnected c.state)) [
  | inl h ↦ rw h (keeps_state c (idle c) q refl refl q)
  | inr h ↦ rw h (
      if-cases (Closes c) (not c.writing && (readable_bytes c.output == 0))
        (λ e.
          let (s, n) = write_now-keeps answer message c in keeps_state c _ q s n (λ k. absurd (cc)))
        (λ e.
          let (s, n) = queue_rest-keeps [] message c in keeps_state c _ q s n (λ k. absurd (cc))))
]

pub open_once_lem : (s : State) → is_disconnected s ≡ false → open_once s ≡ 1
open_once_lem connecting h = refl
open_once_lem connected h = refl
open_once_lem disconnecting h = refl
open_once_lem disconnected h = cc (h)

pub handle_close-Closes :
    (c : Connection) → is_disconnected c.state ≡ false → Closes c (handle_close c)
unfolding handle_close
handle_close-Closes c h = record {
  once = omega (arith, open_once_lem c.state h);
  quiet = λ e. (refl, refl);
}

pub idle-Closes : (c : Connection) → IsQuiet c → Closes c (idle c)
idle-Closes c q = keeps_state c (idle c) q refl refl q

pub handle_read-Closes :
    (outcome : ReadOutcome) (c : Connection)
    → IsQuiet c
    → is_disconnected c.state ≡ false
    → Closes c (handle_read outcome c)
unfolding handle_read read_some
handle_read-Closes (got []) c q h = handle_close-Closes c h
handle_read-Closes (got (x ∷ xs)) c q h = keeps_state c _ q refl refl q
handle_read-Closes (failed errno) c q h =
    if-cases (Closes c) (errno == eagain) (λ e. idle-Closes c q) (λ e. handle_close-Closes c h)

wrote_some-keeps :
    (n : ℕ) (c : Connection)
    → ((wrote_some n c).conn.state ≡ c.state) × (closed_times (wrote_some n c).notices ≡ 0)
unfolding wrote_some
wrote_some-keeps n c = ground arith

pub handle_write-Closes :
    (answer : WriteAnswer) (c : Connection) → IsQuiet c → Closes c (handle_write answer c)
unfolding handle_write flush
handle_write-Closes answer c q =
    if-cases (Closes c) c.writing (λ w. flushes answer w) (λ w. idle-Closes c q)
  where
    flushes : (answer : WriteAnswer) → c.writing ≡ true → Closes c (flush answer c)
    flushes (wrote zero) w = idle-Closes c q
    flushes (wrote (suc n)) w =
        let (s, k) = wrote_some-keeps n c in
        keeps_state c _ q s k (λ h. absurd (let off = (q h).1 in cc))
    flushes again w = idle-Closes c q
    flushes broken w = idle-Closes c q

pub connect_destroyed-Closes : (c : Connection) → IsQuiet c → Closes c (idle (connect_destroyed c))
unfolding connect_destroyed
connect_destroyed-Closes c q =
    if-cases (λ d. Closes c (idle d)) (is_connected c.state)
      (λ h. record { once = omega arith; quiet = λ e. (refl, refl) }) (λ h. idle-Closes c q)

pub shutdown-Closes : (c : Connection) → IsQuiet c → Closes c (idle (shutdown c).0)
unfolding shutdown
shutdown-Closes c q =
    if-cases (λ (d : Connection × List Task). Closes c (idle d.0)) (is_connected c.state)
      (λ h. record { once = still_open c.state h; quiet = λ e. absurd (cc (e)) })
      (λ h. idle-Closes c q)
  where
    still_open : (s : State) → is_connected s ≡ true → 0 + 1 ≤ open_once s
    still_open connecting h = omega arith
    still_open connected h = omega arith
    still_open disconnecting h = omega arith
    still_open disconnected h = absurd (cc)
