-- ===== src/Net/Connection.antt =====
-- include/minirpc/net/TcpConnection.h and src/net/TcpConnection.cpp: a connection in its loop thread.
-- The kernel's answers to `write` and `readv` are arguments. A callback's own operations are those
-- that follow where its notice stands: nothing runs after it in the function that calls it.
pub mod Keeps
pub mod Order
pub mod Events
pub mod Closing
mod Tests
use mini_rpc.Base.{
  ℕ, zero, suc, ◌+◌, ◌≤◌, ◌<◌, List, [], ◌∷◌, ◌++◌, Bool, true, false, not, ◌&&◌, ◌==◌, ltb,
  if◌then◌else◌, length, take, drop, sub_size,
}
use mini_rpc.Net.Buffer.Contents.{contents}
use mini_rpc.Net.Buffer.{
  Buffer, ReadOutcome, got, failed, create, initial_size, readable_bytes, retrieve, append, read_fd,
}

-- `State`
pub data State : Type 0 where
  connecting connected disconnecting disconnected : State

-- `reading` and `writing` are the channel's events; `half_closed` says that `shutdownWrite` was called.
pub record Connection : Type 0 where
  pub state : State
  pub reading : Bool
  pub writing : Bool
  pub half_closed : Bool
  pub input : Buffer
  pub output : Buffer

-- The callbacks, in the order of their calls.
pub data Notice : Type 0 where
  message_arrived write_complete connection_closed : Notice

-- An operation's effect: the connection after it, the bytes that the kernel took, the callbacks.
pub record Turn : Type 0 where
  pub conn : Connection
  pub written : List ℕ
  pub notices : List Notice

-- What `::write` answers: bytes taken, EAGAIN, or another error.
pub data WriteAnswer : Type 0 where
  wrote : ℕ → WriteAnswer
  again : WriteAnswer
  broken : WriteAnswer

abbrev pub eagain : ℕ
eagain = 11

unfoldable pub new : Connection
new = record {
  state = connecting;
  reading = false;
  writing = false;
  half_closed = false;
  input = create initial_size;
  output = create initial_size;
}

abbrev pub is_connected : State → Bool
is_connected connected = true
is_connected s = false

abbrev pub is_disconnected : State → Bool
is_disconnected disconnected = true
is_disconnected s = false

abbrev pub idle : Connection → Turn
idle c = record { conn = c; written = []; notices = [] }

unfoldable pub connect_established : Connection → Connection
connect_established c = record c { state = connected; reading = true }

unfoldable pub connect_destroyed : Connection → Connection
connect_destroyed c =
    if is_connected c.state
    then record c { state = disconnected; reading = false; writing = false }
    else c

-- What is posted to the loop thread.
pub data Task : Type 0 where
  send_task : List ℕ → Task
  shutdown_task : Task

unfoldable pub send : List ℕ → Connection → List Task
send message c = if is_connected c.state then send_task message ∷ [] else []

unfoldable pub shutdown : Connection → Connection × List Task
shutdown c =
    if is_connected c.state
    then (record c { state = disconnecting }, shutdown_task ∷ [])
    else (c, [])

-- The rest of a message goes to the output buffer, after `written`.
unfoldable pub queue_rest : List ℕ → List ℕ → Connection → Turn
queue_rest written rest c =
    if ltb 0 (length rest)
    then record {
      conn = record c { output = append rest c.output; writing = true };
      written = written;
      notices = [];
    }
    else record { conn = c; written = written; notices = [] }

-- The fast path: one `write` of the whole message.
unfoldable pub write_now : WriteAnswer → List ℕ → Connection → Turn
write_now (wrote n) message c =
    let remaining = sub_size (length message) n in
    if remaining == 0
    then record { conn = c; written = take n message; notices = write_complete ∷ [] }
    else queue_rest (take n message) (drop (sub_size (length message) remaining) message) c
write_now again message c = queue_rest [] message c
write_now broken message c = queue_rest [] message c

unfoldable pub send_in_loop : WriteAnswer → List ℕ → Connection → Turn
unfolding write_now
send_in_loop answer message c =
    if is_disconnected c.state
    then idle c
    else if not c.writing && (readable_bytes c.output == 0)
    then write_now answer message c
    else queue_rest [] message c

unfoldable pub shutdown_in_loop : Connection → Connection
shutdown_in_loop c = if c.writing then c else record c { half_closed = true }

unfoldable pub handle_close : Connection → Turn
handle_close c = record {
  conn = record c { state = disconnected; reading = false; writing = false };
  written = [];
  notices = connection_closed ∷ [];
}

unfoldable pub read_some : List ℕ → Connection → Turn
read_some [] c = handle_close c
read_some (x ∷ xs) c = record {
  conn = record c { input = read_fd (got (x ∷ xs)) c.input };
  written = [];
  notices = message_arrived ∷ [];
}

unfoldable pub handle_read : ReadOutcome → Connection → Turn
unfolding read_some
handle_read (got bytes) c = read_some bytes c
handle_read (failed errno) c = if errno == eagain then idle c else handle_close c

-- The output buffer after `n + 1` bytes of it were written.
unfoldable pub wrote_some : ℕ → Connection → Turn
wrote_some n c =
    let rest = retrieve (suc n) c.output in
    let written = take (suc n) (contents c.output) in
    if readable_bytes rest == 0
    then record {
      conn = record c { output = rest; writing = false };
      written = written;
      notices = write_complete ∷ [];
    }
    else record { conn = record c { output = rest }; written = written; notices = [] }

unfoldable pub flush : WriteAnswer → Connection → Turn
flush (wrote zero) c = idle c
flush (wrote (suc n)) c = wrote_some n c
flush again c = idle c
flush broken c = idle c

unfoldable pub handle_write : WriteAnswer → Connection → Turn
unfolding flush
handle_write answer c = if c.writing then flush answer c else idle c

-- The operations of the loop thread. `consume` is the message callback's `retrieve`.
pub data Op : Type 0 where
  establish : Op
  destroy : Op
  close_call : Op
  shutdown_call : Op
  consume : ℕ → Op
  run_send : WriteAnswer → List ℕ → Op
  run_shutdown : Op
  readable : ReadOutcome → Op
  writable : WriteAnswer → Op

unfoldable pub step : Op → Connection → Turn
step establish c = idle (connect_established c)
step destroy c = idle (connect_destroyed c)
step close_call c = handle_close c
step shutdown_call c = idle (shutdown c).0
step (consume n) c = idle (record c { input = retrieve n c.input })
step (run_send answer message) c = send_in_loop answer message c
step run_shutdown c = idle (shutdown_in_loop c)
step (readable outcome) c = handle_read outcome c
step (writable answer) c = handle_write answer c
