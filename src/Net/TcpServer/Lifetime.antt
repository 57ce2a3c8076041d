-- ===== src/Net/TcpServer/Lifetime.antt =====
-- How long a connection lives while its channel dispatches an event: src/net/Channel.cpp, the close callback that
-- src/net/TcpServer.cpp sets, and `removeConnection`, which runs at once in the loop's thread. The table holds
-- one reference to the connection; `holders` counts all others, such as those of tasks in a thread pool.
-- What the message callback does to the connection does not take it out of the table, and is left out.
use mini_rpc.Base.{
  ℕ, ◌≡◌, List, [], ◌∷◌, Bool, true, false, not, ◌&&◌, ◌||◌, ◌==◌, ltb, if◌then◌else◌, arith,
}
use mini_rpc.Net.Buffer.{ReadOutcome, got, failed}
use mini_rpc.Net.Poller.{Revents}
use mini_rpc.Net.Connection.{
  Connection, Notice, message_arrived, write_complete, connection_closed, eagain, Op, readable,
  connect_destroyed, read_some, handle_read, handle_close, step,
}
use mini_rpc.Net.Connection.Events.{Answers}

pub record Owned : Type 0 where
  pub conn : Connection
  pub in_table : Bool
  pub holders : ℕ

-- Whether the connection, and its channel with it, is not destroyed.
abbrev pub alive : Owned → Bool
alive o = o.in_table || ltb 0 o.holders

-- `removeConnectionInLoop`, as the close callback reaches it.
unfoldable pub remove_in_loop : Owned → Owned
remove_in_loop o = record o { conn = connect_destroyed o.conn; in_table = false }

unfoldable pub notified : List Notice → Owned → Owned
notified [] o = o
notified (connection_closed ∷ ns) o = notified ns (remove_in_loop o)
notified (message_arrived ∷ ns) o = notified ns o
notified (write_complete ∷ ns) o = notified ns o

-- A handler with the callbacks that it calls.
unfoldable pub handle : Op → Owned → Owned
handle op o = let t = step op o.conn in notified t.notices (record o { conn = t.conn })

abbrev pub read_due : Revents → Bool
read_due r = r.input || (r.priority || r.peer_closed)

-- `handleEvent`: at each of its accesses to the channel's `revents_`, whether the channel is there. The
-- first branch returns after the close callback.
unfoldable pub touches : Revents → Answers → Owned → List Bool
touches r a o =
    if r.hang_up && not r.input
    then alive o ∷ []
    else (let o' = if read_due r then handle (readable a.read) o else o in
        alive o ∷ alive o ∷ alive o ∷ alive o' ∷ [])

abbrev pub all_there : List Bool → Bool
all_there [] = true
all_there (b ∷ bs) = b && all_there bs

-- Whether the read handler closes the connection.
abbrev pub read_closes : ReadOutcome → Bool
read_closes (got []) = true
read_closes (got (x ∷ xs)) = false
read_closes (failed errno) = not (errno == eagain)

after_read :
    (outcome : ReadOutcome) (o : Owned)
    → o.in_table ≡ true
    → alive (handle (readable outcome) o) ≡ (ltb 0 o.holders || not (read_closes outcome))
unfolding handle notified remove_in_loop step handle_read read_some handle_close
after_read (got []) o h = ground arith
after_read (got (x ∷ xs)) o h = ground arith
after_read (failed errno) o h = ground arith

-- While handleEvent dispatches an event of a connection that is in the server's table, the channel is
-- there at each of its accesses exactly when somebody else holds the connection, or the event is a
-- hang-up without input, or no read is due, or the read handler does not close the connection.
pub touches_there :
    (r : Revents) (a : Answers) (o : Owned)
    → o.in_table ≡ true
    → all_there (touches r a o)
      ≡ (ltb 0 o.holders || ((r.hang_up && not r.input) || not (read_due r && read_closes a.read)))
unfolding touches
touches_there r a o h = ground (arith, after_read a.read o h)
