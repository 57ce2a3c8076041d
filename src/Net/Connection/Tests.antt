-- ===== src/Net/Connection/Tests.antt =====
-- A connection whose kernel takes messages in parts.
use mini_rpc.Base.{◌≤◌, ◌≡◌, refl, true, false, List, [], ◌∷◌, ◌++◌, arith}
use mini_rpc.Net.Buffer.{
  got, create, append, ensure_writable_bytes, compact, grow, retrieve, retrieve_all,
}
use mini_rpc.Net.Buffer.Contents.{contents}
use mini_rpc.Net.Connection.{
  Op, establish, destroy, message_arrived, write_complete, consume, connection_closed,
  is_disconnected, connect_destroyed, handle_close, read_some, handle_read, run_send, writable,
  wrote, again, new, connect_established, step, send_in_loop, write_now, queue_rest, handle_write,
  flush, wrote_some,
}
use mini_rpc.Net.Poller.{Revents, handle_event}
use mini_rpc.Net.Connection.Events.{
  Occurrence, event, does, dispatch, handlers, handler, run_ops, run_all, closed_times,
}
use mini_rpc.Net.Connection.Closing.{closes_once}
use mini_rpc.Net.Connection.Order.{run, Permitted, all_offered, run_in_order, new-IsSound}
use mini_rpc.Net.Connection.Keeps.{IsSound}

-- The first message goes out in full, the second waits for the kernel.
abbrev ops : List Op
ops =
    establish
    ∷ run_send (wrote 3) (1 ∷ 2 ∷ 3 ∷ [])
    ∷ run_send again (4 ∷ 5 ∷ [])
    ∷ writable (wrote 2)
    ∷ []

ops-Permitted : Permitted ops new
unfolding new create append ensure_writable_bytes compact grow retrieve retrieve_all
    connect_established send_in_loop write_now queue_rest handle_write flush wrote_some step
ops-Permitted = (refl, (((omega arith), omega arith), ((tt, omega arith), (tt, tt))))

run_in_order_example :
    ((run ops new).0 ++ contents (run ops new).1.output
      ≡ contents new.output ++ all_offered ops new)
    × IsSound (run ops new).1
run_in_order_example = run_in_order ops new new-IsSound ops-Permitted

-- The peer sends two bytes, to which the callback replies, and closes; both events also have the connection writable.
abbrev revents : Revents
revents = record {
  input = true;
  priority = false;
  peer_closed = true;
  output = true;
  error = false;
  hang_up = false;
}

abbrev occurrences : List Occurrence
occurrences =
    does establish
    ∷ event revents (record {
      read = got (1 ∷ 2 ∷ []);
      callback = consume 2 ∷ run_send again (9 ∷ []) ∷ [];
      write = wrote 1;
    })
    ∷ event revents (record { read = got []; callback = []; write = again })
    ∷ does destroy
    ∷ []

closed_test :
    (run_all occurrences new).0 ≡ message_arrived ∷ write_complete ∷ connection_closed ∷ []
unfolding run_all run_ops step new connect_established dispatch handlers handler handle_event
    handle_read read_some handle_close handle_write connect_destroyed flush send_in_loop create
    queue_rest wrote_some retrieve append ensure_writable_bytes
closed_test = refl

closes_once_example :
    (closed_times (run_all occurrences new).0 ≤ 1)
    × (is_disconnected new.state ≡ true → closed_times (run_all occurrences new).0 ≡ 0)
unfolding new run_ops step connect_established dispatch handlers handler handle_event handle_read
    read_some handle_close handle_write connect_destroyed flush send_in_loop create queue_rest
    wrote_some retrieve append ensure_writable_bytes
closes_once_example =
    closes_once occurrences new (λ e. cc (e))
      (refl, ((refl, (tt, (tt, tt))), ((refl, tt), (tt, tt))))
