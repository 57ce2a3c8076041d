-- ===== src/Net/TcpServer/Tests.antt =====
-- A server that accepts three connections, of which one is closed.
use mini_rpc.Base.{refl, ◌≡◌, List, [], ◌∷◌, true, false, none, arith}
use mini_rpc.Base.Dict.{lookup}
use mini_rpc.Base.Text.{text, Text-discrete}
use mini_rpc.Net.TcpServer.{
  TcpServer, conn_name, step, handle_new_connection, accept_one, next_loop, remove_connection, Step,
  accepts, closes,
}
use mini_rpc.Net.Buffer.{got}
use mini_rpc.Net.Poller.{Revents}
use mini_rpc.Net.Connection.{
  new, again, connect_established, connect_destroyed, handle_read, read_some, handle_close,
}
use mini_rpc.Net.Connection.{step as connection_step}
use mini_rpc.Net.TcpServer.Lifetime.{
  Owned, remove_in_loop, notified, handle, touches, all_there, touches_there,
}
use mini_rpc.Net.TcpServer.Names.{IsNamed, run, run-fresh}

abbrev server : TcpServer
server = record {
  name = text "echo";
  started = false;
  io_loops = 2;
  next_io = 0;
  next_conn_id = 1;
  connections = [];
}

server-IsNamed : IsNamed server
unfolding lookup
server-IsNamed = record { named = λ key e found. grind (arith, found) }

abbrev history : List Step
history = accepts (5 ∷ 6 ∷ []) ∷ closes (text "echo-1") ∷ accepts (7 ∷ []) ∷ []

run-fresh_example :
    lookup Text-discrete
      (conn_name (run history server) (run history server).next_conn_id)
      (run history server).connections
    ≡ none
unfolding run step handle_new_connection accept_one next_loop remove_connection
run-fresh_example = run-fresh history server server-IsNamed (omega arith)

-- The peer closes a connection that only the table holds.
abbrev peer_closes : Revents
peer_closes = record {
  input = true;
  priority = false;
  peer_closed = true;
  output = false;
  error = false;
  hang_up = false;
}

abbrev owned : Owned
owned = record { conn = connect_established new; in_table = true; holders = 0 }

freed_test :
    touches peer_closes (record { read = got []; callback = []; write = again }) owned
    ≡ true ∷ true ∷ true ∷ false ∷ []
unfolding touches handle notified remove_in_loop connection_step connect_established handle_read
    read_some handle_close connect_destroyed
freed_test = refl

touches_there_example :
    all_there (touches peer_closes (record { read = got []; callback = []; write = again }) owned)
    ≡ false
touches_there_example =
    touches_there peer_closes (record { read = got []; callback = []; write = again }) owned refl
