-- ===== src/Net/TcpServer.antt =====
-- include/minirpc/net/TcpServer.h, src/net/TcpServer.cpp: the
-- table of connections and the loops that they are given to. The descriptors that `accept` returns
-- before EAGAIN are an argument; loops are numbered, and `none` is the server's own. `nextIo_` wraps as a
-- `size_t`. `nextConnId_` is an `int`, kept by its 32 bits, with the wrap-around of two's complement at an
-- overflow, which C++ leaves open.
pub mod Names
pub mod Lifetime
mod Tests
use mini_rpc.Base.{
  ℕ, ◌+◌, ◌-◌, ◌^◌, ltb, add_size, ◌%◌, ◌==◌, List, [], ◌∷◌, ◌++◌, Bool, true, false, if◌then◌else◌,
  Option, none, some,
}
use mini_rpc.Base.Dict.{insert, erase}
use mini_rpc.Base.Text.{Text, text, Text-discrete}
use mini_rpc.Base.Decimal.{to_string}

-- What the table holds of a connection: its descriptor and its loop.
pub record Entry : Type 0 where
  pub fd : ℕ
  pub io_loop : Option ℕ

pub record TcpServer : Type 0 where
  pub name : Text
  pub started : Bool
  pub io_loops : ℕ
  pub next_io : ℕ
  pub next_conn_id : ℕ
  pub connections : List (Text × Entry)

unfoldable pub create : Text → TcpServer
create name = record {
  name = name;
  started = false;
  io_loops = 0;
  next_io = 0;
  next_conn_id = 1;
  connections = [];
}

-- The loops are given by their number.
unfoldable pub set_connection_loops : ℕ → TcpServer → TcpServer
set_connection_loops n s = record s { io_loops = n }

-- Whether the call makes the socket listen.
unfoldable pub start : TcpServer → Bool × TcpServer
start s = if s.started then (false, s) else (true, record s { started = true })

-- `std::to_string` of the `int` with these 32 bits.
abbrev pub int_text : ℕ → Text
int_text bits = if ltb bits (2 ^ 31) then to_string bits else text "-" ++ to_string (2 ^ 32 - bits)

unfoldable pub conn_name : TcpServer → ℕ → Text
conn_name s id = s.name ++ (text "-" ++ int_text id)

-- The loop of the next connection, and the counter after it.
unfoldable pub next_loop : TcpServer → Option ℕ × ℕ
next_loop s =
    if s.io_loops == 0
    then (none, s.next_io)
    else (some (s.next_io % s.io_loops), add_size s.next_io 1)

-- One accepted descriptor.
unfoldable pub accept_one : ℕ → TcpServer → TcpServer
accept_one fd s =
    let (io, next_io) = next_loop s in
    let entry : Entry = record { fd = fd; io_loop = io } in
    record s {
      next_io = next_io;
      next_conn_id = (s.next_conn_id + 1) % 2 ^ 32;
      connections = insert Text-discrete (conn_name s s.next_conn_id) entry s.connections;
    }

unfoldable pub handle_new_connection : List ℕ → TcpServer → TcpServer
handle_new_connection [] s = s
handle_new_connection (fd ∷ fds) s = handle_new_connection fds (accept_one fd s)

-- `removeConnectionInLoop` of the connection with a name.
unfoldable pub remove_connection : Text → TcpServer → TcpServer
remove_connection key s = record s { connections = erase Text-discrete key s.connections }

pub data Step : Type 0 where
  accepts : List ℕ → Step
  closes : Text → Step

unfoldable pub step : Step → TcpServer → TcpServer
step (accepts fds) s = handle_new_connection fds s
step (closes key) s = remove_connection key s
