-- ===== src/Rpc/Server/Pool.antt =====
-- include/minirpc/rpc/RpcServer.h, src/rpc/RpcServer.cpp: the server's own state, its construction and `start`, and the
-- state of its thread pool then.
use mini_rpc.Base.{ℕ, [], false, Option, none, some, ltb, if◌then◌else◌}
use mini_rpc.Base.Text.{Text}
use mini_rpc.Net.EventLoopPool.{EventLoopPool, size}
use mini_rpc.Net.EventLoopPool.{create as create_loops, start as start_loops}
use mini_rpc.Net.TcpServer.{TcpServer, set_connection_loops}
use mini_rpc.Net.TcpServer.{create as create_server, start as start_listening}
use mini_rpc.Rpc.ServiceRegistry.{Services}
use mini_rpc.Thread.ThreadPool.{ThreadPool, ThreadPoolConfig, fixed, new, set_log_enabled}
use mini_rpc.Thread.ThreadPool.System.{System, start}

-- The worker threads' state is that of `pool`, until `start` makes a running system of it.
pub record RpcServer : Type 0 where
  pub io_pool : Option EventLoopPool
  pub server : TcpServer
  pub registry : Services
  pub pool : ThreadPool
  pub pool_threads : ℕ

unfoldable pub create : Text → ℕ → RpcServer
create name io_threads = record {
  io_pool = if ltb 0 io_threads then some (create_loops io_threads) else none;
  server = create_server name;
  registry = [];
  pool = new;
  pool_threads = 4;
}

unfoldable pub set_thread_pool_size : ℕ → RpcServer → RpcServer
set_thread_pool_size n server = record server { pool_threads = n }

abbrev pub pool_config : RpcServer → ThreadPoolConfig
pool_config server = record {
  mode = fixed;
  init_thread_count = server.pool_threads;
  max_thread_count = server.pool_threads;
  max_queue_size = 4096;
}

-- What `start` makes of the pool.
unfoldable pub start_pool : RpcServer → System
start_pool server = start (pool_config server) (set_log_enabled false server.pool)

-- The loops of the pool run and are handed to the server.
unfoldable pub set_up_loops : Option EventLoopPool → TcpServer → Option EventLoopPool × TcpServer
set_up_loops none server = (none, server)
set_up_loops (some p) server =
    (some (start_loops p), set_connection_loops (size (start_loops p)) server)

-- The server after `start`, and its thread pool, which then runs.
unfoldable pub start_server : RpcServer → RpcServer × System
start_server server =
    let (io_pool, listening) = set_up_loops server.io_pool server.server in
    (record server { io_pool = io_pool; server = (start_listening listening).1 }, start_pool server)
