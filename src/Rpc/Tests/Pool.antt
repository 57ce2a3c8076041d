-- ===== src/Rpc/Tests/Pool.antt =====
-- A server with one worker thread whose pool accepted one request.
use mini_rpc.Base.{◌≡◌, refl, [], ◌∷◌, true, false, none}
use mini_rpc.Base.Text.{text}
use mini_rpc.Net.EventLoopPool.{size, start_threads}
use mini_rpc.Net.EventLoopPool.{create as create_loops, start as start_loops}
use mini_rpc.Net.TcpServer.{set_connection_loops}
use mini_rpc.Net.TcpServer.{create as create_server, start as start_listening}
use mini_rpc.Rpc.Server.Pool.{create, set_thread_pool_size, set_up_loops, start_pool, start_server}
use mini_rpc.Thread.ThreadPool.{
  fixed, Task, new, set_log_enabled, configure, count_thread, enqueue_task, grows,
}
use mini_rpc.Thread.ThreadPool.System.{
  System, top, open_, start, create_thread, create_threads, grow, Reach, here, next, submits,
}

abbrev task : Task
task = record { priority = 1; func = 5; callback = none }

abbrev asked : System
asked = record {
  pool = record {
    init_thread_size = 1;
    threads = 0 ∷ [];
    mode = fixed;
    is_running = true;
    log_enabled = false;
    max_thread_count = 1;
    current_thread_count = 1;
    idle_thread_count = 1;
    task_queue_size = 1;
    task_queue = task ∷ [];
    max_task_queue_size = 4096;
    callback_queue = [];
  };
  workers = top ∷ [];
  closing = open_;
  accepted = task ∷ [];
  ran = [];
}

asked_test : Reach (start_pool (set_thread_pool_size 1 (create (text "rpc") 2))) asked
unfolding start_pool set_thread_pool_size create start configure set_log_enabled new create_threads
    create_thread count_thread enqueue_task grows grow
asked_test = next here (submits false task refl refl)

start_server_test :
    let server = (start_server (create (text "rpc") 2)).0.server in
    (server.io_loops ≡ 2) × (server.started ≡ true)
unfolding start_server create set_up_loops create_server create_loops start_loops start_threads size
    set_connection_loops start_listening
start_server_test = (refl, refl)
