-- ===== src/Lib.antt =====
-- miniRPC: a reactor-style C++ RPC framework with service registration and client-side load balancing.
--
-- How the parts work together. Bytes from a socket go into a Buffer, from which the Codec takes
-- frames of 24 header bytes and a body. On the server, RpcServer::onMessage gives each request frame
-- to a thread pool, whose task finds the service in the ServiceRegistry, calls the method with an
-- RpcController, and sends one response frame through the TcpConnection. On the client, RpcChannel
-- sends a request and waits for the response with its sequence number, with retries on a timeout.
-- The registry service keeps the live nodes of each service by their heartbeats, and
-- LoadBalanceChannel discovers them and selects one for each call.
--
-- Files, with the code that each one models (paths from the repository's root).
--   Base        shared vocabulary: lists over the native numbers, size_t arithmetic, dictionaries,
--               decimal text (std::to_string, std::atoi, std::string::rfind)
--   Net/Buffer      include/minirpc/net/Buffer.h, src/net/Buffer.cpp. State: the storage and the two
--               indices. Invariant holds the validity of the indices, Contents the abstract view, which
--               is the list of the unread bytes, Refine what each operation does to it, Runs
--               sequences of operations.
--   Net/InetAddress include/minirpc/net/InetAddress.h, src/net/InetAddress.cpp
--   Net/Connection  include/minirpc/net/TcpConnection.h, src/net/TcpConnection.cpp. State: the
--               connection's state, its channel's read and write events, both buffers. Keeps has the
--               invariant and what sending keeps of it, Order runs of operations; Events has the channel's
--               events with their handlers, Closing the notices of a close.
--   Net/Poller      src/net/Channel.cpp, src/net/EpollPoller.cpp. Calls is about the epoll_ctl calls, Watching
--               about what epoll watches after them.
--   Net/EventLoop   src/net/EventLoop.cpp. Pending is about the tasks and the wake-ups.
--   Net/Reactor     src/net/EventLoop.cpp: loop, with EpollPoller::poll. Order is about one turn, Account
--               about a whole run.
--   Net/EventLoopPool  src/net/EventLoopPool.cpp. Deal is about the loops that getNext returns.
--   Net/TcpServer   src/net/TcpServer.cpp. Names is about the table of connections, Lifetime about
--               when a connection is destroyed.
--   Codec       include/minirpc/codec/Protocol.h, src/codec/Codec.cpp: encode and try_decode. Wire has
--               the bytes of a frame, Parse a parser on byte lists, Decode its laws, Stream/Frames the reading of
--               a stream, Stream/Batches and Receive a receiver that reads and decodes by turns; Types is about the
--               integer types of the fields.
--   Common/ErrorCode    include/minirpc/common/ErrorCode.h, src/common/ErrorCode.cpp
--   Rpc/Controller      src/rpc/RpcController.cpp
--   Rpc/ServiceRegistry src/rpc/ServiceRegistry.cpp
--   Rpc/LoadBalancer    include/minirpc/rpc/LoadBalancer.h, src/rpc/LoadBalancer.cpp. Nearest
--               is about the ring.
--   Rpc/Envelope        proto/rpc.proto
--   Rpc/Server          src/rpc/RpcServer.cpp: on_message, handle_request, send_error, send_envelope.
--               Reply is about one request, Loop about a buffer of frames, Serves about what each message
--               asks for, Pool about the server's construction and start.
--   Rpc/Channel         src/rpc/RpcChannel.cpp: connect, close, send_all and wait_response; in Call the
--               attempts and call_method. Scan, Wait and Retry are about its three loops, Provenance about the
--               frames that a reply came from.
--   Rpc/BalanceChannel  src/rpc/LoadBalanceChannel.cpp: need_refresh, refresh_nodes, select_node_key,
--               select_node_key_for_retry, channel_for and call. Select and Retry have its theorems.
--   Rpc/Exchange, Rpc/Answered, Rpc/RoundTrip   RpcChannel and RpcServer together: the bytes of one exchange,
--               what the channel makes of any response, and one call from its request to its result.
--   Rpc/ServiceNode     src/rpc/RpcServiceNode.cpp: the requests of a node's life. Life is about them and
--               the registry; Threads has the caller's thread and the heartbeat thread, Threads/Requests and
--               Threads/Join what they send.
--   Registry    src/registry/RegistryServiceImpl.cpp: register, unregister, discover, heartbeat,
--               live_node_count and purge_expired. Table is the abstract map from service and node key
--               to entry, and View what eviction leaves of it; Invariant, History, Refine and
--               Discovery are about histories and answers.
--   Thread/ThreadPool   include/minirpc/thread/ThreadPool.h, src/thread/ThreadPool.cpp. ThreadPool has the
--               pool's state and its methods under their locks; System the workers, the submitters and
--               the destructor as a step relation. Queue, Counters, Ids, Moves and Sound are about the
--               queue and the counters, Tasks about where the tasks are; Frame, Staff, Progress and
--               Drain about the work being done; Shutdown and Sleep about the destructor; Futures has the
--               submitting methods.
--   Examples/Calculator  examples/rpc/calculator_server.cpp, examples/rpc/rpc_node.cpp and calculator_client.cpp:
--               the services and a call. Answers is about the server, Reports about the client.
--   Examples/Echo       examples/echo/echo_client.cpp and echo_stress.cpp. Lines has the theorems.
--   The modules named Tests run the definitions, and the theorems, on concrete inputs.
--
-- Conventions. Bytes, texts and error codes are numbers and lists of them. size_t and uint64_t
-- arithmetic wraps at 2^64. A method that holds a lock is one step; for ThreadPool, whose
-- threads meet only through its locks and flag, the steps of each are told apart. System calls, the
-- clock and the answers of other processes are arguments. Protobuf, double, the services' own code (but
-- for the examples') and std::hash are parameters; protobuf is taken to parse back what it serialised. RpcController is the only class of
-- controllers. Durations are numbers of milliseconds that are not negative.
--
-- Fuel. The loops that call tryDecode until it has no frame (server, client, receiver) take fuel; each
-- frame has 24 bytes at least, so more fuel than unread bytes is enough. The client's waits and
-- attempts recurse on the list of what the world answers, and have no result where it ends first.
-- to_string has 20 digits, enough for 64 bits.
--
-- Not modelled: Socket and Logger (system calls and output); the rest of the example programs (their
-- arguments, sockets and output format), the test and benchmark programs; generated protobuf code. A
-- service's method that throws, so that its task sends no reply, and a ThreadPool whose destructor begins
-- while a thread is being created.
pub mod Base
pub mod Codec
pub mod Common
pub mod Examples
pub mod Net
pub mod Registry
pub mod Rpc
pub mod Thread
