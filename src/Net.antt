-- ===== src/Net.antt =====
-- The network layer: include/minirpc/net and src/net.
pub mod InetAddress
pub mod Buffer
pub mod Connection
pub mod Poller
pub mod Reactor
pub mod EventLoop
pub mod EventLoopPool
pub mod TcpServer
