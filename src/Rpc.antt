-- ===== src/Rpc.antt =====
-- The RPC layer: include/minirpc/rpc and src/rpc.
pub mod Controller
pub mod ServiceRegistry
pub mod LoadBalancer
pub mod Envelope
pub mod Server
pub mod Channel
pub mod BalanceChannel
pub mod Exchange
pub mod Answered
pub mod RoundTrip
pub mod Tests
pub mod ServiceNode
