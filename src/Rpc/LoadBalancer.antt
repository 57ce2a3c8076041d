-- ===== src/Rpc/LoadBalancer.antt =====
-- include/minirpc/rpc/LoadBalancer.h and src/rpc/LoadBalancer.cpp. `fetch_add` on the counter is one
-- step. `std::hash` of the standard library is implementation-defined, hence a parameter.
pub mod RoundRobin
pub mod ConsistentHash
pub mod Nearest
