-- ===== src/Codec/Stream.antt =====
-- Frames on a TCP stream: a receiver that appends each read to its buffer and calls `tryDecode` until
-- it asks for more, as RpcServer::onMessage and RpcChannel::waitResponse do.
pub mod Frames
pub mod Batches
pub mod Receive
