-- ===== src/Common.antt =====
-- include/minirpc/common and src/common.
pub mod ErrorCode
