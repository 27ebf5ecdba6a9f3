-- ===== src/Util.antt =====
-- The helpers of package util.
pub mod Template
pub mod Bytes
pub mod Platform
pub mod Files
pub mod Zk
